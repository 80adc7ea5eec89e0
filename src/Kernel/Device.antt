-- ===== src/Kernel/Device.antt =====
-- module/pteditor.c, `device_open` and `device_release`: one process at a time has the device.
use pteditor_riscv.Base.{ℕ, true, false, if◌then◌else◌, List, [], ◌∷◌}
use pteditor_riscv.Kernel.{State}

-- What a file operation returns: a value, or the negation of one.
pub data Code : Type 0 where
  code minus : ℕ → Code

pub record Outcome (M : Type 0) : Type 0 where
  pub state : State M
  pub returned : Code

-- `EBUSY`
abbrev pub ebusy : ℕ
ebusy = 16

unfoldable pub device_open : {M : Type 0} → State M → Outcome M
device_open s =
    if s.device_busy
    then record { state = s; returned = minus ebusy }
    else record { state = record s { device_busy = true }; returned = code 0 }

unfoldable pub device_release : {M : Type 0} → State M → Outcome M
device_release s = record { state = record s { device_busy = false }; returned = code 0 }

-- Calls of the two operations, in any order.
pub data Call : Type 0 where
  open_call release_call : Call

unfoldable pub run_call : {M : Type 0} → Call → State M → Outcome M
run_call open_call s = device_open s
run_call release_call s = device_release s

unfoldable pub run_calls : {M : Type 0} → List Call → State M → State M
run_calls [] s = s
run_calls (c ∷ cs) s = run_calls cs (run_call c s).state
