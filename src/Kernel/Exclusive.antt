-- ===== src/Kernel/Exclusive.antt =====
-- `device_open` and `device_release` of module/pteditor.c: the device has one user at a time.
use pteditor_riscv.Base.{◌≡◌, refl, ap, ◌∙◌, arith, Bool, true, false, if◌then◌else◌, List, [], ◌∷◌}
use pteditor_riscv.Kernel.{State}
use pteditor_riscv.Kernel.Device.{
  code, minus, ebusy, Outcome, Call, open_call, release_call, device_open, device_release, run_call,
  run_calls,
}

-- Whether the last call is one of `device_open`, and `busy` where there was none.
unfoldable pub last_opens : List Call → Bool → Bool
last_opens [] busy = busy
last_opens (open_call ∷ []) busy = true
last_opens (release_call ∷ []) busy = false
last_opens (c ∷ d ∷ cs) busy = last_opens (d ∷ cs) busy

busy_after :
    {M : Type 0} (c : Call) (s : State M)
    → (run_call c s).state.device_busy ≡ last_opens (c ∷ []) s.device_busy
unfolding run_call device_open device_release last_opens
busy_after open_call s = ground arith
busy_after release_call s = refl

last_after :
    (c d : Call) (cs : List Call) (a b : Bool) → last_opens (d ∷ cs) a ≡ last_opens (d ∷ cs) b
unfolding last_opens
last_after c open_call [] a b = refl
last_after c release_call [] a b = refl
last_after c d (e ∷ cs) a b = last_after d e cs a b

run_calls-busy :
    {M : Type 0} (cs : List Call) (s : State M)
    → (run_calls cs s).device_busy ≡ last_opens cs s.device_busy
unfolding run_calls last_opens
run_calls-busy [] s = refl
run_calls-busy (c ∷ []) s = busy_after c s
run_calls-busy (c ∷ d ∷ cs) s = run_calls-busy (d ∷ cs) _ ∙ last_after c d cs _ _

abbrev opens_to : {M : Type 0} → State M → Bool → Outcome M
opens_to s busy =
    if busy
    then record { state = s; returned = minus ebusy }
    else record { state = record s { device_busy = true }; returned = code 0 }

-- After any sequence of calls, `device_open` fails with `-EBUSY` and changes nothing where the
-- last of them was one of `device_open`; where it was one of `device_release`, it succeeds.
pub device_open-run_calls :
    {M : Type 0} (cs : List Call) (s : State M)
    → device_open (run_calls cs s) ≡ (
        if last_opens cs s.device_busy
        then record { state = run_calls cs s; returned = minus ebusy }
        else record { state = record (run_calls cs s) { device_busy = true }; returned = code 0 })
unfolding device_open
device_open-run_calls cs s = ap (opens_to (run_calls cs s)) (run_calls-busy cs s)
