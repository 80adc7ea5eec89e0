-- ===== src/Demos/Performance/Tests.antt =====
-- demos/performance.c over the small machine of the kernel module.
use pteditor_riscv.Base.{◌^◌, ◌≡◌, arith, true}
use pteditor_riscv.Entry.{Entry}
use pteditor_riscv.Entry.X86
use pteditor_riscv.Kernel.{State}
use pteditor_riscv.Kernel.Tests.Machine.{Board, machine}
use pteditor_riscv.Walk.{System}
use pteditor_riscv.Demos.Performance.{is_same}

abbrev words_of_board : System (State Board)
words_of_board = record {
  deref = λ s a. s.machine.words a;
  pset = λ a v s. s;
  get_paging_root = λ s pid. 0x1000;
  invalidate_tlb = λ a s. s;
}

-- A difference in bit 63 is not seen.
upper_bit_not_seen :
    (e : Entry)
    → is_same (record e { pte = 0; valid = 16 }) (record e { pte = 2 ^ 63; valid = 16 }) ≡ true
unfolding is_same
upper_bit_not_seen e = ground arith
