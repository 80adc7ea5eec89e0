-- ===== src/Demos/ClearBits.antt =====
-- demos/clear_bits.c: the accessed bits of an address are cleared, set, and one is changed again.
pub mod Levels
pub mod Tests
use pteditor_riscv.Base.{ℕ, ◌≡◌, bit_or, shl64}
use pteditor_riscv.Entry.{Entry, valid_mask_pud, valid_mask_pmd, valid_mask_pte}
use pteditor_riscv.Paging.{PagingDefinition}
use pteditor_riscv.Print.PageBit.{accessed}
use pteditor_riscv.Pte.{Backend, set_bit, clear_bit}

-- `PTEDIT_VALID_MASK_PUD|PTEDIT_VALID_MASK_PMD|PTEDIT_VALID_MASK_PTE`
abbrev pub three_levels : ℕ
three_levels = bit_or (bit_or valid_mask_pud valid_mask_pmd) valid_mask_pte

-- The entries that are printed after the first and the second change, and the state at the end.
pub record Printed (M : Type 0) : Type 0 where
  pub cleared : Entry
  pub set : Entry
  pub state : M

-- `main` of x86, from the first change to the last one.
pub clear_bits : {M : Type 0} → Backend M → PagingDefinition → ℕ → M → Printed M
clear_bits backend definition addr m =
    let m1 = clear_bit backend definition addr 0 accessed three_levels m in
    let m2 = set_bit backend definition addr 0 accessed three_levels m1 in
    record {
      cleared = backend.resolve m1 addr 0;
      set = backend.resolve m2 addr 0;
      state = set_bit backend definition addr 0 accessed valid_mask_pmd m2;
    }
