-- ===== src/Pte/Levels/Tests.antt =====
-- A bit at two levels of the small memory of the page walk.
use pteditor_riscv.Base.{◌≡◌, refl, sym, subst, arith, true, bit_and, bit_or, not64, shl64, inl}
use pteditor_riscv.Entry.{Entry, has_level, valid_mask_pte}
use pteditor_riscv.Pte.{set_bit, clear_bit}
use pteditor_riscv.Pte.Levels.{resolve-set_bit-clear_bit}
use pteditor_riscv.Pte.Levels.Kept.{IsFree}
use pteditor_riscv.Pte.Levels.Steps.{definition, x86_library, edited}
use pteditor_riscv.Pte.User.{user_backend}
use pteditor_riscv.Walk.{resolve_user_ext}
use pteditor_riscv.Walk.Memory.{IsWords}
use pteditor_riscv.Walk.Tests.{
  ram, AnyAddress, ram-IsMemory, tables, address, walk_runs, tables-IsSeparate,
}

abbrev found : Entry
found = resolve_user_ext ram (x86_library 0x1000) tables address 0

found-IsWords : IsWords found
found-IsWords = subst IsWords (sym walk_runs) (omega arith)

found-reached : has_level found.valid valid_mask_pte ≡ true
found-reached = subst (λ (e : Entry). has_level e.valid valid_mask_pte ≡ true) (sym walk_runs) refl

free : IsFree 5
free = record {
  positive = omega arith;
  other_than_size = λ h. absurd (omega arith);
  outside = inl (omega arith);
  below = omega arith;
}

-- Bit 5 (accessed) of the page-table entry and of the PMD.
resolve-set_bit-clear_bit_example :
    (resolve_user_ext ram
        (x86_library 0x1000)
        (set_bit (user_backend ram (x86_library 0x1000)) definition address 0 5 24 tables)
        address
        0
      ≡ edited (λ v. bit_or v (shl64 1 5)) 24 found)
    × (resolve_user_ext ram
          (x86_library 0x1000)
          (clear_bit (user_backend ram (x86_library 0x1000)) definition address 0 5 24 tables)
          address
          0
        ≡ edited (λ v. bit_and v (not64 (shl64 1 5))) 24 found)
resolve-set_bit-clear_bit_example =
    resolve-set_bit-clear_bit ram 0x1000 AnyAddress ram-IsMemory tables address 0 24 found-reached
      found-IsWords tables-IsSeparate 5 free
