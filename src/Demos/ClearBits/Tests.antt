-- ===== src/Demos/ClearBits/Tests.antt =====
-- demos/clear_bits.c over the small memory of the page walk.
use pteditor_riscv.Base.{◌≡◌, refl, sym, subst, arith, true}
use pteditor_riscv.Entry.{Entry, has_level, valid_mask_pmd, valid_mask_pte}
use pteditor_riscv.Pte.Levels.Steps.{definition, x86_library, edited}
use pteditor_riscv.Pte.User.{user_backend}
use pteditor_riscv.Walk.{resolve_user_ext}
use pteditor_riscv.Walk.Memory.{IsWords}
use pteditor_riscv.Walk.Tests.{
  ram, AnyAddress, ram-IsMemory, tables, address, walk_runs, tables-IsSeparate,
}
use pteditor_riscv.Demos.ClearBits.{three_levels, clear_bits}
use pteditor_riscv.Demos.ClearBits.Levels.{
  IsWalked, with_accessed, without_accessed, clear_bits_lem,
}

tables-IsWalked : IsWalked ram 0x1000 AnyAddress ram-IsMemory address tables
tables-IsWalked = record {
  reached = subst (λ (e : Entry). has_level e.valid valid_mask_pte ≡ true) (sym walk_runs) refl;
  words = subst IsWords (sym walk_runs) (omega arith);
  separate = tables-IsSeparate;
}

clear_bits_lem_example :
    let backend = user_backend ram (x86_library 0x1000) in
    let printed = clear_bits backend definition address tables in
    let found = resolve_user_ext ram (x86_library 0x1000) tables address 0 in
    let end = resolve_user_ext ram (x86_library 0x1000) printed.state address 0 in
    (printed.cleared ≡ edited without_accessed three_levels found)
    × (printed.set ≡ edited with_accessed three_levels printed.cleared)
    × (end ≡ edited with_accessed valid_mask_pmd printed.set)
clear_bits_lem_example =
    clear_bits_lem ram 0x1000 AnyAddress ram-IsMemory address tables tables-IsWalked
