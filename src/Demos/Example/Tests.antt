-- ===== src/Demos/Example/Tests.antt =====
-- example.c over the user-space implementation, in the small memory of the page walk.
use pteditor_riscv.Base.{
  ℕ, ◌+◌, ◌*◌, ◌/◌, ◌%◌, ◌≡◌, refl, sym, ◌∙◌, subst, arith, true, u64, [], ◌∷◌, ◌==◌, if◌then◌else◌,
}
use pteditor_riscv.Entry.{x86_64, Entry, has_level, valid_mask_pte}
use pteditor_riscv.Entry.Fields.{table_present, table_pfn}
use pteditor_riscv.Paging.{init_definition, split_address}
use pteditor_riscv.Pfn.{set_pfn, get_pfn}
use pteditor_riscv.Pte.{pte_get_pfn}
use pteditor_riscv.Pte.Laws.{IsRoundTrip}
use pteditor_riscv.Pte.User.{user_backend, user_backend-IsRoundTrip, user_backend-IsRoundTrip_again}
use pteditor_riscv.Walk.{
  slot, table_of, is_present, is_huge, level_entry, resolve_pte, resolve_pmd, resolve_pud,
  resolve_p4d, resolve_pgd, root_of, resolve_user_ext, write_level, update_user_ext, update_user,
}
use pteditor_riscv.Walk.Memory.{IsWords}
use pteditor_riscv.Walk.Tests.{
  ram, AnyAddress, ram-IsMemory, tables, library, address, walk_runs, tables-IsSeparate,
}
use pteditor_riscv.Demos.Example.{Process, redirect, overwrite, run}
use pteditor_riscv.Demos.Example.Passes.{m1, m2, vm, address_pfn, target_pfn, run_lem}

-- The next entry of the page table, whose page frame is 0.
abbrev other : ℕ
other = address + 4096

-- Byte `i` of page `p`.
abbrev byte : (ℕ → ℕ) → ℕ → ℕ → ℕ
byte m p i = m (p * 4096 + i)

abbrev process : Process (ℕ → ℕ)
process = record {
  load = λ m p. byte m (get_pfn x86_64 (resolve_user_ext ram library m p 0).pte) (p % 4096);
  read_physical_page = byte;
  write_physical_page = λ p content m a. if a / 4096 == p then content (a % 4096) else m a;
  pmap_byte = λ m physical i. m (physical + i);
  full_serializing_barrier = λ m. m;
}

abbrev after_update : ℕ → ℕ
after_update = m1 x86_64 (user_backend ram library) process 4096 byte address other tables

abbrev after_write : ℕ → ℕ
after_write = m2 x86_64 (user_backend ram library) process 4096 byte address other tables

tables_reached :
    has_level (resolve_user_ext ram library tables address 0).valid valid_mask_pte ≡ true
tables_reached = subst (λ (e : Entry). has_level e.valid valid_mask_pte ≡ true) (sym walk_runs) refl

tables-IsWords : IsWords (resolve_user_ext ram library tables address 0)
tables-IsWords = subst IsWords (sym walk_runs) (omega arith)

tables-IsRoundTrip : IsRoundTrip (user_backend ram library) tables address 0
tables-IsRoundTrip =
    user_backend-IsRoundTrip ram library AnyAddress ram-IsMemory tables address 0 tables_reached
      tables-IsWords tables-IsSeparate

written :
    resolve_user_ext ram library after_write address 0
    ≡ record (resolve_user_ext ram library tables address 0) { pte = 0x67 }
unfolding resolve_user_ext root_of split_address resolve_pgd resolve_p4d resolve_pud resolve_pmd
    resolve_pte level_entry is_present is_huge table_of slot table_present table_pfn init_definition
    redirect overwrite pte_get_pfn get_pfn set_pfn update_user update_user_ext write_level
    user_backend
written = refl

updated :
    resolve_user_ext ram library after_update address 0
    ≡ record (resolve_user_ext ram library tables address 0) { pte = 0x67 }
unfolding resolve_user_ext root_of split_address resolve_pgd resolve_p4d resolve_pud resolve_pmd
    resolve_pte level_entry is_present is_huge table_of slot table_present table_pfn init_definition
    redirect overwrite pte_get_pfn get_pfn set_pfn update_user update_user_ext write_level
    user_backend
updated = refl

frame : target_pfn x86_64 (user_backend ram library) process 4096 byte address other tables ≡ 0
unfolding resolve_user_ext root_of split_address resolve_pgd resolve_p4d resolve_pud resolve_pmd
    resolve_pte level_entry is_present is_huge table_of slot table_present table_pfn init_definition
    pte_get_pfn get_pfn user_backend
frame = refl

run_lem_example :
    let backend = user_backend ram library in
    let done = run x86_64 backend process 4096 address other tables in
    let own = address_pfn x86_64 backend process 4096 byte address other tables in
    let new = target_pfn x86_64 backend process 4096 byte address other tables in
    (done.checks ≡ (
      (byte tables own (address % 4096) == b'A')
      ∷ (byte after_update new (address % 4096) == b'B')
      ∷ (byte after_update own 0 == b'A')
      ∷ (process.pmap_byte after_update (u64 (own * 4096)) 0 == b'A')
      ∷ (byte after_write new (address % 4096) == b'C')
      ∷ []))
    × (backend.resolve done.state address 0
        ≡ vm x86_64 backend process 4096 byte address other tables)
unfolding user_backend
run_lem_example =
    run_lem x86_64 (user_backend ram library) process 4096 byte address other tables
      tables-IsRoundTrip
      (user_backend-IsRoundTrip_again ram library AnyAddress ram-IsMemory tables after_write address
        0x67 tables_reached tables-IsWords tables-IsSeparate written (omega arith))
      (written ∙ sym updated) (ground (arith, walk_runs)) (omega (arith, frame)) refl refl refl
