-- ===== src/Demos/MapPt/Tests.antt =====
-- demos/map_pt.c and demos/map_pt_manual.c over the small memory of the page walk.
use pteditor_riscv.Base.{
  ℕ, ◌+◌, ◌-◌, ◌*◌, ◌^◌, ◌≤◌, ◌<◌, ◌≡◌, refl, sym, ap, ◌∙◌, arith, true, u64, subst,
}
use pteditor_riscv.Entry.{x86_64, Entry, has_level, valid_mask_pte}
use pteditor_riscv.Entry.Fields.{table_present, table_pfn}
use pteditor_riscv.Paging.{init_definition, split_address}
use pteditor_riscv.Pfn.{set_pfn, get_pfn}
use pteditor_riscv.Walk.{
  slot, table_of, is_present, is_huge, level_entry, resolve_pte, resolve_pmd, resolve_pud,
  resolve_p4d, resolve_pgd, root_of, resolve_user_ext,
}
use pteditor_riscv.Walk.Tests.{
  ram, AnyAddress, ram-IsMemory, tables, library, address, entries, walk_runs, tables-IsSeparate,
}
use pteditor_riscv.Pte.User.{user_backend}
use pteditor_riscv.Demos.MapPt.{Mapping, map_pt, map_pt_manual}
use pteditor_riscv.Demos.MapPt.Changed.{slots}
use pteditor_riscv.Demos.MapPt.Elsewhere.{IsElsewhere}
use pteditor_riscv.Demos.MapPt.Maps.{IsFourKb, IsWindow, map_pt_lem}
use pteditor_riscv.Demos.MapPt.States.{IsReached}
use pteditor_riscv.Demos.MapPt.Manual.{IsTranslated, map_pt_manual_lem}

-- Another address, with an entry of its own in the same page table.
abbrev other : ℕ
other = address + 4096

-- Physical memory mapped at its own addresses.
abbrev direct : Mapping (ℕ → ℕ)
direct = record {
  load = λ m a. m a;
  store = λ a v m. ram.pset a v m;
  pmap = λ m physical length. physical;
}

direct-IsWindow : IsWindow ram direct
direct-IsWindow = record {
  loads = λ m m' physical length k h. refl;
  stores = λ m m' physical length k v h. refl;
}

library-IsFourKb : IsFourKb library.definition
unfolding init_definition
library-IsFourKb = record { offset = refl; width = refl }

address_reached :
    has_level (resolve_user_ext ram library tables address 0).valid valid_mask_pte ≡ true
address_reached =
    subst (λ (e : Entry). has_level e.valid valid_mask_pte ≡ true) (sym walk_runs) refl

address_word : (resolve_user_ext ram library tables address 0).pte < 2 ^ 64
address_word = subst (λ (e : Entry). e.pte < 2 ^ 64) (sym walk_runs) (omega arith)

map_pt_lem_example :
    let target_entry = resolve_user_ext ram library tables address 0 in
    let secret_entry = resolve_user_ext ram library tables other 0 in
    let done =
      map_pt x86_64
        (user_backend ram library)
        ram.invalidate_tlb
        direct
        4096
        address
        other
        tables in
    (done.worked ≡ true)
    × (resolve_user_ext ram library done.changed address 0 ≡ record target_entry {
      pte = set_pfn x86_64 target_entry.pte (get_pfn x86_64 secret_entry.pte);
    })
    × (resolve_user_ext ram library done.state address 0 ≡ target_entry)
map_pt_lem_example =
    map_pt_lem ram library direct AnyAddress ram-IsMemory direct-IsWindow address other tables
      library-IsFourKb (omega arith) address_reached address_word tables-IsSeparate

-- The other address is translated by its entry.
abbrev translating : Mapping (ℕ → ℕ)
translating = record {
  load = λ m a. m (
      u64 (u64 (get_pfn x86_64 (resolve_user_ext ram library m other 0).pte * 4096) + (a - other)));
  store = λ a v m.
      ram.pset
        (u64
          (u64 (get_pfn x86_64 (resolve_user_ext ram library m other 0).pte * 4096) + (a - other)))
        v m;
  pmap = λ m physical length. physical;
}

offset_in_page : (k : ℕ) → k + 8 ≤ 4096 → u64 (other + k) - other ≡ k
offset_in_page k h = omega arith

translating-IsTranslated : IsTranslated ram library translating other
translating-IsTranslated = record {
  loads = λ m k h.
      ap
        (λ o.
          m (u64 (u64 (get_pfn x86_64 (resolve_user_ext ram library m other 0).pte * 4096) + o)))
        (offset_in_page k h);
  stores = λ m k v h.
      ap
        (λ o.
          ram.pset
            (u64 (u64 (get_pfn x86_64 (resolve_user_ext ram library m other 0).pte * 4096) + o)) v
            m)
        (offset_in_page k h);
}

address-IsReached : IsReached ram library AnyAddress tables address
address-IsReached = record {
  reached = address_reached;
  separate = tables-IsSeparate;
  word = address_word;
}

other_runs : resolve_user_ext ram library tables other 0 ≡ record entries { vaddr = other; pte = 0 }
unfolding resolve_user_ext root_of split_address resolve_pgd resolve_p4d resolve_pud resolve_pmd
    resolve_pte level_entry is_present is_huge table_of slot table_present table_pfn init_definition
other_runs = refl

other-IsReached : IsReached ram library AnyAddress tables other
unfolding resolve_user_ext root_of split_address resolve_pgd resolve_p4d resolve_pud resolve_pmd
    resolve_pte level_entry is_present is_huge table_of slot table_present table_pfn init_definition
other-IsReached = record {
  reached = refl;
  separate = record {
    pgd_usable = tt;
    p4d_usable = λ h. tt;
    pud_usable = λ h. tt;
    pmd_usable = λ h. tt;
    pte_usable = tt;
    pgd_p4d = λ h. cc;
    pgd_pud = λ h. omega arith;
    pgd_pmd = λ h. omega arith;
    pgd_pte = omega arith;
    p4d_pud = λ h g. cc;
    p4d_pmd = λ h g. cc;
    p4d_pte = λ h. cc;
    pud_pmd = λ h g. omega arith;
    pud_pte = λ h. omega arith;
    pmd_pte = λ h. omega arith;
  };
  word = omega arith;
}

address-IsElsewhere :
    IsElsewhere library.definition
      (slots ram library tables other 0)
      (slots ram library tables address 0).pte
unfolding resolve_user_ext root_of split_address resolve_pgd resolve_p4d resolve_pud resolve_pmd
    resolve_pte level_entry is_present is_huge table_of slot table_present table_pfn init_definition
address-IsElsewhere = record {
  pgd = omega arith;
  p4d = λ h. cc;
  pud = λ h. omega arith;
  pmd = λ h. omega arith;
  pte = omega arith;
}

other-IsElsewhere :
    IsElsewhere library.definition
      (slots ram library tables address 0)
      (slots ram library tables other 0).pte
unfolding resolve_user_ext root_of split_address resolve_pgd resolve_p4d resolve_pud resolve_pmd
    resolve_pte level_entry is_present is_huge table_of slot table_present table_pfn init_definition
other-IsElsewhere = record {
  pgd = omega arith;
  p4d = λ h. cc;
  pud = λ h. omega arith;
  pmd = λ h. omega arith;
  pte = omega arith;
}

frame :
    (get_pfn x86_64 (resolve_user_ext ram library tables address 0).pmd ≡ 4)
    × (table_pfn x86_64 (resolve_user_ext ram library tables address 0).pmd ≡ 4)
unfolding resolve_user_ext root_of split_address resolve_pgd resolve_p4d resolve_pud resolve_pmd
    resolve_pte level_entry is_present is_huge table_of slot table_present table_pfn init_definition
    get_pfn
frame = (refl, refl)

map_pt_manual_lem_example :
    let target_entry = resolve_user_ext ram library tables address 0 in
    let secret_entry = resolve_user_ext ram library tables other 0 in
    let end =
      map_pt_manual x86_64
        (user_backend ram library)
        ram.invalidate_tlb
        translating
        other
        address
        other
        tables in
    (end.worked ≡ true)
    × (resolve_user_ext ram library end.changed address 0 ≡ record target_entry {
      pte = set_pfn x86_64 target_entry.pte (get_pfn x86_64 secret_entry.pte);
    })
    × (resolve_user_ext ram library end.state address 0 ≡ target_entry)
    × (resolve_user_ext ram library end.state other 0 ≡ secret_entry)
map_pt_manual_lem_example =
    map_pt_manual_lem ram library translating AnyAddress ram-IsMemory other address other
      translating-IsTranslated tables library-IsFourKb (omega arith) other-IsReached
      address-IsReached address-IsElsewhere other-IsElsewhere (omega (arith, frame.0))
      (frame.1 ∙ sym frame.0)
