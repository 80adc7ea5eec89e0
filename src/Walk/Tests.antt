-- ===== src/Walk/Tests.antt =====
-- Runs of the page walk over a small memory, and the theorems at that memory.
use pteditor_riscv.Base.{ℕ, ◌+◌, ◌*◌, ◌^◌, ◌≡◌, ◌≢◌, refl, arith, if◌then◌else◌, ◌==◌}
use pteditor_riscv.Entry.{x86_64, Entry, blank}
use pteditor_riscv.Entry.Fields.{table_present, table_pfn}
use pteditor_riscv.Paging.{init_definition, split_address}
use pteditor_riscv.Walk.{
  Library, System, slot, table_of, is_present, is_huge, level_entry, resolve_pte, resolve_pmd,
  resolve_pud, resolve_p4d, resolve_pgd, root_of, resolve_user_ext, write_level, update_user_ext,
  update_user,
}
use pteditor_riscv.Walk.Mapped.{IsMapped, full_mask, resolve_mapped}
use pteditor_riscv.Walk.Reached.{resolve_reached}
use pteditor_riscv.Walk.Memory.{IsMemory, slots_of, IsSeparate, updated, IsStable}
use pteditor_riscv.Walk.Update.{resolve-update_user}

-- Words by their address, one table of each level, and a root at 0x1000.
abbrev pub ram : System (ℕ → ℕ)
ram = record {
  deref = λ m a. m a;
  pset = λ a v m b. if a == b then v else m b;
  get_paging_root = λ m pid. 0x1000;
  invalidate_tlb = λ a m. m;
}

abbrev pub AnyAddress : ℕ → Type 0
AnyAddress a = Unit {0}

pub ram-IsMemory : IsMemory ram AnyAddress
ram-IsMemory = record {
  reads_back = λ m a v ok small. ground arith;
  keeps = λ m a v b ok ok' apart. ground arith;
  keeps_root = λ m a v pid ok. refl;
  tlb_keeps = λ m a b ok. refl;
  tlb_keeps_root = λ m a pid. refl;
}

abbrev pub tables : ℕ → ℕ
tables a =
    if a == 0x1008
    then 0x2001
    else if a == 0x2010
    then 0x3001
    else if a == 0x3018
    then 0x4001
    else if a == 0x4020
    then 0x5067
    else 0

abbrev pub library : Library
library = record { arch = x86_64; paging_root = 0x1000; definition = init_definition x86_64 4096 }

-- Entry 1 of the PGD, 2 of the PUD, 3 of the PMD and 4 of the page table.
abbrev pub address : ℕ
address = 2 ^ 39 + 2 * 2 ^ 30 + 3 * 2 ^ 21 + 4 * 2 ^ 12

abbrev pub entries : Entry
entries = record {
  pid = 0;
  vaddr = address;
  pgd = 0x2001;
  p4d = 0x2001;
  pud = 0x3001;
  pmd = 0x4001;
  pte = 0x5067;
  valid = 29;
}

-- Bit 1 (writeable) cleared in the page-table entry, and bit 5 set in the PMD.
abbrev request : Entry
request = record entries { pmd = 0x4021; pte = 0x5065; valid = 24 }

pub walk_runs : resolve_user_ext ram library tables address 0 ≡ entries
unfolding resolve_user_ext root_of split_address resolve_pgd resolve_p4d resolve_pud resolve_pmd
    resolve_pte level_entry is_present is_huge table_of slot table_present table_pfn init_definition
walk_runs = refl

-- Without a root, and at an address that is not mapped, no level is valid.
stops_early :
    (resolve_user_ext ram (record library { paging_root = 1 }) tables address 0
      ≡ record blank { vaddr = address })
    × (resolve_user_ext ram library tables 0 0 ≡ blank)
unfolding resolve_user_ext root_of split_address resolve_pgd resolve_p4d resolve_pud resolve_pmd
    resolve_pte level_entry is_present is_huge table_of slot table_present table_pfn init_definition
stops_early = (refl, refl)

resolve_reached_example :
    (root_of ram library tables 0 ≢ 0)
    × IsMapped library tables
        (root_of ram library tables 0)
        (split_address library.definition address)
        (resolve_user_ext ram library tables address 0)
unfolding resolve_user_ext root_of split_address resolve_pgd resolve_p4d resolve_pud resolve_pmd
    resolve_pte level_entry is_present is_huge table_of slot table_present table_pfn init_definition
resolve_reached_example = resolve_reached ram library tables address 0 refl

entries-IsMapped :
    IsMapped library tables
      (root_of ram library tables 0)
      (split_address library.definition address)
      entries
unfolding root_of split_address level_entry is_present is_huge table_of slot table_present table_pfn
    init_definition
entries-IsMapped = record {
  pgd_read = refl;
  pgd_present = refl;
  p4d_read = refl;
  p4d_present = refl;
  pud_read = refl;
  pud_present = refl;
  pmd_read = refl;
  pmd_present = refl;
  small_page = refl;
  pte_read = refl;
}

resolve_mapped_example :
    resolve_user_ext ram library tables address 0
    ≡ record entries { pid = 0; vaddr = address; valid = full_mask library.definition }
unfolding root_of
resolve_mapped_example =
    resolve_mapped ram library tables address 0 entries (omega arith) entries-IsMapped

pub tables-IsSeparate : IsSeparate AnyAddress library.definition (
    slots_of library
      (root_of ram library tables 0)
      (split_address library.definition address)
      (resolve_user_ext ram library tables address 0))
unfolding resolve_user_ext root_of split_address resolve_pgd resolve_p4d resolve_pud resolve_pmd
    resolve_pte level_entry is_present is_huge table_of slot table_present table_pfn init_definition
tables-IsSeparate = record {
  pgd_usable = tt;
  p4d_usable = λ h. tt;
  pud_usable = λ h. tt;
  pmd_usable = λ h. tt;
  pte_usable = tt;
  pgd_p4d = λ h. cc;
  pgd_pud = λ h. omega arith;
  pgd_pmd = λ h. omega arith;
  pgd_pte = omega arith;
  p4d_pud = λ h g. cc;
  p4d_pmd = λ h g. cc;
  p4d_pte = λ h. cc;
  pud_pmd = λ h g. omega arith;
  pud_pte = λ h. omega arith;
  pmd_pte = λ h. omega arith;
}

request-IsStable :
    IsStable library
      (resolve_user_ext ram library tables address 0)
      (updated library.definition (resolve_user_ext ram library tables address 0) request)
unfolding resolve_user_ext root_of split_address resolve_pgd resolve_p4d resolve_pud resolve_pmd
    resolve_pte level_entry is_present is_huge table_of slot table_present table_pfn init_definition
    updated
request-IsStable = record {
  pgd_present = refl;
  p4d_present = refl;
  pud_present = refl;
  pmd_present = refl;
  small_page = refl;
  pgd_table = refl;
  p4d_table = refl;
  pud_table = refl;
  pmd_table = refl;
}

resolve-update_user_example :
    resolve_user_ext ram library
      (update_user ram library (resolve_user_ext ram library) address 0 request tables)
      address
      0
    ≡ updated library.definition (resolve_user_ext ram library tables address 0) request
unfolding resolve_user_ext root_of split_address resolve_pgd resolve_p4d resolve_pud resolve_pmd
    resolve_pte level_entry is_present is_huge table_of slot table_present table_pfn init_definition
resolve-update_user_example =
    resolve-update_user ram library AnyAddress ram-IsMemory tables address 0 request refl
      tables-IsSeparate (omega arith) request-IsStable

-- The updated entries, run.
update_runs :
    resolve_user_ext ram library
      (update_user ram library (resolve_user_ext ram library) address 0 request tables)
      address
      0
    ≡ record entries { pmd = 0x4021; pte = 0x5065 }
unfolding resolve_user_ext root_of split_address resolve_pgd resolve_p4d resolve_pud resolve_pmd
    resolve_pte level_entry is_present is_huge table_of slot table_present table_pfn init_definition
    update_user update_user_ext write_level
update_runs = refl
