-- ===== src/Demos/MapPt.antt =====
-- demos/map_pt.c and demos/map_pt_manual.c: the page table of an address is mapped into the
-- process, and its entry is changed through the mapping.
pub mod Changed
pub mod Maps
pub mod Elsewhere
pub mod States
pub mod Manual
pub mod Tests
use pteditor_riscv.Base.{ℕ, ◌+◌, ◌*◌, ◌/◌, Bool, bit_and, ◌==◌, shr64, u64}
use pteditor_riscv.Entry.{Arch, Entry}
use pteditor_riscv.Entry.Fields.{table_pfn}
use pteditor_riscv.Pfn.{set_pfn, get_pfn}
use pteditor_riscv.Pte.{Backend, with_pte}

-- How the process reads and writes a word at an address of its own, and what `ptedit_pmap` returns
-- for a physical address and a length.
pub record Mapping (M : Type 0) : Type 0 where
  pub load : M → ℕ → ℕ
  pub store : ℕ → ℕ → M → M
  pub pmap : M → ℕ → ℕ → ℕ

-- The states after the entry was changed and at the end, and whether the program prints `Worked!`.
pub record Edited (M : Type 0) : Type 0 where
  pub changed : M
  pub state : M
  pub worked : Bool

-- `entry`: bits 12 to 20 of the address.
pub entry_of : ℕ → ℕ
entry_of target = bit_and (shr64 target 12) 0x1ff

-- `invalidate_tlb` is `ptedit_invalidate_tlb`.
module _ {M : Type 0} (arch : Arch) (backend : Backend M) (invalidate_tlb : ℕ → M → M)
    (mapping : Mapping M) where
  open backend use {resolve, update}
  open mapping use {load, store, pmap}

  -- `*mapped_entry = ptedit_set_pfn(*mapped_entry, ...)`, and the TLB invalidated.
  pub point_to : ℕ → ℕ → Entry → M → M
  point_to mapped_entry target secret_entry m =
      invalidate_tlb target
        (store mapped_entry (set_pfn arch (load m mapped_entry) (get_pfn arch secret_entry.pte)) m)

  -- `main` of map_pt.c, between `ptedit_init` and `ptedit_cleanup`.
  pub map_pt : ℕ → ℕ → ℕ → M → Edited M
  unfolding point_to entry_of
  map_pt pagesize target secret m =
      let secret_entry = resolve m secret 0 in
      let target_entry = resolve m target 0 in
      let pt_pfn = table_pfn arch target_entry.pmd in
      let pt = pmap m (u64 (pt_pfn * pagesize)) pagesize in
      let mapped_entry = u64 (pt + entry_of target * 8) in
      let m1 = point_to mapped_entry target secret_entry m in
      record {
        changed = m1;
        state = store mapped_entry target_entry.pte m1;
        worked = load m mapped_entry == target_entry.pte;
      }

  -- `main` of map_pt_manual.c, between `ptedit_init` and `ptedit_cleanup`.
  pub map_pt_manual : ℕ → ℕ → ℕ → M → Edited M
  unfolding point_to entry_of
  map_pt_manual pt target secret m =
      let secret_entry = resolve m secret 0 in
      let target_entry = resolve m target 0 in
      let pt_entry = resolve m pt 0 in
      let old_pte = pt_entry.pte in
      let m1 =
        update pt 0 (with_pte pt_entry (set_pfn arch old_pte (get_pfn arch target_entry.pmd))) m in
      let mapped_entry = u64 (pt + entry_of target * 8) in
      let m2 = point_to mapped_entry target secret_entry m1 in
      let m3 = store mapped_entry target_entry.pte m2 in
      record {
        changed = m2;
        state = update pt 0 (with_pte pt_entry old_pte) m3;
        worked = load m1 mapped_entry == target_entry.pte;
      }
