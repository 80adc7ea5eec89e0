-- ===== src/Demos/MapPt/Maps.antt =====
-- demos/map_pt.c changes the page-table entry of the target, and restores it.
use pteditor_riscv.Base.{
  ℕ, ◌+◌, ◌*◌, ◌/◌, ◌^◌, ◌≤◌, ◌<◌, ◌≡◌, sym, ap, ◌∙◌, arith, true, ==_of_eq, u64,
}
use pteditor_riscv.Bits.{shr-field_mask}
use pteditor_riscv.Entry.{Entry, has_level, valid_mask_pte}
use pteditor_riscv.Entry.Fields.{table_pfn}
use pteditor_riscv.Paging.{PagingDefinition, split_address}
use pteditor_riscv.Pfn.{set_pfn, get_pfn}
use pteditor_riscv.Pfn.Laws.{set_pfn-lt}
use pteditor_riscv.Walk.{Library, System, slot, table_of, root_of, resolve_user_ext}
use pteditor_riscv.Walk.Memory.{IsMemory, slots_of, IsSeparate}
use pteditor_riscv.Pte.User.{user_backend}
use pteditor_riscv.Demos.MapPt.{Mapping, entry_of, point_to, map_pt}
use pteditor_riscv.Demos.MapPt.Changed.{
  IsChanged, IsChanged-start, IsChanged-tlb, IsChanged-write, slots, pte_slot, resolve_changed,
}

-- Page tables of 512 entries and pages of 4 KB.
pub record IsFourKb (d : PagingDefinition) : Type 0 where
  pub offset : d.page_offset ≡ 12
  pub width : d.pt_entries ≡ 9

-- `entry` is the index into the page table.
pub entry_of-eq :
    (d : PagingDefinition) (target : ℕ)
    → IsFourKb d
    → target < 2 ^ 64
    → entry_of target ≡ (split_address d target).pti
unfolding entry_of split_address
entry_of-eq d target shape word =
    rw (shape.offset, shape.width)
      (omega (arith, shr-field_mask 0 9 (target / 2 ^ 12) (omega arith)))

pub entry_of-lt : (target : ℕ) → target < 2 ^ 64 → entry_of target < 512
unfolding entry_of
entry_of-lt target word = omega (arith, shr-field_mask 0 9 (target / 2 ^ 12) (omega arith))

-- What is relied on of `ptedit_pmap`: words at the address that it returns are those of physical
-- memory.
pub record IsWindow {M : Type 0} (sys : System M) (mapping : Mapping M) : Type 0 where
  pub loads :
      (m m' : M) (physical length k : ℕ)
      → k + 8 ≤ length
      → mapping.load m' (u64 (mapping.pmap m physical length + k))
        ≡ sys.deref m' (u64 (physical + k))
  pub stores :
      (m m' : M) (physical length k v : ℕ)
      → k + 8 ≤ length
      → mapping.store (u64 (mapping.pmap m physical length + k)) v m'
        ≡ sys.pset (u64 (physical + k)) v m'

module _ {M : Type 0} (sys : System M) (lib : Library) (mapping : Mapping M) (usable : ℕ → Type 0)
    (memory : IsMemory sys usable) (window : IsWindow sys mapping) (target secret : ℕ) (m : M) where
  open lib use {arch, definition}
  open mapping use {load, store, pmap}

  abbrev pub target_entry : Entry
  target_entry = resolve_user_ext sys lib m target 0

  abbrev pub secret_entry : Entry
  secret_entry = resolve_user_ext sys lib m secret 0

  abbrev pub new_pte : ℕ
  new_pte = set_pfn arch target_entry.pte (get_pfn arch secret_entry.pte)

  abbrev table : ℕ
  table = u64 (table_pfn arch target_entry.pmd * 4096)

  abbrev mapped : ℕ
  mapped = u64 (pmap m table 4096 + entry_of target * 8)

  abbrev at_pte : ℕ
  at_pte = (slots sys lib m target 0).pte

  -- With the user-space implementation, where the walk to the target reaches a page-table entry,
  -- through usable and disjoint slots, the entry is a word, page tables have 512 entries and the
  -- mapping shows physical memory: demos/map_pt.c finds the entry of the target in the mapped
  -- table; once it is changed, a resolve of the target finds it with the page-frame number of the
  -- secret, and all else as before; and at the end a resolve finds the entries of the start.
  pub map_pt_lem :
      IsFourKb definition
      → target < 2 ^ 64
      → has_level (resolve_user_ext sys lib m target 0).valid valid_mask_pte ≡ true
      → target_entry.pte < 2 ^ 64
      → IsSeparate usable definition
          (slots_of lib (root_of sys lib m 0) (split_address definition target) target_entry)
      → let done =
          map_pt lib.arch (user_backend sys lib) sys.invalidate_tlb mapping 4096 target secret m in
        (done.worked ≡ true)
        × (resolve_user_ext sys lib done.changed target 0 ≡ record target_entry { pte = new_pte })
        × (resolve_user_ext sys lib done.state target 0 ≡ target_entry)
  unfolding map_pt user_backend point_to table_of slot
  map_pt_lem shape word reached pte_word separate =
      let small = entry_of-lt target word in
      let same : u64 (table + entry_of target * 8) ≡ at_pte =
        ap (λ i. u64 (table + i * 8)) (entry_of-eq definition target shape word) in
      let reads : load m mapped ≡ target_entry.pte =
        window.loads m m table 4096 (entry_of target * 8) (omega (arith, small))
        ∙ ap (sys.deref m) same
        ∙ sym (pte_slot sys lib m target 0 reached) in
      let writes : (v : ℕ) (m' : M) → store mapped v m' ≡ sys.pset at_pte v m' = λ v m'.
        window.stores m m' table 4096 (entry_of target * 8) v (omega (arith, small))
        ∙ ap (λ a. sys.pset a v m') same in
      let s = slots sys lib m target 0 in
      let m1 = sys.invalidate_tlb target (sys.pset at_pte new_pte m) in
      let first : IsChanged sys lib 0 s m m1 new_pte =
        IsChanged-tlb sys lib 0 usable memory s separate m _ target new_pte (
          IsChanged-write sys lib 0 usable memory s separate m m (sys.deref m at_pte) new_pte
            (set_pfn-lt arch target_entry.pte _ pte_word) (IsChanged-start sys lib 0 s m)) in
      let second : IsChanged sys lib 0 s m (sys.pset at_pte target_entry.pte m1) target_entry.pte =
        IsChanged-write sys lib 0 usable memory s separate m m1 new_pte target_entry.pte pte_word
          first in
      let frame = get_pfn arch secret_entry.pte in
      let to_m1 : point_to lib.arch (user_backend sys lib) sys.invalidate_tlb mapping mapped target
            secret_entry m
          ≡ m1 =
        ap (λ v. sys.invalidate_tlb target (store mapped (set_pfn arch v frame) m)) reads
        ∙ ap (sys.invalidate_tlb target) (writes new_pte m) in
      (
        ==_of_eq _ _ reads,
        ap (λ x. resolve_user_ext sys lib x target 0) to_m1
            ∙ resolve_changed sys lib m target 0 reached m1 new_pte first,
        ap (λ x. resolve_user_ext sys lib (store mapped target_entry.pte x) target 0) to_m1
            ∙ ap (λ x. resolve_user_ext sys lib x target 0) (writes target_entry.pte m1)
            ∙ resolve_changed sys lib m target 0 reached _ target_entry.pte second,
      )
