-- ===== src/Demos/MapPt/Manual.antt =====
-- demos/map_pt_manual.c changes the page-table entry of the target through an address that it maps
-- onto the page table itself, and restores both entries.
use pteditor_riscv.Base.{ℕ, ◌+◌, ◌*◌, ◌^◌, ◌≤◌, ◌<◌, ◌≡◌, sym, ap, ◌∙◌, arith, true, ==_of_eq, u64}
use pteditor_riscv.Entry.{Entry, has_level, valid_mask_pte}
use pteditor_riscv.Entry.Fields.{table_pfn}
use pteditor_riscv.Pfn.{pfn_bits, set_pfn, get_pfn}
use pteditor_riscv.Pfn.Laws.{get_pfn-set_pfn}
use pteditor_riscv.Paging.{split_address}
use pteditor_riscv.Pte.{with_pte}
use pteditor_riscv.Walk.{Library, System, slot, table_of, resolve_user_ext, update_user}
use pteditor_riscv.Walk.Memory.{IsMemory}
use pteditor_riscv.Pte.User.{user_backend}
use pteditor_riscv.Demos.MapPt.{Mapping, entry_of, point_to, map_pt_manual}
use pteditor_riscv.Demos.MapPt.Changed.{IsChanged, slots, resolve_changed}
use pteditor_riscv.Demos.MapPt.States.{IsReached, Trace, trace, IsTraced, trace-IsTraced}
use pteditor_riscv.Demos.MapPt.Elsewhere.{IsElsewhere, update_pte}
use pteditor_riscv.Demos.MapPt.Maps.{IsFourKb, entry_of-eq, entry_of-lt}

-- What is relied on of the processor: a word of the page at `pt` is that of the page frame in the
-- page-table entry of `pt`.
pub record IsTranslated {M : Type 0} (sys : System M) (lib : Library) (mapping : Mapping M) (pt : ℕ)
    : Type 0 where
  pub loads :
      (m : M) (k : ℕ)
      → k + 8 ≤ 4096
      → mapping.load m (u64 (pt + k))
        ≡ sys.deref m
            (u64 (u64 (get_pfn lib.arch (resolve_user_ext sys lib m pt 0).pte * 4096) + k))
  pub stores :
      (m : M) (k v : ℕ)
      → k + 8 ≤ 4096
      → mapping.store (u64 (pt + k)) v m
        ≡ sys.pset
            (u64 (u64 (get_pfn lib.arch (resolve_user_ext sys lib m pt 0).pte * 4096) + k))
            v
            m

module _ {M : Type 0} (sys : System M) (lib : Library) (mapping : Mapping M) (usable : ℕ → Type 0)
    (memory : IsMemory sys usable) (pt target secret : ℕ)
    (translated : IsTranslated sys lib mapping pt) (m : M) where
  open sys use {deref, pset, invalidate_tlb}
  open lib use {arch, definition}
  open mapping use {load, store}

  abbrev steps : Trace M
  steps = trace sys lib pt target secret m

  open steps use {pt_entry, target_entry, window_pte, new_pte, of_pt, of_target, m1, m2, m3, m4}

  abbrev resolve : M → ℕ → Entry
  resolve m' address = resolve_user_ext sys lib m' address 0

  abbrev mapped : ℕ
  mapped = u64 (pt + entry_of target * 8)

  module _ (shape : IsFourKb definition) (word : target < 2 ^ 64)
      (to_pt : IsReached sys lib usable m pt) (to_target : IsReached sys lib usable m target)
      (apart_pt : IsElsewhere definition of_pt of_target.pte)
      (apart_target : IsElsewhere definition of_target of_pt.pte)
      (fits : get_pfn arch target_entry.pmd < 2 ^ pfn_bits arch)
      (same_frame : table_pfn arch target_entry.pmd ≡ get_pfn arch target_entry.pmd) where
    traced : IsTraced sys lib pt target secret m
    traced =
        trace-IsTraced sys lib pt target secret m usable memory to_pt to_target apart_pt
          apart_target

    open traced use {pt_1, pt_2, pt_3, pt_4, target_1, target_2, target_3, target_4}

    -- While `pt` has the frame of the page table, the mapped entry is that of the target.
    mapped_slot :
        (s : M)
        → IsChanged sys lib 0 of_pt m s window_pte
        → u64 (u64 (get_pfn arch (resolve s pt).pte * 4096) + entry_of target * 8) ≡ of_target.pte
    unfolding slot table_of
    mapped_slot s h =
        let entry = resolve_changed sys lib m pt 0 to_pt.reached s window_pte h in
        let frame : get_pfn arch (resolve s pt).pte ≡ table_pfn arch target_entry.pmd =
          ap (λ (z : Entry). get_pfn arch z.pte) entry
          ∙ (get_pfn-set_pfn arch pt_entry.pte _ to_pt.word fits).0
          ∙ sym same_frame in
        ap (λ f. u64 (u64 (f * 4096) + entry_of target * 8)) frame
        ∙ ap (λ i. u64 (u64 (table_pfn arch target_entry.pmd * 4096) + i * 8))
            (entry_of-eq definition target shape word)

    in_page : entry_of target * 8 + 8 ≤ 4096
    in_page = omega (arith, entry_of-lt target word)

    loads_entry : load m1 mapped ≡ target_entry.pte
    loads_entry =
        translated.loads m1 (entry_of target * 8) in_page
        ∙ ap (deref m1) (mapped_slot m1 pt_1)
        ∙ target_1.pte_reads

    stores_entry :
        (s : M) (v : ℕ)
        → IsChanged sys lib 0 of_pt m s window_pte
        → store mapped v s ≡ pset of_target.pte v s
    stores_entry s v h =
        translated.stores s (entry_of target * 8) v in_page ∙ ap (λ a. pset a v s) (mapped_slot s h)

    again_reached : has_level (resolve m3 pt).valid valid_mask_pte ≡ true
    again_reached =
        ap (λ (z : Entry). has_level z.valid valid_mask_pte)
          (resolve_changed sys lib m pt 0 to_pt.reached m3 window_pte pt_3)
        ∙ to_pt.reached

    again_slot : (slots sys lib m3 pt 0).pte ≡ of_pt.pte
    again_slot =
        ap (λ (z : Entry). slot (table_of arch z.pmd) (split_address definition pt).pti)
          (resolve_changed sys lib m pt 0 to_pt.reached m3 window_pte pt_3)

    abbrev update : Entry → M → M
    update e s = update_user sys lib (resolve_user_ext sys lib) pt 0 e s

    abbrev done : M → M
    done s = update (with_pte pt_entry pt_entry.pte) (
        store mapped target_entry.pte (
          point_to lib.arch (user_backend sys lib) sys.invalidate_tlb mapping mapped target
            (resolve m secret) s))

    updates_1 : update (with_pte pt_entry window_pte) m ≡ m1
    updates_1 = update_pte sys lib usable memory m pt 0 window_pte pt_entry to_pt.reached

    points_2 :
        point_to lib.arch
          (user_backend sys lib)
          sys.invalidate_tlb
          mapping
          mapped
          target
          (resolve m secret)
          m1
        ≡ m2
    unfolding point_to user_backend
    points_2 =
        ap
          (λ v.
            invalidate_tlb target
              (store mapped (set_pfn arch v (get_pfn arch (resolve m secret).pte)) m1))
          loads_entry
        ∙ ap (invalidate_tlb target) (stores_entry m1 new_pte pt_1)

    restores_4 : done m1 ≡ m4
    restores_4 =
        ap (λ s. update (with_pte pt_entry pt_entry.pte) (store mapped target_entry.pte s)) points_2
        ∙ ap (update (with_pte pt_entry pt_entry.pte)) (stores_entry m2 target_entry.pte pt_2)
        ∙ update_pte sys lib usable memory m3 pt 0 pt_entry.pte pt_entry again_reached
        ∙ ap (λ a. invalidate_tlb pt (invalidate_tlb pt (pset a pt_entry.pte m3))) again_slot

    -- With the user-space implementation, where the walks to the two addresses reach page-table
    -- entries that are words, through usable slots that are all disjoint, page tables have 512
    -- entries, the processor translates `pt` by its entry, and the page walk reads the whole frame
    -- number of the page table: demos/map_pt_manual.c finds the entry of the target through `pt`;
    -- once it is changed, a resolve of the target finds it with the page-frame number of the
    -- secret, and all else as before; and at the end a resolve of either address finds the entries
    -- of the start.
    pub map_pt_manual_lem :
        let end =
          map_pt_manual lib.arch
            (user_backend sys lib)
            sys.invalidate_tlb
            mapping
            pt
            target
            secret
            m in
        (end.worked ≡ true)
        × (resolve_user_ext sys lib end.changed target 0 ≡ record target_entry { pte = new_pte })
        × (resolve_user_ext sys lib end.state target 0 ≡ target_entry)
        × (resolve_user_ext sys lib end.state pt 0 ≡ pt_entry)
    unfolding map_pt_manual user_backend
    map_pt_manual_lem = (
      ==_of_eq _ _ (ap (λ s. load s mapped) updates_1 ∙ loads_entry),
      ap
            (λ s.
              resolve
                (point_to lib.arch (user_backend sys lib) sys.invalidate_tlb mapping mapped target
                  (resolve m secret) s)
                target)
            updates_1
          ∙ ap (λ s. resolve s target) points_2
          ∙ resolve_changed sys lib m target 0 to_target.reached m2 new_pte target_2,
      ap (λ s. resolve (done s) target) updates_1
          ∙ ap (λ s. resolve s target) restores_4
          ∙ resolve_changed sys lib m target 0 to_target.reached m4 target_entry.pte target_4,
      ap (λ s. resolve (done s) pt) updates_1
          ∙ ap (λ s. resolve s pt) restores_4
          ∙ resolve_changed sys lib m pt 0 to_pt.reached m4 pt_entry.pte pt_4,
    )
