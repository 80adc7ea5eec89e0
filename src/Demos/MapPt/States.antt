-- ===== src/Demos/MapPt/States.antt =====
-- The states that demos/map_pt_manual.c goes through, with each step as one write.
use pteditor_riscv.Base.{ℕ, ◌^◌, ◌<◌, ◌≡◌, sym, true, subst}
use pteditor_riscv.Entry.{Entry, has_level, valid_mask_pte}
use pteditor_riscv.Pfn.{set_pfn, get_pfn}
use pteditor_riscv.Pfn.Laws.{set_pfn-lt}
use pteditor_riscv.Walk.{Library, System, resolve_user_ext}
use pteditor_riscv.Walk.Memory.{IsMemory, Slots, IsSeparate}
use pteditor_riscv.Demos.MapPt.Changed.{
  IsChanged, IsChanged-start, IsChanged-tlb, IsChanged-write, slots, pte_slot,
}
use pteditor_riscv.Demos.MapPt.Elsewhere.{IsElsewhere, IsChanged-elsewhere}

-- What is relied on of the walk to an address: it reaches a page-table entry, through usable and
-- disjoint slots, and the entry is a word.
pub record IsReached {M : Type 0} (sys : System M) (lib : Library) (usable : ℕ → Type 0) (m : M)
    (address : ℕ) : Type 0 where
  pub reached : has_level (resolve_user_ext sys lib m address 0).valid valid_mask_pte ≡ true
  pub separate : IsSeparate usable lib.definition (slots sys lib m address 0)
  pub word : (resolve_user_ext sys lib m address 0).pte < 2 ^ 64

-- What the program reads, the slots of the walks to the two addresses, and the states after its
-- four writes.
pub record Trace (M : Type 0) : Type 0 where
  pub pt_entry : Entry
  pub target_entry : Entry
  pub window_pte : ℕ
  pub new_pte : ℕ
  pub of_pt : Slots
  pub of_target : Slots
  pub m1 : M
  pub m2 : M
  pub m3 : M
  pub m4 : M

module _ {M : Type 0} (sys : System M) (lib : Library) (pt target secret : ℕ) (m : M) where
  open sys use {pset, invalidate_tlb}
  open lib use {arch, definition}

  abbrev resolve : ℕ → Entry
  resolve address = resolve_user_ext sys lib m address 0

  -- An update of the page-table entry of `pt` alone.
  abbrev pub updated : ℕ → M → M
  updated v s = invalidate_tlb pt (invalidate_tlb pt (pset (slots sys lib m pt 0).pte v s))

  abbrev pub trace : Trace M
  trace =
      let pt_entry = resolve pt in
      let target_entry = resolve target in
      let window_pte = set_pfn arch pt_entry.pte (get_pfn arch target_entry.pmd) in
      let new_pte = set_pfn arch target_entry.pte (get_pfn arch (resolve secret).pte) in
      let of_target = slots sys lib m target 0 in
      let m1 = updated window_pte m in
      let m2 = invalidate_tlb target (pset of_target.pte new_pte m1) in
      let m3 = pset of_target.pte target_entry.pte m2 in
      record {
        pt_entry = pt_entry;
        target_entry = target_entry;
        window_pte = window_pte;
        new_pte = new_pte;
        of_pt = slots sys lib m pt 0;
        of_target = of_target;
        m1 = m1;
        m2 = m2;
        m3 = m3;
        m4 = updated pt_entry.pte m3;
      }

  abbrev pub PtIs : M → ℕ → Type 0
  PtIs s v = IsChanged sys lib 0 (slots sys lib m pt 0) m s v

  abbrev pub TargetIs : M → ℕ → Type 0
  TargetIs s v = IsChanged sys lib 0 (slots sys lib m target 0) m s v

  -- The two page-table entries in these states; all above them is as at the start.
  pub record IsTraced : Type 0 where
    pub pt_1 : PtIs trace.m1 trace.window_pte
    pub pt_2 : PtIs trace.m2 trace.window_pte
    pub pt_3 : PtIs trace.m3 trace.window_pte
    pub pt_4 : PtIs trace.m4 trace.pt_entry.pte
    pub target_1 : TargetIs trace.m1 trace.target_entry.pte
    pub target_2 : TargetIs trace.m2 trace.new_pte
    pub target_3 : TargetIs trace.m3 trace.target_entry.pte
    pub target_4 : TargetIs trace.m4 trace.target_entry.pte

  open trace use {pt_entry, target_entry, window_pte, new_pte, of_pt, of_target, m1, m2, m3, m4}

  module _ (usable : ℕ → Type 0) (memory : IsMemory sys usable)
      (to_pt : IsReached sys lib usable m pt) (to_target : IsReached sys lib usable m target)
      (apart_pt : IsElsewhere definition of_pt of_target.pte)
      (apart_target : IsElsewhere definition of_target of_pt.pte) where
    window_word : window_pte < 2 ^ 64
    window_word = set_pfn-lt arch pt_entry.pte _ to_pt.word

    new_word : new_pte < 2 ^ 64
    new_word = set_pfn-lt arch target_entry.pte _ to_target.word

    pt_tlb : (s : M) (a v : ℕ) → PtIs s v → PtIs (invalidate_tlb a s) v
    pt_tlb s a v h = IsChanged-tlb sys lib 0 usable memory of_pt to_pt.separate m s a v h

    target_tlb : (s : M) (a v : ℕ) → TargetIs s v → TargetIs (invalidate_tlb a s) v
    target_tlb s a v h =
        IsChanged-tlb sys lib 0 usable memory of_target to_target.separate m s a v h

    pt_updated : (s : M) (v w : ℕ) → w < 2 ^ 64 → PtIs s v → PtIs (updated w s) w
    pt_updated s v w small h = pt_tlb _ pt w (
        pt_tlb _ pt w
          (IsChanged-write sys lib 0 usable memory of_pt to_pt.separate m s v w small h))

    target_updated : (s : M) (v w : ℕ) → TargetIs s v → TargetIs (updated w s) v
    target_updated s v w h = target_tlb _ pt v (
        target_tlb _ pt v (
          IsChanged-elsewhere sys lib usable memory 0 of_target m s v of_pt.pte w to_target.separate
            to_pt.separate.pte_usable apart_target h))

    target_written :
        (s : M) (v w : ℕ) → w < 2 ^ 64 → TargetIs s v → TargetIs (pset of_target.pte w s) w
    target_written s v w small h =
        IsChanged-write sys lib 0 usable memory of_target to_target.separate m s v w small h

    pt_written : (s : M) (v w : ℕ) → PtIs s v → PtIs (pset of_target.pte w s) v
    pt_written s v w h =
        IsChanged-elsewhere sys lib usable memory 0 of_pt m s v of_target.pte w to_pt.separate
          to_target.separate.pte_usable apart_pt h

    pt_1 : PtIs m1 window_pte
    pt_1 = pt_updated m _ window_pte window_word (IsChanged-start sys lib 0 of_pt m)

    pt_2 : PtIs m2 window_pte
    pt_2 = pt_tlb _ target window_pte (pt_written m1 window_pte new_pte pt_1)

    pt_3 : PtIs m3 window_pte
    pt_3 = pt_written m2 window_pte target_entry.pte pt_2

    pt_4 : PtIs m4 pt_entry.pte
    pt_4 = pt_updated m3 window_pte pt_entry.pte to_pt.word pt_3

    target_1 : TargetIs m1 target_entry.pte
    target_1 = target_updated m target_entry.pte window_pte (
        subst (TargetIs m) (sym (pte_slot sys lib m target 0 to_target.reached))
          (IsChanged-start sys lib 0 of_target m))

    target_2 : TargetIs m2 new_pte
    target_2 = target_tlb _ target new_pte (target_written m1 _ new_pte new_word target_1)

    target_3 : TargetIs m3 target_entry.pte
    target_3 = target_written m2 new_pte target_entry.pte to_target.word target_2

    target_4 : TargetIs m4 target_entry.pte
    target_4 = target_updated m3 target_entry.pte pt_entry.pte target_3

    pub trace-IsTraced : IsTraced
    trace-IsTraced = record {
      pt_1 = pt_1;
      pt_2 = pt_2;
      pt_3 = pt_3;
      pt_4 = pt_4;
      target_1 = target_1;
      target_2 = target_2;
      target_3 = target_3;
      target_4 = target_4;
    }
