-- ===== src/Demos/MapPt/Changed.antt =====
-- What a resolve finds after a page-table entry was written without `ptedit_update`.
use pteditor_riscv.Base.{
  ℕ, ◌^◌, ◌<◌, ◌≡◌, refl, sym, ap, ◌∙◌, Bool, true, false, ◌==◌, if◌then◌else◌, bit_and, not64,
  subst,
}
use pteditor_riscv.Entry.{Entry, has_level, valid_mask_pte}
use pteditor_riscv.Paging.{Indices, split_address}
use pteditor_riscv.Walk.{Library, System, slot, table_of, level_entry, root_of, resolve_user_ext}
use pteditor_riscv.Walk.Mapped.{IsMapped, resolve_mapped}
use pteditor_riscv.Walk.Memory.{Apart, Apart-sym, IsMemory, Slots, slots_of, IsSeparate}
use pteditor_riscv.Walk.Reached.{resolve_reached}

level_same :
    (lib : Library) (deref deref' : ℕ → ℕ) (has : Bool) (above index : ℕ)
    → (has ≡ true
        → deref' (slot (table_of lib.arch above) index)
          ≡ deref (slot (table_of lib.arch above) index))
    → level_entry lib.arch deref has above index ≡ level_entry lib.arch deref' has above index
unfolding level_entry
level_same lib deref deref' true above index same = sym (same refl)
level_same lib deref deref' false above index same = refl

module _ {M : Type 0} (sys : System M) (lib : Library) (pid : ℕ) where
  open sys use {deref, pset, get_paging_root, invalidate_tlb}
  open lib use {definition}

  -- Seen from `m`, the entries above the page-table entry and the root are kept, and `v` is the
  -- page-table entry.
  pub record IsChanged (s : Slots) (m m' : M) (v : ℕ) : Type 0 where
    pub root_kept : get_paging_root m' pid ≡ get_paging_root m pid
    pub pgd_kept : deref m' s.pgd ≡ deref m s.pgd
    pub p4d_kept : definition.has_p4d ≡ true → deref m' s.p4d ≡ deref m s.p4d
    pub pud_kept : definition.has_pud ≡ true → deref m' s.pud ≡ deref m s.pud
    pub pmd_kept : definition.has_pmd ≡ true → deref m' s.pmd ≡ deref m s.pmd
    pub pte_reads : deref m' s.pte ≡ v

  pub IsChanged-start : (s : Slots) (m : M) → IsChanged s m m (deref m s.pte)
  IsChanged-start s m = record {
    root_kept = refl;
    pgd_kept = refl;
    p4d_kept = λ h. refl;
    pud_kept = λ h. refl;
    pmd_kept = λ h. refl;
    pte_reads = refl;
  }

  module _ (usable : ℕ → Type 0) (memory : IsMemory sys usable) (s : Slots)
      (separate : IsSeparate usable definition s) where
    pub IsChanged-tlb :
        (m m' : M) (a v : ℕ) → IsChanged s m m' v → IsChanged s m (invalidate_tlb a m') v
    IsChanged-tlb m m' a v so_far = record {
      root_kept = memory.tlb_keeps_root m' a pid ∙ so_far.root_kept;
      pgd_kept = memory.tlb_keeps m' a s.pgd separate.pgd_usable ∙ so_far.pgd_kept;
      p4d_kept = λ h. memory.tlb_keeps m' a s.p4d (separate.p4d_usable h) ∙ so_far.p4d_kept h;
      pud_kept = λ h. memory.tlb_keeps m' a s.pud (separate.pud_usable h) ∙ so_far.pud_kept h;
      pmd_kept = λ h. memory.tlb_keeps m' a s.pmd (separate.pmd_usable h) ∙ so_far.pmd_kept h;
      pte_reads = memory.tlb_keeps m' a s.pte separate.pte_usable ∙ so_far.pte_reads;
    }

    pub IsChanged-write :
        (m m' : M) (v w : ℕ) → w < 2 ^ 64 → IsChanged s m m' v → IsChanged s m (pset s.pte w m') w
    IsChanged-write m m' v w small so_far = record {
      root_kept = memory.keeps_root m' s.pte w pid separate.pte_usable ∙ so_far.root_kept;
      pgd_kept = above s.pgd separate.pgd_usable separate.pgd_pte ∙ so_far.pgd_kept;
      p4d_kept = λ h. above s.p4d (separate.p4d_usable h) (separate.p4d_pte h) ∙ so_far.p4d_kept h;
      pud_kept = λ h. above s.pud (separate.pud_usable h) (separate.pud_pte h) ∙ so_far.pud_kept h;
      pmd_kept = λ h. above s.pmd (separate.pmd_usable h) (separate.pmd_pte h) ∙ so_far.pmd_kept h;
      pte_reads = memory.reads_back m' s.pte w separate.pte_usable small;
    }
      where
        above : (b : ℕ) → usable b → Apart b s.pte → deref (pset s.pte w m') b ≡ deref m' b
        above b ok apart =
            memory.keeps m' s.pte w b separate.pte_usable ok (Apart-sym b s.pte apart)

module _ {M : Type 0} (sys : System M) (lib : Library) (m : M) (address pid : ℕ) where
  open sys use {deref}
  open lib use {definition}

  abbrev pub found : Entry
  found = resolve_user_ext sys lib m address pid

  abbrev ix : Indices
  ix = split_address definition address

  abbrev pub slots : Slots
  slots = slots_of lib (root_of sys lib m pid) ix found

  module _ (reached : has_level found.valid valid_mask_pte ≡ true) where
    abbrev walk : IsMapped lib (deref m) (root_of sys lib m pid) ix found
    walk = (resolve_reached sys lib m address pid reached).1

    pub pte_slot : found.pte ≡ deref m slots.pte
    pte_slot = walk.pte_read

    root_same :
        (m' : M) (v : ℕ)
        → IsChanged sys lib pid slots m m' v
        → root_of sys lib m' pid ≡ root_of sys lib m pid
    unfolding root_of
    root_same m' v changed =
        ap (λ r. bit_and (if pid == 0 then lib.paging_root else r) (not64 1)) changed.root_kept

    changed-IsMapped :
        (m' : M) (v : ℕ)
        → IsChanged sys lib pid slots m m' v
        → IsMapped lib (deref m') (root_of sys lib m pid) ix (record found { pte = v })
    changed-IsMapped m' v changed = record {
      pgd_read = walk.pgd_read ∙ sym changed.pgd_kept;
      pgd_present = walk.pgd_present;
      p4d_read =
          walk.p4d_read
          ∙ level_same lib (deref m) (deref m') definition.has_p4d found.pgd ix.p4di
              changed.p4d_kept;
      p4d_present = walk.p4d_present;
      pud_read =
          walk.pud_read
          ∙ level_same lib (deref m) (deref m') definition.has_pud found.p4d ix.pudi
              changed.pud_kept;
      pud_present = walk.pud_present;
      pmd_read =
          walk.pmd_read
          ∙ level_same lib (deref m) (deref m') definition.has_pmd found.pud ix.pmdi
              changed.pmd_kept;
      pmd_present = walk.pmd_present;
      small_page = walk.small_page;
      pte_read = sym changed.pte_reads;
    }

    -- A resolve finds the new page-table entry, and all else as before.
    pub resolve_changed :
        (m' : M) (v : ℕ)
        → IsChanged sys lib pid slots m m' v
        → resolve_user_ext sys lib m' address pid ≡ record found { pte = v }
    resolve_changed m' v changed =
        let (nonzero, _) = resolve_reached sys lib m address pid reached in
        let same = root_same m' v changed in
        resolve_mapped sys lib m' address pid (record found { pte = v })
          (λ z. nonzero (sym same ∙ z))
          (subst (λ r. IsMapped lib (deref m') r ix (record found { pte = v })) (sym same)
            (changed-IsMapped m' v changed))
        ∙ sym (
            ap (λ (z : Entry). record z { pte = v })
              (resolve_mapped sys lib m address pid found nonzero walk))
