-- ===== src/Demos/MapPt/Elsewhere.antt =====
-- Writes that leave a walk alone, and `ptedit_update_user` of a page-table entry alone.
use pteditor_riscv.Base.{ℕ, ◌≡◌, ◌∙◌, true, arith}
use pteditor_riscv.Entry.{Entry, has_level, valid_mask_pte}
use pteditor_riscv.Paging.{PagingDefinition}
use pteditor_riscv.Pte.{with_pte}
use pteditor_riscv.Walk.{
  Library, System, resolve_user_ext, write_level, update_user_ext, update_user,
}
use pteditor_riscv.Walk.Memory.{Apart, IsMemory, Slots, IsSeparate}
use pteditor_riscv.Walk.Reached.{resolve_reached}
use pteditor_riscv.Demos.MapPt.Changed.{IsChanged, found, slots}

-- An address apart from all slots of a walk.
pub record IsElsewhere (d : PagingDefinition) (s : Slots) (a : ℕ) : Type 0 where
  pub pgd : Apart a s.pgd
  pub p4d : d.has_p4d ≡ true → Apart a s.p4d
  pub pud : d.has_pud ≡ true → Apart a s.pud
  pub pmd : d.has_pmd ≡ true → Apart a s.pmd
  pub pte : Apart a s.pte

module _ {M : Type 0} (sys : System M) (lib : Library) (usable : ℕ → Type 0)
    (memory : IsMemory sys usable) where
  open sys use {deref, pset, invalidate_tlb}
  open lib use {definition}

  pub IsChanged-elsewhere :
      (pid : ℕ) (s : Slots) (m m' : M) (v a w : ℕ)
      → IsSeparate usable definition s
      → usable a
      → IsElsewhere definition s a
      → IsChanged sys lib pid s m m' v
      → IsChanged sys lib pid s m (pset a w m') v
  IsChanged-elsewhere pid s m m' v a w separate ok away so_far = record {
    root_kept = memory.keeps_root m' a w pid ok ∙ so_far.root_kept;
    pgd_kept = memory.keeps m' a w s.pgd ok separate.pgd_usable away.pgd ∙ so_far.pgd_kept;
    p4d_kept =
        λ h. memory.keeps m' a w s.p4d ok (separate.p4d_usable h) (away.p4d h) ∙ so_far.p4d_kept h;
    pud_kept =
        λ h. memory.keeps m' a w s.pud ok (separate.pud_usable h) (away.pud h) ∙ so_far.pud_kept h;
    pmd_kept =
        λ h. memory.keeps m' a w s.pmd ok (separate.pmd_usable h) (away.pmd h) ∙ so_far.pmd_kept h;
    pte_reads = memory.keeps m' a w s.pte ok separate.pte_usable away.pte ∙ so_far.pte_reads;
  }

  -- An update that asks for the page-table entry alone is one write, and two requests to
  -- invalidate the TLB.
  pub update_pte :
      (m : M) (address pid v : ℕ) (e : Entry)
      → has_level (found sys lib m address pid).valid valid_mask_pte ≡ true
      → update_user sys lib (resolve_user_ext sys lib) address pid (with_pte e v) m
        ≡ invalidate_tlb address
            (invalidate_tlb address (pset (slots sys lib m address pid).pte v m))
  unfolding update_user update_user_ext write_level
  update_pte m address pid v e reached =
      let (nonzero, _) = resolve_reached sys lib m address pid reached in
      ground (arith, nonzero, reached)
