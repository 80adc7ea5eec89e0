-- ===== src/Walk/Update.antt =====
-- `ptedit_update_user` followed by `ptedit_resolve_user_ext`.
use pteditor_riscv.Base.{
  ℕ, ◌≡◌, sym, ap, ◌∙◌, subst, arith, true, if◌then◌else◌, ◌==◌, bit_and, not64, Bool-cases, inl,
  inr, ==_of_ne,
}
use pteditor_riscv.Entry.{Entry, has_level, valid_mask_pte}
use pteditor_riscv.Paging.{Indices, split_address}
use pteditor_riscv.Walk.{
  Library, System, slot, table_of, root_of, resolve_user_ext, update_user_ext, update_user,
  level_entry,
}
use pteditor_riscv.Walk.Mapped.{IsMapped, resolve_mapped, full_mask}
use pteditor_riscv.Walk.Reached.{resolve_reached}
use pteditor_riscv.Walk.Memory.{
  IsMemory, Slots, slots_of, IsSeparate, updated, IsStable, IsWords, IsWritten, IsWritten-same,
}
use pteditor_riscv.Walk.Writes.{after_pgd, after_pgd_root, writes-IsWritten}

module _ (lib : Library) (root : ℕ) (ix : Indices) (old new : ℕ → ℕ) (e vm : Entry)
    (mapped : IsMapped lib old root ix e) (stable : IsStable lib e (updated lib.definition e vm))
    (written : IsWritten lib.definition vm (slots_of lib root ix e) old new) where
  open lib use {arch, definition}

  abbrev e' : Entry
  e' = updated definition e vm

  p4d_after : e'.p4d ≡ level_entry arch new definition.has_p4d e'.pgd ix.p4di
  unfolding level_entry updated
  p4d_after = elim (Bool-cases definition.has_p4d) [
    | inl has ↦ ground (arith, written.at_p4d has, stable.pgd_table, mapped.p4d_read)
    | inr folded ↦ ground arith
  ]

  pud_after : e'.pud ≡ level_entry arch new definition.has_pud e'.p4d ix.pudi
  unfolding level_entry updated
  pud_after = elim (Bool-cases definition.has_pud) [
    | inl has ↦ ground (arith, written.at_pud has, stable.p4d_table, mapped.pud_read)
    | inr folded ↦ ground arith
  ]

  pmd_after : e'.pmd ≡ level_entry arch new definition.has_pmd e'.pud ix.pmdi
  unfolding level_entry updated
  pmd_after = elim (Bool-cases definition.has_pmd) [
    | inl has ↦ ground (arith, written.at_pmd has, stable.pud_table, mapped.pmd_read)
    | inr folded ↦ ground arith
  ]

  -- After the writes the walk goes through the updated entries.
  updated-IsMapped : IsMapped lib new root ix e'
  updated-IsMapped = record {
    pgd_read = unfold updated in ground (arith, written.at_pgd, mapped.pgd_read);
    pgd_present = stable.pgd_present;
    p4d_read = p4d_after;
    p4d_present = stable.p4d_present;
    pud_read = pud_after;
    pud_present = stable.pud_present;
    pmd_read = pmd_after;
    pmd_present = stable.pmd_present;
    small_page = stable.small_page;
    pte_read = pte_after;
  }
    where
      pte_after : e'.pte ≡ new (slot (table_of arch e'.pmd) ix.pti)
      pte_after =
          unfold updated in ground (arith, written.at_pte, mapped.pte_read, stable.pmd_table)

module _ {M : Type 0} (sys : System M) (lib : Library) (usable : ℕ → Type 0)
    (memory : IsMemory sys usable) (m : M) (address pid : ℕ) (vm : Entry) where
  open lib use {definition}

  abbrev resolve : M → ℕ → ℕ → Entry
  resolve = resolve_user_ext sys lib

  abbrev e : Entry
  e = resolve m address pid

  abbrev slots : Slots
  slots = slots_of lib (root_of sys lib m pid) (split_address definition address) e

  abbrev m' : M
  m' = update_user sys lib resolve address pid vm m

  module _ (reached : has_level e.valid valid_mask_pte ≡ true)
      (separate : IsSeparate usable definition slots) (words : IsWords vm) where
    e_full : e ≡ record e { pid = pid; vaddr = address; valid = full_mask definition }
    e_full =
        let (nonzero, mapped) = resolve_reached sys lib m address pid reached in
        resolve_mapped sys lib m address pid e nonzero mapped

    after : M
    after = after_pgd sys lib usable memory slots separate vm words (full_mask definition) m

    update_writes : m' ≡ sys.invalidate_tlb address (sys.invalidate_tlb address after)
    unfolding update_user update_user_ext after
    update_writes =
        ap
          (λ b.
            sys.invalidate_tlb address (if b then m else sys.invalidate_tlb address (over e.valid)))
          (==_of_ne (root_of sys lib m pid) 0 (resolve_reached sys lib m address pid reached).0)
        ∙ ap (λ ov. sys.invalidate_tlb address (sys.invalidate_tlb address (over ov)))
            (ap (λ (z : Entry). z.valid) e_full)
      where
        over : ℕ → M
        over ov = after_pgd sys lib usable memory slots separate vm words ov m

    same_paging_root : sys.get_paging_root m' pid ≡ sys.get_paging_root m pid
    unfolding after
    same_paging_root =
        ap (λ x. sys.get_paging_root x pid) update_writes
        ∙ memory.tlb_keeps_root _ address pid
        ∙ memory.tlb_keeps_root _ address pid
        ∙ after_pgd_root sys lib usable memory slots separate vm words (full_mask definition) pid m

    same_root : root_of sys lib m' pid ≡ root_of sys lib m pid
    unfolding root_of
    same_root =
        ap (λ r. bit_and (if pid == 0 then lib.paging_root else r) (not64 1)) same_paging_root

    same_words : (b : ℕ) → usable b → sys.deref m' b ≡ sys.deref after b
    same_words b ok =
        ap (λ x. sys.deref x b) update_writes
        ∙ memory.tlb_keeps _ address b ok
        ∙ memory.tlb_keeps _ address b ok

    slots-IsWritten : IsWritten definition vm slots (sys.deref m) (sys.deref m')
    unfolding after
    slots-IsWritten =
        IsWritten-same definition vm slots (sys.deref m) (sys.deref after) (sys.deref m')
          (writes-IsWritten sys lib usable memory slots separate vm words m)
          (same_words slots.pgd separate.pgd_usable)
          (λ h. same_words slots.p4d (separate.p4d_usable h))
          (λ h. same_words slots.pud (separate.pud_usable h))
          (λ h. same_words slots.pmd (separate.pmd_usable h))
          (same_words slots.pte separate.pte_usable)

    -- After `ptedit_update_user`, `ptedit_resolve_user` returns the updated entries: the walk to a
    -- page-table entry must be complete before, its slots usable and disjoint, the new entries
    -- words that keep the tables on the way down.
    pub resolve-update_user :
        IsStable lib e (updated definition e vm)
        → resolve_user_ext sys lib
            (update_user sys lib (resolve_user_ext sys lib) address pid vm m)
            address
            pid
          ≡ updated definition (resolve_user_ext sys lib m address pid) vm
    unfolding updated
    resolve-update_user stable =
        let (nonzero, mapped) = resolve_reached sys lib m address pid reached in
        let walk =
          updated-IsMapped lib (root_of sys lib m pid) (split_address definition address)
            (sys.deref m) (sys.deref m') e vm mapped stable slots-IsWritten in
        resolve_mapped sys lib m' address pid (updated definition e vm)
          (λ z. nonzero (sym same_root ∙ z))
          (subst
            (λ r.
              IsMapped lib (sys.deref m') r (split_address definition address)
                (updated definition e vm))
            (sym same_root) walk)
        ∙ sym (ap (λ z. updated definition z vm) e_full)
