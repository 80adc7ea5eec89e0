-- ===== src/Walk/Reached.antt =====
-- `ptedit_resolve_user_ext` marks the page-table entry as valid only at the end of a complete walk.
use pteditor_riscv.Base.{ℕ, ◌≡◌, ◌≢◌, refl, arith, Bool, true, false, bit_or, sym, subst, ==_of_ne}
use pteditor_riscv.Bits.{bit_at, bit_at-or, bit_and-pow, bit_at-le, bit_at_zero}
use pteditor_riscv.Entry.{
  Entry, blank, has_level, valid_mask_pgd, valid_mask_p4d, valid_mask_pud, valid_mask_pmd,
  valid_mask_pte,
}
use pteditor_riscv.Paging.{Indices, split_address}
use pteditor_riscv.Walk.{
  Library, System, slot, table_of, is_present, is_huge, mark, level_entry, resolve_pte, resolve_pmd,
  resolve_pud, resolve_p4d, resolve_pgd, root_of, resolve_user_ext,
}
use pteditor_riscv.Walk.Mapped.{IsMapped, IsMapped-relabel, resolve_mapped, full_mask}

-- Whether the bit of the page-table entry is set in a mask.
pte_bit : (v : ℕ) → has_level v valid_mask_pte ≡ true → bit_at v 4 ≡ 1
pte_bit v h = ground (arith, bit_and-pow v 4, bit_at-le v 4)

pte_bit_kept :
    (has : Bool) (mask v : ℕ) → bit_at mask 4 ≡ 0 → bit_at (mark has mask v) 4 ≡ bit_at v 4
pte_bit_kept has mask v low = ground (arith, bit_at-or v mask 4)

module _ (lib : Library) (deref : ℕ → ℕ) (ix : Indices) where
  open lib use {arch, definition}

  -- The entries of the walk that reads every level.
  abbrev p4d_below : ℕ → ℕ
  p4d_below pgd = level_entry arch deref definition.has_p4d pgd ix.p4di

  abbrev pud_below : ℕ → ℕ
  pud_below p4d = level_entry arch deref definition.has_pud p4d ix.pudi

  abbrev pmd_below : ℕ → ℕ
  pmd_below pud = level_entry arch deref definition.has_pmd pud ix.pmdi

  -- Each level of the walk sets the bit of the page-table entry only if the levels below do.
  pmd_reached :
      (r : Entry)
      → bit_at r.valid 4 ≡ 0
      → bit_at (resolve_pmd lib deref ix r).valid 4 ≡ 1
      → (is_present arch (pmd_below r.pud) ≡ true) × (is_huge arch (pmd_below r.pud) ≡ false)
  unfolding resolve_pmd resolve_pte bit_at
  pmd_reached r before after =
      ground (arith, pte_bit_kept definition.has_pmd valid_mask_pmd r.valid refl)

  pud_reached :
      (r : Entry)
      → bit_at r.valid 4 ≡ 0
      → bit_at (resolve_pud lib deref ix r).valid 4 ≡ 1
      → (is_present arch (pud_below r.p4d) ≡ true)
        × (is_present arch (pmd_below (pud_below r.p4d)) ≡ true)
        × (is_huge arch (pmd_below (pud_below r.p4d)) ≡ false)
  unfolding resolve_pud bit_at
  pud_reached r before after = ground (
    arith,
    pte_bit_kept definition.has_pud valid_mask_pud r.valid refl,
    pmd_reached (record r {
      pud = pud_below r.p4d;
      valid = mark definition.has_pud valid_mask_pud r.valid;
    }),
  )

  p4d_reached :
      (r : Entry)
      → bit_at r.valid 4 ≡ 0
      → bit_at (resolve_p4d lib deref ix r).valid 4 ≡ 1
      → (is_present arch (p4d_below r.pgd) ≡ true)
        × (is_present arch (pud_below (p4d_below r.pgd)) ≡ true)
        × (is_present arch (pmd_below (pud_below (p4d_below r.pgd))) ≡ true)
        × (is_huge arch (pmd_below (pud_below (p4d_below r.pgd))) ≡ false)
  unfolding resolve_p4d bit_at
  p4d_reached r before after = ground (
    arith,
    pte_bit_kept definition.has_p4d valid_mask_p4d r.valid refl,
    pud_reached (record r {
      p4d = p4d_below r.pgd;
      valid = mark definition.has_p4d valid_mask_p4d r.valid;
    }),
  )

  -- The entries that a walk from `root` meets.
  met : ℕ → Entry
  met root =
      let pgd = deref (slot root ix.pgdi) in
      let p4d = p4d_below pgd in
      let pud = pud_below p4d in
      let pmd = pmd_below pud in
      record blank {
        pgd = pgd;
        p4d = p4d;
        pud = pud;
        pmd = pmd;
        pte = deref (slot (table_of arch pmd) ix.pti);
      }

  pgd_reached :
      (root : ℕ) (r : Entry)
      → r.valid ≡ 0
      → bit_at (resolve_pgd lib deref ix root r).valid 4 ≡ 1
      → IsMapped lib deref root ix (met root)
  unfolding resolve_pgd bit_at met
  pgd_reached root r before after =
      let pgd = deref (slot root ix.pgdi) in
      let below = record r { pgd = pgd; valid = bit_or r.valid valid_mask_pgd } in
      ground (arith, p4d_reached below, bit_at-or r.valid valid_mask_pgd 4, bit_at_zero 4)

module _ {M : Type 0} (sys : System M) (lib : Library) (m : M) (address pid : ℕ) where
  abbrev found : Entry
  found = resolve_user_ext sys lib m address pid

  abbrev root : ℕ
  root = root_of sys lib m pid

  abbrev ix : Indices
  ix = split_address lib.definition address

  no_root : root ≡ 0 → has_level found.valid valid_mask_pte ≡ true → ⊥
  unfolding resolve_user_ext
  no_root zero_root h = ground arith

  from_root :
      root ≢ 0
      → found ≡ resolve_pgd lib (sys.deref m) ix root (record blank { vaddr = address; pid = pid })
  unfolding resolve_user_ext
  from_root nonzero = rw (==_of_ne root 0 nonzero)

  -- `ptedit_resolve_user_ext` marks a page-table entry as valid only if there is a root and a
  -- complete walk from it, and then what it returns is that walk.
  pub resolve_reached :
      has_level (resolve_user_ext sys lib m address pid).valid valid_mask_pte ≡ true
      → (root_of sys lib m pid ≢ 0)
        × IsMapped lib
            (sys.deref m)
            (root_of sys lib m pid)
            (split_address lib.definition address)
            (resolve_user_ext sys lib m address pid)
  resolve_reached h =
      let nonzero : root ≢ 0 = λ e. no_root e h in
      let walk =
        pgd_reached lib (sys.deref m) ix root (record blank { vaddr = address; pid = pid }) refl
          (subst (λ e. bit_at e.valid 4 ≡ 1) (from_root nonzero) (pte_bit found.valid h)) in
      (
        nonzero,
        subst (IsMapped lib (sys.deref m) root ix)
            (sym (resolve_mapped sys lib m address pid _ nonzero walk))
            (IsMapped-relabel pid address (full_mask lib.definition) walk),
      )
