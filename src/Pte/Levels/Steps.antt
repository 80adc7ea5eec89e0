-- ===== src/Pte/Levels/Steps.antt =====
-- The steps of `ptedit_set_bit` and `ptedit_clear_bit` of ptedit.c on an x86 entry.
use pteditor_riscv.Base.{
  ℕ, ◌≡◌, refl, ap, ◌∙◌, Bool, true, false, ◌&&◌, bit_or, if◌then◌else◌, Bool-cases, inl, inr,
}
use pteditor_riscv.Entry.{
  x86_64, Entry, has_level, valid_mask_pgd, valid_mask_p4d, valid_mask_pud, valid_mask_pmd,
  valid_mask_pte,
}
use pteditor_riscv.Paging.{PagingDefinition, Indices, init_definition}
use pteditor_riscv.Pte.{edit_levels}
use pteditor_riscv.Walk.Mapped.{IsMapped}
use pteditor_riscv.Walk.Memory.{updated, IsStable, IsWords}
use pteditor_riscv.Walk.{Library}
use pteditor_riscv.Pte.Levels.Kept.{IsKeeping}

-- The library on x86, where `ptedit_init` has chosen four levels.
abbrev pub definition : PagingDefinition
definition = init_definition x86_64 4096

abbrev pub x86_library : ℕ → Library
x86_library root = record { arch = x86_64; paging_root = root; definition = definition }

-- The entry of a level, with `edit` where `levels` has the level.
abbrev pub at_level : ℕ → ℕ → (ℕ → ℕ) → ℕ → ℕ
at_level levels mask edit v = if has_level levels mask then edit v else v

-- All entries of `e`, each with `edit` where `levels` has its level. The P4D is folded: it is the
-- PGD.
abbrev pub edited : (ℕ → ℕ) → ℕ → Entry → Entry
edited edit levels e = record e {
  pgd = at_level levels valid_mask_pgd edit e.pgd;
  p4d = at_level levels valid_mask_pgd edit e.p4d;
  pud = at_level levels valid_mask_pud edit e.pud;
  pmd = at_level levels valid_mask_pmd edit e.pmd;
  pte = at_level levels valid_mask_pte edit e.pte;
}

module _ (edit : ℕ → ℕ) (levels : ℕ) where
  step_pte : Entry → Entry
  step_pte e =
      if has_level e.valid valid_mask_pte && has_level levels valid_mask_pte
      then record e { pte = edit e.pte; valid = bit_or e.valid valid_mask_pte }
      else e

  step_pmd : Entry → Entry
  step_pmd e =
      if has_level e.valid valid_mask_pmd && has_level levels valid_mask_pmd && definition.has_pmd
      then record e { pmd = edit e.pmd; valid = bit_or e.valid valid_mask_pmd }
      else e

  step_pud : Entry → Entry
  step_pud e =
      if has_level e.valid valid_mask_pud && has_level levels valid_mask_pud && definition.has_pud
      then record e { pud = edit e.pud; valid = bit_or e.valid valid_mask_pud }
      else e

  step_p4d : Entry → Entry
  step_p4d e =
      if has_level e.valid valid_mask_p4d && has_level levels valid_mask_p4d && definition.has_p4d
      then record e { p4d = edit e.p4d; valid = bit_or e.valid valid_mask_p4d }
      else e

  step_pgd : Entry → Entry
  step_pgd e =
      if has_level e.valid valid_mask_pgd && has_level levels valid_mask_pgd && definition.has_pgd
      then record e { pgd = edit e.pgd; valid = bit_or e.valid valid_mask_pgd }
      else e

  pte_edited :
      (e : Entry)
      → e.valid ≡ 29
      → step_pte e ≡ record e { pte = at_level levels valid_mask_pte edit e.pte }
  unfolding step_pte
  pte_edited e h = elim (Bool-cases (has_level levels valid_mask_pte)) [
    | inl has ↦ rw (h, has) refl
    | inr not_there ↦ rw (h, not_there) refl
  ]

  pmd_edited :
      (e : Entry)
      → e.valid ≡ 29
      → step_pmd e ≡ record e { pmd = at_level levels valid_mask_pmd edit e.pmd }
  unfolding step_pmd init_definition
  pmd_edited e h = elim (Bool-cases (has_level levels valid_mask_pmd)) [
    | inl has ↦ rw (h, has) refl
    | inr not_there ↦ rw (h, not_there) refl
  ]

  pud_edited :
      (e : Entry)
      → e.valid ≡ 29
      → step_pud e ≡ record e { pud = at_level levels valid_mask_pud edit e.pud }
  unfolding step_pud init_definition
  pud_edited e h = elim (Bool-cases (has_level levels valid_mask_pud)) [
    | inl has ↦ rw (h, has) refl
    | inr not_there ↦ rw (h, not_there) refl
  ]

  pgd_edited :
      (e : Entry)
      → e.valid ≡ 29
      → step_pgd e ≡ record e { pgd = at_level levels valid_mask_pgd edit e.pgd }
  unfolding step_pgd init_definition
  pgd_edited e h = elim (Bool-cases (has_level levels valid_mask_pgd)) [
    | inl has ↦ rw (h, has) refl
    | inr not_there ↦ rw (h, not_there) refl
  ]

  p4d_kept : (e : Entry) → e.valid ≡ 29 → step_p4d e ≡ e
  unfolding step_p4d init_definition
  p4d_kept e h = rw (h) refl

  -- The five steps, on an entry with the four levels.
  pub edit_levels_lem :
      (e : Entry)
      → e.valid ≡ 29
      → edit_levels definition edit levels e ≡ record (edited edit levels e) { p4d = e.p4d }
  unfolding edit_levels step_pte step_pmd step_pud step_p4d step_pgd
  edit_levels_lem e h =
      let e1 = record e { pte = at_level levels valid_mask_pte edit e.pte } in
      let e2 = record e1 { pmd = at_level levels valid_mask_pmd edit e.pmd } in
      let e3 = record e2 { pud = at_level levels valid_mask_pud edit e.pud } in
      ap (λ z. step_pgd (step_p4d (step_pud (step_pmd z)))) (pte_edited e h)
      ∙ ap (λ z. step_pgd (step_p4d (step_pud z))) (pmd_edited e1 h)
      ∙ ap (λ z. step_pgd (step_p4d z)) (pud_edited e2 h)
      ∙ ap step_pgd (p4d_kept e3 h)
      ∙ pgd_edited e3 h

  -- What the update leaves, where the P4D is the PGD.
  pub updated_lem :
      (e : Entry)
      → e.valid ≡ 29
      → e.p4d ≡ e.pgd
      → updated definition e (edit_levels definition edit levels e) ≡ edited edit levels e
  unfolding updated init_definition
  updated_lem e h folded = ap (updated definition e) (edit_levels_lem e h) ∙ rw (h, folded) refl

module _ (edit : ℕ → ℕ) (keep : IsKeeping edit) where
  -- The edit at a level keeps what the walk reads.
  level-IsKeeping : (levels mask : ℕ) → IsKeeping (at_level levels mask edit)
  level-IsKeeping levels mask = if-IsKeeping (has_level levels mask)
    where
      if-IsKeeping : (b : Bool) → IsKeeping (λ v. if b then edit v else v)
      if-IsKeeping true = keep
      if-IsKeeping false = record {
        small = λ v h. h;
        present = λ v h. refl;
        huge = λ v h. refl;
        table = λ v h. refl;
      }

  pub edited-IsStable :
      (root levels : ℕ) (deref : ℕ → ℕ) (r : ℕ) (ix : Indices) (e : Entry)
      → IsMapped (x86_library root) deref r ix e
      → IsWords e
      → IsStable (x86_library root) e (edited edit levels e)
  edited-IsStable root levels deref r ix e mapped words =
      let pgd = level-IsKeeping levels valid_mask_pgd in
      let pud = level-IsKeeping levels valid_mask_pud in
      let pmd = level-IsKeeping levels valid_mask_pmd in
      record {
        pgd_present = pgd.present e.pgd words.pgd_word ∙ mapped.pgd_present;
        p4d_present = pgd.present e.p4d words.p4d_word ∙ mapped.p4d_present;
        pud_present = pud.present e.pud words.pud_word ∙ mapped.pud_present;
        pmd_present = pmd.present e.pmd words.pmd_word ∙ mapped.pmd_present;
        small_page = pmd.huge e.pmd words.pmd_word ∙ mapped.small_page;
        pgd_table = pgd.table e.pgd words.pgd_word;
        p4d_table = pgd.table e.p4d words.p4d_word;
        pud_table = pud.table e.pud words.pud_word;
        pmd_table = pmd.table e.pmd words.pmd_word;
      }

  pub edited-IsWords : (levels : ℕ) (e : Entry) → IsWords e → IsWords (edited edit levels e)
  edited-IsWords levels e words = record {
    pgd_word = (level-IsKeeping levels valid_mask_pgd).small e.pgd words.pgd_word;
    p4d_word = (level-IsKeeping levels valid_mask_pgd).small e.p4d words.p4d_word;
    pud_word = (level-IsKeeping levels valid_mask_pud).small e.pud words.pud_word;
    pmd_word = (level-IsKeeping levels valid_mask_pmd).small e.pmd words.pmd_word;
    pte_word = (level-IsKeeping levels valid_mask_pte).small e.pte words.pte_word;
  }
