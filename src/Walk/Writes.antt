-- ===== src/Walk/Writes.antt =====
-- `ptedit_update_user_ext`, write by write: what stands in the slot of each level afterwards.
use pteditor_riscv.Base.{ℕ, ◌≡◌, ap, ◌∙◌, arith, Bool, true, ◌&&◌, if◌then◌else◌}
use pteditor_riscv.Entry.{
  Entry, has_level, valid_mask_pgd, valid_mask_p4d, valid_mask_pud, valid_mask_pmd, valid_mask_pte,
}
use pteditor_riscv.Paging.{PagingDefinition}
use pteditor_riscv.Walk.{Library, System, write_level}
use pteditor_riscv.Walk.Mapped.{full_mask}
use pteditor_riscv.Walk.Memory.{
  Apart, Apart-sym, IsMemory, Slots, IsSeparate, IsWords, IsWritten, write_level_keeps,
  write_level_reads, write_level_root,
}

-- The levels that a full walk marks are those that the definition has.
full_mask_levels :
    (d : PagingDefinition)
    → (has_level (full_mask d) valid_mask_pgd ≡ true)
      × (has_level (full_mask d) valid_mask_p4d ≡ d.has_p4d)
      × (has_level (full_mask d) valid_mask_pud ≡ d.has_pud)
      × (has_level (full_mask d) valid_mask_pmd ≡ d.has_pmd)
      × (has_level (full_mask d) valid_mask_pte ≡ true)
full_mask_levels d = ground arith

abbrev if_else : Bool → ℕ → ℕ → ℕ
if_else b x y = if b then x else y

module _ {M : Type 0} (sys : System M) (lib : Library) (usable : ℕ → Type 0)
    (memory : IsMemory sys usable) (s : Slots) (separate : IsSeparate usable lib.definition s)
    (vm : Entry) (words : IsWords vm) where
  open sys use {deref, get_paging_root}
  open lib use {definition}

  -- The five writes of `ptedit_update_user_ext`, over the mask of the current entries.
  abbrev pub after_pte : ℕ → M → M
  after_pte ov m = write_level sys lib true valid_mask_pte vm.valid ov s.pte vm.pte m

  abbrev pub after_pmd : ℕ → M → M
  after_pmd ov m =
      write_level sys lib definition.has_pmd valid_mask_pmd vm.valid ov s.pmd vm.pmd
        (after_pte ov m)

  abbrev pub after_pud : ℕ → M → M
  after_pud ov m =
      write_level sys lib definition.has_pud valid_mask_pud vm.valid ov s.pud vm.pud
        (after_pmd ov m)

  abbrev pub after_p4d : ℕ → M → M
  after_p4d ov m =
      write_level sys lib definition.has_p4d valid_mask_p4d vm.valid ov s.p4d vm.p4d
        (after_pud ov m)

  abbrev pub after_pgd : ℕ → M → M
  after_pgd ov m =
      write_level sys lib definition.has_pgd valid_mask_pgd vm.valid ov s.pgd vm.pgd
        (after_p4d ov m)

  abbrev keeps :
      (has : Bool) (mask nv ov a v b : ℕ) (usable_b : usable b) (m : M)
      → (has ≡ true → usable a)
      → (has ≡ true → Apart a b)
      → deref (write_level sys lib has mask nv ov a v m) b ≡ deref m b
  keeps = write_level_keeps sys lib usable memory

  abbrev kept_root :
      (has : Bool) (mask nv ov a v pid : ℕ) (m : M)
      → (has ≡ true → usable a)
      → get_paging_root (write_level sys lib has mask nv ov a v m) pid ≡ get_paging_root m pid
  kept_root = write_level_root sys lib usable memory

  pub after_pgd_root :
      (ov pid : ℕ) (m : M) → get_paging_root (after_pgd ov m) pid ≡ get_paging_root m pid
  after_pgd_root ov pid m =
      kept_root definition.has_pgd valid_mask_pgd vm.valid ov s.pgd vm.pgd pid (after_p4d ov m)
        (λ _. separate.pgd_usable)
      ∙ kept_root definition.has_p4d valid_mask_p4d vm.valid ov s.p4d vm.p4d pid (after_pud ov m)
          separate.p4d_usable
      ∙ kept_root definition.has_pud valid_mask_pud vm.valid ov s.pud vm.pud pid (after_pmd ov m)
          separate.pud_usable
      ∙ kept_root definition.has_pmd valid_mask_pmd vm.valid ov s.pmd vm.pmd pid (after_pte ov m)
          separate.pmd_usable
      ∙ kept_root true valid_mask_pte vm.valid ov s.pte vm.pte pid m (λ _. separate.pte_usable)

  at_pte :
      (ov : ℕ) (m : M)
      → deref (after_pgd ov m) s.pte ≡ (
          if has_level vm.valid valid_mask_pte && has_level ov valid_mask_pte && true
          then vm.pte
          else deref m s.pte)
  at_pte ov m =
      keeps definition.has_pgd valid_mask_pgd vm.valid ov s.pgd vm.pgd s.pte separate.pte_usable
        (after_p4d ov m) (λ _. separate.pgd_usable) (λ _. separate.pgd_pte)
      ∙ keeps definition.has_p4d valid_mask_p4d vm.valid ov s.p4d vm.p4d s.pte separate.pte_usable
          (after_pud ov m) separate.p4d_usable separate.p4d_pte
      ∙ keeps definition.has_pud valid_mask_pud vm.valid ov s.pud vm.pud s.pte separate.pte_usable
          (after_pmd ov m) separate.pud_usable separate.pud_pte
      ∙ keeps definition.has_pmd valid_mask_pmd vm.valid ov s.pmd vm.pmd s.pte separate.pte_usable
          (after_pte ov m) separate.pmd_usable separate.pmd_pte
      ∙ write_level_reads sys lib usable memory true valid_mask_pte vm.valid ov s.pte vm.pte m
          separate.pte_usable words.pte_word

  at_pmd :
      (ov : ℕ) (m : M)
      → definition.has_pmd ≡ true
      → deref (after_pgd ov m) s.pmd ≡ (
          if has_level vm.valid valid_mask_pmd && has_level ov valid_mask_pmd && definition.has_pmd
          then vm.pmd
          else deref m s.pmd)
  at_pmd ov m h =
      keeps definition.has_pgd valid_mask_pgd vm.valid ov s.pgd vm.pgd s.pmd (separate.pmd_usable h)
        (after_p4d ov m) (λ _. separate.pgd_usable) (λ _. separate.pgd_pmd h)
      ∙ keeps definition.has_p4d valid_mask_p4d vm.valid ov s.p4d vm.p4d s.pmd
          (separate.pmd_usable h) (after_pud ov m) separate.p4d_usable (λ g. separate.p4d_pmd g h)
      ∙ keeps definition.has_pud valid_mask_pud vm.valid ov s.pud vm.pud s.pmd
          (separate.pmd_usable h) (after_pmd ov m) separate.pud_usable (λ g. separate.pud_pmd g h)
      ∙ write_level_reads sys lib usable memory definition.has_pmd valid_mask_pmd vm.valid ov s.pmd
          vm.pmd (after_pte ov m) (separate.pmd_usable h) words.pmd_word
      ∙ ap
          (if_else
            (has_level vm.valid valid_mask_pmd && has_level ov valid_mask_pmd && definition.has_pmd)
            vm.pmd)
          (keeps true valid_mask_pte vm.valid ov s.pte vm.pte s.pmd (separate.pmd_usable h) m
            (λ _. separate.pte_usable) (λ _. Apart-sym s.pmd s.pte (separate.pmd_pte h)))

  at_pud :
      (ov : ℕ) (m : M)
      → definition.has_pud ≡ true
      → deref (after_pgd ov m) s.pud ≡ (
          if has_level vm.valid valid_mask_pud && has_level ov valid_mask_pud && definition.has_pud
          then vm.pud
          else deref m s.pud)
  at_pud ov m h =
      keeps definition.has_pgd valid_mask_pgd vm.valid ov s.pgd vm.pgd s.pud (separate.pud_usable h)
        (after_p4d ov m) (λ _. separate.pgd_usable) (λ _. separate.pgd_pud h)
      ∙ keeps definition.has_p4d valid_mask_p4d vm.valid ov s.p4d vm.p4d s.pud
          (separate.pud_usable h) (after_pud ov m) separate.p4d_usable (λ g. separate.p4d_pud g h)
      ∙ write_level_reads sys lib usable memory definition.has_pud valid_mask_pud vm.valid ov s.pud
          vm.pud (after_pmd ov m) (separate.pud_usable h) words.pud_word
      ∙ ap
          (if_else
            (has_level vm.valid valid_mask_pud && has_level ov valid_mask_pud && definition.has_pud)
            vm.pud)
          (keeps definition.has_pmd valid_mask_pmd vm.valid ov s.pmd vm.pmd s.pud
              (separate.pud_usable h) (after_pte ov m) separate.pmd_usable
              (λ g. Apart-sym s.pud s.pmd (separate.pud_pmd h g))
            ∙ keeps true valid_mask_pte vm.valid ov s.pte vm.pte s.pud (separate.pud_usable h) m
                (λ _. separate.pte_usable) (λ _. Apart-sym s.pud s.pte (separate.pud_pte h)))

  at_p4d :
      (ov : ℕ) (m : M)
      → definition.has_p4d ≡ true
      → deref (after_pgd ov m) s.p4d ≡ (
          if has_level vm.valid valid_mask_p4d && has_level ov valid_mask_p4d && definition.has_p4d
          then vm.p4d
          else deref m s.p4d)
  at_p4d ov m h =
      keeps definition.has_pgd valid_mask_pgd vm.valid ov s.pgd vm.pgd s.p4d (separate.p4d_usable h)
        (after_p4d ov m) (λ _. separate.pgd_usable) (λ _. separate.pgd_p4d h)
      ∙ write_level_reads sys lib usable memory definition.has_p4d valid_mask_p4d vm.valid ov s.p4d
          vm.p4d (after_pud ov m) (separate.p4d_usable h) words.p4d_word
      ∙ ap
          (if_else
            (has_level vm.valid valid_mask_p4d && has_level ov valid_mask_p4d && definition.has_p4d)
            vm.p4d)
          (keeps definition.has_pud valid_mask_pud vm.valid ov s.pud vm.pud s.p4d
              (separate.p4d_usable h) (after_pmd ov m) separate.pud_usable
              (λ g. Apart-sym s.p4d s.pud (separate.p4d_pud h g))
            ∙ keeps definition.has_pmd valid_mask_pmd vm.valid ov s.pmd vm.pmd s.p4d
                (separate.p4d_usable h) (after_pte ov m) separate.pmd_usable
                (λ g. Apart-sym s.p4d s.pmd (separate.p4d_pmd h g))
            ∙ keeps true valid_mask_pte vm.valid ov s.pte vm.pte s.p4d (separate.p4d_usable h) m
                (λ _. separate.pte_usable) (λ _. Apart-sym s.p4d s.pte (separate.p4d_pte h)))

  at_pgd :
      (ov : ℕ) (m : M)
      → deref (after_pgd ov m) s.pgd ≡ (
          if has_level vm.valid valid_mask_pgd && has_level ov valid_mask_pgd && definition.has_pgd
          then vm.pgd
          else deref m s.pgd)
  at_pgd ov m =
      write_level_reads sys lib usable memory definition.has_pgd valid_mask_pgd vm.valid ov s.pgd
        vm.pgd (after_p4d ov m) separate.pgd_usable words.pgd_word
      ∙ ap
          (if_else
            (has_level vm.valid valid_mask_pgd && has_level ov valid_mask_pgd && definition.has_pgd)
            vm.pgd)
          (keeps definition.has_p4d valid_mask_p4d vm.valid ov s.p4d vm.p4d s.pgd
              separate.pgd_usable (after_pud ov m) separate.p4d_usable
              (λ g. Apart-sym s.pgd s.p4d (separate.pgd_p4d g))
            ∙ keeps definition.has_pud valid_mask_pud vm.valid ov s.pud vm.pud s.pgd
                separate.pgd_usable (after_pmd ov m) separate.pud_usable
                (λ g. Apart-sym s.pgd s.pud (separate.pgd_pud g))
            ∙ keeps definition.has_pmd valid_mask_pmd vm.valid ov s.pmd vm.pmd s.pgd
                separate.pgd_usable (after_pte ov m) separate.pmd_usable
                (λ g. Apart-sym s.pgd s.pmd (separate.pgd_pmd g))
            ∙ keeps true valid_mask_pte vm.valid ov s.pte vm.pte s.pgd separate.pgd_usable m
                (λ _. separate.pte_usable) (λ _. Apart-sym s.pgd s.pte separate.pgd_pte))

  -- Where the current entries are those of a full walk, the five writes are what `vm` asks for.
  pub writes-IsWritten :
      (m : M) → IsWritten definition vm s (deref m) (deref (after_pgd (full_mask definition) m))
  writes-IsWritten m = record {
    at_pgd = ground (arith, at_pgd (full_mask definition) m, full_mask_levels definition);
    at_p4d = λ h. ground (arith, at_p4d (full_mask definition) m h, full_mask_levels definition);
    at_pud = λ h. ground (arith, at_pud (full_mask definition) m h, full_mask_levels definition);
    at_pmd = λ h. ground (arith, at_pmd (full_mask definition) m h, full_mask_levels definition);
    at_pte = ground (arith, at_pte (full_mask definition) m, full_mask_levels definition);
  }
