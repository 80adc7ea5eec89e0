-- ===== src/Pfn/Laws.antt =====
-- The page-frame number of an entry: read, replaced, and the other bits kept.
use pteditor_riscv.Base.{
  ℕ, ◌+◌, ◌*◌, ◌/◌, ◌%◌, ◌^◌, ◌≤◌, ◌<◌, ◌≡◌, arith, ◌⊎◌, inl, inr, ◌∙◌, shl64,
}
use pteditor_riscv.Bits.{
  shr-field_mask, replace_field, field-replace_field, field-replace_field_other, bit_or-lt,
  bit_and-lt,
}
use pteditor_riscv.Entry.{Arch, x86_64, aarch64}
use pteditor_riscv.Entry.X86
use pteditor_riscv.Entry.Aarch64
use pteditor_riscv.Entry.Fields.{table_pfn, cast_lossless}
use pteditor_riscv.Pfn.{pfn_bits, set_pfn, get_pfn}

-- `ptedit_get_pfn` is the field of `pfn_bits` bits at bit 12.
pub get_pfn_field :
    (arch : Arch) (pte : ℕ) → pte < 2 ^ 64 → get_pfn arch pte ≡ pte / 2 ^ 12 % 2 ^ pfn_bits arch
unfolding get_pfn
get_pfn_field x86_64 pte h = shr-field_mask 12 40 pte h
get_pfn_field aarch64 pte h = shr-field_mask 12 36 pte h

-- `ptedit_set_pfn` replaces that field, if the number fits it.
pub set_pfn_field :
    (arch : Arch) (pte pfn : ℕ)
    → pfn < 2 ^ pfn_bits arch
    → set_pfn arch pte pfn ≡ replace_field 12 (pfn_bits arch) pte pfn
unfolding set_pfn
set_pfn_field x86_64 pte pfn h = let kept : shl64 pfn 12 ≡ pfn * 2 ^ 12 = omega arith in rw kept
set_pfn_field aarch64 pte pfn h = let kept : shl64 pfn 12 ≡ pfn * 2 ^ 12 = omega arith in rw kept

pub set_pfn-lt : (arch : Arch) (pte pfn : ℕ) → pte < 2 ^ 64 → set_pfn arch pte pfn < 2 ^ 64
unfolding set_pfn
set_pfn-lt x86_64 pte pfn h = bit_or-lt 64 _ _ (bit_and-lt 64 pte _ h) (omega arith)
set_pfn-lt aarch64 pte pfn h = bit_or-lt 64 _ _ (bit_and-lt 64 pte _ h) (omega arith)

pub get_pfn-set_pfn :
    (arch : Arch) (pte pfn : ℕ)
    → pte < 2 ^ 64
    → pfn < 2 ^ pfn_bits arch
    → (get_pfn arch (set_pfn arch pte pfn) ≡ pfn)
      × ((k n : ℕ)
          → (k + n ≤ 12) ⊎ (12 + pfn_bits arch ≤ k)
          → set_pfn arch pte pfn / 2 ^ k % 2 ^ n ≡ pte / 2 ^ k % 2 ^ n)
get_pfn-set_pfn x86_64 pte pfn fits small = (
  rw (get_pfn_field x86_64 _ (set_pfn-lt x86_64 pte pfn fits), set_pfn_field x86_64 pte pfn small)
      (field-replace_field 12 40 pte pfn (omega arith) fits small),
  λ k n apart.
      rw (set_pfn_field x86_64 pte pfn small)
        (field-replace_field_other 12 40 pte pfn (omega arith) fits small k n apart),
)
get_pfn-set_pfn aarch64 pte pfn fits small = (
  rw
      (
        get_pfn_field aarch64 _ (set_pfn-lt aarch64 pte pfn fits),
        set_pfn_field aarch64 pte pfn small,
      )
      (field-replace_field 12 36 pte pfn (omega arith) fits small),
  λ k n apart.
      rw (set_pfn_field aarch64 pte pfn small)
        (field-replace_field_other 12 36 pte pfn (omega arith) fits small k n apart),
)

pub table_pfn-get_pfn :
    (pte : ℕ)
    → pte < 2 ^ 64
    → (table_pfn aarch64 pte ≡ get_pfn aarch64 pte)
      × (table_pfn x86_64 pte ≡ get_pfn x86_64 pte % 2 ^ 28)
unfolding table_pfn
table_pfn-get_pfn pte h =
    (omega (arith, get_pfn_field aarch64 pte h), omega (arith, get_pfn_field x86_64 pte h))

-- For a word of 64 bits: the members of its cast to any of the seven bit-field structs, at their
-- offsets, make it up; the member by which the page walk reads a page-frame number is
-- `ptedit_get_pfn` on ARM, and only the low 28 of its 40 bits on x86; and after `ptedit_set_pfn`
-- with a number that fits, `ptedit_get_pfn` returns it, and every field that does not overlap the
-- page-frame number is kept.
pub entry_word_fields :
    (v : ℕ) (arch : Arch) (pfn : ℕ)
    → v < 2 ^ 64
    → pfn < 2 ^ pfn_bits arch
    → ((X86.word_of_pgd (X86.cast_pgd v) ≡ v)
        × (X86.word_of_pmd_large (X86.cast_pmd_large v) ≡ v)
        × (X86.word_of_pte (X86.cast_pte v) ≡ v)
        × (Aarch64.word_of_pgd (Aarch64.cast_pgd v) ≡ v)
        × (Aarch64.word_of_pgd_large (Aarch64.cast_pgd_large v) ≡ v)
        × (Aarch64.word_of_pmd_large (Aarch64.cast_pmd_large v) ≡ v)
        × (Aarch64.word_of_pte (Aarch64.cast_pte v) ≡ v))
      × ((table_pfn aarch64 v ≡ get_pfn aarch64 v)
          × (table_pfn x86_64 v ≡ get_pfn x86_64 v % 2 ^ 28))
      × ((get_pfn arch (set_pfn arch v pfn) ≡ pfn)
          × ((k n : ℕ)
              → (k + n ≤ 12) ⊎ (12 + pfn_bits arch ≤ k)
              → set_pfn arch v pfn / 2 ^ k % 2 ^ n ≡ v / 2 ^ k % 2 ^ n))
entry_word_fields v arch pfn word fits =
    (cast_lossless v word, table_pfn-get_pfn v word, get_pfn-set_pfn arch v pfn word fits)

-- The fields above and below the page-frame number are kept when it is set twice.
kept_twice :
    (arch : Arch) (pte p q k n : ℕ)
    → pte < 2 ^ 64
    → p < 2 ^ pfn_bits arch
    → q < 2 ^ pfn_bits arch
    → (k + n ≤ 12) ⊎ (12 + pfn_bits arch ≤ k)
    → set_pfn arch (set_pfn arch pte p) q / 2 ^ k % 2 ^ n ≡ pte / 2 ^ k % 2 ^ n
kept_twice arch pte p q k n fits hp hq apart =
    (get_pfn-set_pfn arch (set_pfn arch pte p) q (set_pfn-lt arch pte p fits) hq).1 k n apart
    ∙ (get_pfn-set_pfn arch pte p fits hp).1 k n apart

-- The page-frame number that was there, set again after any other, gives the entry back.
pub set_pfn-get_pfn :
    (arch : Arch) (pte other : ℕ)
    → pte < 2 ^ 64
    → other < 2 ^ pfn_bits arch
    → set_pfn arch (set_pfn arch pte other) (get_pfn arch pte) ≡ pte
set_pfn-get_pfn x86_64 pte other fits small =
    let own : get_pfn x86_64 pte < 2 ^ 40 = omega (arith, get_pfn_field x86_64 pte fits) in
    let twice = set_pfn-lt x86_64 _ (get_pfn x86_64 pte) (set_pfn-lt x86_64 pte other fits) in
    omega (
      arith,
      twice,
      kept_twice x86_64 pte other (get_pfn x86_64 pte) 0 12 fits small own (inl (omega arith)),
      kept_twice x86_64 pte other (get_pfn x86_64 pte) 52 12 fits small own (inr (omega arith)),
      (get_pfn-set_pfn x86_64 (set_pfn x86_64 pte other) (get_pfn x86_64 pte)
          (set_pfn-lt x86_64 pte other fits) own).0,
      get_pfn_field x86_64 (set_pfn x86_64 (set_pfn x86_64 pte other) (get_pfn x86_64 pte)) twice,
      get_pfn_field x86_64 pte fits,
    )
set_pfn-get_pfn aarch64 pte other fits small =
    let own : get_pfn aarch64 pte < 2 ^ 36 = omega (arith, get_pfn_field aarch64 pte fits) in
    let twice = set_pfn-lt aarch64 _ (get_pfn aarch64 pte) (set_pfn-lt aarch64 pte other fits) in
    omega (
      arith,
      twice,
      kept_twice aarch64 pte other (get_pfn aarch64 pte) 0 12 fits small own (inl (omega arith)),
      kept_twice aarch64 pte other (get_pfn aarch64 pte) 48 16 fits small own (inr (omega arith)),
      (get_pfn-set_pfn aarch64 (set_pfn aarch64 pte other) (get_pfn aarch64 pte)
          (set_pfn-lt aarch64 pte other fits) own).0,
      get_pfn_field aarch64 (set_pfn aarch64 (set_pfn aarch64 pte other) (get_pfn aarch64 pte))
          twice,
      get_pfn_field aarch64 pte fits,
    )
