-- ===== src/Entry/Fields.antt =====
-- ptedit.h, `ptedit_cast`: the members that the library reads on either architecture, and that
-- the members of each struct make up the word they are cast from.
use pteditor_riscv.Base.{ℕ, ◌^◌, ◌<◌, ◌≡◌, arith}
use pteditor_riscv.Entry.{Arch, x86_64, aarch64}
use pteditor_riscv.Entry.X86
use pteditor_riscv.Entry.Aarch64

-- `ptedit_cast(v, ptedit_pgd_t).present`, and so for the types that are synonyms of it.
unfoldable pub table_present : Arch → ℕ → ℕ
unfolding X86.cast_pgd Aarch64.cast_pgd
table_present x86_64 v = (X86.cast_pgd v).present
table_present aarch64 v = (Aarch64.cast_pgd v).present

-- `ptedit_cast(v, ptedit_pgd_t).pfn`
unfoldable pub table_pfn : Arch → ℕ → ℕ
unfolding X86.cast_pgd Aarch64.cast_pgd
table_pfn x86_64 v = (X86.cast_pgd v).pfn
table_pfn aarch64 v = (Aarch64.cast_pgd v).pfn

module _ (v : ℕ) (fits : v < 2 ^ 64) where
  X86-pgd_word : X86.word_of_pgd (X86.cast_pgd v) ≡ v
  unfolding X86.word_of_pgd X86.cast_pgd
  X86-pgd_word = omega arith

  X86-pmd_large_word : X86.word_of_pmd_large (X86.cast_pmd_large v) ≡ v
  unfolding X86.word_of_pmd_large X86.cast_pmd_large
  X86-pmd_large_word = omega arith

  X86-pte_word : X86.word_of_pte (X86.cast_pte v) ≡ v
  unfolding X86.word_of_pte X86.cast_pte
  X86-pte_word = omega arith

  Aarch64-pgd_word : Aarch64.word_of_pgd (Aarch64.cast_pgd v) ≡ v
  unfolding Aarch64.word_of_pgd Aarch64.cast_pgd
  Aarch64-pgd_word = omega arith

  Aarch64-pgd_large_word : Aarch64.word_of_pgd_large (Aarch64.cast_pgd_large v) ≡ v
  unfolding Aarch64.word_of_pgd_large Aarch64.cast_pgd_large
  Aarch64-pgd_large_word = omega arith

  Aarch64-pmd_large_word : Aarch64.word_of_pmd_large (Aarch64.cast_pmd_large v) ≡ v
  unfolding Aarch64.word_of_pmd_large Aarch64.cast_pmd_large
  Aarch64-pmd_large_word = omega arith

  Aarch64-pte_word : Aarch64.word_of_pte (Aarch64.cast_pte v) ≡ v
  unfolding Aarch64.word_of_pte Aarch64.cast_pte
  Aarch64-pte_word = omega arith

pub cast_lossless :
    (v : ℕ)
    → v < 2 ^ 64
    → (X86.word_of_pgd (X86.cast_pgd v) ≡ v)
      × (X86.word_of_pmd_large (X86.cast_pmd_large v) ≡ v)
      × (X86.word_of_pte (X86.cast_pte v) ≡ v)
      × (Aarch64.word_of_pgd (Aarch64.cast_pgd v) ≡ v)
      × (Aarch64.word_of_pgd_large (Aarch64.cast_pgd_large v) ≡ v)
      × (Aarch64.word_of_pmd_large (Aarch64.cast_pmd_large v) ≡ v)
      × (Aarch64.word_of_pte (Aarch64.cast_pte v) ≡ v)
cast_lossless v fits = (
  X86-pgd_word v fits,
  X86-pmd_large_word v fits,
  X86-pte_word v fits,
  Aarch64-pgd_word v fits,
  Aarch64-pgd_large_word v fits,
  Aarch64-pmd_large_word v fits,
  Aarch64-pte_word v fits,
)
