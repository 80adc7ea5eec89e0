-- ===== src/Pte/Levels/Kept.antt =====
-- Changes of an x86 entry that keep what the page walk of ptedit.c reads of it.
use native.Mathlib.Nat.{one-le-pow, mod-lt}
use pteditor_riscv.Base.{
  ℕ, ◌+◌, ◌*◌, ◌/◌, ◌%◌, ◌^◌, ◌≤◌, ◌<◌, ◌≡◌, ◌≢◌, ap, arith, not, bit_and, bit_or, ◌==◌, not64,
  shl64, ◌⊎◌,
}
use pteditor_riscv.Bits.{
  bit_at, bit_at-set, bit_at-clear, bit_at-field, bit_ext, bit_or-lt, bit_and-lt,
}
use pteditor_riscv.Entry.{x86_64}
use pteditor_riscv.Entry.Fields.{table_present, table_pfn}
use pteditor_riscv.Entry.X86
use pteditor_riscv.Walk.{is_present, is_huge, table_of}

-- A change of an entry that keeps the bits that the walk reads.
pub record IsKeeping (edit : ℕ → ℕ) : Type 0 where
  pub small : (v : ℕ) → v < 2 ^ 64 → edit v < 2 ^ 64
  pub present : (v : ℕ) → v < 2 ^ 64 → is_present x86_64 (edit v) ≡ is_present x86_64 v
  pub huge : (v : ℕ) → v < 2 ^ 64 → is_huge x86_64 (edit v) ≡ is_huge x86_64 v
  pub table : (v : ℕ) → v < 2 ^ 64 → table_of x86_64 (edit v) ≡ table_of x86_64 v

-- A bit that is not the present bit, the size bit, or one of the table's page-frame number.
pub record IsFree (bit : ℕ) : Type 0 where
  pub positive : 0 < bit
  pub other_than_size : bit ≢ 7
  pub outside : (bit < 12) ⊎ (40 ≤ bit)
  pub below : bit < 64

field_same :
    (v w k n : ℕ)
    → ((i : ℕ) → i < n → bit_at w (k + i) ≡ bit_at v (k + i))
    → w / 2 ^ k % 2 ^ n ≡ v / 2 ^ k % 2 ^ n
field_same v w k n same =
    bit_ext n _ _ (mod-lt _ (one-le-pow n 2 (omega arith)))
      (mod-lt _ (one-le-pow n 2 (omega arith)))
      λ i h. ground (arith, bit_at-field w k n i, bit_at-field v k n i, same i h)

-- Words that differ in free bits alone.
keeping :
    (edit : ℕ → ℕ)
    → ((v : ℕ) → v < 2 ^ 64 → edit v < 2 ^ 64)
    → (bit : ℕ) → IsFree bit
    → ((v i : ℕ) → v < 2 ^ 64 → bit ≢ i → bit_at (edit v) i ≡ bit_at v i)
    → IsKeeping edit
unfolding is_present table_present is_huge table_of table_pfn X86.cast_pgd
keeping edit small bit free same = record {
  small = small;
  present = λ v h.
      ap (λ f. f == 1)
        (field_same v (edit v) 0 1 (λ i lt. same v (0 + i) h (ground (arith, free.positive))));
  huge = λ v h.
      ap (λ f. not (f == 0))
        (field_same v (edit v) 7 1
          (λ i lt. same v (7 + i) h (ground (arith, free.other_than_size))));
  table = λ v h.
      ap (λ f. f * 4096 % 2 ^ 64)
        (field_same v (edit v) 12 28 (λ i lt. same v (12 + i) h (ground (arith, free.outside))));
}

pub set-IsKeeping : (bit : ℕ) → IsFree bit → IsKeeping (λ v. bit_or v (shl64 1 bit))
set-IsKeeping bit free =
    keeping _ (λ v h. bit_or-lt 64 v (shl64 1 bit) h (omega arith)) bit free
      (λ v i h ne. ground (arith, bit_at-set v bit i free.below))

pub clear-IsKeeping : (bit : ℕ) → IsFree bit → IsKeeping (λ v. bit_and v (not64 (shl64 1 bit)))
clear-IsKeeping bit free =
    keeping _ (λ v h. bit_and-lt 64 v _ h) bit free
      (λ v i h ne. ground (arith, bit_at-clear v bit i h free.below))
