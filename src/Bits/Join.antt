-- ===== src/Bits/Join.antt =====
-- `|` of numbers whose digits do not overlap is their sum.
use pteditor_riscv.Base.{ℕ, zero, suc, ◌+◌, ◌*◌, ◌/◌, ◌^◌, ◌<◌, ◌≡◌, ◌∙◌, ap, arith, bit_or}
use pteditor_riscv.Bits.Digit.{bit_ext, bit_at-or, bit_or-lt, half-below, double-pow, half-shl}
use pteditor_riscv.Bits.Step.{bit_or_step}
use native.Mathlib.Nat.{pow-suc}

zero-or_fuel : (n b : ℕ) → b < suc n → bit_or 0 b ≡ b
zero-or_fuel n zero h = omega (arith, bit_or_step 0 0)
zero-or_fuel zero (suc b) h = absurd (omega arith)
zero-or_fuel (suc n) (suc b) h =
    omega (arith, bit_or_step 0 (suc b), zero-or_fuel n (suc b / 2) (omega arith))

pub or_high : (k a b : ℕ) → a < 2 ^ k → bit_or a (b * 2 ^ k) ≡ a + b * 2 ^ k
or_high zero a b h =
    let empty : a ≡ 0 = omega arith in
    rw empty (zero-or_fuel (b * 1) (b * 1) (omega arith) ∙ omega arith)
or_high (suc k) a b h = omega (
  arith,
  pow-suc 2 k,
  double-pow b k,
  bit_or_step a (b * 2 ^ suc k),
  ap (bit_or (a / 2)) (half-shl b k),
  or_high k (a / 2) b (half-below a k h),
)

or_comm : (a b : ℕ) → a < 2 ^ 64 → b < 2 ^ 64 → bit_or a b ≡ bit_or b a
or_comm a b ha hb =
    bit_ext 64 _ _ (bit_or-lt 64 a b ha hb) (bit_or-lt 64 b a hb ha)
      (λ i h. omega (arith, bit_at-or a b i, bit_at-or b a i))

pub or_low :
    (k a b : ℕ) → a < 2 ^ k → a < 2 ^ 64 → b * 2 ^ k < 2 ^ 64 → bit_or (b * 2 ^ k) a ≡ b * 2 ^ k + a
or_low k a b h word_a word_b = or_comm (b * 2 ^ k) a word_b word_a ∙ or_high k a b h ∙ omega arith
