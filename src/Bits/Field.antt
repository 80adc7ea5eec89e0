-- ===== src/Bits/Field.antt =====
-- A field of `n` digits at digit `k` of a 64-bit word: read, and replaced by `&`, `~` and `|`.
use native.Mathlib.Nat.{one-le-pow, mod-lt, mod-le, div-le_self}
use pteditor_riscv.Base.{
  ℕ, ◌⊎◌, ◌+◌, ◌-◌, ◌*◌, ◌/◌, ◌%◌, ◌^◌, ◌≤◌, ◌<◌, bit_and, bit_or, ◌≡◌, arith, ltb, leb,
  if◌then◌else◌, ◌&&◌, not64, Bool,
}
use pteditor_riscv.Bits.Digit.{
  bit_at, bit_at-le, bit_at-and, bit_at-or, bit_at-shl, bit_at-shl_below, bit_at_above, bit_ext,
  bit_at-shr, bit_and-lt,
}
use pteditor_riscv.Bits.Word.{bit_at-not64, bit_at-ones, bit_at-field}

-- The word with exactly the digits of the field.
abbrev pub field_mask : ℕ → ℕ → ℕ
field_mask k n = (2 ^ n - 1) * 2 ^ k

abbrev pub in_field : ℕ → ℕ → ℕ → Bool
in_field k n i = leb k i && ltb i (k + n)

pub bit_at-field_mask : (k n i : ℕ) → bit_at (field_mask k n) i ≡ (if in_field k n i then 1 else 0)
bit_at-field_mask k n i =
    ground
      (arith, bit_at-shl (2 ^ n - 1) k i, bit_at-shl_below (2 ^ n - 1) k i, bit_at-ones n (i - k))

-- `(x & mask) >> k` cuts the field out.
pub shr-field_mask :
    (k n x : ℕ) → x < 2 ^ 64 → bit_and x (field_mask k n) / 2 ^ k ≡ x / 2 ^ k % 2 ^ n
shr-field_mask k n x h =
    bit_ext 64 _ _
      (omega (
        arith,
        bit_and-lt 64 x (field_mask k n) h,
        div-le_self (bit_and x (field_mask k n)) (2 ^ k),
      ))
      (omega (arith, div-le_self x (2 ^ k), mod-le (x / 2 ^ k) (2 ^ n)))
      λ i lt. ground (
        arith,
        bit_at-shr (bit_and x (field_mask k n)) k i,
        bit_at-and x (field_mask k n) (k + i),
        bit_at-field_mask k n (k + i),
        bit_at-field x k n i,
        bit_at-le x (k + i),
      )

-- `(x & ~mask) | (v << k)`.
abbrev pub replace_field : ℕ → ℕ → ℕ → ℕ → ℕ
replace_field k n x v = bit_or (bit_and x (not64 (field_mask k n))) (v * 2 ^ k)

module _ (k n x v : ℕ) (mask_fits : field_mask k n < 2 ^ 64) (x_fits : x < 2 ^ 64)
    (v_fits : v < 2 ^ n) where
  -- Inside the field stand the digits of `v`, and every other digit is kept.
  pub bit_at-replace_field :
      (i : ℕ)
      → bit_at (replace_field k n x v) i ≡ (if in_field k n i then bit_at v (i - k) else bit_at x i)
  bit_at-replace_field i = ground (
    arith,
    bit_at-or (bit_and x (not64 (field_mask k n))) (v * 2 ^ k) i,
    bit_at-and x (not64 (field_mask k n)) i,
    bit_at-not64 (field_mask k n) i mask_fits,
    bit_at-field_mask k n i,
    bit_at-shl v k i,
    bit_at-shl_below v k i,
    bit_at_above x 64 i x_fits,
    bit_at_above v n (i - k) v_fits,
    bit_at-le x i,
    bit_at-le v (i - k),
  )

  -- The field reads back.
  pub field-replace_field : replace_field k n x v / 2 ^ k % 2 ^ n ≡ v
  field-replace_field = bit_ext n _ _ (mod-lt _ (one-le-pow n 2 (omega arith))) v_fits λ i h.
      ground
        (arith, bit_at-field (replace_field k n x v) k n i, bit_at-replace_field (k + i), ap_sub i)
    where
      ap_sub : (i : ℕ) → k + i - k ≡ i
      ap_sub i = omega arith

  -- A field that does not overlap is kept.
  pub field-replace_field_other :
      (j m : ℕ)
      → (j + m ≤ k) ⊎ (k + n ≤ j)
      → replace_field k n x v / 2 ^ j % 2 ^ m ≡ x / 2 ^ j % 2 ^ m
  field-replace_field_other j m apart =
      bit_ext m _ _ (mod-lt _ (one-le-pow m 2 (omega arith)))
        (mod-lt _ (one-le-pow m 2 (omega arith)))
        λ i h. ground (
          arith,
          bit_at-field (replace_field k n x v) j m i,
          bit_at-field x j m i,
          bit_at-replace_field (j + i),
        )
