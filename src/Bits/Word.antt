-- ===== src/Bits/Word.antt =====
-- The operations on 64-bit words that the program uses: one digit set, cleared or tested, a
-- field cut out, a mask.
use native.Mathlib.Nat.{one-le-pow, pow-le-pow_right}
use pteditor_riscv.Base.{
  ℕ, ◌+◌, ◌-◌, ◌*◌, ◌/◌, ◌%◌, ◌^◌, ◌≤◌, ◌<◌, bit_and, bit_or, ◌≡◌, arith, ltb, leb, ◌==◌,
  if◌then◌else◌, not64, shl64,
}
use pteditor_riscv.Bits.Digit.{
  bit_at, bit_at-le, bit_at_zero, bit_at-and, bit_at-or, bit_at-shl, bit_at-shl_below, bit_at-shr,
  bit_at-mod, bit_at_above, bit_at-mod_above, bit_at-complement, bit_at-pow_self, bit_at-pow_ne,
  bit_and-pow,
}

pub bit_at-shl64 :
    (x k i : ℕ) → i < 64 → bit_at (shl64 x k) i ≡ (if leb k i then bit_at x (i - k) else 0)
bit_at-shl64 x k i h =
    ground (arith, bit_at-mod (x * 2 ^ k) 64 i h, bit_at-shl x k i, bit_at-shl_below x k i)

-- The word with digit `k` alone.
pub bit_at-one_shl64 : (k i : ℕ) → k < 64 → bit_at (shl64 1 k) i ≡ (if k == i then 1 else 0)
bit_at-one_shl64 k i h =
    let plain : 1 * 2 ^ k ≡ 2 ^ k = omega arith in
    rw plain (
      ground (
        arith,
        bit_at-mod (2 ^ k) 64 i,
        bit_at-mod_above (2 ^ k) 64 i,
        bit_at-pow_self k,
        bit_at-pow_ne k i,
      ))

pub bit_at-not64 : (x i : ℕ) → x < 2 ^ 64 → i < 64 → bit_at (not64 x) i ≡ 1 - bit_at x i
bit_at-not64 x i hx hi = bit_at-complement 64 x i hx hi

-- `x | (1 << k)`.
pub bit_at-set :
    (x k i : ℕ) → k < 64 → bit_at (bit_or x (shl64 1 k)) i ≡ (if k == i then 1 else bit_at x i)
bit_at-set x k i h =
    ground (arith, bit_at-or x (shl64 1 k) i, bit_at-one_shl64 k i h, bit_at-le x i)

-- `x & ~(1 << k)`.
pub bit_at-clear :
    (x k i : ℕ)
    → x < 2 ^ 64
    → k < 64
    → bit_at (bit_and x (not64 (shl64 1 k))) i ≡ (if k == i then 0 else bit_at x i)
bit_at-clear x k i hx h = ground (
  arith,
  bit_at-and x (not64 (shl64 1 k)) i,
  bit_at-one_shl64 k i h,
  bit_at-le x i,
  bit_at-not64 (shl64 1 k) i,
  bit_at_above x 64 i hx,
)

one_shl64 : (k : ℕ) → k < 64 → shl64 1 k ≡ 2 ^ k
one_shl64 k h =
    let below : 2 ^ k ≤ 2 ^ 63 = pow-le-pow_right (omega arith) {j = 63} (omega arith) in
    omega arith

-- `!!(x & (1 << k))` is digit `k`.
pub test_bit : (x k : ℕ) → k < 64 → (if bit_and x (shl64 1 k) == 0 then 0 else 1) ≡ bit_at x k
test_bit x k h = rw (one_shl64 k h, bit_and-pow) (ground (arith, bit_at-le x k, one-le-pow k 2))

pub bit_at-ones : (n i : ℕ) → bit_at (2 ^ n - 1) i ≡ (if ltb i n then 1 else 0)
bit_at-ones n i = ground (
  arith,
  bit_at-complement n 0 i (omega (arith, one-le-pow n 2)),
  bit_at_zero i,
  bit_at_above (2 ^ n - 1) n i (omega (arith, one-le-pow n 2)),
)

-- `(x >> k) & (2 ^ n - 1)`, and a bit field of `n` bits at `k`.
pub bit_at-field :
    (x k n i : ℕ) → bit_at (x / 2 ^ k % 2 ^ n) i ≡ (if ltb i n then bit_at x (k + i) else 0)
bit_at-field x k n i =
    ground (arith, bit_at-mod (x / 2 ^ k) n i, bit_at-mod_above (x / 2 ^ k) n i, bit_at-shr x k i)

-- A digit is a field of one bit.
pub bit_at_as_field : (x k : ℕ) → bit_at x k ≡ x / 2 ^ k % 2 ^ 1
unfolding bit_at
bit_at_as_field x k = ground (arith, bit_at-shr x k 0)
