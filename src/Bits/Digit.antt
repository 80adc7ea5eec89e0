-- ===== src/Bits/Digit.antt =====
-- Digit `i` of a number, and each operation digit by digit.
use Prim.Native.Nat.{bit_and-bitwise}
use native.Mathlib.Nat.{
  pow-suc, one-le-pow, mul_comm, div-div-eq-div-mul, mod-eq-sub-mul-div, div-add-mod,
}
use pteditor_riscv.Base.{
  ◌⊎◌, ℕ, zero, suc, ◌+◌, ◌-◌, ◌*◌, ◌/◌, ◌%◌, ◌^◌, ◌≤◌, ◌<◌, min, max, bit_and, bit_or, ◌≡◌, refl,
  arith, ◌≢◌, ap, sym,
}
use pteditor_riscv.Bits.Step.{bit_and_step, bit_or_step}

unfoldable pub bit_at : ℕ → ℕ → ℕ
bit_at x zero = x % 2
bit_at x (suc i) = bit_at (x / 2) i

pub bit_at-le : (x i : ℕ) → bit_at x i ≤ 1
unfolding bit_at
bit_at-le x zero = omega arith
bit_at-le x (suc i) = bit_at-le (x / 2) i

pub bit_at-cases : (x i : ℕ) → (bit_at x i ≡ 0) ⊎ (bit_at x i ≡ 1)
bit_at-cases x i = grind (arith, bit_at-le)

pub bit_at_zero : (i : ℕ) → bit_at 0 i ≡ 0
unfolding bit_at
bit_at_zero zero = refl
bit_at_zero (suc i) = bit_at_zero i

half-and : (a b : ℕ) → bit_and a b / 2 ≡ bit_and (a / 2) (b / 2)
half-and a b = omega (arith, bit_and_step a b)

half-or : (a b : ℕ) → bit_or a b / 2 ≡ bit_or (a / 2) (b / 2)
half-or a b = omega (arith, bit_or_step a b)

pub bit_at-and : (a b i : ℕ) → bit_at (bit_and a b) i ≡ min (bit_at a i) (bit_at b i)
unfolding bit_at
bit_at-and a b zero = omega (arith, bit_and_step a b)
bit_at-and a b (suc i) = rw half-and (bit_at-and (a / 2) (b / 2) i)

pub bit_at-or : (a b i : ℕ) → bit_at (bit_or a b) i ≡ max (bit_at a i) (bit_at b i)
unfolding bit_at
bit_at-or a b zero = omega (arith, bit_or_step a b)
bit_at-or a b (suc i) = rw half-or (bit_at-or (a / 2) (b / 2) i)

pub double-pow : (x k : ℕ) → x * 2 ^ suc k ≡ 2 * (x * 2 ^ k)
double-pow x k = omega (arith, ap (λ (t : ℕ). x * t) (pow-suc 2 k))

pub half-shl : (x k : ℕ) → x * 2 ^ suc k / 2 ≡ x * 2 ^ k
half-shl x k = omega (arith, double-pow x k)

-- A shift to the left moves digit `j - k` to `j`, and fills with 0 below `k`.
pub bit_at-shl : (x k j : ℕ) → k ≤ j → bit_at (x * 2 ^ k) j ≡ bit_at x (j - k)
unfolding bit_at
bit_at-shl x zero j h = ground arith
bit_at-shl x (suc k) zero h = elim h [ ]
bit_at-shl x (suc k) (suc j) h =
    let down : suc j - suc k ≡ j - k = omega arith in
    rw (half-shl, down) (bit_at-shl x k j (omega arith))

pub bit_at-shl_below : (x k i : ℕ) → i < k → bit_at (x * 2 ^ k) i ≡ 0
unfolding bit_at
bit_at-shl_below x zero i h = elim h [ ]
bit_at-shl_below x (suc k) zero h = omega (arith, double-pow x k)
bit_at-shl_below x (suc k) (suc i) h = rw half-shl (bit_at-shl_below x k i (omega arith))

quarter : (x k : ℕ) → x / 2 ^ suc k ≡ x / 2 / 2 ^ k
quarter x k = rw (pow-suc, mul_comm (2 ^ k) 2) (sym (div-div-eq-div-mul x 2 (2 ^ k)))

-- A shift to the right moves digit `k + i` to `i`.
pub bit_at-shr : (x k i : ℕ) → bit_at (x / 2 ^ k) i ≡ bit_at x (k + i)
unfolding bit_at
bit_at-shr x zero i = ground arith
bit_at-shr x (suc k) i =
    let up : suc k + i ≡ suc (k + i) = omega arith in rw (quarter, up) (bit_at-shr (x / 2) k i)

half-mod : (x w : ℕ) → x % 2 ^ suc w / 2 ≡ x / 2 % 2 ^ w
half-mod x w = omega (
  arith,
  mod-eq-sub-mul-div x (2 ^ suc w),
  mod-eq-sub-mul-div (x / 2) (2 ^ w),
  ap (λ (t : ℕ). 2 ^ w * t) (quarter x w),
  ap (λ (t : ℕ). t * (x / 2 ^ suc w)) (pow-suc 2 w),
)

even-mod : (x w : ℕ) → x % 2 ^ suc w % 2 ≡ x % 2
even-mod x w =
    omega (arith, div-add-mod x (2 ^ suc w), ap (λ (t : ℕ). t * (x / 2 ^ suc w)) (pow-suc 2 w))

-- Cutting to `w` bits keeps the digits below `w` and clears the others.
pub bit_at-mod : (x w i : ℕ) → i < w → bit_at (x % 2 ^ w) i ≡ bit_at x i
unfolding bit_at
bit_at-mod x zero i h = elim h [ ]
bit_at-mod x (suc w) zero h = even-mod x w
bit_at-mod x (suc w) (suc i) h = rw half-mod (bit_at-mod (x / 2) w i (omega arith))

pub half-below : (x w : ℕ) → x < 2 ^ suc w → x / 2 < 2 ^ w
half-below x w h = omega (arith, pow-suc 2 w)

-- A number below `2 ^ w` has no digit from `w` on.
pub bit_at_above : (x w i : ℕ) → x < 2 ^ w → w ≤ i → bit_at x i ≡ 0
unfolding bit_at
bit_at_above x zero i h le = let none_left : x ≡ 0 = omega arith in rw none_left (bit_at_zero i)
bit_at_above x (suc w) zero h le = elim le [ ]
bit_at_above x (suc w) (suc i) h le = bit_at_above (x / 2) w i (half-below x w h) (omega arith)

pub bit_at-mod_above : (x w i : ℕ) → w ≤ i → bit_at (x % 2 ^ w) i ≡ 0
bit_at-mod_above x w i h = bit_at_above (x % 2 ^ w) w i (omega (arith, one-le-pow w 2)) h

-- Complementing `w` digits.
pub bit_at-complement : (w x i : ℕ) → x < 2 ^ w → i < w → bit_at (2 ^ w - 1 - x) i ≡ 1 - bit_at x i
unfolding bit_at
bit_at-complement zero x i h lt = elim lt [ ]
bit_at-complement (suc w) x zero h lt = omega (arith, pow-suc 2 w)
bit_at-complement (suc w) x (suc i) h lt =
    let halved : (2 ^ suc w - 1 - x) / 2 ≡ 2 ^ w - 1 - x / 2 = omega (arith, pow-suc 2 w) in
    rw halved (bit_at-complement w (x / 2) i (half-below x w h) (omega arith))

-- The only digit of a power of two.
pub bit_at-pow_self : (k : ℕ) → bit_at (2 ^ k) k ≡ 1
unfolding bit_at
bit_at-pow_self zero = refl
bit_at-pow_self (suc k) =
    let halved : 2 ^ suc k / 2 ≡ 2 ^ k = omega (arith, pow-suc 2 k) in rw halved (bit_at-pow_self k)

pub bit_at-pow_ne : (k i : ℕ) → k ≢ i → bit_at (2 ^ k) i ≡ 0
unfolding bit_at
bit_at-pow_ne zero zero h = absurd (h refl)
bit_at-pow_ne zero (suc i) h = bit_at_zero i
bit_at-pow_ne (suc k) zero h = omega (arith, pow-suc 2 k)
bit_at-pow_ne (suc k) (suc i) h =
    let halved : 2 ^ suc k / 2 ≡ 2 ^ k = omega (arith, pow-suc 2 k) in
    rw halved (bit_at-pow_ne k i (λ e. h (ap suc e)))

-- Words with the same digits are equal.
pub bit_ext :
    (w a b : ℕ) → a < 2 ^ w → b < 2 ^ w → ((i : ℕ) → i < w → bit_at a i ≡ bit_at b i) → a ≡ b
unfolding bit_at
bit_ext zero a b ha hb h = omega arith
bit_ext (suc w) a b ha hb h =
    let halves =
      bit_ext w (a / 2) (b / 2) (half-below a w ha) (half-below b w hb)
        (λ i lt. h (suc i) (omega arith)) in
    omega (arith, h 0 (omega arith))

-- `|` of two words is a word, and `&` is at most its first operand.
pub bit_or-lt : (w a b : ℕ) → a < 2 ^ w → b < 2 ^ w → bit_or a b < 2 ^ w
bit_or-lt zero a b ha hb =
    let a_zero : a ≡ 0 = omega arith in
    let b_zero : b ≡ 0 = omega arith in rw (a_zero, b_zero) (omega arith)
bit_or-lt (suc w) a b ha hb = omega (
  arith,
  pow-suc 2 w,
  bit_or_step a b,
  bit_or-lt w (a / 2) (b / 2) (half-below a w ha) (half-below b w hb),
)

zero-and : (b : ℕ) → bit_and 0 b ≡ 0
zero-and b = simp bit_and-bitwise

pub bit_and-lt : (w a b : ℕ) → a < 2 ^ w → bit_and a b < 2 ^ w
bit_and-lt zero a b ha = let a_zero : a ≡ 0 = omega arith in rw (a_zero, zero-and b) (omega arith)
bit_and-lt (suc w) a b ha =
    omega (arith, pow-suc 2 w, bit_and_step a b, bit_and-lt w (a / 2) (b / 2) (half-below a w ha))

and-zero_fuel : (n a : ℕ) → a ≤ n → bit_and a 0 ≡ 0
and-zero_fuel n zero h = zero-and 0
and-zero_fuel zero (suc a) h = elim h [ ]
and-zero_fuel (suc n) (suc a) h =
    omega (arith, bit_and_step (suc a) 0, and-zero_fuel n (suc a / 2) (omega arith))

-- `&` with a power of two leaves one digit, in its place.
pub bit_and-pow : (x k : ℕ) → bit_and x (2 ^ k) ≡ bit_at x k * 2 ^ k
unfolding bit_at
bit_and-pow x zero = omega (arith, bit_and_step x 1, and-zero_fuel (x / 2) (x / 2) (omega arith))
bit_and-pow x (suc k) =
    let halved : 2 ^ suc k / 2 ≡ 2 ^ k = omega (arith, pow-suc 2 k) in
    omega (
      arith,
      bit_and_step x (2 ^ suc k),
      ap (bit_and (x / 2)) halved,
      bit_and-pow (x / 2) k,
      pow-suc 2 k,
      double-pow (bit_at (x / 2) k) k,
    )
