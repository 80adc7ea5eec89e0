-- ===== src/Base/Finite.antt =====
-- A test that holds at every number below a bound, by running it.
use Prim.Native.Nat.{ℕ, zero, suc, ◌<◌}
use mathlib.Core.Path.{◌≡◌, refl, sym, ap, ◌∙◌}
use mathlib.Core.Logic.{inl, inr}
use mathlib.Core.Bool.{Bool, true, false, not, ◌&&◌}
use native.Mathlib.Omega.{arith}
use pteditor_riscv.Base.Tests.{◌==◌, Bool-cases}

unfoldable pub all_below : ℕ → (ℕ → Bool) → Bool
all_below zero f = true
all_below (suc n) f = f n && all_below n f

head_true : (a b : Bool) → (a && b) ≡ true → a ≡ true
head_true a b h = ground arith

tail_true : (a b : Bool) → (a && b) ≡ true → b ≡ true
tail_true a b h = ground arith

pub below-all : (n : ℕ) (f : ℕ → Bool) → all_below n f ≡ true → (d : ℕ) → d < n → f d ≡ true
unfolding all_below
below-all zero f h d below = absurd (omega arith)
below-all (suc n) f h d below = elim (Bool-cases (d == n)) [
  | inl e ↦ let last : d ≡ n = ground arith in ap f last ∙ head_true (f n) (all_below n f) h
  | inr e ↦ below-all n f (tail_true (f n) (all_below n f) h) d (ground arith)
]

unfoldable pub same : Bool → Bool → Bool
same true b = b
same false b = not b

pub same_eq : (a b : Bool) → same a b ≡ true → a ≡ b
unfolding same
same_eq true true h = refl
same_eq true false h = sym h
same_eq false true h = h
same_eq false false h = refl
