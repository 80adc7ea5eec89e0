-- ===== src/Bits/Step.antt =====
-- The lowest binary digit of `&` and `|`, from the digit recursion that the native operations
-- stand for.
use Prim.Native.Nat.{digits, bitwise, bit_and-bitwise, bit_or-bitwise}
use pteditor_riscv.Base.{
  ℕ, zero, suc, ◌+◌, ◌-◌, ◌*◌, ◌/◌, ◌%◌, ◌≤◌, min, max, bit_and, bit_or, ◌≡◌, refl, ◌∙◌, ap, arith,
}

-- One more unit of fuel than the first operand needs changes nothing.
spare_unit :
    (rest : ℕ → ℕ) (join : ℕ → ℕ → ℕ) (x y fuel : ℕ)
    → x ≤ fuel
    → digits rest join (suc fuel) x y ≡ digits rest join fuel x y
spare_unit rest join zero y zero enough = refl
spare_unit rest join zero y (suc fuel) enough = refl
spare_unit rest join (suc x) y zero enough = elim enough [ ]
spare_unit rest join (suc x) y (suc fuel) enough =
    ap (λ high. high * 2 + join (suc x % 2) (y % 2))
      (spare_unit rest join (suc x / 2) (y / 2) fuel (omega arith))

-- Nor does any number of units.
spare_units :
    (rest : ℕ → ℕ) (join : ℕ → ℕ → ℕ) (x y spare fuel : ℕ)
    → fuel ≡ spare + x
    → digits rest join fuel x y ≡ bitwise rest join x y
spare_units rest join x y zero fuel sum =
    let exact : fuel ≡ x = omega arith in ap (λ units. digits rest join units x y) exact
spare_units rest join x y (suc spare) zero sum = absurd (omega arith)
spare_units rest join x y (suc spare) (suc fuel) sum =
    spare_unit rest join x y fuel (omega arith) ∙ spare_units rest join x y spare fuel (omega arith)

enough_fuel :
    (rest : ℕ → ℕ) (join : ℕ → ℕ → ℕ) (x y fuel : ℕ)
    → x ≤ fuel
    → digits rest join fuel x y ≡ bitwise rest join x y
enough_fuel rest join x y fuel enough = spare_units rest join x y (fuel - x) fuel (omega arith)

pub bit_and_step : (a b : ℕ) → bit_and a b ≡ bit_and (a / 2) (b / 2) * 2 + min (a % 2) (b % 2)
bit_and_step zero y = simp bit_and-bitwise (omega arith)
bit_and_step (suc x) y =
    simp bit_and-bitwise
      (omega (arith, enough_fuel (λ tail. 0) min (suc x / 2) (y / 2) x (omega arith)))

pub bit_or_step : (a b : ℕ) → bit_or a b ≡ bit_or (a / 2) (b / 2) * 2 + max (a % 2) (b % 2)
bit_or_step zero y = simp bit_or-bitwise (omega arith)
bit_or_step (suc x) y =
    simp bit_or-bitwise
      (omega (arith, enough_fuel (λ tail. tail) max (suc x / 2) (y / 2) x (omega arith)))
