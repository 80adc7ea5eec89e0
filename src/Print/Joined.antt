-- ===== src/Print/Joined.antt =====
-- The numbers that `ptedit_print_entry_line` joins from single bits are fields of the entry.
use pteditor_riscv.Base.{
  ℕ, ◌-◌, ◌*◌, ◌/◌, ◌%◌, ◌^◌, ◌<◌, ◌≡◌, refl, ◌∙◌, arith, true, bit_and, bit_or, ◌==◌, all_below,
  below-all, ==_iff,
}
use pteditor_riscv.Bits.{test_bit, bit_at_as_field, shr-field_mask}
use pteditor_riscv.MemType.{flag}
use pteditor_riscv.Print.{join_2, join_3, join_4, join_5}

flag_digit : (entry k : ℕ) → k < 64 → flag entry k ≡ entry / 2 ^ k % 2
flag_digit entry k h = test_bit entry k h ∙ bit_at_as_field entry k

-- `|` of shifted binary digits, as a function of the digits.
abbrev or_2 : ℕ → ℕ → ℕ
or_2 b1 b0 = bit_or (b1 * 2 ^ 1) b0

abbrev or_3 : ℕ → ℕ → ℕ → ℕ
or_3 b2 b1 b0 = bit_or (bit_or (b2 * 2 ^ 2) (b1 * 2 ^ 1)) b0

abbrev or_4 : ℕ → ℕ → ℕ → ℕ → ℕ
or_4 b3 b2 b1 b0 = bit_or (bit_or (bit_or (b3 * 2 ^ 3) (b2 * 2 ^ 2)) (b1 * 2 ^ 1)) b0

abbrev or_5 : ℕ → ℕ → ℕ → ℕ → ℕ → ℕ
or_5 b4 b3 b2 b1 b0 =
    bit_or (bit_or (bit_or (bit_or (b4 * 2 ^ 4) (b3 * 2 ^ 3)) (b2 * 2 ^ 2)) (b1 * 2 ^ 1)) b0

-- At the digits of a number of that width it is the number, by running it.
by_table : (n : ℕ) (f : ℕ → ℕ) → all_below n (λ x. f x == x) ≡ true → (x : ℕ) → x < n → f x ≡ x
by_table n f table x h = (==_iff (f x) x).0 (below-all n (λ y. f y == y) table x h)

or_5_digits :
    (x : ℕ) → x < 32 → or_5 (x / 2 ^ 4 % 2) (x / 2 ^ 3 % 2) (x / 2 ^ 2 % 2) (x / 2 % 2) (x % 2) ≡ x
unfolding all_below
or_5_digits x h =
    by_table 32 (λ y. or_5 (y / 2 ^ 4 % 2) (y / 2 ^ 3 % 2) (y / 2 ^ 2 % 2) (y / 2 % 2) (y % 2)) refl
      x h

or_4_digits : (x : ℕ) → x < 16 → or_4 (x / 2 ^ 3 % 2) (x / 2 ^ 2 % 2) (x / 2 % 2) (x % 2) ≡ x
unfolding all_below
or_4_digits x h =
    by_table 16 (λ y. or_4 (y / 2 ^ 3 % 2) (y / 2 ^ 2 % 2) (y / 2 % 2) (y % 2)) refl x h

or_3_digits : (x : ℕ) → x < 8 → or_3 (x / 2 ^ 2 % 2) (x / 2 % 2) (x % 2) ≡ x
unfolding all_below
or_3_digits x h = by_table 8 (λ y. or_3 (y / 2 ^ 2 % 2) (y / 2 % 2) (y % 2)) refl x h

or_2_digits : (x : ℕ) → x < 4 → or_2 (x / 2 % 2) (x % 2) ≡ x
unfolding all_below
or_2_digits x h = by_table 4 (λ y. or_2 (y / 2 % 2) (y % 2)) refl x h

module _ (entry : ℕ) where
  pub digit : (k : ℕ) → k < 64 → flag entry k ≡ entry / 2 ^ k % 2
  digit k h = flag_digit entry k h

  pub join_5_field : join_5 entry 63 62 61 60 59 ≡ entry / 2 ^ 59 % 32
  join_5_field =
      let x : ℕ = entry / 2 ^ 59 % 32 in
      let d4 : flag entry 63 ≡ x / 2 ^ 4 % 2 = omega (arith, digit 63 (omega arith)) in
      let d3 : flag entry 62 ≡ x / 2 ^ 3 % 2 = omega (arith, digit 62 (omega arith)) in
      let d2 : flag entry 61 ≡ x / 2 ^ 2 % 2 = omega (arith, digit 61 (omega arith)) in
      let d1 : flag entry 60 ≡ x / 2 % 2 = omega (arith, digit 60 (omega arith)) in
      let d0 : flag entry 59 ≡ x % 2 = omega (arith, digit 59 (omega arith)) in
      rw (d4, d3, d2, d1, d0) (or_5_digits x (omega arith))

  join_4_of :
      (k3 k2 k1 k0 x : ℕ)
      → x < 16
      → flag entry k3 ≡ x / 2 ^ 3 % 2
      → flag entry k2 ≡ x / 2 ^ 2 % 2
      → flag entry k1 ≡ x / 2 % 2
      → flag entry k0 ≡ x % 2
      → join_4 entry k3 k2 k1 k0 ≡ x
  join_4_of k3 k2 k1 k0 x h d3 d2 d1 d0 = rw (d3, d2, d1, d0) (or_4_digits x h)

  join_2_of :
      (k1 k0 x : ℕ)
      → x < 4
      → flag entry k1 ≡ x / 2 % 2
      → flag entry k0 ≡ x % 2
      → join_2 entry k1 k0 ≡ x
  join_2_of k1 k0 x h d1 d0 = rw (d1, d0) (or_2_digits x h)

  pub join_4_high : join_4 entry 58 57 56 55 ≡ entry / 2 ^ 55 % 16
  join_4_high =
      join_4_of 58 57 56 55 (entry / 2 ^ 55 % 16) (omega arith)
        (omega (arith, digit 58 (omega arith))) (omega (arith, digit 57 (omega arith)))
        (omega (arith, digit 56 (omega arith))) (omega (arith, digit 55 (omega arith)))

  pub join_4_low : join_4 entry 51 50 49 48 ≡ entry / 2 ^ 48 % 16
  join_4_low =
      join_4_of 51 50 49 48 (entry / 2 ^ 48 % 16) (omega arith)
        (omega (arith, digit 51 (omega arith))) (omega (arith, digit 50 (omega arith)))
        (omega (arith, digit 49 (omega arith))) (omega (arith, digit 48 (omega arith)))

  pub join_3_field : join_3 entry 4 3 2 ≡ entry / 2 ^ 2 % 8
  join_3_field =
      let x : ℕ = entry / 2 ^ 2 % 8 in
      let d2 : flag entry 4 ≡ x / 2 ^ 2 % 2 = omega (arith, digit 4 (omega arith)) in
      let d1 : flag entry 3 ≡ x / 2 % 2 = omega (arith, digit 3 (omega arith)) in
      let d0 : flag entry 2 ≡ x % 2 = omega (arith, digit 2 (omega arith)) in
      rw (d2, d1, d0) (or_3_digits x (omega arith))

  pub join_2_share : join_2 entry 9 8 ≡ entry / 2 ^ 8 % 4
  join_2_share =
      join_2_of 9 8 (entry / 2 ^ 8 % 4) (omega arith) (omega (arith, digit 9 (omega arith)))
        (omega (arith, digit 8 (omega arith)))

  pub join_2_permission : join_2 entry 7 6 ≡ entry / 2 ^ 6 % 4
  join_2_permission =
      join_2_of 7 6 (entry / 2 ^ 6 % 4) (omega arith) (omega (arith, digit 7 (omega arith)))
        (omega (arith, digit 6 (omega arith)))

  pub join_2_type : join_2 entry 1 0 ≡ entry % 4
  join_2_type =
      join_2_of 1 0 (entry % 4) (omega arith) (omega (arith, digit 1 (omega arith)))
        (omega (arith, digit 0 (omega arith)))

  -- The number in the column PFN.
  pub frame_field_36 :
      entry < 2 ^ 64 → bit_and (entry / 2 ^ 12) (2 ^ 36 - 1) ≡ entry / 2 ^ 12 % 2 ^ 36
  frame_field_36 word = omega (arith, shr-field_mask 0 36 (entry / 2 ^ 12) (omega arith))

  pub frame_field_40 :
      entry < 2 ^ 64 → bit_and (entry / 2 ^ 12) (2 ^ 40 - 1) ≡ entry / 2 ^ 12 % 2 ^ 40
  frame_field_40 word = omega (arith, shr-field_mask 0 40 (entry / 2 ^ 12) (omega arith))
