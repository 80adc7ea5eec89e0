-- ===== src/Kernel/Pat.antt =====
-- `PTEDITOR_IOCTL_CMD_GET_PAT` of module/pteditor.c: the two halves of the register.
use pteditor_riscv.Base.{
  ℕ, ◌+◌, ◌-◌, ◌*◌, ◌/◌, ◌%◌, ◌^◌, ◌≤◌, ◌<◌, ◌≡◌, refl, sym, ap, ◌∙◌, arith, if◌then◌else◌, ltb,
  Bool-cases, inl, inr,
}
use pteditor_riscv.Bits.{
  bit_at, bit_at-le, bit_at-or, bit_at-mod, bit_at-shl, bit_at-shl_below, bit_at-shr,
  bit_at-complement, bit_at_above, bit_ext, bit_or-lt,
}
use pteditor_riscv.Kernel.Tlb.{sign_extend, join_halves}

-- The upper half of a word, put back in its place.
high_bit :
    (h i : ℕ)
    → i < 64
    → bit_at (h * 2 ^ 32 % 2 ^ 64) i ≡ (if ltb i 32 then 0 else bit_at h (i - 32))
high_bit h i below =
    ground (arith, bit_at-mod (h * 2 ^ 32) 64 i below, bit_at-shl h 32 i, bit_at-shl_below h 32 i)

sign_kept : (x : ℕ) → x < 2 ^ 32 → (i : ℕ) → i < 32 → bit_at (sign_extend x) i ≡ bit_at x i
unfolding sign_extend
sign_kept x h i below = elim (Bool-cases (ltb x (2 ^ 31))) [
  | inl e ↦ rw e refl
  | inr e ↦
      let low : (x + (2 ^ 64 - 2 ^ 32)) % 2 ^ 32 ≡ x = omega arith in
      rw e (sym (bit_at-mod (x + (2 ^ 64 - 2 ^ 32)) 32 i below) ∙ ap (λ y. bit_at y i) low)
]

sign_above :
    (x : ℕ)
    → x < 2 ^ 32
    → (i : ℕ) → 32 ≤ i
    → i < 64
    → bit_at (sign_extend x) i ≡ (if ltb x (2 ^ 31) then 0 else 1)
unfolding sign_extend
sign_above x h i above below = elim (Bool-cases (ltb x (2 ^ 31))) [
  | inl e ↦ rw e (bit_at_above x 32 i h above)
  | inr e ↦
      let flipped : x + (2 ^ 64 - 2 ^ 32) ≡ 2 ^ 64 - 1 - (2 ^ 32 - 1 - x) = omega arith in
      rw e (
        ap (λ y. bit_at y i) flipped
        ∙ bit_at-complement 64 (2 ^ 32 - 1 - x) i (omega arith) below
        ∙ ap (λ b. 1 - b) (bit_at_above (2 ^ 32 - 1 - x) 32 i (omega arith) above))
]

sign-lt : (x : ℕ) → x < 2 ^ 32 → sign_extend x < 2 ^ 64
unfolding sign_extend
sign-lt x h = ground arith

module _ (value : ℕ) (word : value < 2 ^ 64) where
  low_bit :
      (i : ℕ)
      → i < 64
      → bit_at (sign_extend (value % 2 ^ 32)) i
        ≡ (if ltb i 32 then bit_at value i else if ltb (value % 2 ^ 32) (2 ^ 31) then 0 else 1)
  low_bit i below = elim (Bool-cases (ltb i 32)) [
    | inl e ↦ rw e (
        sign_kept (value % 2 ^ 32) (omega arith) i (ground arith)
        ∙ bit_at-mod value 32 i (ground arith))
    | inr e ↦ rw e (sign_above (value % 2 ^ 32) (omega arith) i (ground arith) below)
  ]

  upper_bit :
      (i : ℕ)
      → i < 64
      → bit_at (sign_extend (value / 2 ^ 32 % 2 ^ 32) * 2 ^ 32 % 2 ^ 64) i
        ≡ (if ltb i 32 then 0 else bit_at value i)
  upper_bit i below = elim (Bool-cases (ltb i 32)) [
    | inl e ↦ high_bit _ i below ∙ (rw e refl)
    | inr e ↦
        high_bit _ i below
        ∙ (rw e (
            sign_kept (value / 2 ^ 32 % 2 ^ 32) (omega arith) (i - 32) (ground arith)
            ∙ bit_at-mod (value / 2 ^ 32) 32 (i - 32) (ground arith)
            ∙ bit_at-shr value 32 (i - 32)
            ∙ ap (bit_at value) (ground arith)))
  ]

  joined_bit :
      (i : ℕ)
      → i < 64
      → bit_at (join_halves value) i ≡ (
          if ltb (value % 2 ^ 32) (2 ^ 31)
          then bit_at value i
          else bit_at (sign_extend (value % 2 ^ 32)) i)
  unfolding join_halves
  joined_bit i below = ground (
    arith,
    bit_at-or (sign_extend (value % 2 ^ 32))
        (sign_extend (value / 2 ^ 32 % 2 ^ 32) * 2 ^ 32 % 2 ^ 64) i,
    low_bit i below,
    upper_bit i below,
    bit_at-le value i,
  )

  joined-lt : join_halves value < 2 ^ 64
  unfolding join_halves
  joined-lt = bit_or-lt 64 _ _ (sign-lt (value % 2 ^ 32) (omega arith)) (omega arith)

  -- `GET_PAT` passes the register on as it is where bit 31 is clear. Where it is set, the upper
  -- half is lost: it reads as ones.
  pub join_halves_lem :
      join_halves value
      ≡ (if ltb (value % 2 ^ 32) (2 ^ 31) then value else value % 2 ^ 32 + (2 ^ 64 - 2 ^ 32))
  unfolding sign_extend
  join_halves_lem = elim (Bool-cases (ltb (value % 2 ^ 32) (2 ^ 31))) [
    | inl e ↦ rw e (bit_ext 64 _ _ joined-lt word λ i h. joined_bit i h ∙ (rw e refl))
    | inr e ↦ rw e (bit_ext 64 _ _ joined-lt (omega arith) λ i h. joined_bit i h ∙ (rw e refl))
  ]
