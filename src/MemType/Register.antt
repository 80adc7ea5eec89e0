-- ===== src/MemType/Register.antt =====
-- `ptedit_set_mt` and `ptedit_get_mt`: one memory type in the register of all eight.
use native.Mathlib.Nat.{pow-le-pow_right, div-le_self}
use native.Mathlib.Decide.{dec_lt}
use pteditor_riscv.Base.{
  ℕ, ◌+◌, ◌*◌, ◌/◌, ◌%◌, ◌^◌, ◌≤◌, ◌<◌, ◌≡◌, ◌≢◌, arith, shl64, none, some, ◌⊎◌, ◌∙◌, sym, inl, inr,
}
use pteditor_riscv.Bits.{
  replace_field, field-replace_field, field-replace_field_other, shr-field_mask, bit_or-lt,
  bit_and-lt, field_mask,
}
use pteditor_riscv.Entry.{Arch, x86_64, aarch64}
use pteditor_riscv.MemType.{MtsAccess, int_shl, mt_mask, mt_of, get_mt, set_mt}

-- The value of `ptedit_get_mts` is a `size_t`.
pub record IsRegister {S : Type 0} (access : MtsAccess S) : Type 0 where
  pub word : (s : S) → access.get_mts s < 2 ^ 64

-- The width of one memory type.
abbrev pub mt_bits : Arch → ℕ
mt_bits x86_64 = 3
mt_bits aarch64 = 8

-- How many memory types `ptedit_set_mt` can reach with the mask that it shifts as an `int`.
abbrev pub reachable : Arch → ℕ
reachable x86_64 = 4
reachable aarch64 = 3

shifted-lt : (mts mt : ℕ) → mts < 2 ^ 64 → mts / 2 ^ (mt * 8) < 2 ^ 64
shifted-lt mts mt fits = omega (arith, div-le_self mts (2 ^ (mt * 8)))

pub mt_of_field :
    (arch : Arch) (mts mt : ℕ)
    → mts < 2 ^ 64
    → mt_of arch mts mt ≡ mts / 2 ^ (mt * 8) % 2 ^ mt_bits arch
unfolding mt_of
mt_of_field x86_64 mts mt fits =
    omega (arith, shr-field_mask 0 3 (mts / 2 ^ (mt * 8)) (shifted-lt mts mt fits))
mt_of_field aarch64 mts mt fits =
    omega (arith, shr-field_mask 0 8 (mts / 2 ^ (mt * 8)) (shifted-lt mts mt fits))

pow_eight-le : (mt k : ℕ) → mt ≤ k → 2 ^ (mt * 8) ≤ 2 ^ (k * 8)
pow_eight-le mt k h = pow-le-pow_right (omega arith) {j = k * 8} (omega arith)

int_shl-reachable :
    (arch : Arch) (mt : ℕ)
    → mt < reachable arch
    → int_shl (mt_mask arch) (mt * 8) ≡ some (field_mask (mt * 8) (mt_bits arch))
unfolding int_shl
int_shl-reachable x86_64 mt h = ground (arith, pow_eight-le mt 3)
int_shl-reachable aarch64 mt h = ground (arith, pow_eight-le mt 2)

int_shl-unreachable :
    (arch : Arch) (mt : ℕ) → reachable arch ≤ mt → int_shl (mt_mask arch) (mt * 8) ≡ none
unfolding int_shl
int_shl-unreachable x86_64 mt h = ground arith
int_shl-unreachable aarch64 mt h = ground (arith, pow_eight-le 3 mt)

mt_bits-le : (arch : Arch) → mt_bits arch ≤ 8
mt_bits-le x86_64 = omega arith
mt_bits-le aarch64 = omega arith

mask_fits :
    (arch : Arch) (mt : ℕ) → mt < reachable arch → field_mask (mt * 8) (mt_bits arch) < 2 ^ 31
mask_fits x86_64 mt h = omega (arith, pow_eight-le mt 3 (omega arith))
mask_fits aarch64 mt h = omega (arith, pow_eight-le mt 2 (omega arith))

value_fits :
    (arch : Arch) (mt value : ℕ)
    → mt < reachable arch
    → value < 2 ^ mt_bits arch
    → value * 2 ^ (mt * 8) < 2 ^ 64
value_fits x86_64 mt value h small = grind (arith, pow_eight-le mt 3)
value_fits aarch64 mt value h small = grind (arith, pow_eight-le mt 2)

module _ {S : Type 0} (access : MtsAccess S) (register : IsRegister access) (arch : Arch) where
  -- The value that `ptedit_set_mt` passes to `ptedit_set_mts`.
  programmed : S → ℕ → ℕ → ℕ
  programmed s mt value = replace_field (mt * 8) (mt_bits arch) (access.get_mts s) value

  set_mt_programs :
      (s : S) (mt value : ℕ)
      → mt < reachable arch
      → value < 2 ^ mt_bits arch
      → set_mt arch access s mt value ≡ some (access.set_mts s (programmed s mt value))
  unfolding set_mt programmed
  set_mt_programs s mt value h small =
      let kept : shl64 value (mt * 8) ≡ value * 2 ^ (mt * 8) =
        omega (arith, value_fits arch mt value h small) in
      rw (int_shl-reachable arch mt h, set_mt) (rw kept)

  programmed-lt :
      (s : S) (mt value : ℕ)
      → mt < reachable arch
      → value < 2 ^ mt_bits arch
      → programmed s mt value < 2 ^ 64
  unfolding programmed
  programmed-lt s mt value h small =
      bit_or-lt 64 _ _ (bit_and-lt 64 _ _ (register.word s)) (value_fits arch mt value h small)

  apart_of_ne :
      (mt other : ℕ)
      → mt ≢ other
      → (other * 8 + mt_bits arch ≤ mt * 8) ⊎ (mt * 8 + mt_bits arch ≤ other * 8)
  apart_of_ne mt other ne = ground (arith, mt_bits-le arch)

  programmed_field :
      (s : S) (mt value other : ℕ)
      → mt < reachable arch
      → value < 2 ^ mt_bits arch
      → mt_of arch (programmed s mt value) other
        ≡ programmed s mt value / 2 ^ (other * 8) % 2 ^ mt_bits arch
  programmed_field s mt value other h small =
      mt_of_field arch (programmed s mt value) other (programmed-lt s mt value h small)

  -- A value that has `value` at `mt`, and every other memory type as `ptedit_get_mt` reads it.
  abbrev pub HasSet : S → ℕ → ℕ → ℕ → Type 0
  HasSet s mt value mts =
      (mts < 2 ^ 64)
      × (mt_of arch mts mt ≡ value)
      × ((other : ℕ) → mt ≢ other → mt_of arch mts other ≡ get_mt arch access s other)

  programmed-HasSet :
      (s : S) (mt value : ℕ)
      → mt < reachable arch
      → value < 2 ^ mt_bits arch
      → HasSet s mt value (programmed s mt value)
  unfolding get_mt programmed
  programmed-HasSet s mt value h small =
      let mask_small : field_mask (mt * 8) (mt_bits arch) < 2 ^ 64 =
        omega (arith, mask_fits arch mt h) in
      (
        programmed-lt s mt value h small,
        programmed_field s mt value mt h small
            ∙ field-replace_field (mt * 8) (mt_bits arch) _ value mask_small (register.word s)
                small,
        λ other ne.
            programmed_field s mt value other h small
            ∙ field-replace_field_other (mt * 8) (mt_bits arch) _ value mask_small (register.word s)
                small (other * 8) (mt_bits arch) (apart_of_ne mt other ne)
            ∙ sym (mt_of_field arch (access.get_mts s) other (register.word s)),
      )

  pub set_mt_undefined :
      (s : S) (mt value : ℕ) → reachable arch ≤ mt → set_mt arch access s mt value ≡ none
  unfolding set_mt
  set_mt_undefined s mt value h = rw (int_shl-unreachable arch mt h, set_mt)

  -- For a memory type that the shifted mask reaches (0 to 3 on x86, 0 to 2 on ARM) and a value
  -- of its width, `ptedit_set_mt` passes a word to `ptedit_set_mts` that has the value there, and
  -- every other memory type as `ptedit_get_mt` reads it, where `ptedit_get_mts` returns a
  -- `size_t`. For every other memory type it has no defined result: the mask is shifted as an
  -- `int`, out of its range.
  pub set_mt_lem :
      (s : S) (mt value : ℕ)
      → value < 2 ^ mt_bits arch
      → ((mt < reachable arch)
          × ((mts : ℕ) × (set_mt arch access s mt value ≡ some (access.set_mts s mts))
              × HasSet s mt value mts))
        ⊎ (reachable arch ≤ mt) × (set_mt arch access s mt value ≡ none)
  set_mt_lem s mt value small = elim (dec_lt mt (reachable arch)) [
    | yes h ↦
        let programs = set_mt_programs s mt value h small in
        inl (h, (programmed s mt value, programs, programmed-HasSet s mt value h small))
    | no h ↦
        let above : reachable arch ≤ mt = omega arith in
        inr (above, set_mt_undefined s mt value above)
  ]
