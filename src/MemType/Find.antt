-- ===== src/MemType/Find.antt =====
-- `ptedit_find_mt` and `ptedit_find_first_mt`: which memory types have a value.
use native.Mathlib.Nat.{pow-suc, div-le_self, one-le-pow}
use native.Mathlib.Numerals.{towards_suc}
use pteditor_riscv.Base.{
  ℕ, zero, suc, ◌+◌, ◌-◌, ◌*◌, ◌/◌, ◌%◌, ◌^◌, ◌≤◌, ◌<◌, ◌≡◌, refl, arith, ◌==◌, if◌then◌else◌,
  bit_and, bit_or, none, some, ◌⊎◌, inl, inr, ◌↔◌, true, ◌&&◌, ltb, leb, u8,
}
use pteditor_riscv.Bits.{
  bit_at, bit_at-le, bit_at-or, bit_at-mod, bit_at-pow_self, bit_at-pow_ne, bit_at_above,
  bit_and-pow, bit_or-lt, bit_at-cases, shr-field_mask,
}
use pteditor_riscv.Entry.{Arch, x86_64, aarch64}
use pteditor_riscv.MemType.Register.{IsRegister}
use pteditor_riscv.MemType.{
  mt_of, get_mt, MtsAccess, is_type, find_from, ffs_from, find_mt, find_first_mt,
}

module _ (arch : Arch) (mts type : ℕ) where
  find_from-lt : (left i found : ℕ) → found < 256 → find_from arch mts type left i found < 256
  unfolding find_from
  find_from-lt zero i found h = h
  find_from-lt (suc left) i found h = find_from-lt left (i + 1) _ (ground arith)

  abbrev round : ℕ → ℕ → ℕ
  round i found = if is_type arch mts type i then u8 (bit_or found (2 ^ i)) else found

  round_digit :
      (i found j : ℕ)
      → found < 2 ^ i
      → j < 8
      → bit_at (round i found) j
        ≡ (if i == j then (if is_type arch mts type j then 1 else 0) else bit_at found j)
  round_digit i found j h lt = ground (
    arith,
    bit_at-mod (bit_or found (2 ^ i)) 8 j lt,
    bit_at-or found (2 ^ i) j,
    bit_at-pow_self i,
    bit_at-pow_ne i j,
    bit_at_above found i j h,
    bit_at-le found j,
  )

  round-lt : (i found : ℕ) → found < 2 ^ i → round i found < 2 ^ (i + 1)
  round-lt i found h =
      let doubled : 2 ^ (i + 1) ≡ 2 ^ i * 2 = simp towards_suc (pow-suc 2 i) in
      let joined = bit_or-lt (i + 1) found (2 ^ i) (omega arith) (omega (arith, one-le-pow i 2)) in
      ground arith

  -- The rounds from `i` on decide the digits from `i` on, and keep the digits below.
  find_from_digit :
      (left i found j : ℕ)
      → found < 2 ^ i
      → j < 8
      → bit_at (find_from arch mts type left i found) j ≡ (
          if leb i j && ltb j (i + left)
          then (if is_type arch mts type j then 1 else 0)
          else bit_at found j)
  unfolding find_from
  find_from_digit zero i found j h lt = ground arith
  find_from_digit (suc left) i found j h lt =
      rw
        (
          find_from_digit left (i + 1) (round i found) j (round-lt i found h) lt,
          round_digit i found j h lt,
        )
        (ground arith)

ffs_from_none : (left i x j : ℕ) → ffs_from left i x ≡ 0 → j < left → bit_at x j ≡ 0
unfolding ffs_from bit_at
ffs_from_none zero i x j e h = elim h [ ]
ffs_from_none (suc left) i x zero e h = ground (arith, bit_and-pow x 0, bit_at-le x 0)
ffs_from_none (suc left) i x (suc j) e h =
    ground (arith, ffs_from_none left (i + 1) (x / 2) j, bit_and-pow x 0, bit_at-le x 0)

-- Bit `p - i` of `x` is its lowest set bit.
record IsLowest (i x p : ℕ) : Type 0 where
  from : i ≤ p
  is_set : bit_at x (p - i) ≡ 1
  lowest : (j : ℕ) → j < p - i → bit_at x j ≡ 0

IsLowest-here : (i x p : ℕ) → i + 1 ≡ suc p → bit_at x 0 ≡ 1 → IsLowest i x p
IsLowest-here i x p e one =
    let same : p - i ≡ 0 = omega arith in
    record { from = omega arith; is_set = rw same one; lowest = λ j h. absurd (omega arith) }

IsLowest-later : (i x p : ℕ) → bit_at x 0 ≡ 0 → IsLowest (i + 1) (x / 2) p → IsLowest i x p
unfolding bit_at
IsLowest-later i x p first rest =
    let shifted : p - i ≡ suc (p - (i + 1)) = omega (arith, rest.from) in
    record {
      from = omega (arith, rest.from);
      is_set = rw shifted rest.is_set;
      lowest = λ j h. below j (omega arith);
    }
  where
    below : (j : ℕ) → j < suc (p - (i + 1)) → bit_at x j ≡ 0
    below zero h = first
    below (suc j) h = rest.lowest j (omega arith)

ffs_from_some : (left i x p : ℕ) → ffs_from left i x ≡ suc p → IsLowest i x p
unfolding ffs_from
ffs_from_some zero i x p e = absurd (omega arith)
ffs_from_some (suc left) i x p e = elim (bit_at-cases x 0) [
  | inl first ↦
      let masked : bit_and x 1 ≡ 0 = omega (arith, bit_and-pow x 0) in
      IsLowest-later i x p first (ffs_from_some left (i + 1) (x / 2) p (ground arith))
  | inr first ↦
      let masked : bit_and x 1 ≡ 1 = omega (arith, bit_and-pow x 0) in
      IsLowest-here i x p (ground arith) first
]

-- When the value of a memory type counts as `type`: on ARM also if both of its halves are `type`.
abbrev pub HasType : Arch → ℕ → ℕ → Type 0
HasType x86_64 value type = value ≡ type
HasType aarch64 value type = (value ≡ type) ⊎ ((value % 16 ≡ type) × (value / 16 ≡ type))

halves :
    (y : ℕ)
    → y < 2 ^ 64
    → (bit_and y 0xf ≡ y % 16)
      × (bit_and (y / 2 ^ 4) 0xf ≡ y / 16 % 16)
      × (bit_and y 0xff ≡ y % 256)
halves y fits = (
  omega (arith, shr-field_mask 0 4 y fits),
  omega (arith, shr-field_mask 0 4 (y / 16) (omega arith)),
  omega (arith, shr-field_mask 0 8 y fits),
)

is_type_iff :
    (arch : Arch) (mts type i : ℕ)
    → mts < 2 ^ 64
    → (is_type arch mts type i ≡ true) ↔ HasType arch (mt_of arch mts i) type
unfolding is_type
is_type_iff x86_64 mts type i fits = ground arith
is_type_iff aarch64 mts type i fits =
    ground (arith, halves (mts / 2 ^ (i * 8)), div-le_self mts (2 ^ (i * 8)))

module _ {S : Type 0} (arch : Arch) (access : MtsAccess S) (register : IsRegister access) where
  open access use {get_mts}

  tested :
      (s : S) (type j : ℕ)
      → (is_type arch (get_mts s) type j ≡ true) ↔ HasType arch (get_mt arch access s j) type
  unfolding get_mt
  tested s type j = is_type_iff arch (get_mts s) type j (register.word s)

  find_mt_digit :
      (s : S) (type j : ℕ)
      → j < 8
      → bit_at (find_mt arch access s type) j ≡ (if is_type arch (get_mts s) type j then 1 else 0)
  unfolding find_mt
  find_mt_digit s type j h =
      ground (arith, find_from_digit arch (get_mts s) type 8 0 0 j (omega arith) h)

  find_mt-lt : (s : S) (type : ℕ) → find_mt arch access s type < 256
  unfolding find_mt
  find_mt-lt s type = find_from-lt arch (get_mts s) type 8 0 0 (omega arith)

  pub find_mt_lem :
      (s : S) (type : ℕ)
      → (find_mt arch access s type < 256)
        × ((j : ℕ)
            → j < 8
            → (bit_at (find_mt arch access s type) j ≡ 1)
              ↔ HasType arch (get_mt arch access s j) type)
  find_mt_lem s type = (
    find_mt-lt s type,
    λ j h.
        let digit = find_mt_digit s type j h in
        let test = tested s type j in
        (λ e. test.0 (ground arith), λ has. let passed = test.1 has in ground arith),
  )

  none_found :
      (s : S) (type j : ℕ)
      → j < 8
      → bit_at (find_mt arch access s type) j ≡ 0
      → ¬ HasType arch (get_mt arch access s j) type
  none_found s type j h zero_digit has =
      let one_digit : bit_at (find_mt arch access s type) j ≡ 1 =
        ((find_mt_lem s type).1 j h).1 has in
      omega arith

  pub find_first_mt_lem :
      (s : S) (type : ℕ)
      → ((find_first_mt arch access s type ≡ none)
          × ((j : ℕ) → j < 8 → ¬ HasType arch (get_mt arch access s j) type))
        ⊎ ((first : ℕ) × (find_first_mt arch access s type ≡ some first)
            × (first < 8)
            × HasType arch (get_mt arch access s first) type
            × ((j : ℕ) → j < first → ¬ HasType arch (get_mt arch access s j) type))
  unfolding find_first_mt
  find_first_mt_lem s type = from_lowest (ffs_from 32 0 (find_mt arch access s type)) refl
    where
      found : ℕ
      found = find_mt arch access s type

      from_lowest :
          (f : ℕ)
          → ffs_from 32 0 found ≡ f
          → ((find_first_mt arch access s type ≡ none)
              × ((j : ℕ) → j < 8 → ¬ HasType arch (get_mt arch access s j) type))
            ⊎ ((first : ℕ) × (find_first_mt arch access s type ≡ some first)
                × (first < 8)
                × HasType arch (get_mt arch access s first) type
                × ((j : ℕ) → j < first → ¬ HasType arch (get_mt arch access s j) type))
      from_lowest zero e =
          inl (
            ground arith,
            λ j h. none_found s type j h (ffs_from_none 32 0 found j e (omega arith)),
          )
      from_lowest (suc p) e =
          let low = ffs_from_some 32 0 found p e in
          let start : p - 0 ≡ p = omega arith in
          let is_set : bit_at found p ≡ 1 = rw start at low.is_set in
          let byte : p < 8 = ground (arith, bit_at_above found 8 p (find_mt-lt s type)) in
          inr (
            p,
            ground arith,
            byte,
            ((find_mt_lem s type).1 p byte).0 is_set,
            λ j h. none_found s type j (omega arith) (low.lowest j (rw start h)),
          )

  -- `ptedit_find_mt` returns a byte in which bit `j` is set exactly if the value that
  -- `ptedit_get_mt` reads for memory type `j` counts as `type`. `ptedit_find_first_mt` returns the
  -- lowest of the eight memory types that counts as `type`, or -1 if none of them does.
  pub find_mt-find_first_mt :
      (s : S) (type : ℕ)
      → (find_mt arch access s type < 256)
        × ((j : ℕ)
            → j < 8
            → (bit_at (find_mt arch access s type) j ≡ 1)
              ↔ HasType arch (get_mt arch access s j) type)
        × (((find_first_mt arch access s type ≡ none)
              × ((j : ℕ) → j < 8 → ¬ HasType arch (get_mt arch access s j) type))
            ⊎ ((first : ℕ) × (find_first_mt arch access s type ≡ some first)
                × (first < 8)
                × HasType arch (get_mt arch access s first) type
                × ((j : ℕ) → j < first → ¬ HasType arch (get_mt arch access s j) type)))
  find_mt-find_first_mt s type =
      let (byte, digits) = find_mt_lem s type in (byte, digits, find_first_mt_lem s type)
