-- ===== src/MemType/Name/Bound.antt =====
-- What `ptedit_mt_to_string` returns, and that it stays within its buffer.
use pteditor_riscv.Base.{
  ℕ, ◌+◌, ◌/◌, ◌%◌, ◌^◌, ◌≤◌, ◌<◌, ◌≡◌, refl, arith, Bool, true, false, bit_and, ◌==◌,
  if◌then◌else◌, List, [], ◌∷◌, ◌++◌,
}
use pteditor_riscv.Bits.{shr-field_mask}
use pteditor_riscv.Entry.{aarch64}
use pteditor_riscv.MemType.Name.{
  text, length, strcat, attribute_name, reset_if, name_round, mt_to_string,
}

attribute_name-length : (a : ℕ) → length (attribute_name a) ≡ 2
unfolding attribute_name
attribute_name-length a = ground arith

length-append : (xs ys : List ℕ) → length (xs ++ ys) ≡ length xs + length ys
length-append [] ys = omega arith
length-append (x ∷ xs) ys = omega (arith, length-append xs ys)

-- The name of a byte of MAIR from its outer attribute (the high half) and its inner one.
abbrev pub mair_name : ℕ → ℕ → List ℕ
mair_name high low =
    if low == high
    then attribute_name high
    else (b'I' ∷ attribute_name low) ++ (b'O' ∷ attribute_name high)

nibbles : (mt : ℕ) → mt < 256 → (bit_and mt 0xf ≡ mt % 16) × (bit_and (mt / 2 ^ 4) 0xf ≡ mt / 16)
nibbles mt h = (
  omega (arith, shr-field_mask 0 4 mt (omega arith)),
  omega (arith, shr-field_mask 0 4 (mt / 16) (omega arith)),
)

rounds_of_pairs :
    (same : Bool) (a b c d : ℕ)
    → strcat (c ∷ d ∷ []) (
        reset_if same
          (strcat (b'O' ∷ []) (strcat (a ∷ b ∷ []) (reset_if same (strcat (b'I' ∷ []) (text []))))))
      ≡ text (if same then c ∷ d ∷ [] else b'I' ∷ a ∷ b ∷ b'O' ∷ c ∷ d ∷ [])
unfolding strcat reset_if
rounds_of_pairs true a b c d = refl
rounds_of_pairs false a b c d = refl

two_chars : (a : ℕ) → (c : ℕ) × (d : ℕ) × (attribute_name a ≡ c ∷ d ∷ [])
two_chars a = pair_of (attribute_name a) (attribute_name-length a)
  where
    pair_of : (xs : List ℕ) → length xs ≡ 2 → (c : ℕ) × (d : ℕ) × (xs ≡ c ∷ d ∷ [])
    pair_of [] h = absurd (omega arith)
    pair_of (a ∷ []) h = absurd (omega arith)
    pair_of (a ∷ b ∷ []) h = (a, b, refl)
    pair_of (a ∷ b ∷ c ∷ xs) h = absurd (omega arith)

rounds :
    (low high : ℕ) (same : Bool)
    → strcat (attribute_name high) (
        reset_if same (
          strcat
            (b'O' ∷ [])
            (strcat (attribute_name low) (reset_if same (strcat (b'I' ∷ []) (text []))))))
      ≡ text (
          if same
          then attribute_name high
          else (b'I' ∷ attribute_name low) ++ (b'O' ∷ attribute_name high))
rounds low high same =
    let (a, b, ab) = two_chars low in
    let (c, d, cd) = two_chars high in rw (ab, cd) (rounds_of_pairs same a b c d)

mair_name-length : (high low : ℕ) → length (mair_name high low) ≤ 6
mair_name-length high low =
    let (a, b, ab) = two_chars low in let (c, d, cd) = two_chars high in rw (ab, cd) (ground arith)

-- `ptedit_mt_to_string` of a byte on ARM: the name of both halves if they are equal, and otherwise
-- `I` with the name of the low half and `O` with the name of the high half. The static buffer
-- never overflows, and the name has at most six characters.
pub mt_to_string_lem :
    (mt : ℕ)
    → mt < 256
    → (mt_to_string aarch64 mt ≡ text (mair_name (mt / 16) (mt % 16)))
      × (length (mair_name (mt / 16) (mt % 16)) ≤ 6)
unfolding mt_to_string name_round
mt_to_string_lem mt byte =
    let (low, high) = nibbles mt byte in
    let whole : mt / 2 ^ 0 ≡ mt = omega arith in
    (
      rw (whole, low, high) (rounds (mt % 16) (mt / 16) (mt % 16 == mt / 16)),
      mair_name-length (mt / 16) (mt % 16),
    )
