-- ===== src/MemType/Select.antt =====
-- The memory type that an entry selects: applied, extracted, and the other bits kept.
use pteditor_riscv.Base.{
  ℕ, zero, suc, ◌+◌, ◌*◌, ◌/◌, ◌%◌, ◌^◌, ◌≤◌, ◌<◌, ◌≡◌, ◌≢◌, refl, arith, ◌==◌, if◌then◌else◌,
  bit_and, bit_or, not64, shl64, shr64, Bool, false, ◌||◌, inl, inr, ap, ◌∙◌, max,
}
use pteditor_riscv.Bits.{
  bit_at, bit_at-le, bit_at-cases, bit_at-and, bit_at-or, bit_at-not64, bit_at-one_shl64,
  bit_at-set, bit_and-pow, test_bit, bit_at_above, shr-field_mask, bit_and-lt, bit_or-lt,
  replace_field, field-replace_field, bit_at-replace_field, in_field,
}
use pteditor_riscv.Entry.{Arch, x86_64, aarch64}
use pteditor_riscv.MemType.{
  apply_mt_bits, apply_mair, apply_mt, apply_mt_huge, extract_mt_bits, extract_mt, extract_mt_huge,
  page_bit_pat, page_bit_pat_large,
}

-- Three flags joined by `|` are a number below 8.
or_three :
    (a b c : ℕ) → a ≤ 1 → b ≤ 1 → c ≤ 1 → bit_or (bit_or a (b * 2)) (c * 4) ≡ a + b * 2 + c * 4
or_three zero zero zero ha hb hc = refl
or_three zero zero (suc zero) ha hb hc = refl
or_three zero (suc zero) zero ha hb hc = refl
or_three zero (suc zero) (suc zero) ha hb hc = refl
or_three (suc zero) zero zero ha hb hc = refl
or_three (suc zero) zero (suc zero) ha hb hc = refl
or_three (suc zero) (suc zero) zero ha hb hc = refl
or_three (suc zero) (suc zero) (suc zero) ha hb hc = refl
or_three (suc (suc a)) b c ha hb hc = absurd (omega arith)
or_three a (suc (suc b)) c ha hb hc = absurd (omega arith)
or_three a b (suc (suc c)) ha hb hc = absurd (omega arith)

-- One conditional `entry |= 1 << k`, on digit `j` of `mt`.
or_if_digit :
    (e mt j m k i : ℕ)
    → bit_and mt m ≡ bit_at mt j * m
    → 0 < m
    → k < 64
    → bit_at (if bit_and mt m == 0 then e else bit_or e (shl64 1 k)) i
      ≡ (if k == i then max (bit_at mt j) (bit_at e i) else bit_at e i)
or_if_digit e mt j m k i digit pos small = elim (bit_at-cases mt j) [
  | inl zero_digit ↦
      let none_left : bit_and mt m ≡ 0 = omega (arith, digit, ap (λ (t : ℕ). t * m) zero_digit) in
      ground (arith, none_left, zero_digit)
  | inr one_digit ↦
      let all_left : bit_and mt m ≡ m = omega (arith, digit, ap (λ (t : ℕ). t * m) one_digit) in
      ground (arith, all_left, one_digit, bit_at-set e k i small, bit_at-le e i)
]

three_flags_digit :
    (pat i : ℕ)
    → pat < 64
    → bit_at (bit_or (bit_or (shl64 1 3) (shl64 1 4)) (shl64 1 pat)) i
      ≡ (if 3 == i || 4 == i || pat == i then 1 else 0)
three_flags_digit pat i small = ground (
  arith,
  bit_at-or (bit_or (shl64 1 3) (shl64 1 4)) (shl64 1 pat) i,
  bit_at-or (shl64 1 3) (shl64 1 4) i,
  bit_at-one_shl64 3 i (omega arith),
  bit_at-one_shl64 4 i (omega arith),
  bit_at-one_shl64 pat i small,
)

abbrev three_flags : ℕ → ℕ
three_flags pat = bit_or (bit_or (shl64 1 3) (shl64 1 4)) (shl64 1 pat)

three_flags-lt : (pat : ℕ) → three_flags pat < 2 ^ 64
three_flags-lt pat = bit_or-lt 64 _ _ (omega arith) (omega arith)

cleared_digit :
    (pat entry i : ℕ)
    → entry < 2 ^ 64
    → pat < 64
    → bit_at (bit_and entry (not64 (three_flags pat))) i
      ≡ (if 3 == i || 4 == i || pat == i then 0 else bit_at entry i)
cleared_digit pat entry i fits small = ground (
  arith,
  bit_at-and entry (not64 (three_flags pat)) i,
  bit_at-not64 (three_flags pat) i (three_flags-lt pat),
  three_flags_digit pat i small,
  bit_at_above entry 64 i fits,
  bit_at-le entry i,
)

module _ (pat entry mt : ℕ) (fits : entry < 2 ^ 64) (small : pat < 64) (ne_pwt : 3 ≢ pat)
    (ne_pcd : 4 ≢ pat) where
  -- The flags take the digits of `mt`, and every other digit is kept.
  apply_mt_bits_digit :
      (i : ℕ)
      → bit_at (apply_mt_bits pat entry mt) i ≡ (
          if 3 == i
          then bit_at mt 0
          else if 4 == i
          then bit_at mt 1
          else if pat == i
          then bit_at mt 2
          else bit_at entry i)
  unfolding apply_mt_bits
  apply_mt_bits_digit i =
      let cleared = bit_and entry (not64 (three_flags pat)) in
      let with_pwt = if bit_and mt 1 == 0 then cleared else bit_or cleared (shl64 1 3) in
      let with_pcd = if bit_and mt 2 == 0 then with_pwt else bit_or with_pwt (shl64 1 4) in
      rw
        (
          or_if_digit with_pcd mt 2 4 pat i (bit_and-pow mt 2) (omega arith) small,
          or_if_digit with_pwt mt 1 2 4 i (bit_and-pow mt 1) (omega arith) (omega arith),
          or_if_digit cleared mt 0 1 3 i (bit_and-pow mt 0) (omega arith) (omega arith),
          cleared_digit pat entry i fits small,
        )
        (ground arith)

extract_mt_bits_digits :
    (pat entry : ℕ)
    → pat < 64
    → extract_mt_bits pat entry ≡ bit_at entry 3 + bit_at entry 4 * 2 + bit_at entry pat * 4
unfolding extract_mt_bits
extract_mt_bits_digits pat entry small =
    rw (test_bit entry 3 (omega arith), test_bit entry 4 (omega arith), test_bit entry pat small)
      (or_three (bit_at entry 3) (bit_at entry 4) (bit_at entry pat) (bit_at-le entry 3)
        (bit_at-le entry 4) (bit_at-le entry pat))

low_three : (mt : ℕ) → bit_at mt 0 + bit_at mt 1 * 2 + bit_at mt 2 * 4 ≡ mt % 8
unfolding bit_at
low_three mt = omega arith

extract-apply_mt_bits :
    (pat entry mt : ℕ)
    → entry < 2 ^ 64
    → pat < 64
    → 4 < pat
    → extract_mt_bits pat (apply_mt_bits pat entry mt) ≡ mt % 8
extract-apply_mt_bits pat entry mt fits small high = ground (
  arith,
  extract_mt_bits_digits pat (apply_mt_bits pat entry mt) small,
  apply_mt_bits_digit pat entry mt fits small (omega arith) (omega arith) 3,
  apply_mt_bits_digit pat entry mt fits small (omega arith) (omega arith) 4,
  apply_mt_bits_digit pat entry mt fits small (omega arith) (omega arith) pat,
  low_three mt,
)

and_seven : (x : ℕ) → x < 2 ^ 64 → bit_and x 7 ≡ x % 8
and_seven x fits = omega (arith, shr-field_mask 0 3 x fits)

apply_mair_field :
    (entry mt : ℕ) → mt < 2 ^ 64 → apply_mair entry mt ≡ replace_field 2 3 entry (mt % 8)
unfolding apply_mair
apply_mair_field entry mt fits = rw (and_seven mt fits)

mair-lt : (mt : ℕ) → mt % 8 < 2 ^ 3
mair-lt mt = omega arith

extract-apply_mair :
    (entry mt : ℕ)
    → entry < 2 ^ 64
    → mt < 2 ^ 64
    → bit_and (shr64 (apply_mair entry mt) 2) 7 ≡ mt % 8
extract-apply_mair entry mt fits small =
    let placed = field-replace_field 2 3 entry (mt % 8) (omega arith) fits (mair-lt mt) in
    let word : replace_field 2 3 entry (mt % 8) < 2 ^ 64 =
      bit_or-lt 64 _ _ (bit_and-lt 64 entry _ fits) (omega arith) in
    rw (apply_mair_field entry mt small)
      (and_seven (replace_field 2 3 entry (mt % 8) / 2 ^ 2) (omega arith) ∙ placed)

-- The bits of an entry that select the memory type.
abbrev pub selects : Arch → ℕ → ℕ → Bool
selects x86_64 pat i = 3 == i || 4 == i || pat == i
selects aarch64 pat i = in_field 2 3 i

apply_mair_kept :
    (entry mt i : ℕ)
    → entry < 2 ^ 64
    → mt < 2 ^ 64
    → in_field 2 3 i ≡ false
    → bit_at (apply_mair entry mt) i ≡ bit_at entry i
apply_mair_kept entry mt i fits small out =
    rw (apply_mair_field entry mt small)
      (ground (arith, bit_at-replace_field 2 3 entry (mt % 8) (omega arith) fits (mair-lt mt) i))

pub extract_mt-apply_mt :
    (arch : Arch) (entry mt : ℕ)
    → entry < 2 ^ 64
    → mt < 256
    → (extract_mt arch (apply_mt arch entry mt) ≡ mt % 8)
      × ((i : ℕ)
          → selects arch page_bit_pat i ≡ false
          → bit_at (apply_mt arch entry mt) i ≡ bit_at entry i)
unfolding apply_mt extract_mt
extract_mt-apply_mt x86_64 entry mt fits small = (
  extract-apply_mt_bits 7 entry mt fits (omega arith) (omega arith),
  λ i out.
      ground
        (arith, apply_mt_bits_digit 7 entry mt fits (omega arith) (omega arith) (omega arith) i),
)
extract_mt-apply_mt aarch64 entry mt fits small = (
  extract-apply_mair entry mt fits (omega arith),
  λ i out. apply_mair_kept entry mt i fits (omega arith) out,
)

pub extract_mt_huge-apply_mt_huge :
    (arch : Arch) (entry mt : ℕ)
    → entry < 2 ^ 64
    → mt < 256
    → (extract_mt_huge arch (apply_mt_huge arch entry mt) ≡ mt % 8)
      × ((i : ℕ)
          → selects arch page_bit_pat_large i ≡ false
          → bit_at (apply_mt_huge arch entry mt) i ≡ bit_at entry i)
unfolding apply_mt_huge extract_mt_huge
extract_mt_huge-apply_mt_huge x86_64 entry mt fits small = (
  extract-apply_mt_bits 12 entry mt fits (omega arith) (omega arith),
  λ i out.
      ground
        (arith, apply_mt_bits_digit 12 entry mt fits (omega arith) (omega arith) (omega arith) i),
)
extract_mt_huge-apply_mt_huge aarch64 entry mt fits small = (
  extract-apply_mair entry mt fits (omega arith),
  λ i out. apply_mair_kept entry mt i fits (omega arith) out,
)

-- A bit that is set or not keeps a word a word.
or_if-lt : (c : Bool) (x k : ℕ) → x < 2 ^ 64 → (if c then x else bit_or x (shl64 1 k)) < 2 ^ 64
or_if-lt c x k h =
    let fits : shl64 1 k < 2 ^ 64 = omega arith in ground (arith, bit_or-lt 64 x (shl64 1 k) h fits)

apply_mt_bits-lt : (pat entry mt : ℕ) → entry < 2 ^ 64 → apply_mt_bits pat entry mt < 2 ^ 64
unfolding apply_mt_bits
apply_mt_bits-lt pat entry mt h =
    or_if-lt (bit_and mt 4 == 0) _ pat (
      or_if-lt (bit_and mt 2 == 0) _ 4 (or_if-lt (bit_and mt 1 == 0) _ 3 (bit_and-lt 64 entry _ h)))

apply_mair-lt : (entry mt : ℕ) → entry < 2 ^ 64 → mt < 256 → apply_mair entry mt < 2 ^ 64
unfolding apply_mair
apply_mair-lt entry mt h small =
    bit_or-lt 64 _ _ (bit_and-lt 64 entry _ h) (omega (arith, and_seven mt (omega arith)))

pub apply_mt-lt :
    (arch : Arch) (entry mt : ℕ) → entry < 2 ^ 64 → mt < 256 → apply_mt arch entry mt < 2 ^ 64
unfolding apply_mt
apply_mt-lt x86_64 entry mt h small = apply_mt_bits-lt 7 entry mt h
apply_mt-lt aarch64 entry mt h small = apply_mair-lt entry mt h small

pub apply_mt_huge-lt :
    (arch : Arch) (entry mt : ℕ) → entry < 2 ^ 64 → mt < 256 → apply_mt_huge arch entry mt < 2 ^ 64
unfolding apply_mt_huge
apply_mt_huge-lt x86_64 entry mt h small = apply_mt_bits-lt 12 entry mt h
apply_mt_huge-lt aarch64 entry mt h small = apply_mair-lt entry mt h small

-- After a memory type was applied to an entry, by `ptedit_apply_mt` or (for a huge page, whose third
-- bit on x86 is bit 12) by `ptedit_apply_mt_huge`: the low three bits of that type are extracted
-- from it, and every bit that selects no memory type is as it was.
pub extract-apply :
    (arch : Arch) (entry mt : ℕ)
    → entry < 2 ^ 64
    → mt < 256
    → (extract_mt arch (apply_mt arch entry mt) ≡ mt % 8)
      × ((i : ℕ)
          → selects arch page_bit_pat i ≡ false
          → bit_at (apply_mt arch entry mt) i ≡ bit_at entry i)
      × (extract_mt_huge arch (apply_mt_huge arch entry mt) ≡ mt % 8)
      × ((i : ℕ)
          → selects arch page_bit_pat_large i ≡ false
          → bit_at (apply_mt_huge arch entry mt) i ≡ bit_at entry i)
extract-apply arch entry mt fits small =
    let (read, kept) = extract_mt-apply_mt arch entry mt fits small in
    let (read_huge, kept_huge) = extract_mt_huge-apply_mt_huge arch entry mt fits small in
    (read, kept, read_huge, kept_huge)
