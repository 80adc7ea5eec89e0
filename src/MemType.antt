-- ===== src/MemType.antt =====
-- ptedit.c, memory types: the PAT and MAIR registers and the bits of an entry that select one.
pub mod Register
pub mod Find
pub mod Select
pub mod Name
use pteditor_riscv.Base.{
  ℕ, zero, suc, ◌+◌, ◌-◌, ◌*◌, ◌^◌, Bool, true, ◌&&◌, Option, none, some, bit_and, bit_or, ◌==◌,
  ltb, if◌then◌else◌, not64, shl64, shr64, u8,
}
use pteditor_riscv.Entry.{Arch, x86_64, aarch64}

abbrev pub page_bit_pwt : ℕ
page_bit_pwt = 3

abbrev pub page_bit_pcd : ℕ
page_bit_pcd = 4

abbrev pub page_bit_pat : ℕ
page_bit_pat = 7

abbrev pub page_bit_pat_large : ℕ
page_bit_pat_large = 12

-- Reading and programming the register that holds all memory types (`ptedit_get_mts`,
-- `ptedit_set_mts`), over the state `S` of the system.
pub record MtsAccess (S : Type 0) : Type 0 where
  pub get_mts : S → ℕ
  pub set_mts : S → ℕ → S

-- `a << k` in `int`: undefined if the count is not below 32 or the result does not fit.
pub int_shl : ℕ → ℕ → Option ℕ
int_shl a k = if ltb k 32 && ltb (a * 2 ^ k) (2 ^ 31) then some (a * 2 ^ k) else none

-- The mask of one memory type in the register.
abbrev pub mt_mask : Arch → ℕ
mt_mask x86_64 = 7
mt_mask aarch64 = 0xff

-- `(mts >> (mt * 8)) & mask`
pub mt_of : Arch → ℕ → ℕ → ℕ
mt_of arch mts mt = bit_and (shr64 mts (mt * 8)) (mt_mask arch)

-- One round of the loop of `ptedit_find_mt`: does memory type `i` count as `type`?
pub is_type : Arch → ℕ → ℕ → ℕ → Bool
unfolding mt_of
is_type x86_64 mts type i = mt_of x86_64 mts i == type
is_type aarch64 mts type i =
    if mt_of aarch64 mts i == type
    then true
    else (let plow = bit_and (shr64 mts (i * 8)) 0xf in
        let phigh = bit_and (shr64 (shr64 mts (i * 8)) 4) 0xf in plow == phigh && plow == type)

-- The loop from round `i` on, with `left` rounds to go.
pub find_from : Arch → ℕ → ℕ → ℕ → ℕ → ℕ → ℕ
find_from arch mts type zero i found = found
find_from arch mts type (suc left) i found =
    find_from arch mts type left (i + 1)
      (if is_type arch mts type i then u8 (bit_or found (2 ^ i)) else found)

-- `__builtin_ffs`: one more than the number of the lowest set bit, 0 if there is none.
pub ffs_from : ℕ → ℕ → ℕ → ℕ
ffs_from zero i x = 0
ffs_from (suc left) i x = if bit_and x 1 == 1 then i + 1 else ffs_from left (i + 1) (shr64 x 1)

module _ {S : Type 0} (arch : Arch) (access : MtsAccess S) where
  open access use {get_mts, set_mts}

  pub get_mt : S → ℕ → ℕ
  get_mt s mt = mt_of arch (get_mts s) mt

  -- `none` is undefined behaviour: the mask is shifted as an `int`.
  pub set_mt : S → ℕ → ℕ → Option S
  set_mt s mt value = elim (int_shl (mt_mask arch) (mt * 8)) [
    | none ↦ none
    | some mask ↦
        some (set_mts s (bit_or (bit_and (get_mts s) (not64 mask)) (shl64 value (mt * 8))))
  ]

  pub find_mt : S → ℕ → ℕ
  find_mt s type = find_from arch (get_mts s) type 8 0 0

  -- The result -1 is `none`.
  pub find_first_mt : S → ℕ → Option ℕ
  find_first_mt s type =
      let first = ffs_from 32 0 (find_mt s type) in if first == 0 then none else some (first - 1)

-- The three `if (mt & ...)` of `ptedit_apply_mt`, over the bit that is set for 4.
apply_mt_bits : ℕ → ℕ → ℕ → ℕ
apply_mt_bits pat entry mt =
    let mask = bit_or (bit_or (shl64 1 page_bit_pwt) (shl64 1 page_bit_pcd)) (shl64 1 pat) in
    let cleared = bit_and entry (not64 mask) in
    let with_pwt = if bit_and mt 1 == 0 then cleared else bit_or cleared (shl64 1 page_bit_pwt) in
    let with_pcd = if bit_and mt 2 == 0 then with_pwt else bit_or with_pwt (shl64 1 page_bit_pcd) in
    if bit_and mt 4 == 0 then with_pcd else bit_or with_pcd (shl64 1 pat)

-- The ARM branch: `entry &= ~0x1c; entry |= (mt & 7) << 2`.
apply_mair : ℕ → ℕ → ℕ
apply_mair entry mt = bit_or (bit_and entry (not64 0x1c)) (bit_and mt 7 * 2 ^ 2)

pub apply_mt : Arch → ℕ → ℕ → ℕ
unfolding apply_mt_bits apply_mair
apply_mt x86_64 entry mt = apply_mt_bits page_bit_pat entry mt
apply_mt aarch64 entry mt = apply_mair entry mt

pub apply_mt_huge : Arch → ℕ → ℕ → ℕ
unfolding apply_mt_bits apply_mair
apply_mt_huge x86_64 entry mt = apply_mt_bits page_bit_pat_large entry mt
apply_mt_huge aarch64 entry mt = apply_mair entry mt

-- `!!(entry & (1ull << k))`
abbrev pub flag : ℕ → ℕ → ℕ
flag entry k = if bit_and entry (shl64 1 k) == 0 then 0 else 1

extract_mt_bits : ℕ → ℕ → ℕ
extract_mt_bits pat entry =
    bit_or (bit_or (flag entry page_bit_pwt) (flag entry page_bit_pcd * 2 ^ 1))
      (flag entry pat * 2 ^ 2)

pub extract_mt : Arch → ℕ → ℕ
unfolding extract_mt_bits
extract_mt x86_64 entry = extract_mt_bits page_bit_pat entry
extract_mt aarch64 entry = bit_and (shr64 entry 2) 7

pub extract_mt_huge : Arch → ℕ → ℕ
unfolding extract_mt_bits
extract_mt_huge x86_64 entry = extract_mt_bits page_bit_pat_large entry
extract_mt_huge aarch64 entry = bit_and (shr64 entry 2) 7
