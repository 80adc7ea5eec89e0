-- ===== src/Demos/ClearBits/Levels.antt =====
-- demos/clear_bits.c over a user-space implementation on x86: the bits at each level.
use pteditor_riscv.Base.{
  ℕ, ◌≡◌, refl, sym, ap, ◌∙◌, arith, subst, true, bit_or, bit_and, not64, shl64,
}
use pteditor_riscv.Entry.{Entry, has_level, valid_mask_pmd, valid_mask_pte}
use pteditor_riscv.Paging.{Indices, split_address}
use pteditor_riscv.Print.PageBit.{accessed}
use pteditor_riscv.Pte.{set_bit, clear_bit}
use pteditor_riscv.Pte.User.{user_backend}
use pteditor_riscv.Pte.Levels.{resolve-set_bit-clear_bit}
use pteditor_riscv.Pte.Levels.Kept.{IsKeeping, IsFree, set-IsKeeping, clear-IsKeeping}
use pteditor_riscv.Pte.Levels.Steps.{
  definition, x86_library, edited, edited-IsStable, edited-IsWords,
}
use pteditor_riscv.Walk.{Library, System, root_of, resolve_user_ext}
use pteditor_riscv.Walk.Memory.{IsMemory, Slots, slots_of, IsSeparate, IsStable, IsWords}
use pteditor_riscv.Walk.Reached.{resolve_reached}
use pteditor_riscv.Demos.ClearBits.{three_levels, clear_bits}

slots_same :
    (lib : Library) (root : ℕ) (ix : Indices) (e e' : Entry)
    → IsStable lib e e'
    → slots_of lib root ix e' ≡ slots_of lib root ix e
slots_same lib root ix e e' stable =
    rw (stable.pgd_table, stable.p4d_table, stable.pud_table, stable.pmd_table) refl

accessed-IsFree : IsFree accessed
accessed-IsFree = record {
  positive = omega arith;
  other_than_size = omega arith;
  outside = ground arith;
  below = omega arith;
}

-- The two changes of an entry.
abbrev pub with_accessed : ℕ → ℕ
with_accessed v = bit_or v (shl64 1 accessed)

abbrev pub without_accessed : ℕ → ℕ
without_accessed v = bit_and v (not64 (shl64 1 accessed))

module _ {M : Type 0} (sys : System M) (root : ℕ) (usable : ℕ → Type 0)
    (memory : IsMemory sys usable) (addr : ℕ) where
  abbrev lib : Library
  lib = x86_library root

  abbrev found : M → Entry
  found m = resolve_user_ext sys lib m addr 0

  abbrev slots : M → Slots
  slots m = slots_of lib (root_of sys lib m 0) (split_address definition addr) (found m)

  -- The walk to the address reaches a page-table entry, through usable and disjoint slots, and its
  -- entries are words.
  pub record IsWalked (m : M) : Type 0 where
    pub reached : has_level (found m).valid valid_mask_pte ≡ true
    pub words : IsWords (found m)
    pub separate : IsSeparate usable definition (slots m)

  -- A change that keeps what the walk reads keeps all that.
  edited-IsWalked :
      (m m1 : M) (edit : ℕ → ℕ) (levels : ℕ)
      → IsWalked m
      → IsKeeping edit
      → found m1 ≡ edited edit levels (found m)
      → IsWalked m1
  unfolding root_of
  edited-IsWalked m m1 edit levels walked keep found_1 =
      let mapped = (resolve_reached sys lib m addr 0 walked.reached).1 in
      let ix = split_address definition addr in
      let stable =
        edited-IsStable edit keep root levels (sys.deref m) (root_of sys lib m 0) ix (found m)
          mapped walked.words in
      let same : slots m1 ≡ slots m =
        ap (slots_of lib (root_of sys lib m 0) ix) found_1
        ∙ slots_same lib (root_of sys lib m 0) ix (found m) (edited edit levels (found m)) stable in
      record {
        reached = ap (λ (z : Entry). has_level z.valid valid_mask_pte) found_1 ∙ walked.reached;
        words =
            subst IsWords (sym found_1) (edited-IsWords edit keep levels (found m) walked.words);
        separate = subst (IsSeparate usable definition) (sym same) walked.separate;
      }

  after_set :
      (m : M) (levels : ℕ)
      → IsWalked m
      → found (set_bit (user_backend sys lib) definition addr 0 accessed levels m)
        ≡ edited with_accessed levels (found m)
  after_set m levels walked =
      (resolve-set_bit-clear_bit sys root usable memory m addr 0 levels walked.reached walked.words
        walked.separate accessed accessed-IsFree).0

  after_clear :
      (m : M) (levels : ℕ)
      → IsWalked m
      → found (clear_bit (user_backend sys lib) definition addr 0 accessed levels m)
        ≡ edited without_accessed levels (found m)
  after_clear m levels walked =
      (resolve-set_bit-clear_bit sys root usable memory m addr 0 levels walked.reached walked.words
        walked.separate accessed accessed-IsFree).1

  -- With a user-space implementation on x86, where the walk to the address reaches a page-table
  -- entry, through usable and disjoint slots, and its entries are words: the entries that
  -- demos/clear_bits.c prints first are those of the start without the accessed bit at three
  -- levels, those that it prints next have the bit at these levels; and its last call, which its
  -- comment announces as clearing the bit of the PMD, sets it.
  pub clear_bits_lem :
      (m : M)
      → IsWalked m
      → let printed = clear_bits (user_backend sys lib) definition addr m in
        (printed.cleared ≡ edited without_accessed three_levels (found m))
        × (printed.set ≡ edited with_accessed three_levels printed.cleared)
        × (found printed.state ≡ edited with_accessed valid_mask_pmd printed.set)
  unfolding clear_bits user_backend
  clear_bits_lem m walked =
      let m1 = clear_bit (user_backend sys lib) definition addr 0 accessed three_levels m in
      let first = after_clear m three_levels walked in
      let walked_1 =
        edited-IsWalked m m1 without_accessed three_levels walked
          (clear-IsKeeping accessed accessed-IsFree) first in
      let m2 = set_bit (user_backend sys lib) definition addr 0 accessed three_levels m1 in
      let second = after_set m1 three_levels walked_1 in
      let walked_2 =
        edited-IsWalked m1 m2 with_accessed three_levels walked_1
          (set-IsKeeping accessed accessed-IsFree) second in
      (first, second, after_set m2 valid_mask_pmd walked_2)
