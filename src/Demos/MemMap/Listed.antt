-- ===== src/Demos/MemMap/Listed.antt =====
-- Which lines a loop of demos/memmap.c adds to the output.
use Prim.Native.String.{String}
use pteditor_riscv.Base.{
  ℕ, zero, suc, ◌-◌, ◌≡◌, refl, arith, Bool, true, false, ◌||◌, ◌<◌, List, [], ◌∷◌, ◌++◌,
  Bool-cases, inl, inr,
}
use pteditor_riscv.Entry.{Arch}
use pteditor_riscv.Print.{Printf, text, print_entry_line}
use pteditor_riscv.Demos.MemMap.{
  Output, printed, printed_all, dump_lines, dump, Dump, dump_entry, for,
}

-- Whether some number below `n` passes a test.
unfoldable pub any_below : ℕ → (ℕ → Bool) → Bool
any_below zero f = false
any_below (suc n) f = any_below n f || f n

pub any_below_sound :
    (n : ℕ) (f : ℕ → Bool) → any_below n f ≡ true → (i : ℕ) × (i < n) × (f i ≡ true)
unfolding any_below
any_below_sound zero f h = absurd (cc)
any_below_sound (suc n) f h = elim (Bool-cases (f n)) [
  | inl e ↦ (n, omega arith, e)
  | inr e ↦ let (i, below, found) = any_below_sound n f (ground arith) in (i, omega arith, found)
]

pub any_below_complete : (n : ℕ) (f : ℕ → Bool) (i : ℕ) → i < n → f i ≡ true → any_below n f ≡ true
unfolding any_below
any_below_complete zero f i below found = absurd (omega arith)
any_below_complete (suc n) f i below found = elim (Bool-cases (f n)) [
  | inl e ↦ ground arith
  | inr e ↦ let other : i < n = ground arith in ground (arith, any_below_complete n f i other found)
]

-- Whether some line passes a test.
unfoldable pub lists : (Output → Bool) → List Output → Bool
lists p [] = false
lists p (x ∷ xs) = p x || lists p xs

pub lists-append :
    (p : Output → Bool) (xs ys : List Output) → lists p (xs ++ ys) ≡ (lists p xs || lists p ys)
unfolding lists
lists-append p [] ys = refl
lists-append p (x ∷ xs) ys = ground (arith, lists-append p xs ys)

-- A test that no line of a dumped entry passes.
abbrev pub IsSilent : (Output → Bool) → Type 0
IsSilent p = (x : Printf) → p (printed x) ≡ false

module _ (p : Output → Bool) (silent : IsSilent p) where
  lists-printed_all : (xs : List Printf) → lists p (printed_all xs) ≡ false
  unfolding lists printed_all
  lists-printed_all [] = refl
  lists-printed_all (x ∷ xs) = ground (arith, silent x, lists-printed_all xs)

  lists-dump_lines :
      (arch : Arch) (entry : ℕ) (type : String) (left : ℕ)
      → lists p (dump_lines arch entry type left) ≡ false
  unfolding lists dump_lines
  lists-dump_lines arch entry type zero = refl
  lists-dump_lines arch entry type (suc left) =
      rw
        (
          silent (text type),
          lists-append p (printed_all (print_entry_line arch entry (3 - left))),
          lists-printed_all (print_entry_line arch entry (3 - left)),
          lists-dump_lines arch entry type left,
        )
        refl

  pub lists-dump :
      (arch : Arch) (entry : ℕ) (type : String) (lines : List Output)
      → lists p (lines ++ dump arch dump_entry entry type) ≡ lists p lines
  unfolding dump
  lists-dump arch entry type lines =
      rw (lists-append p lines, lists-dump_lines arch entry type 4) (ground arith)

pub lists-line :
    (p : Output → Bool) (lines : List Output) (line : Output)
    → lists p (lines ++ line ∷ []) ≡ (lists p lines || p line)
unfolding lists
lists-line p lines line = rw (lists-append p lines) (ground arith)

module _ (p : Output → Bool) where
  -- From a state with `Before`, a step leaves such a state, and its lines pass the test if `found`.
  abbrev pub Adds : (Dump → Type 0) → (Dump → Dump) → Bool → Type 0
  Adds Before step found =
      (s : Dump)
      → Before s
      → Before (step s) × (lists p (step s).lines ≡ (lists p s.lines || found))

  pub for-Adds :
      (Before : Dump → Type 0) (body : ℕ → Dump → Dump) (found : ℕ → Bool)
      → ((i : ℕ) → Adds Before (body i) (found i))
      → (n : ℕ) → Adds Before (for n body) (any_below n found)
  unfolding for any_below
  for-Adds Before body found each zero s before = (before, ground arith)
  for-Adds Before body found each (suc n) s before =
      let (halfway, so_far) = for-Adds Before body found each n s before in
      let (after, last) = each n (for n body s) halfway in (after, ground arith)
