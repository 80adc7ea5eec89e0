-- ===== src/MemType/Name.antt =====
-- ptedit.c, `ptedit_mt_to_string`. A text is the list of its characters, without the final zero.
pub mod Bound
use pteditor_riscv.Base.{
  ℕ, zero, suc, ◌+◌, ◌-◌, ◌*◌, ◌^◌, ◌≤◌, ◌<◌, Bool, true, false, bit_and, ◌==◌, ltb, leb,
  if◌then◌else◌, shr64, List, [], ◌∷◌, ◌++◌, Option, none, some, ◌>>=◌,
}
use pteditor_riscv.Entry.{Arch, x86_64, aarch64}

-- `NULL`, a text, or what strcat does past the end of the buffer.
pub data Name : Type 0 where
  null overflow : Name
  text : List ℕ → Name

abbrev pub length : List ℕ → ℕ
length [] = 0
length (x ∷ xs) = suc (length xs)

-- `sizeof(mts)`
abbrev pub buffer_size : ℕ
buffer_size = 16

-- `strcat(mts, s)`; the final zero needs a byte too.
unfoldable pub strcat : List ℕ → Name → Name
strcat s null = null
strcat s overflow = overflow
strcat s (text buffer) =
    if ltb (length buffer + length s) buffer_size then text (buffer ++ s) else overflow

-- The table on x86, `mts[mt]` for `mt` at most 7.
unfoldable pub pat_name : ℕ → List ℕ
pat_name mt =
    if mt == 0
    then b'U' ∷ b'C' ∷ []
    else if mt == 1
    then b'W' ∷ b'C' ∷ []
    else if mt == 2
    then b'R' ∷ b's' ∷ b'v' ∷ b'd' ∷ []
    else if mt == 3
    then b'R' ∷ b's' ∷ b'v' ∷ b'd' ∷ []
    else if mt == 4
    then b'W' ∷ b'T' ∷ []
    else if mt == 5
    then b'W' ∷ b'P' ∷ []
    else if mt == 6
    then b'W' ∷ b'B' ∷ []
    else b'U' ∷ b'C' ∷ b'-' ∷ []

-- The `switch` on ARM.
unfoldable pub attribute_name : ℕ → List ℕ
attribute_name attribute =
    if attribute == 0
    then b'D' ∷ b'M' ∷ []
    else if leb attribute 3
    then b'W' ∷ b'T' ∷ []
    else if attribute == 4
    then b'U' ∷ b'C' ∷ []
    else if leb attribute 7
    then b'W' ∷ b'B' ∷ []
    else if leb attribute 11
    then b'W' ∷ b'T' ∷ []
    else b'W' ∷ b'B' ∷ []

-- `if (low == high) strcpy(mts, "")`; a buffer that has overflowed stays so.
unfoldable pub reset_if : Bool → Name → Name
reset_if same null = null
reset_if same overflow = overflow
reset_if same (text buffer) = if same then text [] else text buffer

-- Round `i` of the loop.
unfoldable pub name_round : ℕ → ℕ → Name → Name
name_round mt i name =
    let prefixed = strcat (if i == 0 then b'I' ∷ [] else b'O' ∷ []) name in
    let same = bit_and mt 0xf == bit_and (shr64 mt 4) 0xf in
    strcat (attribute_name (bit_and (shr64 mt (i * 4)) 0xf)) (reset_if same prefixed)

unfoldable pub mt_to_string : Arch → ℕ → Name
mt_to_string x86_64 mt = if leb mt 7 then text (pat_name mt) else null
mt_to_string aarch64 mt = name_round mt 1 (name_round mt 0 (text []))
