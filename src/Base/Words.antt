-- ===== src/Base/Words.antt =====
-- `size_t` (64 bits) and the byte types as native numbers: every operation of C that can leave
-- the width is cut back to it. A shift count of 64 or more is undefined in C; here it gives 0.
use Prim.Native.Nat.{ℕ, ◌-◌, ◌*◌, ◌/◌, ◌%◌, ◌^◌}

abbrev pub word_bits : ℕ
word_bits = 64

abbrev pub u64 : ℕ → ℕ
u64 x = x % 2 ^ 64

abbrev pub u8 : ℕ → ℕ
u8 x = x % 2 ^ 8

-- `~x` of a word below `2 ^ 64`.
abbrev pub not64 : ℕ → ℕ
not64 x = 2 ^ 64 - 1 - x

-- `x << k` and `x >> k` on `size_t`.
abbrev pub shl64 : ℕ → ℕ → ℕ
shl64 x k = u64 (x * 2 ^ k)

abbrev pub shr64 : ℕ → ℕ → ℕ
shr64 x k = x / 2 ^ k
