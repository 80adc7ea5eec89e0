-- ===== src/Pfn.antt =====
-- ptedit.c, `ptedit_set_pfn` and `ptedit_get_pfn`.
pub mod Laws
use pteditor_riscv.Base.{ℕ, ◌-◌, ◌^◌, bit_and, bit_or, not64, shl64, shr64}
use pteditor_riscv.Entry.{Arch, x86_64, aarch64}

-- `((1ull << 40) - 1) << 12`, and 36 bits on ARM.
abbrev pub pfn_bits : Arch → ℕ
pfn_bits x86_64 = 40
pfn_bits aarch64 = 36

abbrev pub pfn_mask : Arch → ℕ
pfn_mask arch = shl64 (2 ^ pfn_bits arch - 1) 12

unfoldable pub set_pfn : Arch → ℕ → ℕ → ℕ
set_pfn arch pte pfn = bit_or (bit_and pte (not64 (pfn_mask arch))) (shl64 pfn 12)

unfoldable pub get_pfn : Arch → ℕ → ℕ
get_pfn arch pte = shr64 (bit_and pte (pfn_mask arch)) 12
