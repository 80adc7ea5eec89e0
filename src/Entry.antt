-- ===== src/Entry.antt =====
-- module/pteditor.h and the constants of ptedit.h: the entry that the library and the kernel
-- module exchange, and the bits of a page-table entry.
pub mod X86
pub mod Aarch64
pub mod Fields
use pteditor_riscv.Base.{ℕ, ◌+◌, ◌/◌, ◌%◌, ◌^◌, Bool, not, bit_and, ◌==◌}

-- The architecture that the library is built for. Both have a `size_t` of 64 bits; the 32-bit
-- x86 build is left out.
pub data Arch : Type 0 where
  x86_64 aarch64 : Arch

-- `ptedit_entry_t`. The Intel names of the unions are other names of the same fields.
pub record Entry : Type 0 where
  pub pid : ℕ
  pub vaddr : ℕ
  pub pgd : ℕ
  pub p4d : ℕ
  pub pud : ℕ
  pub pmd : ℕ
  pub pte : ℕ
  pub valid : ℕ

-- `memset(&vm, 0, sizeof(vm))`
abbrev pub blank : Entry
blank = record { pid = 0; vaddr = 0; pgd = 0; p4d = 0; pud = 0; pmd = 0; pte = 0; valid = 0 }

abbrev pub valid_mask_pgd : ℕ
valid_mask_pgd = 1

abbrev pub valid_mask_p4d : ℕ
valid_mask_p4d = 2

abbrev pub valid_mask_pud : ℕ
valid_mask_pud = 4

abbrev pub valid_mask_pmd : ℕ
valid_mask_pmd = 8

abbrev pub valid_mask_pte : ℕ
valid_mask_pte = 16

-- The test `valid & mask`.
abbrev pub has_level : ℕ → ℕ → Bool
has_level valid mask = not (bit_and valid mask == 0)

-- `PTEDIT_PAGE_PRESENT`
abbrev pub page_present : Arch → ℕ
page_present x86_64 = 1
page_present aarch64 = 3

-- A member of a bit-field struct: `n` bits from bit `k` on, low bits first.
abbrev pub bit_field : ℕ → ℕ → ℕ → ℕ
bit_field v k n = v / 2 ^ k % 2 ^ n
