-- ===== src/Entry/X86.antt =====
-- ptedit.h, the bit-field structs of x86-64 page-table entries. The types of the P4D, the PUD and
-- the PMD are synonyms of `ptedit_pgd_t`.
use pteditor_riscv.Base.{ℕ, ◌+◌, ◌*◌, ◌^◌}
use pteditor_riscv.Entry.{bit_field}

-- `ptedit_pgd_t`
pub record Pgd : Type 0 where
  pub present : ℕ
  pub writeable : ℕ
  pub user_access : ℕ
  pub write_through : ℕ
  pub cache_disabled : ℕ
  pub accessed : ℕ
  pub ignored_3 : ℕ
  pub size : ℕ
  pub ignored_2 : ℕ
  pub pfn : ℕ
  pub reserved_1 : ℕ
  pub ignored_1 : ℕ
  pub execution_disabled : ℕ

-- `ptedit_cast(v, ptedit_pgd_t)`
unfoldable pub cast_pgd : ℕ → Pgd
cast_pgd v = record {
  present = bit_field v 0 1;
  writeable = bit_field v 1 1;
  user_access = bit_field v 2 1;
  write_through = bit_field v 3 1;
  cache_disabled = bit_field v 4 1;
  accessed = bit_field v 5 1;
  ignored_3 = bit_field v 6 1;
  size = bit_field v 7 1;
  ignored_2 = bit_field v 8 4;
  pfn = bit_field v 12 28;
  reserved_1 = bit_field v 40 12;
  ignored_1 = bit_field v 52 11;
  execution_disabled = bit_field v 63 1;
}

-- The word that the members make up.
unfoldable pub word_of_pgd : Pgd → ℕ
word_of_pgd s =
    s.present
    + s.writeable * 2 ^ 1
    + s.user_access * 2 ^ 2
    + s.write_through * 2 ^ 3
    + s.cache_disabled * 2 ^ 4
    + s.accessed * 2 ^ 5
    + s.ignored_3 * 2 ^ 6
    + s.size * 2 ^ 7
    + s.ignored_2 * 2 ^ 8
    + s.pfn * 2 ^ 12
    + s.reserved_1 * 2 ^ 40
    + s.ignored_1 * 2 ^ 52
    + s.execution_disabled * 2 ^ 63

-- `ptedit_pmd_large_t`
pub record PmdLarge : Type 0 where
  pub present : ℕ
  pub writeable : ℕ
  pub user_access : ℕ
  pub write_through : ℕ
  pub cache_disabled : ℕ
  pub accessed : ℕ
  pub dirty : ℕ
  pub size : ℕ
  pub global : ℕ
  pub ignored_2 : ℕ
  pub pat : ℕ
  pub reserved_2 : ℕ
  pub pfn : ℕ
  pub reserved_1 : ℕ
  pub ignored_1 : ℕ
  pub execution_disabled : ℕ

-- `ptedit_cast(v, ptedit_pmd_large_t)`
unfoldable pub cast_pmd_large : ℕ → PmdLarge
cast_pmd_large v = record {
  present = bit_field v 0 1;
  writeable = bit_field v 1 1;
  user_access = bit_field v 2 1;
  write_through = bit_field v 3 1;
  cache_disabled = bit_field v 4 1;
  accessed = bit_field v 5 1;
  dirty = bit_field v 6 1;
  size = bit_field v 7 1;
  global = bit_field v 8 1;
  ignored_2 = bit_field v 9 3;
  pat = bit_field v 12 1;
  reserved_2 = bit_field v 13 8;
  pfn = bit_field v 21 19;
  reserved_1 = bit_field v 40 12;
  ignored_1 = bit_field v 52 11;
  execution_disabled = bit_field v 63 1;
}

-- The word that the members make up.
unfoldable pub word_of_pmd_large : PmdLarge → ℕ
word_of_pmd_large s =
    s.present
    + s.writeable * 2 ^ 1
    + s.user_access * 2 ^ 2
    + s.write_through * 2 ^ 3
    + s.cache_disabled * 2 ^ 4
    + s.accessed * 2 ^ 5
    + s.dirty * 2 ^ 6
    + s.size * 2 ^ 7
    + s.global * 2 ^ 8
    + s.ignored_2 * 2 ^ 9
    + s.pat * 2 ^ 12
    + s.reserved_2 * 2 ^ 13
    + s.pfn * 2 ^ 21
    + s.reserved_1 * 2 ^ 40
    + s.ignored_1 * 2 ^ 52
    + s.execution_disabled * 2 ^ 63

-- `ptedit_pte_t`
pub record Pte : Type 0 where
  pub present : ℕ
  pub writeable : ℕ
  pub user_access : ℕ
  pub write_through : ℕ
  pub cache_disabled : ℕ
  pub accessed : ℕ
  pub dirty : ℕ
  pub size : ℕ
  pub global : ℕ
  pub ignored_2 : ℕ
  pub pfn : ℕ
  pub reserved_1 : ℕ
  pub ignored_1 : ℕ
  pub execution_disabled : ℕ

-- `ptedit_cast(v, ptedit_pte_t)`
unfoldable pub cast_pte : ℕ → Pte
cast_pte v = record {
  present = bit_field v 0 1;
  writeable = bit_field v 1 1;
  user_access = bit_field v 2 1;
  write_through = bit_field v 3 1;
  cache_disabled = bit_field v 4 1;
  accessed = bit_field v 5 1;
  dirty = bit_field v 6 1;
  size = bit_field v 7 1;
  global = bit_field v 8 1;
  ignored_2 = bit_field v 9 3;
  pfn = bit_field v 12 28;
  reserved_1 = bit_field v 40 12;
  ignored_1 = bit_field v 52 11;
  execution_disabled = bit_field v 63 1;
}

-- The word that the members make up.
unfoldable pub word_of_pte : Pte → ℕ
word_of_pte s =
    s.present
    + s.writeable * 2 ^ 1
    + s.user_access * 2 ^ 2
    + s.write_through * 2 ^ 3
    + s.cache_disabled * 2 ^ 4
    + s.accessed * 2 ^ 5
    + s.dirty * 2 ^ 6
    + s.size * 2 ^ 7
    + s.global * 2 ^ 8
    + s.ignored_2 * 2 ^ 9
    + s.pfn * 2 ^ 12
    + s.reserved_1 * 2 ^ 40
    + s.ignored_1 * 2 ^ 52
    + s.execution_disabled * 2 ^ 63
