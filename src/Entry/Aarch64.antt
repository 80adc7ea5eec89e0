-- ===== src/Entry/Aarch64.antt =====
-- ptedit.h, the bit-field structs of ARMv8 page-table entries. The types of the P4D, the PUD and
-- the PMD are synonyms of `ptedit_pgd_t`.
use pteditor_riscv.Base.{ℕ, ◌+◌, ◌*◌, ◌^◌}
use pteditor_riscv.Entry.{bit_field}

-- `ptedit_pgd_t`
pub record Pgd : Type 0 where
  pub present : ℕ
  pub ignored_1 : ℕ
  pub pfn : ℕ
  pub reserved : ℕ
  pub ignored_2 : ℕ
  pub pxn_table : ℕ
  pub xn_table : ℕ
  pub ap_table : ℕ
  pub ns_table : ℕ

-- `ptedit_cast(v, ptedit_pgd_t)`
unfoldable pub cast_pgd : ℕ → Pgd
cast_pgd v = record {
  present = bit_field v 0 2;
  ignored_1 = bit_field v 2 10;
  pfn = bit_field v 12 36;
  reserved = bit_field v 48 4;
  ignored_2 = bit_field v 52 7;
  pxn_table = bit_field v 59 1;
  xn_table = bit_field v 60 1;
  ap_table = bit_field v 61 2;
  ns_table = bit_field v 63 1;
}

-- The word that the members make up.
unfoldable pub word_of_pgd : Pgd → ℕ
word_of_pgd s =
    s.present
    + s.ignored_1 * 2 ^ 2
    + s.pfn * 2 ^ 12
    + s.reserved * 2 ^ 48
    + s.ignored_2 * 2 ^ 52
    + s.pxn_table * 2 ^ 59
    + s.xn_table * 2 ^ 60
    + s.ap_table * 2 ^ 61
    + s.ns_table * 2 ^ 63

-- `ptedit_pgd_large_t`
pub record PgdLarge : Type 0 where
  pub present : ℕ
  pub memory_attributes_index : ℕ
  pub non_secure : ℕ
  pub access_permissions : ℕ
  pub shareability_field : ℕ
  pub access_flag : ℕ
  pub not_global : ℕ
  pub reserved_1 : ℕ
  pub pfn : ℕ
  pub reserved_2 : ℕ
  pub contiguous : ℕ
  pub privileged_execute_never : ℕ
  pub execute_never : ℕ
  pub ingored_1 : ℕ
  pub ignored_2 : ℕ

-- `ptedit_cast(v, ptedit_pgd_large_t)`
unfoldable pub cast_pgd_large : ℕ → PgdLarge
cast_pgd_large v = record {
  present = bit_field v 0 2;
  memory_attributes_index = bit_field v 2 3;
  non_secure = bit_field v 5 1;
  access_permissions = bit_field v 6 2;
  shareability_field = bit_field v 8 2;
  access_flag = bit_field v 10 1;
  not_global = bit_field v 11 1;
  reserved_1 = bit_field v 12 18;
  pfn = bit_field v 30 18;
  reserved_2 = bit_field v 48 4;
  contiguous = bit_field v 52 1;
  privileged_execute_never = bit_field v 53 1;
  execute_never = bit_field v 54 1;
  ingored_1 = bit_field v 55 4;
  ignored_2 = bit_field v 59 5;
}

-- The word that the members make up.
unfoldable pub word_of_pgd_large : PgdLarge → ℕ
word_of_pgd_large s =
    s.present
    + s.memory_attributes_index * 2 ^ 2
    + s.non_secure * 2 ^ 5
    + s.access_permissions * 2 ^ 6
    + s.shareability_field * 2 ^ 8
    + s.access_flag * 2 ^ 10
    + s.not_global * 2 ^ 11
    + s.reserved_1 * 2 ^ 12
    + s.pfn * 2 ^ 30
    + s.reserved_2 * 2 ^ 48
    + s.contiguous * 2 ^ 52
    + s.privileged_execute_never * 2 ^ 53
    + s.execute_never * 2 ^ 54
    + s.ingored_1 * 2 ^ 55
    + s.ignored_2 * 2 ^ 59

-- `ptedit_pmd_large_t`
pub record PmdLarge : Type 0 where
  pub present : ℕ
  pub memory_attributes_index : ℕ
  pub non_secure : ℕ
  pub access_permissions : ℕ
  pub shareability_field : ℕ
  pub access_flag : ℕ
  pub not_global : ℕ
  pub reserved_1 : ℕ
  pub pfn : ℕ
  pub reserved_2 : ℕ
  pub contiguous : ℕ
  pub privileged_execute_never : ℕ
  pub execute_never : ℕ
  pub ingored_1 : ℕ
  pub ignored_2 : ℕ

-- `ptedit_cast(v, ptedit_pmd_large_t)`
unfoldable pub cast_pmd_large : ℕ → PmdLarge
cast_pmd_large v = record {
  present = bit_field v 0 2;
  memory_attributes_index = bit_field v 2 3;
  non_secure = bit_field v 5 1;
  access_permissions = bit_field v 6 2;
  shareability_field = bit_field v 8 2;
  access_flag = bit_field v 10 1;
  not_global = bit_field v 11 1;
  reserved_1 = bit_field v 12 9;
  pfn = bit_field v 21 27;
  reserved_2 = bit_field v 48 4;
  contiguous = bit_field v 52 1;
  privileged_execute_never = bit_field v 53 1;
  execute_never = bit_field v 54 1;
  ingored_1 = bit_field v 55 4;
  ignored_2 = bit_field v 59 5;
}

-- The word that the members make up.
unfoldable pub word_of_pmd_large : PmdLarge → ℕ
word_of_pmd_large s =
    s.present
    + s.memory_attributes_index * 2 ^ 2
    + s.non_secure * 2 ^ 5
    + s.access_permissions * 2 ^ 6
    + s.shareability_field * 2 ^ 8
    + s.access_flag * 2 ^ 10
    + s.not_global * 2 ^ 11
    + s.reserved_1 * 2 ^ 12
    + s.pfn * 2 ^ 21
    + s.reserved_2 * 2 ^ 48
    + s.contiguous * 2 ^ 52
    + s.privileged_execute_never * 2 ^ 53
    + s.execute_never * 2 ^ 54
    + s.ingored_1 * 2 ^ 55
    + s.ignored_2 * 2 ^ 59

-- `ptedit_pte_t`
pub record Pte : Type 0 where
  pub present : ℕ
  pub memory_attributes_index : ℕ
  pub non_secure : ℕ
  pub access_permissions : ℕ
  pub shareability_field : ℕ
  pub access_flag : ℕ
  pub not_global : ℕ
  pub pfn : ℕ
  pub reserved_1 : ℕ
  pub contiguous : ℕ
  pub privileged_execute_never : ℕ
  pub execute_never : ℕ
  pub ingored_1 : ℕ
  pub ignored_2 : ℕ

-- `ptedit_cast(v, ptedit_pte_t)`
unfoldable pub cast_pte : ℕ → Pte
cast_pte v = record {
  present = bit_field v 0 2;
  memory_attributes_index = bit_field v 2 3;
  non_secure = bit_field v 5 1;
  access_permissions = bit_field v 6 2;
  shareability_field = bit_field v 8 2;
  access_flag = bit_field v 10 1;
  not_global = bit_field v 11 1;
  pfn = bit_field v 12 36;
  reserved_1 = bit_field v 48 4;
  contiguous = bit_field v 52 1;
  privileged_execute_never = bit_field v 53 1;
  execute_never = bit_field v 54 1;
  ingored_1 = bit_field v 55 4;
  ignored_2 = bit_field v 59 5;
}

-- The word that the members make up.
unfoldable pub word_of_pte : Pte → ℕ
word_of_pte s =
    s.present
    + s.memory_attributes_index * 2 ^ 2
    + s.non_secure * 2 ^ 5
    + s.access_permissions * 2 ^ 6
    + s.shareability_field * 2 ^ 8
    + s.access_flag * 2 ^ 10
    + s.not_global * 2 ^ 11
    + s.pfn * 2 ^ 12
    + s.reserved_1 * 2 ^ 48
    + s.contiguous * 2 ^ 52
    + s.privileged_execute_never * 2 ^ 53
    + s.execute_never * 2 ^ 54
    + s.ingored_1 * 2 ^ 55
    + s.ignored_2 * 2 ^ 59
