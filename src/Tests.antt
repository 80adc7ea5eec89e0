-- ===== src/Tests.antt =====
-- The theorems about single entries, addresses and memory types at concrete inputs.
use pteditor_riscv.Base.{
  ℕ, ◌+◌, ◌/◌, ◌%◌, ◌^◌, ◌≤◌, ◌<◌, ◌≡◌, ◌↔◌, ◌⊎◌, arith, false, none, some, u64,
}
use pteditor_riscv.Bits.{bit_at}
use pteditor_riscv.Entry.{x86_64, aarch64}
use pteditor_riscv.Entry.X86
use pteditor_riscv.Entry.Aarch64
use pteditor_riscv.Entry.Fields.{table_pfn}
use pteditor_riscv.Pfn.{pfn_bits, set_pfn, get_pfn}
use pteditor_riscv.Pfn.Laws.{entry_word_fields}
use pteditor_riscv.MemType.{
  MtsAccess, get_mt, set_mt, find_mt, find_first_mt, apply_mt, extract_mt, apply_mt_huge,
  extract_mt_huge, page_bit_pat, page_bit_pat_large,
}
use pteditor_riscv.MemType.Name.{text, length, mt_to_string}
use pteditor_riscv.MemType.Name.Bound.{mair_name, mt_to_string_lem}
use pteditor_riscv.MemType.Register.{IsRegister, HasSet, set_mt_lem}
use pteditor_riscv.MemType.Find.{HasType, find_mt-find_first_mt}
use pteditor_riscv.MemType.Select.{selects, extract-apply}
use pteditor_riscv.Paging.{init_definition, split_address}
use pteditor_riscv.Paging.Address.{join_address, address_bits, join-split_address}

abbrev word : ℕ
word = 0x8000_0123_4567_8067

-- A page frame above 1 TB: the walk and `ptedit_get_pfn` disagree on x86.
entry_word_fields_example :
    let v = 2 ^ 40 + 0x5067 in
    ((X86.word_of_pgd (X86.cast_pgd v) ≡ v)
      × (X86.word_of_pmd_large (X86.cast_pmd_large v) ≡ v)
      × (X86.word_of_pte (X86.cast_pte v) ≡ v)
      × (Aarch64.word_of_pgd (Aarch64.cast_pgd v) ≡ v)
      × (Aarch64.word_of_pgd_large (Aarch64.cast_pgd_large v) ≡ v)
      × (Aarch64.word_of_pmd_large (Aarch64.cast_pmd_large v) ≡ v)
      × (Aarch64.word_of_pte (Aarch64.cast_pte v) ≡ v))
    × ((table_pfn aarch64 v ≡ get_pfn aarch64 v) × (table_pfn x86_64 v ≡ get_pfn x86_64 v % 2 ^ 28))
    × ((get_pfn x86_64 (set_pfn x86_64 v 0xabc) ≡ 0xabc)
        × ((k n : ℕ)
            → (k + n ≤ 12) ⊎ (12 + pfn_bits x86_64 ≤ k)
            → set_pfn x86_64 v 0xabc / 2 ^ k % 2 ^ n ≡ v / 2 ^ k % 2 ^ n))
entry_word_fields_example =
    entry_word_fields (2 ^ 40 + 0x5067) x86_64 0xabc (omega arith) (omega arith)

join-split_address_example :
    let d = init_definition x86_64 4096 in
    let ix = split_address d 0x7fff_dead_b123 in
    (join_address d ix (0x7fff_dead_b123 % 2 ^ d.page_offset)
      ≡ 0x7fff_dead_b123 % 2 ^ address_bits d)
    × (ix.pgdi < 2 ^ d.pgd_entries)
    × (ix.p4di < 2 ^ d.p4d_entries)
    × (ix.pudi < 2 ^ d.pud_entries)
    × (ix.pmdi < 2 ^ d.pmd_entries)
    × (ix.pti < 2 ^ d.pt_entries)
join-split_address_example = join-split_address x86_64 4096 0x7fff_dead_b123

-- A register of 64 bits.
abbrev register : MtsAccess ℕ
register = record { get_mts = λ s. u64 s; set_mts = λ s mts. u64 mts }

register-IsRegister : IsRegister register
register-IsRegister = record { word = λ s. omega arith }

-- The value of the PAT register after a reset.
abbrev pat : ℕ
pat = 0x0007_0406_0007_0406

set_mt_lem_example :
    ((2 < 4)
      × ((mts : ℕ) × (set_mt x86_64 register pat 2 1 ≡ some (register.set_mts pat mts))
          × HasSet register register-IsRegister x86_64 pat 2 1 mts))
    ⊎ (4 ≤ 2) × (set_mt x86_64 register pat 2 1 ≡ none)
set_mt_lem_example = set_mt_lem register register-IsRegister x86_64 pat 2 1 (omega arith)

find_mt-find_first_mt_example :
    (find_mt aarch64 register pat 7 < 256)
    × ((j : ℕ)
        → j < 8
        → (bit_at (find_mt aarch64 register pat 7) j ≡ 1)
          ↔ HasType aarch64 (get_mt aarch64 register pat j) 7)
    × (((find_first_mt aarch64 register pat 7 ≡ none)
          × ((j : ℕ) → j < 8 → ¬ HasType aarch64 (get_mt aarch64 register pat j) 7))
        ⊎ ((first : ℕ) × (find_first_mt aarch64 register pat 7 ≡ some first)
            × (first < 8)
            × HasType aarch64 (get_mt aarch64 register pat first) 7
            × ((j : ℕ) → j < first → ¬ HasType aarch64 (get_mt aarch64 register pat j) 7)))
find_mt-find_first_mt_example = find_mt-find_first_mt aarch64 register register-IsRegister pat 7

extract-apply_example :
    (extract_mt x86_64 (apply_mt x86_64 word 5) ≡ 5)
    × ((i : ℕ)
        → selects x86_64 page_bit_pat i ≡ false
        → bit_at (apply_mt x86_64 word 5) i ≡ bit_at word i)
    × (extract_mt_huge x86_64 (apply_mt_huge x86_64 word 5) ≡ 5)
    × ((i : ℕ)
        → selects x86_64 page_bit_pat_large i ≡ false
        → bit_at (apply_mt_huge x86_64 word 5) i ≡ bit_at word i)
extract-apply_example = extract-apply x86_64 word 5 (omega arith) (omega arith)

-- The two halves of the attribute differ.
mt_to_string_lem_example :
    (mt_to_string aarch64 0x4f ≡ text (mair_name 4 15)) × (length (mair_name 4 15) ≤ 6)
mt_to_string_lem_example = mt_to_string_lem 0x4f (omega arith)
