-- ===== src/Paging.antt =====
-- ptedit.c, `ptedit_paging_definition_t`: the shape of the page tables that `ptedit_init`
-- chooses, and the parts of a virtual address.
pub mod Address
use pteditor_riscv.Base.{ℕ, ◌+◌, ◌%◌, ◌^◌, Bool, true, false, ◌==◌, if◌then◌else◌, shr64}
use pteditor_riscv.Entry.{Arch, x86_64, aarch64}

pub record PagingDefinition : Type 0 where
  pub has_pgd : Bool
  pub has_p4d : Bool
  pub has_pud : Bool
  pub has_pmd : Bool
  pub has_pt : Bool
  pub pgd_entries : ℕ
  pub p4d_entries : ℕ
  pub pud_entries : ℕ
  pub pmd_entries : ℕ
  pub pt_entries : ℕ
  pub page_offset : ℕ

-- The definition that `ptedit_init` fills in, by the page size that `ptedit_get_pagesize` returns.
unfoldable pub init_definition : Arch → ℕ → PagingDefinition
init_definition x86_64 pagesize = record {
  has_pgd = true;
  has_p4d = false;
  has_pud = true;
  has_pmd = true;
  has_pt = true;
  pgd_entries = 9;
  p4d_entries = 0;
  pud_entries = 9;
  pmd_entries = 9;
  pt_entries = 9;
  page_offset = 12;
}
init_definition aarch64 pagesize =
    if pagesize == 16384
    then record {
      has_pgd = true;
      has_p4d = false;
      has_pud = true;
      has_pmd = true;
      has_pt = true;
      pgd_entries = 11;
      p4d_entries = 0;
      pud_entries = 11;
      pmd_entries = 11;
      pt_entries = 11;
      page_offset = 14;
    }
    else record {
      has_pgd = true;
      has_p4d = false;
      has_pud = false;
      has_pmd = true;
      has_pt = true;
      pgd_entries = 9;
      p4d_entries = 0;
      pud_entries = 0;
      pmd_entries = 9;
      pt_entries = 9;
      page_offset = 12;
    }

-- The index into the table of each level.
pub record Indices : Type 0 where
  pub pgdi : ℕ
  pub p4di : ℕ
  pub pudi : ℕ
  pub pmdi : ℕ
  pub pti : ℕ

unfoldable pub split_address : PagingDefinition → ℕ → Indices
split_address d addr = record {
  pgdi =
      shr64 addr (d.page_offset + d.pt_entries + d.pmd_entries + d.pud_entries + d.p4d_entries)
      % 2 ^ d.pgd_entries;
  p4di =
      shr64 addr (d.page_offset + d.pt_entries + d.pmd_entries + d.pud_entries) % 2 ^ d.p4d_entries;
  pudi = shr64 addr (d.page_offset + d.pt_entries + d.pmd_entries) % 2 ^ d.pud_entries;
  pmdi = shr64 addr (d.page_offset + d.pt_entries) % 2 ^ d.pmd_entries;
  pti = shr64 addr d.page_offset % 2 ^ d.pt_entries;
}
