-- ===== src/Walk/Mapped.antt =====
-- A description of a complete walk that does not follow the code, and `ptedit_resolve_user_ext`
-- against it.
use pteditor_riscv.Base.{ℕ, ◌≡◌, ◌≢◌, refl, arith, true, false, bit_or}
use pteditor_riscv.Entry.{
  Entry, blank, valid_mask_pgd, valid_mask_p4d, valid_mask_pud, valid_mask_pmd, valid_mask_pte,
}
use pteditor_riscv.Paging.{PagingDefinition, Indices, split_address}
use pteditor_riscv.Walk.{
  Library, System, slot, table_of, is_present, is_huge, mark, level_entry, resolve_pte, resolve_pmd,
  resolve_pud, resolve_p4d, resolve_pgd, root_of, resolve_user_ext,
}

-- The entries of `e` are those of a walk from `root` that ends at a page-table entry: each is
-- read from the table that the one above refers to (or is that one, where a level is folded),
-- each but the last is present, and the PMD maps no huge page.
pub record IsMapped (lib : Library) (deref : ℕ → ℕ) (root : ℕ) (ix : Indices) (e : Entry)
    : Type 0 where
  pub pgd_read : e.pgd ≡ deref (slot root ix.pgdi)
  pub pgd_present : is_present lib.arch e.pgd ≡ true
  pub p4d_read : e.p4d ≡ level_entry lib.arch deref lib.definition.has_p4d e.pgd ix.p4di
  pub p4d_present : is_present lib.arch e.p4d ≡ true
  pub pud_read : e.pud ≡ level_entry lib.arch deref lib.definition.has_pud e.p4d ix.pudi
  pub pud_present : is_present lib.arch e.pud ≡ true
  pub pmd_read : e.pmd ≡ level_entry lib.arch deref lib.definition.has_pmd e.pud ix.pmdi
  pub pmd_present : is_present lib.arch e.pmd ≡ true
  pub small_page : is_huge lib.arch e.pmd ≡ false
  pub pte_read : e.pte ≡ deref (slot (table_of lib.arch e.pmd) ix.pti)

-- The walk says nothing of the other fields.
pub IsMapped-relabel :
    {lib : Library} {deref : ℕ → ℕ} {root : ℕ} {ix : Indices} {e : Entry} (pid vaddr valid : ℕ)
    → IsMapped lib deref root ix e
    → IsMapped lib deref root ix (record e { pid = pid; vaddr = vaddr; valid = valid })
IsMapped-relabel pid vaddr valid mapped = record {
  pgd_read = mapped.pgd_read;
  pgd_present = mapped.pgd_present;
  p4d_read = mapped.p4d_read;
  p4d_present = mapped.p4d_present;
  pud_read = mapped.pud_read;
  pud_present = mapped.pud_present;
  pmd_read = mapped.pmd_read;
  pmd_present = mapped.pmd_present;
  small_page = mapped.small_page;
  pte_read = mapped.pte_read;
}

-- The mask of a walk to a page-table entry: the levels that the definition has.
abbrev pub full_mask : PagingDefinition → ℕ
full_mask d =
    bit_or
      (mark d.has_pmd valid_mask_pmd
        (mark d.has_pud valid_mask_pud (mark d.has_p4d valid_mask_p4d (bit_or 0 valid_mask_pgd))))
      valid_mask_pte

module _ (lib : Library) (deref : ℕ → ℕ) (root : ℕ) (ix : Indices) (e : Entry)
    (mapped : IsMapped lib deref root ix e) where
  open lib use {definition}

  pmd_complete :
      (r : Entry)
      → r.pud ≡ e.pud
      → resolve_pmd lib deref ix r ≡ record r {
        pmd = e.pmd;
        pte = e.pte;
        valid = bit_or (mark definition.has_pmd valid_mask_pmd r.valid) valid_mask_pte;
      }
  unfolding resolve_pmd resolve_pte
  pmd_complete r same = ground arith

  pud_complete :
      (r : Entry)
      → r.p4d ≡ e.p4d
      → resolve_pud lib deref ix r ≡ record r {
        pud = e.pud;
        pmd = e.pmd;
        pte = e.pte;
        valid =
            bit_or
              (mark definition.has_pmd valid_mask_pmd
                (mark definition.has_pud valid_mask_pud r.valid))
              valid_mask_pte;
      }
  unfolding resolve_pud
  pud_complete r same = ground (
    arith,
    pmd_complete (record r { pud = e.pud; valid = mark definition.has_pud valid_mask_pud r.valid })
        refl,
  )

  p4d_complete :
      (r : Entry)
      → r.pgd ≡ e.pgd
      → resolve_p4d lib deref ix r ≡ record r {
        p4d = e.p4d;
        pud = e.pud;
        pmd = e.pmd;
        pte = e.pte;
        valid =
            bit_or
              (mark definition.has_pmd valid_mask_pmd (
                mark definition.has_pud valid_mask_pud
                  (mark definition.has_p4d valid_mask_p4d r.valid)))
              valid_mask_pte;
      }
  unfolding resolve_p4d
  p4d_complete r same = ground (
    arith,
    pud_complete (record r { p4d = e.p4d; valid = mark definition.has_p4d valid_mask_p4d r.valid })
        refl,
  )

  pgd_complete :
      (r : Entry)
      → r.valid ≡ 0
      → resolve_pgd lib deref ix root r
        ≡ record e { pid = r.pid; vaddr = r.vaddr; valid = full_mask definition }
  unfolding resolve_pgd
  pgd_complete r none_valid =
      ground
        (arith, p4d_complete (record r { pgd = e.pgd; valid = bit_or r.valid valid_mask_pgd }) refl)

-- Where a complete walk exists, `ptedit_resolve_user_ext` returns its entries, and marks exactly
-- the levels that the definition has as valid.
pub resolve_mapped :
    {M : Type 0} (sys : System M) (lib : Library) (m : M) (address pid : ℕ) (e : Entry)
    → root_of sys lib m pid ≢ 0
    → IsMapped lib (sys.deref m) (root_of sys lib m pid) (split_address lib.definition address) e
    → resolve_user_ext sys lib m address pid
      ≡ record e { pid = pid; vaddr = address; valid = full_mask lib.definition }
unfolding resolve_user_ext
resolve_mapped sys lib m address pid e nonzero mapped = ground (
  arith,
  pgd_complete lib (sys.deref m) (root_of sys lib m pid) (split_address lib.definition address) e
      mapped (record blank { vaddr = address; pid = pid }) refl,
)
