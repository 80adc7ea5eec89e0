-- ===== src/Pte.antt =====
-- ptedit.c, the operations on entries: `ptedit_pte_set_bit` to `ptedit_pte_set_pfn`.
pub mod Laws
pub mod User
pub mod Levels
pub mod Tests
use pteditor_riscv.Base.{ℕ, Bool, not, ◌&&◌, bit_and, bit_or, ◌==◌, if◌then◌else◌, not64, shl64}
use pteditor_riscv.Entry.{
  Arch, Entry, has_level, valid_mask_pgd, valid_mask_p4d, valid_mask_pud, valid_mask_pmd,
  valid_mask_pte,
}
use pteditor_riscv.MemType.{flag}
use pteditor_riscv.Paging.{PagingDefinition}
use pteditor_riscv.Pfn.{set_pfn, get_pfn}

-- What `ptedit_resolve` and `ptedit_update` point to, over the state `M` of the system.
pub record Backend (M : Type 0) : Type 0 where
  pub resolve : M → ℕ → ℕ → Entry
  pub update : ℕ → ℕ → Entry → M → M

-- The five conditional steps of `ptedit_set_bit` and `ptedit_clear_bit`; `edit` is `|= bitmask`
-- or `&= bitmask`.
pub edit_levels : PagingDefinition → (ℕ → ℕ) → ℕ → Entry → Entry
edit_levels d edit levels vm =
    let vm1 =
      if has_level vm.valid valid_mask_pte && has_level levels valid_mask_pte
      then record vm { pte = edit vm.pte; valid = bit_or vm.valid valid_mask_pte }
      else vm in
    let vm2 =
      if has_level vm1.valid valid_mask_pmd && has_level levels valid_mask_pmd && d.has_pmd
      then record vm1 { pmd = edit vm1.pmd; valid = bit_or vm1.valid valid_mask_pmd }
      else vm1 in
    let vm3 =
      if has_level vm2.valid valid_mask_pud && has_level levels valid_mask_pud && d.has_pud
      then record vm2 { pud = edit vm2.pud; valid = bit_or vm2.valid valid_mask_pud }
      else vm2 in
    let vm4 =
      if has_level vm3.valid valid_mask_p4d && has_level levels valid_mask_p4d && d.has_p4d
      then record vm3 { p4d = edit vm3.p4d; valid = bit_or vm3.valid valid_mask_p4d }
      else vm3 in
    if has_level vm4.valid valid_mask_pgd && has_level levels valid_mask_pgd && d.has_pgd
    then record vm4 { pgd = edit vm4.pgd; valid = bit_or vm4.valid valid_mask_pgd }
    else vm4

-- Replaces the page-table entry by `v`, and asks for that level alone.
abbrev pub with_pte : Entry → ℕ → Entry
with_pte vm v = record vm { pte = v; valid = valid_mask_pte }

module _ {M : Type 0} (backend : Backend M) where
  open backend use {resolve, update}

  pub pte_set_bit : ℕ → ℕ → ℕ → M → M
  pte_set_bit address pid bit m =
      let vm = resolve m address pid in
      if not (has_level vm.valid valid_mask_pte)
      then m
      else update address pid (with_pte vm (bit_or vm.pte (shl64 1 bit))) m

  pub pte_clear_bit : ℕ → ℕ → ℕ → M → M
  pte_clear_bit address pid bit m =
      let vm = resolve m address pid in
      if not (has_level vm.valid valid_mask_pte)
      then m
      else update address pid (with_pte vm (bit_and vm.pte (not64 (shl64 1 bit)))) m

  pub set_bit : PagingDefinition → ℕ → ℕ → ℕ → ℕ → M → M
  unfolding edit_levels
  set_bit d address pid bit levels m =
      let vm = resolve m address pid in
      let bitmask = shl64 1 bit in
      update address pid (edit_levels d (λ x. bit_or x bitmask) levels vm) m

  pub clear_bit : PagingDefinition → ℕ → ℕ → ℕ → ℕ → M → M
  unfolding edit_levels
  clear_bit d address pid bit levels m =
      let vm = resolve m address pid in
      let bitmask = not64 (shl64 1 bit) in
      update address pid (edit_levels d (λ x. bit_and x bitmask) levels vm) m

  pub pte_get_bit : M → ℕ → ℕ → ℕ → ℕ
  pte_get_bit m address pid bit = let vm = resolve m address pid in flag vm.pte bit

  unfoldable pub pte_get_pfn : Arch → M → ℕ → ℕ → ℕ
  pte_get_pfn arch m address pid =
      let vm = resolve m address pid in
      if not (has_level vm.valid valid_mask_pte) then 0 else get_pfn arch vm.pte

  pub pte_set_pfn : Arch → ℕ → ℕ → ℕ → M → M
  pte_set_pfn arch address pid pfn m =
      let vm = resolve m address pid in
      if not (has_level vm.valid valid_mask_pte)
      then m
      else update address pid (with_pte vm (set_pfn arch vm.pte pfn)) m
