-- ===== src/Paging/Address.antt =====
-- The indices of a virtual address and its page offset make it up again.
use pteditor_riscv.Base.{ℕ, ◌+◌, ◌*◌, ◌%◌, ◌^◌, ◌<◌, ◌≡◌, arith, ◌==◌, Bool-cases, inl, inr}
use pteditor_riscv.Entry.{Arch, x86_64, aarch64}
use pteditor_riscv.Paging.{PagingDefinition, Indices, init_definition, split_address}

-- The number of address bits that a definition translates.
abbrev pub address_bits : PagingDefinition → ℕ
address_bits d =
    d.page_offset + d.pt_entries + d.pmd_entries + d.pud_entries + d.p4d_entries + d.pgd_entries

-- The address with the given indices and page offset.
abbrev pub join_address : PagingDefinition → Indices → ℕ → ℕ
join_address d ix offset =
    offset
    + 2 ^ d.page_offset
      * (ix.pti
          + 2 ^ d.pt_entries
            * (ix.pmdi
                + 2 ^ d.pmd_entries
                  * (ix.pudi + 2 ^ d.pud_entries * (ix.p4di + 2 ^ d.p4d_entries * ix.pgdi))))

-- For every definition that `ptedit_init` chooses, the indices of an address and its offset in
-- the page determine the translated bits of the address, and each index is below the number of
-- entries of its table.
pub join-split_address :
    (arch : Arch) (pagesize addr : ℕ)
    → let d = init_definition arch pagesize in
      let ix = split_address d addr in
      (join_address d ix (addr % 2 ^ d.page_offset) ≡ addr % 2 ^ address_bits d)
      × (ix.pgdi < 2 ^ d.pgd_entries)
      × (ix.p4di < 2 ^ d.p4d_entries)
      × (ix.pudi < 2 ^ d.pud_entries)
      × (ix.pmdi < 2 ^ d.pmd_entries)
      × (ix.pti < 2 ^ d.pt_entries)
unfolding init_definition split_address
join-split_address x86_64 pagesize addr = omega arith
join-split_address aarch64 pagesize addr = elim (Bool-cases (pagesize == 16384)) [
  | inl large ↦ rw large (omega arith)
  | inr other ↦ rw other (omega arith)
]
