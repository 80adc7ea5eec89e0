-- ===== src/Walk.antt =====
-- ptedit.c, the walk of the page tables in user space: `ptedit_resolve_user_ext` and
-- `ptedit_update_user_ext`, over the way in which physical memory is read and written.
pub mod Mapped
pub mod Reached
pub mod Memory
pub mod Writes
pub mod Update
pub mod Tests
use pteditor_riscv.Base.{
  ℕ, ◌+◌, ◌*◌, Bool, true, false, not, ◌&&◌, bit_and, bit_or, ◌==◌, if◌then◌else◌, u64, not64,
}
use pteditor_riscv.Entry.{
  Arch, x86_64, aarch64, Entry, blank, page_present, has_level, valid_mask_pgd, valid_mask_p4d,
  valid_mask_pud, valid_mask_pmd, valid_mask_pte,
}
use pteditor_riscv.Entry.X86
use pteditor_riscv.Entry.Fields.{table_present, table_pfn}
use pteditor_riscv.Paging.{PagingDefinition, Indices, split_address}

-- The globals of the library that the walk reads; `arch` is what it is compiled for.
pub record Library : Type 0 where
  pub arch : Arch
  pub paging_root : ℕ
  pub definition : PagingDefinition

abbrev pub pfn_multiply : ℕ
pfn_multiply = 4096

abbrev pub entry_size : ℕ
entry_size = 8

-- The address of entry `index` of the table at `base`.
unfoldable pub slot : ℕ → ℕ → ℕ
slot base index = u64 (base + index * entry_size)

-- The table that an entry refers to.
unfoldable pub table_of : Arch → ℕ → ℕ
table_of arch entry = u64 (table_pfn arch entry * pfn_multiply)

unfoldable pub is_present : Arch → ℕ → Bool
is_present arch entry = table_present arch entry == page_present arch

-- The test `.size` of a PMD; it is compiled on x86 only.
unfoldable pub is_huge : Arch → ℕ → Bool
unfolding X86.cast_pgd
is_huge x86_64 entry = not ((X86.cast_pgd entry).size == 0)
is_huge aarch64 entry = false

-- What the library takes from the system below it, over the system's state `M`: physical words,
-- and the two requests to the kernel module.
pub record System (M : Type 0) : Type 0 where
  pub deref : M → ℕ → ℕ
  pub pset : ℕ → ℕ → M → M
  pub get_paging_root : M → ℕ → ℕ
  pub invalidate_tlb : ℕ → M → M

-- `resolved.valid |= mask`, at a level that the definition has.
abbrev pub mark : Bool → ℕ → ℕ → ℕ
mark has mask valid = if has then bit_or valid mask else valid

-- The entry of a level: read from its table, or the entry above where the level is folded.
unfoldable pub level_entry : Arch → (ℕ → ℕ) → Bool → ℕ → ℕ → ℕ
level_entry arch deref has above index =
    if has then deref (slot (table_of arch above) index) else above

module _ (lib : Library) (deref : ℕ → ℕ) (ix : Indices) where
  open lib use {arch, definition}

  -- The end of the walk, below a PMD that is present. The last test of `present` returns the
  -- same on both branches.
  unfoldable pub resolve_pte : Entry → Entry
  resolve_pte r = if is_huge arch r.pmd then r else record r {
    pte = deref (slot (table_of arch r.pmd) ix.pti);
    valid = bit_or r.valid valid_mask_pte;
  }

  unfoldable pub resolve_pmd : Entry → Entry
  resolve_pmd r =
      let pmd_entry = level_entry arch deref definition.has_pmd r.pud ix.pmdi in
      let r' = record r {
        pmd = pmd_entry;
        valid = mark definition.has_pmd valid_mask_pmd r.valid;
      } in
      if is_present arch pmd_entry then resolve_pte r' else r'

  unfoldable pub resolve_pud : Entry → Entry
  resolve_pud r =
      let pud_entry = level_entry arch deref definition.has_pud r.p4d ix.pudi in
      let r' = record r {
        pud = pud_entry;
        valid = mark definition.has_pud valid_mask_pud r.valid;
      } in
      if is_present arch pud_entry then resolve_pmd r' else r'

  unfoldable pub resolve_p4d : Entry → Entry
  resolve_p4d r =
      let p4d_entry = level_entry arch deref definition.has_p4d r.pgd ix.p4di in
      let r' = record r {
        p4d = p4d_entry;
        valid = mark definition.has_p4d valid_mask_p4d r.valid;
      } in
      if is_present arch p4d_entry then resolve_pud r' else r'

  unfoldable pub resolve_pgd : ℕ → Entry → Entry
  resolve_pgd root r =
      let pgd_entry = deref (slot root ix.pgdi) in
      if is_present arch pgd_entry
      then resolve_p4d (record r { pgd = pgd_entry; valid = bit_or r.valid valid_mask_pgd })
      else r

module _ {M : Type 0} (sys : System M) (lib : Library) where
  open sys use {deref, pset, get_paging_root, invalidate_tlb}
  open lib use {arch, definition, paging_root}

  -- `((pid == 0) ? ptedit_paging_root : ptedit_get_paging_root(pid)) & ~1`
  unfoldable pub root_of : M → ℕ → ℕ
  root_of m pid = bit_and (if pid == 0 then paging_root else get_paging_root m pid) (not64 1)

  unfoldable pub resolve_user_ext : M → ℕ → ℕ → Entry
  resolve_user_ext m address pid =
      let root = root_of m pid in
      let ix = split_address definition address in
      let resolved = record blank { vaddr = address; pid = pid } in
      if root == 0 then resolved else resolve_pgd lib (deref m) ix root resolved

  -- One guarded write of `ptedit_update_user_ext`.
  unfoldable pub write_level : Bool → ℕ → ℕ → ℕ → ℕ → ℕ → M → M
  write_level has mask new_valid old_valid address value m =
      if has_level new_valid mask && has_level old_valid mask && has
      then pset address value m
      else m

  -- `resolve` is the function that `ptedit_resolve` points to.
  unfoldable pub update_user_ext : (M → ℕ → ℕ → Entry) → ℕ → ℕ → Entry → M → M
  update_user_ext resolve address pid vm m =
      let current = resolve m address pid in
      let root = root_of m pid in
      let ix = split_address definition address in
      let m_pte =
        write_level true valid_mask_pte vm.valid current.valid
          (slot (table_of arch current.pmd) ix.pti) vm.pte m in
      let m_pmd =
        write_level definition.has_pmd valid_mask_pmd vm.valid current.valid
          (slot (table_of arch current.pud) ix.pmdi) vm.pmd m_pte in
      let m_pud =
        write_level definition.has_pud valid_mask_pud vm.valid current.valid
          (slot (table_of arch current.p4d) ix.pudi) vm.pud m_pmd in
      let m_p4d =
        write_level definition.has_p4d valid_mask_p4d vm.valid current.valid
          (slot (table_of arch current.pgd) ix.p4di) vm.p4d m_pud in
      let m_pgd =
        write_level definition.has_pgd valid_mask_pgd vm.valid current.valid (slot root ix.pgdi)
          vm.pgd m_p4d in
      if root == 0 then m else invalidate_tlb address m_pgd

  -- `ptedit_update_user`: the TLB is invalidated once more.
  unfoldable pub update_user : (M → ℕ → ℕ → Entry) → ℕ → ℕ → Entry → M → M
  update_user resolve address pid vm m =
      invalidate_tlb address (update_user_ext resolve address pid vm m)
