-- ===== src/Demos/MemMap/Agrees.antt =====
-- demos/memmap.c against the page walk of ptedit.c, on x86.
use pteditor_riscv.Base.{
  ℕ, ◌*◌, ◌/◌, ◌%◌, ◌^◌, ◌<◌, ◌≡◌, ◌≢◌, ◌↔◌, refl, ap, sym, ◌∙◌, arith, true, not, ◌==◌, u64,
  bit_and, not64, Bool-cases, inl, inr, ==_iff,
}
use pteditor_riscv.Bits.{bit_and-pow, bit_at, bit_at_as_field, bit_ext, bit_at-clear, bit_and-lt}
use pteditor_riscv.Entry.{x86_64, Entry, blank, has_level, valid_mask_pte}
use pteditor_riscv.Entry.Fields.{table_present}
use pteditor_riscv.Entry.X86
use pteditor_riscv.Paging.{Indices, init_definition, split_address}
use pteditor_riscv.Pfn.{get_pfn}
use pteditor_riscv.Pfn.Laws.{table_pfn-get_pfn}
use pteditor_riscv.Walk
use pteditor_riscv.Walk.{
  Library, System, slot, table_of, is_huge, level_entry, root_of, resolve_user_ext,
}
use pteditor_riscv.Walk.Mapped.{IsMapped, resolve_mapped}
use pteditor_riscv.Walk.Reached.{resolve_reached}
use pteditor_riscv.Demos.MemMap.{Buffer, Dump, is_present, is_normal_page, mem_map}
use pteditor_riscv.Demos.MemMap.Listed.{lists}
use pteditor_riscv.Demos.MemMap.Found.{lists-mem_map}
use pteditor_riscv.Demos.MemMap.Path.{
  x86_definition, is_page, is_page-IsSilent, words, pdpt_entry, pd_entry, pt_entry, IsListed,
  hits-IsListed, IsListed-hits,
}

-- The program's tests of an entry are those of the page walk.
is_present-eq : (entry : ℕ) → is_present x86_64 entry ≡ Walk.is_present x86_64 entry
unfolding is_present Walk.is_present table_present X86.cast_pgd bit_at
is_present-eq entry = ground (arith, bit_and-pow entry 0)

is_normal_page-eq : (entry : ℕ) → is_normal_page x86_64 entry ≡ not (is_huge x86_64 entry)
unfolding is_normal_page is_huge X86.cast_pgd
is_normal_page-eq entry = ground (arith, bit_and-pow entry 7, bit_at_as_field entry 7)

-- A root on a page boundary has no bit to cut off.
even_root : (root : ℕ) → root % 4096 ≡ 0 → root < 2 ^ 64 → bit_and root (not64 1) ≡ root
unfolding bit_at
even_root root aligned small =
    bit_ext 64 _ _ (bit_and-lt 64 root (not64 1) small) small
      (λ i h. ground (arith, bit_at-clear root 0 i small (omega arith)))

-- The library on x86, with the root that `ptedit_init` reads.
abbrev pub opened : ℕ → Library
opened root = record { arch = x86_64; paging_root = root; definition = x86_definition }

module _ {M : Type 0} (sys : System M) (m : M) (pid address : ℕ) where
  open sys use {deref, get_paging_root}

  abbrev pub root : ℕ
  root = get_paging_root m pid

  abbrev pub pml4 : Buffer
  pml4 = words (deref m) (root / 4096)

  abbrev ix : Indices
  ix = split_address x86_definition address

  -- What is relied on: the root is that of a process, on a page boundary; memory holds words, and
  -- `ptedit_read_physical_page` reads a page of it; and the page-frame numbers of the tables on the
  -- way to the address fit the 28 bits that the page walk reads.
  pub record IsReadable (read_physical_page : ℕ → Buffer → Buffer) : Type 0 where
    pub root_there : root ≢ 0
    pub root_aligned : root % 4096 ≡ 0
    pub root_small : root < 2 ^ 64
    pub word : (a : ℕ) → deref m a < 2 ^ 64
    pub reads : (pfn : ℕ) (old : Buffer) → read_physical_page pfn old ≡ words (deref m) pfn
    pub pml4_fits : get_pfn x86_64 (pml4 ix.pgdi) < 2 ^ 28
    pub pdpt_fits : get_pfn x86_64 (pdpt_entry (deref m) pml4 ix) < 2 ^ 28
    pub pd_fits : get_pfn x86_64 (pd_entry (deref m) pml4 ix) < 2 ^ 28

-- A table whose page-frame number fits is the page that the program reads.
table_of-eq :
    (entry : ℕ)
    → entry < 2 ^ 64
    → get_pfn x86_64 entry < 2 ^ 28
    → table_of x86_64 entry ≡ u64 (get_pfn x86_64 entry * 4096)
unfolding table_of
table_of-eq entry word fits = omega (arith, (table_pfn-get_pfn entry word).1)

module _ {M : Type 0} (sys : System M) (m : M) (pid address : ℕ)
    (read_physical_page : ℕ → Buffer → Buffer)
    (readable : IsReadable sys m pid address read_physical_page) where
  open sys use {deref, get_paging_root}

  abbrev lib : Library
  lib = opened (get_paging_root m 0)

  abbrev here : Indices
  here = split_address x86_definition address

  abbrev top : ℕ
  top = pml4 sys m pid address here.pgdi

  abbrev on_way : Entry
  on_way = record blank {
    pgd = top;
    p4d = top;
    pud = pdpt_entry (deref m) (pml4 sys m pid address) here;
    pmd = pd_entry (deref m) (pml4 sys m pid address) here;
    pte = pt_entry (deref m) (pml4 sys m pid address) here;
  }

  root_same : root_of sys lib m pid ≡ get_paging_root m pid
  unfolding root_of
  root_same =
      let even = even_root (get_paging_root m pid) readable.root_aligned readable.root_small in
      elim (Bool-cases (pid == 0)) [
        | inl e ↦
            let own = ap (get_paging_root m) (sym ((==_iff pid 0).0 e)) in
            rw e (ap (λ r. bit_and r (not64 1)) own ∙ even)
        | inr e ↦ rw e even
      ]

  pgd_at : top ≡ deref m (slot (root_of sys lib m pid) here.pgdi)
  pgd_at =
      let page : u64 (get_paging_root m pid / 4096 * 4096) ≡ get_paging_root m pid =
        omega (arith, readable.root_aligned, readable.root_small) in
      rw (root_same, page) refl

  IsListed-IsMapped :
      IsListed (deref m) (pml4 sys m pid address) here
      → IsMapped lib (deref m) (root_of sys lib m pid) here on_way
  unfolding level_entry init_definition
  IsListed-IsMapped listed = record {
    pgd_read = pgd_at;
    pgd_present = sym (is_present-eq _) ∙ listed.pml4_there;
    p4d_read = refl;
    p4d_present = sym (is_present-eq _) ∙ listed.pml4_there;
    pud_read = rw (table_of-eq top (readable.word _) readable.pml4_fits) refl;
    pud_present = sym (is_present-eq _) ∙ listed.pdpt_there;
    pmd_read = rw (table_of-eq on_way.pud (readable.word _) readable.pdpt_fits) refl;
    pmd_present = sym (is_present-eq _) ∙ listed.pd_there;
    small_page = ground (arith, is_normal_page-eq on_way.pmd, listed.small);
    pte_read = rw (table_of-eq on_way.pmd (readable.word _) readable.pd_fits) refl;
  }

  IsMapped-IsListed :
      (e : Entry)
      → IsMapped lib (deref m) (root_of sys lib m pid) here e
      → Walk.is_present x86_64 e.pte ≡ true
      → IsListed (deref m) (pml4 sys m pid address) here
  unfolding level_entry init_definition
  IsMapped-IsListed e mapped there =
      let pgd : e.pgd ≡ on_way.pgd = mapped.pgd_read ∙ sym pgd_at in
      let p4d : e.p4d ≡ on_way.pgd = mapped.p4d_read ∙ pgd in
      let pud : e.pud ≡ on_way.pud =
        mapped.pud_read ∙ rw (p4d, table_of-eq top (readable.word _) readable.pml4_fits) refl in
      let pmd : e.pmd ≡ on_way.pmd =
        mapped.pmd_read
        ∙ rw (pud, table_of-eq on_way.pud (readable.word _) readable.pdpt_fits) refl in
      let pte : e.pte ≡ on_way.pte =
        mapped.pte_read
        ∙ rw (pmd, table_of-eq on_way.pmd (readable.word _) readable.pd_fits) refl in
      record {
        pml4_there = is_present-eq _ ∙ rw pgd at mapped.pgd_present;
        pdpt_there = is_present-eq _ ∙ rw pud at mapped.pud_present;
        pd_there = is_present-eq _ ∙ rw pmd at mapped.pmd_present;
        small = is_normal_page-eq _ ∙ ap not (rw pmd at mapped.small_page);
        pt_there = is_present-eq _ ∙ rw pte at there;
      }

  -- On x86, demos/memmap.c prints the line of an address (on a page boundary in the lower half)
  -- exactly if `ptedit_resolve` of the user-space implementation finds a present page-table entry
  -- for it. This is where the root is there and on a page boundary, memory holds words that
  -- `ptedit_read_physical_page` reads, and the page-frame numbers of the tables fit 28 bits.
  pub mem_map-resolve_user_ext :
      (stack : Buffer) (s : Dump)
      → address < 2 ^ 47
      → address % 4096 ≡ 0
      → let found = resolve_user_ext sys (opened (get_paging_root m 0)) m address pid in
        (lists
            (is_page address)
            (mem_map x86_64 read_physical_page (get_paging_root m pid) 4096 stack s).lines
          ≡ true)
        ↔ (has_level found.valid valid_mask_pte ≡ true) × (Walk.is_present x86_64 found.pte ≡ true)
  unfolding init_definition
  mem_map-resolve_user_ext stack s low aligned =
      let searches =
        lists-mem_map read_physical_page (words (deref m)) readable.reads (is_page address)
          (is_page-IsSilent address) (get_paging_root m pid) 4096 stack s in
      let nonzero : root_of sys lib m pid ≢ 0 = λ z. readable.root_there (sym root_same ∙ z) in
      (
        λ listed.
            let way =
              hits-IsListed (deref m) (pml4 sys m pid address) address (sym searches ∙ listed) in
            let resolved =
              resolve_mapped sys lib m address pid on_way nonzero (IsListed-IsMapped way) in
            rw resolved (refl, sym (is_present-eq _) ∙ way.pt_there),
        λ (reached, there).
            let mapped = (resolve_reached sys lib m address pid reached).1 in
            searches
            ∙ IsListed-hits (deref m) (pml4 sys m pid address) address low aligned
                (IsMapped-IsListed _ mapped there),
      )
