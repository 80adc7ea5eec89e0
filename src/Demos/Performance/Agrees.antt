-- ===== src/Demos/Performance/Agrees.antt =====
-- The two resolvers of ptedit.c that demos/performance.c compares, on x86.
use pteditor_riscv.Base.{ℕ, ◌≡◌, Bool, ◌&&◌, ◌<◌, ◌^◌, some}
use pteditor_riscv.Entry.{x86_64, Entry}
use pteditor_riscv.Pfn.{get_pfn}
use pteditor_riscv.Kernel.{State, Tables}
use pteditor_riscv.Kernel.Translation.{Pointers, IsTranslation}
use pteditor_riscv.Paging.{Indices, split_address}
use pteditor_riscv.Request.{Host}
use pteditor_riscv.Request.Calls.{IsMachine}
use pteditor_riscv.Request.Steps.{walked}
use pteditor_riscv.Walk.{System, slot, table_of, is_present, is_huge, resolve_user_ext}
use pteditor_riscv.Demos.MemMap.Path.{x86_definition}
use pteditor_riscv.Demos.MemMap.Agrees.{opened}

-- What is relied on of the kernel's accessors on x86 with page tables of four levels: the P4D is
-- folded, the entries that they lead to are those of the tables in physical memory (below 1 TB,
-- where the bit-field structs hold the whole frame number), and `pmd_large` tests the size bit.
pub record IsX86Tables {M : Type 0} (tables : Tables M) (deref : ℕ → ℕ) (m : M) (mm root : ℕ)
    : Type 0 where
  pub pgd_entry :
      (a : ℕ)
      → tables.load m (tables.pgd_offset m mm a)
        ≡ deref (slot root (split_address x86_definition a).pgdi)
  pub p4d_folded : (p a : ℕ) → tables.p4d_offset m p a ≡ p
  pub pud_entry :
      (p a : ℕ)
      → get_pfn x86_64 (tables.load m p) < 2 ^ 28
      → tables.load m (tables.pud_offset m p a)
        ≡ deref (slot (table_of x86_64 (tables.load m p)) (split_address x86_definition a).pudi)
  pub pmd_entry :
      (p a : ℕ)
      → get_pfn x86_64 (tables.load m p) < 2 ^ 28
      → tables.load m (tables.pmd_offset m p a)
        ≡ deref (slot (table_of x86_64 (tables.load m p)) (split_address x86_definition a).pmdi)
  pub pte_entry :
      (p a q : ℕ)
      → get_pfn x86_64 (tables.load m p) < 2 ^ 28
      → tables.pte_offset_map m p a ≡ some q
      → tables.load m q
        ≡ deref (slot (table_of x86_64 (tables.load m p)) (split_address x86_definition a).pti)
  pub size_test : (v : ℕ) → tables.pmd_large v ≡ is_huge x86_64 v

-- The tables of a walk are below 1 TB of physical memory.
pub record IsLow {M : Type 0} (tables : Tables M) (m : M) (p : Pointers) : Type 0 where
  pub p4d_low : get_pfn x86_64 (tables.load m p.p4d) < 2 ^ 28
  pub pud_low : get_pfn x86_64 (tables.load m p.pud) < 2 ^ 28
  pub pmd_low : get_pfn x86_64 (tables.load m p.pmd) < 2 ^ 28

-- The entries on the way down have their present bits set. The tests of the kernel do not imply
-- this: it keeps entries that it protects or moves without that bit.
abbrev pub is_all_present : {M : Type 0} → Tables M → M → Pointers → Bool
is_all_present tables m p =
    is_present x86_64 (tables.load m p.pgd)
    && is_present x86_64 (tables.load m p.pud)
    && is_present x86_64 (tables.load m p.pmd)

module _ {M : Type 0} (host : Host M) (fd : ℕ)
    (laws : IsMachine host.cpu host.tasks host.tables host.user) (sys : System (State M))
    (root0 mm address pid : ℕ) (p : Pointers) (s : State M) where
  open host use {tasks, tables}

  abbrev pub by_kernel : Entry
  by_kernel = walked host fd laws mm address pid p s.machine

  abbrev by_user : Entry
  by_user = resolve_user_ext sys (opened root0) s address pid

  module _ (root : ℕ) (walk : IsTranslation tables s.machine mm address p)
      (x86 : IsX86Tables tables (sys.deref s) s.machine mm root)
      (low : IsLow tables s.machine p) where
    abbrev ix : Indices
    ix = split_address x86_definition address
