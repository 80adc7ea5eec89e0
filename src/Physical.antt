-- ===== src/Physical.antt =====
-- ptedit.c on Linux, the access to physical memory: by the mapping at `ptedit_vmem`, by
-- `/proc/umem`, and by whole pages.
pub mod Contract
pub mod Mapped
pub mod Tests
use pteditor_riscv.Base.{
  ℕ, ◌+◌, ◌*◌, ◌/◌, ◌%◌, Bool, false, ltb, if◌then◌else◌, Option, none, some, ◌>>=◌, u64,
}
use pteditor_riscv.Entry.{Entry}
use pteditor_riscv.Kernel.{State}
use pteditor_riscv.Kernel.Ioctl.{read_page, write_page, Page, on_machine}
use pteditor_riscv.Request.{
  Host, or_else, first_or, after, ioctl, get_paging_root, ptedit_invalidate_tlb,
}
use pteditor_riscv.Walk.{Library, System, resolve_user_ext, update_user_ext, update_user}

-- A descriptor; `none` is a negative one.
abbrev pub Descriptor : Type 0
Descriptor = Option ℕ

-- What a process does with its memory and with `/proc/umem`: `*(size_t*)p`; `pread` and `pwrite`
-- of one word, at the descriptor and the address, where `none` is a result of -1; `pread` and
-- `pwrite` of a buffer, at the descriptor, the buffer, the length and the offset; and a shared
-- `mmap` of a descriptor, with the length and the offset.
pub record Files (M : Type 0) : Type 0 where
  pub load : M → ℕ → ℕ
  pub store : ℕ → ℕ → M → M
  pub pread_word : M → Descriptor → ℕ → Option ℕ
  pub pwrite_word : Descriptor → ℕ → ℕ → M → Option M
  pub pread : Descriptor → ℕ → ℕ → ℕ → M → Option M
  pub pwrite : Descriptor → ℕ → ℕ → ℕ → M → Option M
  pub mmap : M → Descriptor → ℕ → ℕ → ℕ

-- `ptedit_umem`, `ptedit_pagesize` and `ptedit_vmem`
pub record Umem : Type 0 where
  pub ptedit_umem : Descriptor
  pub ptedit_pagesize : ℕ
  pub ptedit_vmem : ℕ

-- A function of type `ptedit_phys_read_t` and one of type `ptedit_phys_write_t`.
pub record Access (M : Type 0) : Type 0 where
  pub read : M → ℕ → ℕ
  pub write : ℕ → ℕ → M → M

-- The test `ptedit_umem > 0`.
unfoldable pub is_open : Descriptor → Bool
is_open none = false
is_open (some fd) = ltb 0 fd

module _ {M : Type 0} (files : Files M) (umem : Umem) where
  open files use {load, store, pread_word, pwrite_word, pread, pwrite, mmap}
  open umem use {ptedit_umem, ptedit_pagesize, ptedit_vmem}

  unfoldable pub phys_read_map : M → ℕ → ℕ
  phys_read_map m address = load m (ptedit_vmem + address)

  unfoldable pub phys_write_map : ℕ → ℕ → M → M
  phys_write_map address value m = store (ptedit_vmem + address) value m

  unfoldable pub phys_read_pread : M → ℕ → ℕ
  phys_read_pread m address = or_else 0 (pread_word m ptedit_umem address)

  unfoldable pub phys_write_pwrite : ℕ → ℕ → M → M
  phys_write_pwrite address value m = or_else m (pwrite_word ptedit_umem address value m)

  abbrev pub by_map : Access M
  by_map = record { read = phys_read_map; write = phys_write_map }

  abbrev pub by_pread : Access M
  by_pread = record { read = phys_read_pread; write = phys_write_pwrite }

  -- `ptedit_pmap`: the address that the physical one is mapped to.
  pub pmap : M → ℕ → ℕ → ℕ
  pmap m physical length =
      let offset = physical % ptedit_pagesize in
      mmap m ptedit_umem (u64 (length + offset)) (physical / ptedit_pagesize * ptedit_pagesize)
      + offset

  module _ (host : Host M) where
    open host use {user, put_page, stack}

    abbrev page_at : ℕ → ℕ → Page
    page_at pfn buffer = record { pfn = pfn; buffer = buffer }

    -- `ptedit_read_physical_page`
    pub read_physical_page : ℕ → ℕ → State M → Option (State M)
    read_physical_page pfn buffer s =
        if is_open ptedit_umem
        then some (
            on_machine
              (λ m.
                or_else m
                  (pread ptedit_umem buffer ptedit_pagesize (u64 (pfn * ptedit_pagesize)) m))
              s)
        else after host
            (ioctl host read_page stack (on_machine (put_page stack (page_at pfn buffer)) s))
            (λ s'. s')

    -- `ptedit_write_physical_page`
    pub write_physical_page : ℕ → ℕ → State M → Option (State M)
    write_physical_page pfn content s =
        if is_open ptedit_umem
        then some (
            on_machine
              (λ m.
                or_else m
                  (pwrite ptedit_umem content ptedit_pagesize (u64 (pfn * ptedit_pagesize)) m))
              s)
        else after host
            (ioctl host write_page stack (on_machine (put_page stack (page_at pfn content)) s))
            (λ s'. s')

-- What the page walk takes from the system below it: the access to physical memory, and two
-- requests to the kernel module. Where the kernel dereferences `NULL` the call does not return; the
-- root is then 0, and the state the one before. Reading a root leaves a local struct and what it locked, which
-- this view drops.
pub system_over : {M : Type 0} → Host M → Access M → System (State M)
system_over host access = record {
  deref = λ s address. access.read s.machine address;
  pset = λ address value s. on_machine (access.write address value) s;
  get_paging_root = λ s pid. first_or 0 (get_paging_root host pid s);
  invalidate_tlb = λ address s. or_else s (ptedit_invalidate_tlb host address s);
}

module _ {M : Type 0} (host : Host M) (files : Files M) (umem : Umem) where
  abbrev pub pread_system : System (State M)
  pread_system = system_over host (by_pread files umem)

  abbrev pub map_system : System (State M)
  map_system = system_over host (by_map files umem)

  -- `ptedit_resolve_user`
  pub resolve_user : Library → State M → ℕ → ℕ → Entry
  resolve_user lib = resolve_user_ext pread_system lib

  -- `ptedit_resolve_user_map`
  pub resolve_user_map : Library → State M → ℕ → ℕ → Entry
  resolve_user_map lib = resolve_user_ext map_system lib

  -- `ptedit_update_user_map`; `resolve` is the function that `ptedit_resolve` points to.
  pub update_user_map : Library → (State M → ℕ → ℕ → Entry) → ℕ → ℕ → Entry → State M → State M
  update_user_map lib resolve address pid vm s =
      map_system.invalidate_tlb address (update_user_ext map_system lib resolve address pid vm s)
