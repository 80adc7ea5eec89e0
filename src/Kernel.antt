-- ===== src/Kernel.antt =====
-- module/pteditor.c, the Linux kernel module: its state, and what it takes from the kernel.
-- The build is for a kernel of 5.8 or later, where memory maps are locked by `mmap_read_lock`
-- and its family, with page tables of five levels.
pub mod Resolve
pub mod Update
pub mod Tlb
pub mod Device
pub mod Ioctl
pub mod Valid
pub mod Machine
pub mod Quiet
pub mod Translation
pub mod Frame
pub mod Locks
pub mod Requests
pub mod Roundtrip
pub mod Exclusive
pub mod Pat
pub mod Load
pub mod Loaded
pub mod Tests
use pteditor_riscv.Entry.{Arch, x86_64, aarch64}
use pteditor_riscv.Base.{
  false, ℕ, ◌==◌, if◌then◌else◌, Bool, Option, none, some, List, ◌∷◌, [], ◌++◌, ◌>>=◌,
}

-- A pointer of the kernel; `none` is `NULL`.
abbrev pub Pointer : Type 0
Pointer = Option ℕ

-- `vm_t`
pub record Vm : Type 0 where
  pub pid : ℕ
  pub pgd : Pointer
  pub p4d : Pointer
  pub pud : Pointer
  pub pmd : Pointer
  pub pte : Pointer
  pub valid : ℕ

-- The calls of the module that lock and unlock a memory map.
pub data LockCall : Type 0 where
  read_lock read_unlock write_lock write_unlock : ℕ → LockCall

-- The functions that `invalidate_tlb` points to.
pub data TlbInvalidation : Type 0 where
  invalidate_tlb_kernel invalidate_tlb_custom : TlbInvalidation

-- The static variables of the module, over the state `M` of the kernel and of the machine.
-- `locks` records the calls that lock a memory map, the first one first.
pub record State (M : Type 0) : Type 0 where
  pub machine : M
  pub locks : List LockCall
  pub device_busy : Bool
  pub mm_is_locked : Bool
  pub invalidate_tlb : TlbInvalidation

-- The processes of the kernel: `current`, `find_vpid`, `pid_task`, and the members of a task.
pub record Tasks (M : Type 0) : Type 0 where
  pub current : M → ℕ
  pub find_vpid : M → ℕ → Pointer
  pub pid_task : M → ℕ → Pointer
  pub mm : M → ℕ → Pointer
  pub active_mm : M → ℕ → Pointer

-- The kernel's functions on page tables. `load` is `*pointer`. `pud_large` and `pmd_large` are those
-- of the kernel on x86.
pub record Tables (M : Type 0) : Type 0 where
  pub load : M → ℕ → ℕ
  pub pgd_offset : M → ℕ → ℕ → ℕ
  pub p4d_offset : M → ℕ → ℕ → ℕ
  pub pud_offset : M → ℕ → ℕ → ℕ
  pub pmd_offset : M → ℕ → ℕ → ℕ
  pub pte_offset_map : M → ℕ → ℕ → Pointer
  pub pgd_none : ℕ → Bool
  pub pgd_bad : ℕ → Bool
  pub p4d_none : ℕ → Bool
  pub p4d_bad : ℕ → Bool
  pub pud_none : ℕ → Bool
  pub pud_large : ℕ → Bool
  pub pmd_none : ℕ → Bool
  pub pmd_large : ℕ → Bool
  pub set_pgd : Pointer → ℕ → M → M
  pub set_p4d : Pointer → ℕ → M → M
  pub set_pud : Pointer → ℕ → M → M
  pub set_pmd : Pointer → ℕ → M → M
  pub set_pte : Pointer → ℕ → M → M

-- `pud_large` and `pmd_large` as the module calls them. On ARM they are its own: with page tables of
-- five levels the PMD is not folded, and they return 0.
abbrev pub large_on : Arch → (ℕ → Bool) → ℕ → Bool
large_on x86_64 large = large
large_on aarch64 large = λ v. false

abbrev pub module_tables : {M : Type 0} → Arch → Tables M → Tables M
module_tables arch tables = record tables {
  pud_large = large_on arch tables.pud_large;
  pmd_large = large_on arch tables.pmd_large;
}

-- `if(task->mm) return task->mm; else return task->active_mm;`
unfoldable pub or_active : Pointer → Pointer → Pointer
or_active none active = active
or_active (some mm) active = some mm

unfoldable pub mm_of_task : {M : Type 0} → Tasks M → M → ℕ → Pointer
mm_of_task tasks m task = or_active (tasks.mm m task) (tasks.active_mm m task)

-- `get_mm` for another process.
unfoldable pub mm_of_pid : {M : Type 0} → Tasks M → M → ℕ → Pointer
mm_of_pid tasks m pid = do
  vpid ← tasks.find_vpid m pid
  task ← tasks.pid_task m vpid
  mm_of_task tasks m task

unfoldable pub get_mm : {M : Type 0} → Tasks M → M → ℕ → Pointer
get_mm tasks m pid =
    if pid == 0 then mm_of_task tasks m (tasks.current m) else mm_of_pid tasks m pid

-- Records a call on the lock of a memory map, where `lock` is set.
unfoldable pub lock_if : {M : Type 0} → Bool → LockCall → State M → State M
lock_if lock call s = if lock then record s { locks = s.locks ++ (call ∷ []) } else s
