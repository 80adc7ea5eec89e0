-- ===== src/Kernel/Ioctl.antt =====
-- module/pteditor.c, `device_ioctl`: the requests of the device.
use pteditor_riscv.Base.{
  ℕ, ◌*◌, ◌%◌, ◌^◌, Bool, true, false, not, ◌&&◌, ◌==◌, if◌then◌else◌, Option, none, some, ◌>>=◌,
  bit_and, not64, u64,
}
use pteditor_riscv.Entry.{Arch, x86_64, aarch64, Entry}
use pteditor_riscv.Kernel.{
  Pointer, read_lock, read_unlock, write_lock, write_unlock, State, invalidate_tlb_kernel,
  invalidate_tlb_custom, Tasks, Tables, module_tables, get_mm, lock_if,
}
use pteditor_riscv.Kernel.Resolve.{resolution, resolve_vm_state}
use pteditor_riscv.Kernel.Tlb.{Cpu, PageSize, invalidate, set_pat, get_pat}
use pteditor_riscv.Kernel.Update.{update_vm, vm_to_user}
use pteditor_riscv.Kernel.Device.{Code, code, minus, Outcome}

-- `ptedit_page_t`
pub record Page : Type 0 where
  pub pfn : ℕ
  pub buffer : ℕ

-- `ptedit_paging_t`
pub record Paging : Type 0 where
  pub pid : ℕ
  pub root : ℕ

-- `PTEDITOR_IOCTL_CMD_*`
pub data Command : Type 0 where
  vm_resolve vm_update vm_lock vm_unlock read_page write_page get_root set_root get_pagesize
        invalidate_tlb get_pat_command set_pat_command switch_tlb_invalidation :
      Command
  other : ℕ → Command

abbrev pub tlb_invalidation_kernel : ℕ
tlb_invalidation_kernel = 0

abbrev pub tlb_invalidation_custom : ℕ
tlb_invalidation_custom = 1

-- The memory of the calling process (`raw_copy_from_user` and `raw_copy_to_user` of each type),
-- copies of bytes from and to the kernel's view of a page, and the PGD of a memory map.
pub record User (M : Type 0) : Type 0 where
  pub get_entry : M → ℕ → Entry
  pub put_entry : ℕ → Entry → M → M
  pub get_page : M → ℕ → Page
  pub get_paging : M → ℕ → Paging
  pub put_paging : ℕ → Paging → M → M
  pub put_word : ℕ → ℕ → M → M
  pub copy_to_user : ℕ → ℕ → ℕ → M → M
  pub copy_from_user : ℕ → ℕ → ℕ → M → M
  pub phys_to_virt : ℕ → ℕ
  pub virt_to_phys : ℕ → ℕ
  pub mm_pgd : M → ℕ → ℕ
  pub set_mm_pgd : ℕ → ℕ → M → M
  pub read_ttbr0_el1 : M → ℕ

abbrev pub reply : {M : Type 0} → Code → State M → Option (Outcome M)
reply c s = some (record { state = s; returned = c })

-- A change of the kernel's and the machine's state alone.
abbrev pub on_machine : {M : Type 0} → (M → M) → State M → State M
on_machine f s = record s { machine = f s.machine }

module _ {M : Type 0} (arch : Arch) (size : PageSize) (cpu : Cpu M) (tasks : Tasks M)
    (tables : Tables M) (user : User M) where
  open user use {
    get_entry, put_entry, get_page, get_paging, put_paging, put_word, copy_to_user, copy_from_user,
    phys_to_virt, virt_to_phys, mm_pgd, set_mm_pgd, read_ttbr0_el1,
  }

  abbrev own : Tables M
  own = module_tables arch tables

  -- The pointers of `vm` are followed in the state after `resolve_vm`, which writes no page table.
  unfoldable pub handle_resolve : ℕ → State M → Option (Outcome M)
  handle_resolve param s =
      let vm_user = get_entry s.machine param in
      let vm = (resolution tasks own s.machine vm_user.vaddr vm_user.pid).vm in
      let s_resolved = resolve_vm_state tasks vm_user.pid (not s.mm_is_locked) s in
      let vm_result = vm_to_user tables s_resolved.machine vm_user vm in
      reply (code 0) (on_machine (put_entry param vm_result) s_resolved)

  unfoldable pub handle_update : ℕ → State M → Option (Outcome M)
  handle_update param s =
      let vm_user = get_entry s.machine param in
      reply (code 0) (update_vm arch size cpu tasks tables vm_user (not s.mm_is_locked) s)

  -- `mm` is `current->active_mm`. The result is `none` where that is `NULL`, which the kernel
  -- dereferences to take the lock. Whether a lock can be taken is not part of this function: it
  -- records the calls in `locks`.
  unfoldable pub handle_lock : State M → Option (Outcome M)
  handle_lock s =
      if s.mm_is_locked
      then reply (minus 1) s
      else (tasks.active_mm s.machine (tasks.current s.machine) >>= λ mm.
          let s_locked = lock_if true (read_lock mm) (lock_if true (write_lock mm) s) in
          reply (code 0) (record s_locked { mm_is_locked = true }))

  unfoldable pub handle_unlock : State M → Option (Outcome M)
  handle_unlock s =
      if not s.mm_is_locked
      then reply (minus 1) s
      else (tasks.active_mm s.machine (tasks.current s.machine) >>= λ mm.
          let s_unlocked = lock_if true (read_unlock mm) (lock_if true (write_unlock mm) s) in
          reply (code 0) (record s_unlocked { mm_is_locked = false }))

  unfoldable pub handle_read_page : ℕ → State M → Option (Outcome M)
  handle_read_page param s =
      let page = get_page s.machine param in
      let source = phys_to_virt (u64 (page.pfn * size.real_page_size)) in
      reply (code 0) (on_machine (copy_to_user page.buffer source size.real_page_size) s)

  unfoldable pub handle_write_page : ℕ → State M → Option (Outcome M)
  handle_write_page param s =
      let page = get_page s.machine param in
      let target = phys_to_virt (u64 (page.pfn * size.real_page_size)) in
      reply (code 0) (on_machine (copy_from_user target page.buffer size.real_page_size) s)

  -- The way out on ARM where the process has no memory map or no PGD.
  unfoldable pub root_of_current : ℕ → Paging → State M → Option (Outcome M)
  root_of_current param paging s =
      let root = bit_and (read_ttbr0_el1 s.machine) (not64 1) in
      reply (code 0) (on_machine (put_paging param (record paging { root = root })) s)

  unfoldable pub no_pgd : Arch → M → ℕ → Bool
  no_pgd x86_64 m mm = false
  no_pgd aarch64 m mm = mm_pgd m mm == 0

  unfoldable pub no_mm_root : Arch → ℕ → Paging → State M → Option (Outcome M)
  no_mm_root x86_64 param paging s = reply (code 1) s
  no_mm_root aarch64 param paging s = root_of_current param paging s

  unfoldable pub read_root : ℕ → ℕ → Paging → State M → Option (Outcome M)
  read_root mm param paging s =
      let lock = not s.mm_is_locked in
      let s_locked = lock_if lock (read_lock mm) s in
      let root = virt_to_phys (mm_pgd s_locked.machine mm) in
      let s_unlocked = lock_if lock (read_unlock mm) s_locked in
      reply (code 0) (on_machine (put_paging param (record paging { root = root })) s_unlocked)

  unfoldable pub get_root_in : ℕ → Paging → Pointer → State M → Option (Outcome M)
  get_root_in param paging none s = no_mm_root arch param paging s
  get_root_in param paging (some mm) s =
      if no_pgd arch s.machine mm
      then root_of_current param paging s
      else read_root mm param paging s

  unfoldable pub handle_get_root : ℕ → State M → Option (Outcome M)
  handle_get_root param s =
      let paging = get_paging s.machine param in
      get_root_in param paging (get_mm tasks s.machine paging.pid) s

  unfoldable pub set_root_in : ℕ → Pointer → State M → Option (Outcome M)
  set_root_in root none s = reply (code 1) s
  set_root_in root (some mm) s =
      let lock = not s.mm_is_locked in
      let s_locked = lock_if lock (write_lock mm) s in
      let s_set = on_machine (set_mm_pgd mm (phys_to_virt root)) s_locked in
      reply (code 0) (lock_if lock (write_unlock mm) s_set)

  unfoldable pub handle_set_root : ℕ → State M → Option (Outcome M)
  handle_set_root param s =
      let paging = get_paging s.machine param in
      set_root_in paging.root (get_mm tasks s.machine paging.pid) s

  -- `(int)ioctl_param` is the low half of the parameter.
  unfoldable pub handle_switch : ℕ → State M → Option (Outcome M)
  handle_switch param s =
      let mode = param % 2 ^ 32 in
      if not (mode == tlb_invalidation_kernel) && not (mode == tlb_invalidation_custom)
      then reply (minus 1) s
      else reply (code 0) (record s {
        invalidate_tlb =
            if mode == tlb_invalidation_kernel
            then invalidate_tlb_kernel
            else invalidate_tlb_custom;
      })

  unfoldable pub device_ioctl : Command → ℕ → State M → Option (Outcome M)
  device_ioctl vm_resolve param s = handle_resolve param s
  device_ioctl vm_update param s = handle_update param s
  device_ioctl vm_lock param s = handle_lock s
  device_ioctl vm_unlock param s = handle_unlock s
  device_ioctl read_page param s = handle_read_page param s
  device_ioctl write_page param s = handle_write_page param s
  device_ioctl get_root param s = handle_get_root param s
  device_ioctl set_root param s = handle_set_root param s
  device_ioctl get_pagesize param s = reply (code size.real_page_size) s
  device_ioctl invalidate_tlb param s =
      reply (code 0) (on_machine (invalidate cpu arch size tasks s.invalidate_tlb param) s)
  device_ioctl get_pat_command param s =
      reply (code 0) (on_machine (put_word param (get_pat cpu arch s.machine)) s)
  device_ioctl set_pat_command param s = reply (code 0) (on_machine (set_pat cpu arch param) s)
  device_ioctl switch_tlb_invalidation param s = handle_switch param s
  device_ioctl (other number) param s = reply (minus 1) s
