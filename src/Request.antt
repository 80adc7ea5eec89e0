-- ===== src/Request.antt =====
-- ptedit.c on Linux, the functions that ask the kernel module by `ioctl`. The struct that such a
-- function passes is a local one, at the address `stack` of the process.
pub mod Calls
pub mod Steps
pub mod Backend
pub mod Root
pub mod OnWindows
pub mod Tests
use pteditor_riscv.Base.{ℕ, ◌*◌, ◌/◌, ◌%◌, ◌+◌, Bool, if◌then◌else◌, ltb, Option, none, some, ◌>>=◌}
use pteditor_riscv.Entry.{Arch, Entry, blank}
use pteditor_riscv.Kernel.{Pointer, State, Tasks, Tables}
use pteditor_riscv.Kernel.Device.{Code, code, minus, Outcome}
use pteditor_riscv.Kernel.Ioctl.{
  Page, Paging, Command, vm_resolve, vm_update, read_page, write_page, get_root, set_root,
  get_pagesize, invalidate_tlb, get_pat_command, set_pat_command, switch_tlb_invalidation, User,
  reply, on_machine, device_ioctl,
}
use pteditor_riscv.Kernel.Tlb.{Cpu, PageSize}

-- The system that a process runs on: the kernel and the machine with their parameters, the
-- file descriptor of the device (`none` where it is negative), and `stack`.
pub record Host (M : Type 0) : Type 0 where
  pub arch : Arch
  pub size : PageSize
  pub cpu : Cpu M
  pub tasks : Tasks M
  pub tables : Tables M
  pub user : User M
  pub get_word : M → ℕ → ℕ
  pub put_page : ℕ → Page → M → M
  pub stack : ℕ
  pub ptedit_fd : Option ℕ

-- What a call leaves that does not return, and else its result, or the first part of it.
unfoldable pub or_else : {A : Type 0} → A → Option A → A
or_else old none = old
or_else old (some new) = new

unfoldable pub first_or : {A B : Type 0} → A → Option (A × B) → A
first_or old none = old
first_or old (some new) = new.0

module _ {M : Type 0} (host : Host M) where
  open host use {arch, size, cpu, tasks, tables, user, get_word, put_page, stack, ptedit_fd}

  -- `ioctl(fd, command, param)`; a negative descriptor fails. The result is `none` where the
  -- kernel dereferences `NULL`.
  unfoldable pub ioctl_on : Option ℕ → Command → ℕ → State M → Option (Outcome M)
  ioctl_on none command param s = reply (minus 1) s
  ioctl_on (some fd) command param s = device_ioctl arch size cpu tasks tables user command param s

  unfoldable pub ioctl : Command → ℕ → State M → Option (Outcome M)
  ioctl command param s = ioctl_on ptedit_fd command param s

  -- A call after which the function goes on with `result`.
  abbrev pub after : {A : Type 0} → Option (Outcome M) → (State M → A) → Option A
  after call result = call >>= λ o. some (result o.state)

  -- `ptedit_resolve_kernel`: the entry and the state.
  pub resolve_kernel : ℕ → ℕ → State M → Option (Entry × State M)
  resolve_kernel address pid s =
      let vm = record blank { vaddr = address; pid = pid } in
      after (ioctl vm_resolve stack (on_machine (user.put_entry stack vm) s))
        (λ s'. (user.get_entry s'.machine stack, s'))

  -- `ptedit_update_kernel`; `vm` points to an entry of the caller, here at `stack`.
  pub update_kernel : ℕ → ℕ → Entry → State M → Option (State M)
  update_kernel address pid vm s =
      let vm' = record vm { vaddr = address; pid = pid } in
      after (ioctl vm_update stack (on_machine (user.put_entry stack vm') s)) (λ s'. s')

  unfoldable pub get_paging_root : ℕ → State M → Option (ℕ × State M)
  get_paging_root pid s =
      let cr3 : Paging = record { pid = pid; root = 0 } in
      after (ioctl get_root stack (on_machine (user.put_paging stack cr3) s))
        (λ s'. ((user.get_paging s'.machine stack).root, s'))

  pub set_paging_root : ℕ → ℕ → State M → Option (State M)
  set_paging_root pid root s =
      let cr3 : Paging = record { pid = pid; root = root } in
      after (ioctl set_root stack (on_machine (user.put_paging stack cr3) s)) (λ s'. s')

  unfoldable pub ptedit_invalidate_tlb : ℕ → State M → Option (State M)
  ptedit_invalidate_tlb address s = after (ioctl invalidate_tlb address s) (λ s'. s')

  pub ptedit_switch_tlb_invalidation : ℕ → State M → Option (Outcome M)
  ptedit_switch_tlb_invalidation implementation s = ioctl switch_tlb_invalidation implementation s

  unfoldable pub get_pagesize_call : State M → Option (Outcome M)
  get_pagesize_call s = ioctl get_pagesize 0 s

  pub get_mts : State M → Option (ℕ × State M)
  get_mts s =
      after (ioctl get_pat_command stack (on_machine (user.put_word stack 0) s))
        (λ s'. (get_word s'.machine stack, s'))

  pub set_mts : ℕ → State M → Option (State M)
  set_mts mts s = after (ioctl set_pat_command mts s) (λ s'. s')

  -- `ptedit_full_serializing_barrier`: `before` and `after_it` are the fences on either side.
  pub full_serializing_barrier : (M → M) → (M → M) → State M → Option (State M)
  full_serializing_barrier before after_it s =
      get_paging_root 0 (on_machine before s) >>= λ (root, s1).
      set_paging_root 0 root s1 >>= λ s2. some (on_machine after_it s2)
