-- ===== src/Kernel/Roundtrip.antt =====
-- The requests of `device_ioctl` in module/pteditor.c that set and get the root of a process.
use mathlib.Core.Option.{some-injective}
use pteditor_riscv.Base.{
  ℕ, ◌≡◌, ◌≢◌, refl, sym, ap, ◌∙◌, arith, false, not, if◌then◌else◌, Option, none, some, ◌>>=◌,
  ==_of_ne,
}
use pteditor_riscv.Entry.{Arch, x86_64, aarch64}
use pteditor_riscv.Kernel.{State, Tasks, Tables, get_mm}
use pteditor_riscv.Kernel.Machine.{lock_machine}
use pteditor_riscv.Kernel.Tlb.{Cpu, PageSize}
use pteditor_riscv.Kernel.Device.{Outcome}
use pteditor_riscv.Kernel.Ioctl.{
  Paging, get_root, set_root, User, no_pgd, read_root, root_of_current, get_root_in,
  handle_get_root, set_root_in, handle_set_root, device_ioctl,
}

-- What is relied on: `mm->pgd` is a member that reads back, of which the kernel's other data and
-- the buffer of the process are independent, and the kernel's map of physical memory is
-- one-to-one.
pub record IsRootStore {M : Type 0} (tasks : Tasks M) (user : User M) : Type 0 where
  pub pgd_set : (mm p : ℕ) (m : M) → user.mm_pgd (user.set_mm_pgd mm p m) mm ≡ p
  pub tasks_kept :
      (mm p : ℕ) (m : M) (pid : ℕ) → get_mm tasks (user.set_mm_pgd mm p m) pid ≡ get_mm tasks m pid
  pub buffer_kept :
      (mm p : ℕ) (m : M) (a : ℕ) → user.get_paging (user.set_mm_pgd mm p m) a ≡ user.get_paging m a
  pub buffer_set : (a : ℕ) (v : Paging) (m : M) → user.get_paging (user.put_paging a v m) a ≡ v
  pub virt_of : (r : ℕ) → user.virt_to_phys (user.phys_to_virt r) ≡ r

module _ {M : Type 0} (arch : Arch) (size : PageSize) (cpu : Cpu M) (tasks : Tasks M)
    (tables : Tables M) (user : User M) (store : IsRootStore tasks user) where
  -- What the process finds in its buffer after a request.
  abbrev answer : ℕ → Option (Outcome M) → Option Paging
  answer param result = result >>= λ o. some (user.get_paging o.state.machine param)

  has_pgd :
      (a : Arch) (m : M) (mm : ℕ)
      → user.mm_pgd m mm ≢ 0
      → no_pgd arch size cpu tasks tables user a m mm ≡ false
  unfolding no_pgd
  has_pgd x86_64 m mm h = refl
  has_pgd aarch64 m mm h = ==_of_ne (user.mm_pgd m mm) 0 h

  read_answer :
      (param mm : ℕ) (paging : Paging) (s : State M)
      → answer param (read_root arch size cpu tasks tables user mm param paging s)
        ≡ some (record paging { root = user.virt_to_phys (user.mm_pgd s.machine mm) })
  unfolding read_root
  read_answer param mm paging s = ap some (
      store.buffer_set param _ _
      ∙ ap (λ m. record paging { root = user.virt_to_phys (user.mm_pgd m mm) })
          (lock_machine (not s.mm_is_locked) _ s))

  get_root_answer :
      (param mm : ℕ) (s : State M)
      → get_mm tasks s.machine (user.get_paging s.machine param).pid ≡ some mm
      → user.mm_pgd s.machine mm ≢ 0
      → answer param (device_ioctl arch size cpu tasks tables user get_root param s)
        ≡ some (record (user.get_paging s.machine param) {
          root = user.virt_to_phys (user.mm_pgd s.machine mm);
        })
  unfolding device_ioctl handle_get_root get_root_in
  get_root_answer param mm s found nonzero =
      let paging = user.get_paging s.machine param in
      ap (λ f. answer param (get_root_in arch size cpu tasks tables user param paging f s)) found
      ∙ ap
          (λ b. answer param (
            if b
            then root_of_current arch size cpu tasks tables user param paging s
            else read_root arch size cpu tasks tables user mm param paging s))
          (has_pgd arch s.machine mm nonzero)
      ∙ read_answer param mm paging s

  -- The machine after `SET_ROOT`.
  set_root_machine :
      (param mm : ℕ) (s : State M)
      → get_mm tasks s.machine (user.get_paging s.machine param).pid ≡ some mm
      → (device_ioctl arch size cpu tasks tables user set_root param s >>= λ o.
          some o.state.machine)
        ≡ some (
            user.set_mm_pgd mm (user.phys_to_virt (user.get_paging s.machine param).root) s.machine)
  unfolding device_ioctl handle_set_root set_root_in
  set_root_machine param mm s found =
      let root = (user.get_paging s.machine param).root in
      ap (λ f. set_root_in arch size cpu tasks tables user root f s >>= λ o. some o.state.machine)
        found
      ∙ ap some (
          lock_machine (not s.mm_is_locked) _ _
          ∙ ap (user.set_mm_pgd mm (user.phys_to_virt root))
              (lock_machine (not s.mm_is_locked) _ s))

  get_root_after :
      (param mm : ℕ) (s : State M) (result : Option (Outcome M))
      → get_mm tasks s.machine (user.get_paging s.machine param).pid ≡ some mm
      → user.phys_to_virt (user.get_paging s.machine param).root ≢ 0
      → (result >>= λ o. some o.state.machine)
        ≡ some (
            user.set_mm_pgd mm (user.phys_to_virt (user.get_paging s.machine param).root) s.machine)
      → (result >>= λ o.
          answer param (device_ioctl arch size cpu tasks tables user get_root param o.state))
        ≡ some (user.get_paging s.machine param)
  get_root_after param mm s none found nonzero set = absurd (ground arith)
  get_root_after param mm s (some o) found nonzero set =
      let paging = user.get_paging s.machine param in
      let pgd = user.phys_to_virt paging.root in
      let same : o.state.machine ≡ user.set_mm_pgd mm pgd s.machine = some-injective _ _ set in
      let buffer : user.get_paging o.state.machine param ≡ paging =
        ap (λ m. user.get_paging m param) same ∙ store.buffer_kept mm pgd s.machine param in
      let map : get_mm tasks o.state.machine (user.get_paging o.state.machine param).pid ≡ some mm =
        ap (λ p. get_mm tasks o.state.machine p.pid) buffer
        ∙ ap (λ m. get_mm tasks m paging.pid) same
        ∙ store.tasks_kept mm pgd s.machine paging.pid
        ∙ found in
      let root : user.mm_pgd o.state.machine mm ≡ pgd =
        ap (λ m. user.mm_pgd m mm) same ∙ store.pgd_set mm pgd s.machine in
      get_root_answer param mm o.state map (λ zero_pgd. nonzero (sym root ∙ zero_pgd))
      ∙ ap {A = Paging}
          (λ p. some (record p { root = user.virt_to_phys (user.mm_pgd o.state.machine mm) }))
          buffer
      ∙ ap {A = ℕ} (λ r. some (record paging { root = r }))
          (ap user.virt_to_phys root ∙ store.virt_of paging.root)

  -- `SET_ROOT` and then `GET_ROOT` with one buffer, for a process with a memory map and a root
  -- that the kernel has in its map of physical memory: both return, and the buffer holds the
  -- process and the root that were set, whether or not the map is locked.
  pub get_root-set_root :
      (param mm : ℕ) (s : State M)
      → get_mm tasks s.machine (user.get_paging s.machine param).pid ≡ some mm
      → user.phys_to_virt (user.get_paging s.machine param).root ≢ 0
      → (device_ioctl arch size cpu tasks tables user set_root param s >>= λ o.
          device_ioctl arch size cpu tasks tables user get_root param o.state >>= λ o'.
          some (user.get_paging o'.state.machine param))
        ≡ some (user.get_paging s.machine param)
  get_root-set_root param mm s found nonzero =
      get_root_after param mm s (device_ioctl arch size cpu tasks tables user set_root param s)
        found nonzero (set_root_machine param mm s found)
