-- ===== src/Request/Root.antt =====
-- `ptedit_get_paging_root` and `ptedit_full_serializing_barrier` of ptedit.c through the kernel
-- module, on x86 with the device open.
use pteditor_riscv.Base.{ℕ, ◌≡◌, refl, sym, ap, subst, ◌∙◌, not, none, some, ◌>>=◌}
use pteditor_riscv.Entry.{x86_64}
use pteditor_riscv.Kernel.{
  Pointer, read_lock, read_unlock, write_lock, write_unlock, State, Tasks, get_mm, lock_if,
}
use pteditor_riscv.Kernel.Ioctl.{
  Paging, User, on_machine, no_pgd, no_mm_root, read_root, get_root_in, handle_get_root,
  set_root_in, handle_set_root, device_ioctl,
}
use pteditor_riscv.Kernel.Machine.{lock_machine}
use pteditor_riscv.Kernel.Roundtrip.{IsRootStore}
use pteditor_riscv.Request.{
  Host, ioctl_on, ioctl, get_paging_root, set_paging_root, full_serializing_barrier,
}
use pteditor_riscv.Request.Steps.{on_device}

-- The kernel sees the same processes and the same PGD of each memory map.
pub record SameRoots {M : Type 0} (tasks : Tasks M) (user : User M) (m m' : M) : Type 0 where
  pub mm_same : (pid : ℕ) → get_mm tasks m' pid ≡ get_mm tasks m pid
  pub pgd_same : (mm : ℕ) → user.mm_pgd m' mm ≡ user.mm_pgd m mm

-- What is relied on, besides `IsRootStore`: a struct of the process is no part of the kernel's
-- data.
pub record IsRootMachine {M : Type 0} (tasks : Tasks M) (user : User M) : Type 0 where
  pub store : IsRootStore tasks user
  pub apart : (a : ℕ) (v : Paging) (m : M) → SameRoots tasks user m (user.put_paging a v m)

module _ {M : Type 0} (host : Host M) (fd : ℕ) (laws : IsRootMachine host.tasks host.user) where
  open host use {size, cpu, tasks, tables, user, stack}

  abbrev pub x86 : Host M
  x86 = on_device host fd

  -- The root of a process: 0 where it has no memory map.
  abbrev pub root_at : Pointer → M → ℕ
  root_at none m = 0
  root_at (some mm) m = user.virt_to_phys (user.mm_pgd m mm)

  abbrev blank_root : ℕ → Paging
  blank_root pid = record { pid = pid; root = 0 }

  abbrev asked : ℕ → State M → State M
  asked pid s = on_machine (user.put_paging stack (blank_root pid)) s

  -- The state after the request, from the one that it is made in.
  abbrev read_state : ℕ → Pointer → State M → State M
  read_state pid none s = s
  read_state pid (some mm) s =
      let lock = not s.mm_is_locked in
      on_machine (user.put_paging stack (record { pid = pid; root = root_at (some mm) s.machine }))
        (lock_if lock (read_unlock mm) (lock_if lock (read_lock mm) s))

  abbrev pub root_state : ℕ → Pointer → State M → State M
  root_state pid found s = read_state pid found (asked pid s)

  asked_same : (pid : ℕ) (s : State M) → SameRoots tasks user s.machine (asked pid s).machine
  asked_same pid s = laws.apart stack (blank_root pid) s.machine

  locks_same :
      (mm : ℕ) (s : State M)
      → (lock_if
          (not s.mm_is_locked)
          (read_unlock mm)
          (lock_if (not s.mm_is_locked) (read_lock mm) s)).machine
        ≡ s.machine
  locks_same mm s = lock_machine (not s.mm_is_locked) _ _ ∙ lock_machine (not s.mm_is_locked) _ s

  read_answer :
      (pid : ℕ) (found : Pointer) (s : State M)
      → user.get_paging s.machine stack ≡ blank_root pid
      → (get_root_in x86_64 size cpu tasks tables user stack (blank_root pid) found s >>= λ o.
          let answer : ℕ × State M = ((user.get_paging o.state.machine stack).root, o.state) in
          some answer)
        ≡ some (root_at found s.machine, read_state pid found s)
  unfolding get_root_in no_mm_root no_pgd read_root
  read_answer pid none s asked_for = rw (asked_for) refl
  read_answer pid (some mm) s asked_for =
      rw (laws.store.buffer_set, lock_machine (not s.mm_is_locked) (read_lock mm) s) refl

  pub root_at_same :
      (found : Pointer) (m m' : M) → SameRoots tasks user m m' → root_at found m' ≡ root_at found m
  root_at_same none m m' same = refl
  root_at_same (some mm) m m' same = ap user.virt_to_phys (same.pgd_same mm)

  -- `ptedit_get_paging_root` returns the physical address of the PGD of the process's memory map,
  -- and 0 for a process without a memory map, where the request fails.
  pub get_paging_root_lem :
      (pid : ℕ) (s : State M)
      → get_paging_root x86 pid s
        ≡ some (
          root_at (get_mm tasks s.machine pid) s.machine,
          root_state pid (get_mm tasks s.machine pid) s,
        )
  unfolding get_paging_root ioctl ioctl_on device_ioctl handle_get_root
  get_paging_root_lem pid s =
      let found = get_mm tasks s.machine pid in
      let asked_for = laws.store.buffer_set stack (blank_root pid) s.machine in
      rw
        (
          asked_for,
          (asked_same pid s).mm_same pid,
          read_answer pid found (asked pid s) asked_for,
          root_at_same found s.machine (asked pid s).machine (asked_same pid s),
        )
        refl

  SameRoots-trans :
      (a b c : M) → SameRoots tasks user a b → SameRoots tasks user b c → SameRoots tasks user a c
  SameRoots-trans a b c first second = record {
    mm_same = λ pid. second.mm_same pid ∙ first.mm_same pid;
    pgd_same = λ mm. second.pgd_same mm ∙ first.pgd_same mm;
  }

  read_same :
      (pid : ℕ) (found : Pointer) (s : State M)
      → SameRoots tasks user s.machine (read_state pid found s).machine
  read_same pid none s = record { mm_same = λ p. refl; pgd_same = λ mm. refl }
  read_same pid (some mm) s =
      let paging : Paging = record { pid = pid; root = root_at (some mm) s.machine } in
      subst (λ m. SameRoots tasks user s.machine (user.put_paging stack paging m))
        (sym (locks_same mm s)) (laws.apart stack paging s.machine)

  -- Reading the root leaves processes and roots as they are.
  pub get_paging_root_same :
      (pid : ℕ) (s : State M)
      → SameRoots tasks user s.machine (root_state pid (get_mm tasks s.machine pid) s).machine
  get_paging_root_same pid s =
      SameRoots-trans s.machine (asked pid s).machine _ (asked_same pid s)
        (read_same pid (get_mm tasks s.machine pid) (asked pid s))

  -- The state in which `SET_ROOT` is requested, and the one after it.
  abbrev told : ℕ → ℕ → State M → State M
  told pid root s = on_machine (user.put_paging stack (record { pid = pid; root = root })) s

  abbrev set_state : ℕ → ℕ → State M → State M
  set_state mm root s =
      let lock = not s.mm_is_locked in
      lock_if lock (write_unlock mm)
        (on_machine (user.set_mm_pgd mm (user.phys_to_virt root)) (lock_if lock (write_lock mm) s))

  set_step :
      (pid root mm : ℕ) (s : State M)
      → get_mm tasks s.machine pid ≡ some mm
      → set_paging_root x86 pid root s ≡ some (set_state mm root (told pid root s))
  unfolding set_paging_root ioctl ioctl_on device_ioctl handle_set_root set_root_in
  set_step pid root mm s map =
      rw
        (
          laws.store.buffer_set stack (record { pid = pid; root = root }) s.machine,
          (laws.apart stack (record { pid = pid; root = root }) s.machine).mm_same pid,
          map,
        )
        refl

  set_pgd :
      (mm root : ℕ) (s : State M)
      → user.mm_pgd (set_state mm root s).machine mm ≡ user.phys_to_virt root
  set_pgd mm root s =
      ap (λ m. user.mm_pgd m mm) (lock_machine (not s.mm_is_locked) _ _)
      ∙ laws.store.pgd_set mm (user.phys_to_virt root) _

  -- `ptedit_full_serializing_barrier` returns, and the PGD of the caller's memory map is the one
  -- it was, where the fences keep processes and roots and the kernel has the PGD in its map of
  -- physical memory.
  pub full_serializing_barrier_lem :
      (mm : ℕ) (before after_it : M → M) (s : State M)
      → ((m : M) → SameRoots tasks user m (before m))
      → ((m : M) → SameRoots tasks user m (after_it m))
      → get_mm tasks s.machine 0 ≡ some mm
      → user.phys_to_virt (user.virt_to_phys (user.mm_pgd s.machine mm)) ≡ user.mm_pgd s.machine mm
      → (full_serializing_barrier x86 before after_it s >>= λ s'. some (user.mm_pgd s'.machine mm))
        ≡ some (user.mm_pgd s.machine mm)
  unfolding full_serializing_barrier
  full_serializing_barrier_lem mm before after_it s quiet quiet' map mapped =
      let sb = on_machine before s in
      let found = get_mm tasks sb.machine 0 in
      let map_before : found ≡ some mm = (quiet s.machine).mm_same 0 ∙ map in
      let root = root_at found sb.machine in
      let s1 = root_state 0 found sb in
      let map1 = (get_paging_root_same 0 sb).mm_same 0 ∙ map_before in
      rw
        (
          get_paging_root_lem 0 sb,
          set_step 0 root mm s1 map1,
          (quiet' (set_state mm root (told 0 root s1)).machine).pgd_same mm,
          set_pgd mm root (told 0 root s1),
        )
        (ap (λ f. some (user.phys_to_virt (root_at f sb.machine))) map_before
          ∙ ap (λ v. some (user.phys_to_virt (user.virt_to_phys v))) ((quiet s.machine).pgd_same mm)
          ∙ ap some mapped)
