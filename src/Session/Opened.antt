-- ===== src/Session/Opened.antt =====
-- `ptedit_init` and `ptedit_cleanup` of ptedit.c over `device_open` and `device_release` of
-- module/pteditor.c: one process at a time has the device.
use pteditor_riscv.Base.{
  ℕ, ◌≡◌, refl, ◌∙◌, arith, Bool, true, false, if◌then◌else◌, ◌==◌, Option, none, some, ◌>>=◌,
  is_some, Bool-cases, inl, inr,
}
use pteditor_riscv.Entry.{Arch, x86_64, aarch64}
use pteditor_riscv.Kernel.{State}
use pteditor_riscv.Kernel.Device.{Code, code, minus, device_open, device_release}
use pteditor_riscv.Kernel.Requests.{get_root_returns}
use pteditor_riscv.Kernel.Ioctl.{get_root, device_ioctl}
use pteditor_riscv.Paging.{init_definition}
use pteditor_riscv.Request.{Host, ioctl, ioctl_on, get_paging_root, get_pagesize_call}
use pteditor_riscv.Session.{
  Session, Calls, Done, descriptor_of, use_implementation, init_with_size, init_definition_step,
  init_with, ptedit_init, succeeded, user, kernel, at, with_root, get_pagesize, value_of,
  close_device, ptedit_cleanup,
}

module _ {M : Type 0} (host : Host M) (calls : Calls M) where
  -- What a caller gets from `ptedit_init`, and whether the device is in use after
  -- `ptedit_cleanup`.
  abbrev pub outcome : Done M → Code × Bool
  outcome d = (d.returned, (ptedit_cleanup host calls d.session d.state).device_busy)

  -- The rest of a function that has read a root.
  read_outcome :
      (fd : ℕ) (session : Session) (found : Option (ℕ × State M))
      → is_some found ≡ true
      → (((found >>= λ (root, s').
              let answer : Session × State M =
                (record session { ptedit_fd = some fd; ptedit_paging_root = root }, s') in
              some answer)
            >>= λ used. some (succeeded host calls used))
          >>= λ d. some (outcome d))
        ≡ some (code 0, false)
  unfolding ptedit_cleanup close_device device_release
  read_outcome fd session none returns = absurd (ground arith)
  read_outcome fd session (some answer) returns = refl

  is_some-after :
      {A B : Type 0} (call : Option A) (f : A → B)
      → is_some (call >>= λ o. some (f o)) ≡ is_some call
  is_some-after none f = refl
  is_some-after (some o) f = refl

  root_returns :
      (session : Session) (fd : ℕ) (s : State M)
      → is_some (get_paging_root (at host calls (record session { ptedit_fd = some fd })) 0 s)
        ≡ true
  unfolding get_paging_root ioctl ioctl_on
  root_returns session fd s =
      is_some-after
        (device_ioctl host.arch host.size host.cpu host.tasks host.tables host.user get_root
          host.stack _)
        _
      ∙ get_root_returns host.arch host.size host.cpu host.tasks host.tables host.user host.stack _

  size_outcome :
      (fd size : ℕ) (session : Session) (s : State M)
      → (init_with_size host calls (some size) (record session { ptedit_fd = some fd }) s >>= λ d.
          some (outcome d))
        ≡ some (code 0, false)
  unfolding init_with_size ptedit_cleanup close_device device_release use_implementation with_root
  size_outcome fd size session s = elim (Bool-cases (size == 16384)) [
    | inl big ↦ rw (big) (
        let opened = record session {
          ptedit_paging_definition = init_definition aarch64 size;
          pointers = some user;
        } in
        read_outcome fd opened
          (get_paging_root (at host calls (record opened { ptedit_fd = some fd })) 0 s)
          (root_returns opened fd s))
    | inr small ↦ rw (small) refl
  ]

  step_outcome :
      (arch : Arch) (fd : ℕ) (session : Session) (s : State M)
      → (init_definition_step host calls arch (record session { ptedit_fd = some fd }) s >>= λ d.
          some (outcome d))
        ≡ some (code 0, false)
  unfolding init_definition_step ptedit_cleanup close_device device_release get_pagesize
      get_pagesize_call ioctl ioctl_on device_ioctl value_of
  step_outcome x86_64 fd session s = refl
  step_outcome aarch64 fd session s = size_outcome fd host.size.real_page_size session s

  -- `ptedit_init` returns: -1 exactly where the device is in use, and 0 else; and after a
  -- `ptedit_cleanup` the device is in use if it was before.
  pub ptedit_cleanup-init :
      (session : Session) (s : State M)
      → (ptedit_init host calls session s >>= λ d. some (outcome d))
        ≡ some (if s.device_busy then minus 1 else code 0, s.device_busy)
  unfolding ptedit_init device_open descriptor_of init_with ptedit_cleanup close_device
      device_release use_implementation
  ptedit_cleanup-init session s = elim (Bool-cases s.device_busy) [
    | inl busy ↦ rw (busy) refl
    | inr free ↦ rw (free) (
        step_outcome host.arch (calls.next_descriptor s.machine)
          (record session {
            ptedit_umem = (calls.open_umem s.machine).0;
            ptedit_pagesize = calls.getpagesize;
            pointers = some kernel;
          })
          _)
  ]
