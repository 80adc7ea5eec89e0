-- ===== src/Session/OnWindows.antt =====
-- ptedit.c on Windows: `ptedit_init`, `ptedit_cleanup`, `ptedit_use_implementation` and
-- `ptedit_get_pagesize`, over driver/PTEdit/Driver.c.
use pteditor_riscv.Base.{ℕ, ◌==◌, if◌then◌else◌, Option, none, some}
use pteditor_riscv.Driver.{Windows}
use pteditor_riscv.Entry.{x86_64}
use pteditor_riscv.Kernel.Device.{Code, code, minus}
use pteditor_riscv.Paging.{init_definition}
use pteditor_riscv.Physical.{Descriptor}
use pteditor_riscv.Request.OnWindows.{paging_root_by_driver}
use pteditor_riscv.Session.{Session, user, impl_user_pread}

-- What the library calls: `CreateFile` on the device, `CloseHandle`, `GetSystemInfo` for the page
-- size, and `GetCurrentProcessId`. `none` is INVALID_HANDLE_VALUE.
pub record Handles (M : Type 0) : Type 0 where
  pub create_file : M → Option ℕ × M
  pub close_handle : Option ℕ → M → M
  pub page_size : ℕ
  pub current_process : ℕ

-- The globals, the machine, and what a function returns.
pub record Result (M : Type 0) : Type 0 where
  pub session : Session
  pub machine : M
  pub returned : Code

module _ {M : Type 0} (win : Windows M) (handles : Handles M) where
  open handles use {create_file, close_handle, page_size, current_process}

  -- `ptedit_use_implementation`: PTEDIT_IMPL_KERNEL and PTEDIT_IMPL_USER are not supported.
  pub use_implementation_on_windows : ℕ → Session → M → Session × M
  use_implementation_on_windows implementation session m =
      let unchanged : Session × M = (session, m) in
      let (root, m') = paging_root_by_driver win current_process 0 m in
      let by_driver : Session × M =
        (record session { pointers = some user; ptedit_paging_root = root }, m') in
      if implementation == impl_user_pread then by_driver else unchanged

  -- `ptedit_init` from the handle on; `ptedit_fd` is `none` for INVALID_HANDLE_VALUE.
  pub init_on_handle : Descriptor → Session → M → Result M
  init_on_handle none session m = record {
    session = record session { ptedit_fd = none };
    machine = m;
    returned = minus 1;
  }
  init_on_handle (some handle) session m =
      let opened = record session { ptedit_fd = some handle; ptedit_umem = some 0 } in
      let (used, m') = use_implementation_on_windows impl_user_pread opened m in
      record {
        session = record used {
          ptedit_pagesize = page_size;
          ptedit_paging_definition = init_definition x86_64 page_size;
        };
        machine = m';
        returned = code 0;
      }

  pub init_on_windows : Session → M → Result M
  init_on_windows session m = let (handle, m') = create_file m in init_on_handle handle session m'

  -- `ptedit_cleanup`
  pub cleanup_on_windows : Session → M → M
  cleanup_on_windows session m = close_handle session.ptedit_fd m
