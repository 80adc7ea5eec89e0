-- ===== src/Session.antt =====
-- ptedit.c on Linux, the globals of the library and `ptedit_init`, `ptedit_cleanup`,
-- `ptedit_use_implementation` and `ptedit_get_pagesize`.
pub mod Opened
pub mod OnWindows
pub mod Tests
use pteditor_riscv.Base.{ℕ, ◌*◌, ◌^◌, ◌==◌, Bool, if◌then◌else◌, Option, none, some, ◌>>=◌}
use pteditor_riscv.Entry.{Arch, x86_64, aarch64}
use pteditor_riscv.Kernel.{State}
use pteditor_riscv.Kernel.Device.{Code, code, minus, Outcome, device_open, device_release}
use pteditor_riscv.Kernel.Ioctl.{on_machine}
use pteditor_riscv.Paging.{PagingDefinition, init_definition}
use pteditor_riscv.Physical.{Descriptor, is_open}
use pteditor_riscv.Request.{Host, get_paging_root, get_pagesize_call}

-- `PTEDIT_IMPL_KERNEL`, `PTEDIT_IMPL_USER_PREAD` and `PTEDIT_IMPL_USER`
abbrev pub impl_kernel : ℕ
impl_kernel = 0

abbrev pub impl_user_pread : ℕ
impl_user_pread = 1

abbrev pub impl_user : ℕ
impl_user = 2

-- The pairs of functions that `ptedit_resolve` and `ptedit_update` point to.
pub data Implementation : Type 0 where
  kernel user user_map : Implementation

-- The globals. `pointers` is `none` while the two pointers are `NULL`.
pub record Session : Type 0 where
  pub ptedit_fd : Descriptor
  pub ptedit_umem : Descriptor
  pub ptedit_pagesize : ℕ
  pub ptedit_paging_root : ℕ
  pub ptedit_vmem : ℕ
  pub ptedit_paging_definition : PagingDefinition
  pub pointers : Option Implementation

-- What the library calls besides the device: the descriptor that the next `open` gives, `open` and
-- `close` of `/proc/umem`, `getpagesize`, and the mapping of physical memory.
pub record Calls (M : Type 0) : Type 0 where
  pub next_descriptor : M → ℕ
  pub open_umem : M → Descriptor × M
  pub close : ℕ → M → M
  pub getpagesize : ℕ
  pub mmap : M → Descriptor → ℕ → ℕ

-- What a function returns, and the state that it leaves.
pub record Done (M : Type 0) : Type 0 where
  pub session : Session
  pub state : State M
  pub returned : Code

-- The descriptor that `open` returns for the device, by what `device_open` returns.
pub descriptor_of : Code → ℕ → Descriptor
descriptor_of (minus e) next = none
descriptor_of (code c) next = some next

-- A value that `ioctl` returns; -1 in place of the negation of an error.
pub value_of : Code → Option ℕ
value_of (code value) = some value
value_of (minus e) = none

module _ {M : Type 0} (host : Host M) (calls : Calls M) where
  open calls use {next_descriptor, open_umem, close, getpagesize, mmap}

  -- The host, with the descriptor of the session.
  abbrev pub at : Session → Host M
  at session = record host { ptedit_fd = session.ptedit_fd }

  -- The root that both user-space implementations read.
  pub with_root : Session → State M → Option (Session × State M)
  with_root session s = get_paging_root (at session) 0 s >>= λ (root, s').
      let answer : Session × State M = (record session { ptedit_paging_root = root }, s') in
      some answer

  -- `if (!ptedit_vmem) ptedit_vmem = mmap(NULL, 32ull << 30ull, ..., ptedit_umem, 0)`
  pub with_vmem : Session → State M → Session
  with_vmem session s =
      if session.ptedit_vmem == 0
      then record session { ptedit_vmem = mmap s.machine session.ptedit_umem (32 * 2 ^ 30) }
      else session

  pub use_implementation : ℕ → Session → State M → Option (Session × State M)
  use_implementation implementation session s =
      let unchanged : Session × State M = (session, s) in
      let by_kernel : Session × State M = (record session { pointers = some kernel }, s) in
      if implementation == impl_kernel
      then some by_kernel
      else if implementation == impl_user_pread
      then with_root (record session { pointers = some user }) s
      else if implementation == impl_user
      then (with_root (record session { pointers = some user_map }) s >>= λ (session', s').
          let mapped : Session × State M = (with_vmem session' s', s') in some mapped)
      else some unchanged

  -- `ptedit_get_pagesize`; `none` where the result is -1.
  pub get_pagesize : Session → State M → Option (Option ℕ × State M)
  get_pagesize session s = get_pagesize_call (at session) s >>= λ o.
      let answer : Option ℕ × State M = (value_of o.returned, o.state) in some answer

  abbrev pub succeeded : Session × State M → Done M
  succeeded (session, s) = record { session = session; state = s; returned = code 0 }

  -- The definition that `ptedit_init` chooses by the page size, and on ARM with pages of 16 KB the
  -- implementation.
  pub init_with_size : Option ℕ → Session → State M → Option (Done M)
  init_with_size none session s =
      some (succeeded (record session { ptedit_paging_definition = init_definition aarch64 0 }, s))
  init_with_size (some size) session s =
      let defined = record session { ptedit_paging_definition = init_definition aarch64 size } in
      if size == 16384
      then (use_implementation impl_user_pread defined s >>= λ used. some (succeeded used))
      else some (succeeded (defined, s))

  pub init_definition_step : Arch → Session → State M → Option (Done M)
  init_definition_step x86_64 session s = some (
      succeeded
        (record session { ptedit_paging_definition = init_definition x86_64 getpagesize }, s))
  init_definition_step aarch64 session s =
      get_pagesize session s >>= λ (size, s'). init_with_size size session s'

  -- `ptedit_init` from the descriptor of the device on.
  pub init_with : Descriptor → Session → State M → Option (Done M)
  init_with none session s =
      some (record { session = record session { ptedit_fd = none }; state = s; returned = minus 1 })
  init_with (some fd) session s =
      let (umem, m) = open_umem s.machine in
      let opened = record session { ptedit_fd = some fd; ptedit_umem = umem } in
      use_implementation impl_kernel opened (on_machine (λ m0. m) s) >>= λ (used, s').
      init_definition_step host.arch (record used { ptedit_pagesize = getpagesize }) s'

  pub ptedit_init : Session → State M → Option (Done M)
  ptedit_init session s =
      let opened = device_open s in
      init_with (descriptor_of opened.returned (next_descriptor s.machine)) session opened.state

  -- `close` of the descriptor of the device.
  pub close_device : Descriptor → State M → State M
  close_device none s = s
  close_device (some fd) s = (device_release s).state

  -- `if (ptedit_umem > 0) close(ptedit_umem);`
  pub close_umem : Descriptor → M → M
  close_umem none m = m
  close_umem (some fd) m = if is_open (some fd) then close fd m else m

  -- `ptedit_cleanup`
  pub ptedit_cleanup : Session → State M → State M
  ptedit_cleanup session s =
      on_machine (close_umem session.ptedit_umem) (close_device session.ptedit_fd s)
