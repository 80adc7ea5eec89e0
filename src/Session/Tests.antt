-- ===== src/Session/Tests.antt =====
-- The session of a process, on the small machine of the tests of the kernel module.
use pteditor_riscv.Base.{◌≡◌, none, some, ◌>>=◌}
use pteditor_riscv.Entry.{aarch64}
use pteditor_riscv.Kernel.Device.{code}
use pteditor_riscv.Kernel.Tests.Machine.{Board, loaded}
use pteditor_riscv.Paging.{init_definition}
use pteditor_riscv.Request.{Host}
use pteditor_riscv.Request.Tests.{host}
use pteditor_riscv.Session.{Session, Calls, ptedit_init}
use pteditor_riscv.Session.Opened.{outcome, ptedit_cleanup-init}

abbrev calls : Calls Board
calls = record {
  next_descriptor = λ m. 3;
  open_umem = λ m. (some 4, m);
  close = λ fd m. m;
  getpagesize = 16384;
  mmap = λ m fd length. 0x100000;
}

-- The globals of a process that has just started.
abbrev fresh : Session
unfolding init_definition
fresh = record {
  ptedit_fd = some 0;
  ptedit_umem = some 0;
  ptedit_pagesize = 0;
  ptedit_paging_root = 0;
  ptedit_vmem = 0;
  ptedit_paging_definition = init_definition aarch64 0;
  pointers = none;
}

-- An ARM machine with pages of 16 KB.
abbrev big_pages : Host Board
big_pages = record host {
  arch = aarch64;
  size = record { real_page_size = 16384; real_page_shift = 14 };
}

ptedit_cleanup-init_example :
    (ptedit_init big_pages calls fresh loaded >>= λ d. some (outcome big_pages calls d))
    ≡ some (code 0, loaded.device_busy)
ptedit_cleanup-init_example = ptedit_cleanup-init big_pages calls fresh loaded
