-- ===== src/Driver/Tests.antt =====
-- The Windows driver at concrete inputs.
use pteditor_riscv.Base.{ℕ, ◌+◌, ◌≡◌, refl, arith, true, ◌==◌, if◌then◌else◌, none}
use pteditor_riscv.Driver.{
  Windows, read_phys_val, write_phys_val, dispatch_device_ctl, control_write_val, done, system,
  nt_success, driver_entry,
}
use pteditor_riscv.Request.OnWindows.{phys_read, phys_write, device_io_control, device_io_control_2}
use pteditor_riscv.Driver.Laws.{IsPhysical, driver_entry_lem, read-write_phys_val}

-- Index 27, the last of the table, keeps what was there.
driver_entry_lem_example :
    let loaded = driver_entry 0 0 (λ j. system) in
    (loaded.handlers 27 ≡ system)
    × (loaded.device ≡ true)
    × (loaded.link ≡ true)
    × (loaded.driver_unload ≡ true)
    × (nt_success loaded.status ≡ true)
driver_entry_lem_example = driver_entry_lem 0 0 (λ j. system) 27

-- Physical words, which are mapped at 4096, and the buffer.
record Board : Type 0 where
  physical : ℕ → ℕ
  buffer : ℕ → ℕ

abbrev windows : Windows Board
windows = record {
  word = λ m i. m.buffer i;
  set_word = λ i v m. record m { buffer = λ j. if i == j then v else m.buffer j };
  paddr = λ m. 0;
  copy_physical = λ a n m. record m { buffer = λ j. if 0 == j then m.physical a else m.buffer j };
  write_page = λ vaddr m. m;
  virtual_for_physical = λ m a. a + 4096;
  store = λ p v m. record m { physical = λ a. if p == a + 4096 then v else m.physical a };
  lookup_process = λ m pid. none;
  attach = λ p m. m;
  detach = λ m. m;
  read_cr3 = λ m. 0;
  write_cr3 = λ v m. m;
  ipi = λ f m. f m;
  invlpg = λ a m. m;
  read_msr = λ m r. 0;
  write_msr = λ r v m. m;
}

windows-IsPhysical : IsPhysical windows (λ m a. m.physical a)
windows-IsPhysical = record {
  copied = λ a m. refl;
  stored = λ a v m h. ground arith;
  buffer_kept = λ p v m i. refl;
}

abbrev board : Board
board = record { physical = λ a. 5; buffer = λ i. if i == 0 then 0x2000 else 9 }

read-write_phys_val_example :
    windows.word
      (dispatch_device_ctl windows read_phys_val
        (dispatch_device_ctl windows write_phys_val board).state).state
      0
    ≡ 9
read-write_phys_val_example =
    read-write_phys_val windows (λ m a. m.physical a) windows-IsPhysical board

-- The library over the driver: a word that is written is read, by its physical address.
phys_runs : (phys_read windows 0x2000 (phys_write windows 0x2000 9 board)).0 ≡ 9
unfolding phys_read phys_write device_io_control device_io_control_2 dispatch_device_ctl
    control_write_val done
phys_runs = refl
