-- ===== src/Request/OnWindows.antt =====
-- ptedit.c on Windows, the functions that ask the driver by `DeviceIoControl`, over
-- driver/PTEdit/Driver.c. A request copies its input to the buffer of the driver, and its output
-- from there.
use pteditor_riscv.Base.{ℕ, ◌*◌, bit_and, ◌==◌, if◌then◌else◌, not64, u64}
use pteditor_riscv.Driver.{
  Windows, Control, write_page, get_cr3, set_cr3, flush_tlb, read_phys_val, write_phys_val, get_pat,
  read_page, dispatch_device_ctl,
}

module _ {M : Type 0} (win : Windows M) where
  open win use {word, set_word}

  -- `DeviceIoControl` with one word of input, and with two.
  unfoldable pub device_io_control : Control → ℕ → M → M
  device_io_control control input m = (dispatch_device_ctl win control (set_word 0 input m)).state

  unfoldable pub device_io_control_2 : Control → ℕ → ℕ → M → M
  device_io_control_2 control input second m =
      (dispatch_device_ctl win control (set_word 1 second (set_word 0 input m))).state

  -- `ptedit_phys_read_pread`: the value and the state.
  unfoldable pub phys_read : ℕ → M → ℕ × M
  phys_read address m = let m' = device_io_control read_phys_val address m in (word m' 0, m')

  -- `ptedit_phys_write_pwrite`
  unfoldable pub phys_write : ℕ → ℕ → M → M
  phys_write address value m = device_io_control_2 write_phys_val address value m

  -- `ptedit_read_physical_page`: the state, with the page in the buffer.
  pub read_page_by_driver : ℕ → ℕ → M → M
  read_page_by_driver pagesize pfn m = device_io_control read_page (u64 (pfn * pagesize)) m

  -- `ptedit_write_physical_page`; `fill` copies the content and the address to the buffer. Only
  -- pages of 4096 bytes are supported.
  pub write_page_by_driver : (ℕ → ℕ → M → M) → ℕ → ℕ → ℕ → M → M
  write_page_by_driver fill pagesize pfn content m =
      if pagesize == 4096
      then (dispatch_device_ctl win write_page (fill (u64 (pfn * pagesize)) content m)).state
      else m

  -- `if (!pid) pid = GetCurrentProcessId();`
  abbrev process_or_current : ℕ → ℕ → ℕ
  process_or_current current pid = if pid == 0 then current else pid

  -- `ptedit_get_paging_root`
  pub paging_root_by_driver : ℕ → ℕ → M → ℕ × M
  paging_root_by_driver current pid m =
      let m' = device_io_control get_cr3 (process_or_current current pid) m in
      (bit_and (word m' 0) (not64 0xfff), m')

  -- `ptedit_set_paging_root`
  pub set_paging_root_by_driver : ℕ → ℕ → ℕ → M → M
  set_paging_root_by_driver current pid root m =
      device_io_control_2 set_cr3 (process_or_current current pid) root m

  -- `ptedit_invalidate_tlb`
  pub invalidate_tlb_by_driver : ℕ → M → M
  invalidate_tlb_by_driver address m = device_io_control flush_tlb address m

  -- `ptedit_get_mts`, and `ptedit_set_mts`, whose request is the one that reads.
  pub mts_by_driver : M → ℕ × M
  mts_by_driver m = let m' = device_io_control get_pat 0 m in (word m' 0, m')

  pub set_mts_by_driver : ℕ → M → M
  set_mts_by_driver mts m = device_io_control get_pat mts m
