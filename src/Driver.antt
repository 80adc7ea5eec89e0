-- ===== src/Driver.antt =====
-- driver/PTEdit/Driver.c, the Windows kernel driver: the device-control requests, and the table
-- of functions that DriverEntry fills.
pub mod Laws
pub mod Tests
use pteditor_riscv.Base.{
  ℕ, zero, suc, ◌%◌, ◌^◌, Bool, true, false, not, ltb, ◌==◌, if◌then◌else◌, Option, none, some,
}

-- What the driver takes from Windows and from the machine. `word m i` is the `i`-th SIZE_T of the
-- buffer, `paddr` the member of PageContent; `copy_physical` is MmCopyMemory from a physical
-- address to the buffer, `write_page` its other use, with the content of the buffer.
pub record Windows (M : Type 0) : Type 0 where
  pub word : M → ℕ → ℕ
  pub set_word : ℕ → ℕ → M → M
  pub paddr : M → ℕ
  pub copy_physical : ℕ → ℕ → M → M
  pub write_page : ℕ → M → M
  pub virtual_for_physical : M → ℕ → ℕ
  pub store : ℕ → ℕ → M → M
  pub lookup_process : M → ℕ → Option ℕ
  pub attach : ℕ → M → M
  pub detach : M → M
  pub read_cr3 : M → ℕ
  pub write_cr3 : ℕ → M → M
  pub ipi : (M → M) → M → M
  pub invlpg : ℕ → M → M
  pub read_msr : M → ℕ → ℕ
  pub write_msr : ℕ → ℕ → M → M

pub data Control : Type 0 where
  write_page read_page get_cr3 set_cr3 flush_tlb read_phys_val write_phys_val get_pat set_pat :
      Control
  unknown : ℕ → Control

-- STATUS_SUCCESS or STATUS_INVALID_PARAMETER.
pub data Status : Type 0 where
  success invalid_parameter : Status

pub record Reply (M : Type 0) : Type 0 where
  pub state : M
  pub length : ℕ
  pub status : Status

-- `sizeof(SIZE_T)`
abbrev size_of_word : ℕ
size_of_word = 8

-- `IA32_PAT`
abbrev ia32_pat : ℕ
ia32_pat = 0x277

pub done : {M : Type 0} → ℕ → M → Reply M
done n m = record { state = m; length = n; status = success }

module _ {M : Type 0} (win : Windows M) where
  open win use {
    word, set_word, paddr, copy_physical, virtual_for_physical, store, lookup_process, attach,
    detach, read_cr3, write_cr3, ipi, invlpg, read_msr, write_msr,
  }

  control_write_page : M → Reply M
  control_write_page m =
      let vaddr = virtual_for_physical m (paddr m) in
      done 0 (if vaddr == 0 then m else win.write_page vaddr m)

  cr3_of : Option ℕ → M → M
  cr3_of none m = set_word 0 0 m
  cr3_of (some process) m =
      let attached = attach process m in
      let cr3 = read_cr3 attached in set_word 0 cr3 (detach attached)

  cr3_to : Option ℕ → M → M
  cr3_to none m = m
  cr3_to (some process) m =
      let attached = attach process m in detach (write_cr3 (word attached 1) attached)

  -- The case FLUSH_TLB.
  control_flush : M → Reply M
  control_flush m = done 0 (ipi (invlpg (word m 0)) m)

  pub control_write_val : M → Reply M
  control_write_val m =
      let val = word m 1 in
      let vaddr = virtual_for_physical m (word m 0) in
      done 0 (if vaddr == 0 then m else store vaddr val m)

  -- The case SET_CR3 has no `break`: it goes on with FLUSH_TLB.
  pub dispatch_device_ctl : Control → M → Reply M
  dispatch_device_ctl write_page m = control_write_page m
  dispatch_device_ctl read_page m = done 4096 (copy_physical (word m 0) 4096 m)
  dispatch_device_ctl get_cr3 m = done size_of_word (cr3_of (lookup_process m (word m 0)) m)
  dispatch_device_ctl set_cr3 m = control_flush (cr3_to (lookup_process m (word m 0)) m)
  dispatch_device_ctl flush_tlb m = control_flush m
  dispatch_device_ctl read_phys_val m = done size_of_word (copy_physical (word m 0) size_of_word m)
  dispatch_device_ctl write_phys_val m = control_write_val m
  dispatch_device_ctl get_pat m = done size_of_word (set_word 0 (read_msr m ia32_pat) m)
  dispatch_device_ctl set_pat m = done 0 (ipi (write_msr ia32_pat (word m 0)) m)
  dispatch_device_ctl (unknown n) m = record { state = m; length = 0; status = invalid_parameter }

-- The major functions that DispatchPassThru knows, by the index of the request.
pub data Major : Type 0 where
  create close cleanup : Major
  other : ℕ → Major

-- `DispatchPassThru`, which only logs and answers.
pub dispatch_pass_thru : {M : Type 0} → Major → M → Reply M
dispatch_pass_thru create m = done 0 m
dispatch_pass_thru close m = done 0 m
dispatch_pass_thru cleanup m = done 0 m
dispatch_pass_thru (other index) m = record { state = m; length = 0; status = invalid_parameter }

-- The functions that the table of the driver object can hold; `system` is what Windows puts there.
pub data Handler : Type 0 where
  system pass_thru device_ctl : Handler

-- `IRP_MJ_MAXIMUM_FUNCTION` and `IRP_MJ_DEVICE_CONTROL`.
abbrev pub maximum_function : ℕ
maximum_function = 27

abbrev pub device_control : ℕ
device_control = 14

pub set_handler : ℕ → Handler → (ℕ → Handler) → ℕ → Handler
set_handler i h table j = if i == j then h else table j

-- `for (i = 0; i < n; i++)`, the last round outermost.
pub fill_handlers : ℕ → (ℕ → Handler) → ℕ → Handler
fill_handlers zero table = table
fill_handlers (suc i) table = set_handler i pass_thru (fill_handlers i table)

-- NT_SUCCESS of an NTSTATUS, a LONG of 32 bits: it is not negative.
abbrev pub nt_success : ℕ → Bool
nt_success status = ltb (status % 2 ^ 32) (2 ^ 31)

-- What loading leaves: the device, the symbolic link, the table, whether DriverUnload is `Unload`,
-- and the NTSTATUS that is returned.
pub record Loaded : Type 0 where
  pub device : Bool
  pub link : Bool
  pub handlers : ℕ → Handler
  pub driver_unload : Bool
  pub status : ℕ

-- Without the device, or without its link, where the device is deleted again.
abbrev not_loaded : ℕ → (ℕ → Handler) → Loaded
not_loaded status table = record {
  device = false;
  link = false;
  handlers = table;
  driver_unload = true;
  status = status;
}

-- `created` and `linked` are what IoCreateDevice and IoCreateSymbolicLink return.
pub driver_entry : ℕ → ℕ → (ℕ → Handler) → Loaded
driver_entry created linked table =
    if not (nt_success created)
    then not_loaded created table
    else if not (nt_success linked)
    then not_loaded linked table
    else record {
      device = true;
      link = true;
      handlers = set_handler device_control device_ctl (fill_handlers maximum_function table);
      driver_unload = true;
      status = linked;
    }

-- `Unload`
pub unload : Loaded → Loaded
unload loaded = record loaded { link = false; device = false }
