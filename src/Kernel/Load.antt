-- ===== src/Kernel/Load.antt =====
-- module/pteditor.c, `pteditor_init` and `pteditor_exit`: loading and unloading of the module.
use pteditor_riscv.Base.{
  ℕ, ◌*◌, ◌/◌, ◌%◌, ◌^◌, Bool, true, false, ◌&&◌, ◌==◌, if◌then◌else◌, Option, none, some, is_some,
}
use pteditor_riscv.Entry.{Arch, x86_64, aarch64}
use pteditor_riscv.Kernel.{Pointer, TlbInvalidation, invalidate_tlb_kernel}
use pteditor_riscv.Kernel.Tlb.{PageSize}
use pteditor_riscv.Kernel.Device.{Code, code, minus}

-- The names that are looked up in the kernel.
pub data Symbol : Type 0 where
  flush_tlb_mm_range native_write_cr4 memory_lseek read_mem write_mem mmap_mem : Symbol

-- What the kernel answers while the module is loaded: the address of `kallsyms_lookup_name` that
-- the probe finds, the result of `misc_register`, and so on.
pub record Boot : Type 0 where
  pub kallsyms_lookup_name : Pointer
  pub misc_register : ℕ
  pub lookup : Symbol → Pointer
  pub has_invpcid_single : Bool
  pub kretprobe_registers : Bool
  pub tcr_el1 : ℕ

-- What the module has registered with the kernel, and the variables that loading sets.
pub record Module : Type 0 where
  pub device : Bool
  pub probe : Bool
  pub umem : Bool
  pub has_umem : Bool
  pub flush_tlb_mm_range_func : Pointer
  pub native_write_cr4_func : Pointer
  pub invalidate_tlb : Option TlbInvalidation
  pub size : PageSize

-- Before loading.
unfoldable pub unloaded : Module
unloaded = record {
  device = false;
  probe = false;
  umem = false;
  has_umem = false;
  flush_tlb_mm_range_func = none;
  native_write_cr4_func = none;
  invalidate_tlb = none;
  size = record { real_page_size = 4096; real_page_shift = 12 };
}

pub record Loading : Type 0 where
  pub state : Module
  pub returned : Code

-- `ENXIO`
abbrev pub enxio : ℕ
enxio = 6

module _ (boot : Boot) where
  open boot use {
    kallsyms_lookup_name, misc_register, lookup, has_invpcid_single, kretprobe_registers, tcr_el1,
  }

  unfoldable pub refused : Module → Loading
  refused s = record { state = s; returned = minus enxio }

  -- `/proc/umem`
  unfoldable pub create_umem : Module → Module
  create_umem s =
      if is_some (lookup memory_lseek)
        && is_some (lookup read_mem)
        && is_some (lookup write_mem)
        && is_some (lookup mmap_mem)
      then record s { umem = true; has_umem = true }
      else s

  -- From the probe of `devmem_is_allowed` on; a failure there only warns.
  unfoldable pub load_end : Module → Loading
  load_end s = record {
    state = create_umem (record s { probe = kretprobe_registers });
    returned = code 0;
  }

  -- `switch((tcr_el1 >> 14) & 3)`
  unfoldable pub page_size : PageSize → PageSize
  page_size size =
      let granule = tcr_el1 / 2 ^ 14 % 4 in
      if granule == 1
      then record { real_page_size = 64 * 1024; real_page_shift = 16 }
      else if granule == 2
      then record { real_page_size = 16 * 1024; real_page_shift = 14 }
      else size

  unfoldable pub load_cr4 : Pointer → Module → Loading
  load_cr4 none s = refused (record s { native_write_cr4_func = none })
  load_cr4 (some f) s = load_end (record s { native_write_cr4_func = some f })

  unfoldable pub load_flush : Pointer → Module → Loading
  load_flush none s = refused (record s { flush_tlb_mm_range_func = none })
  load_flush (some f) s =
      let s' = record s {
        flush_tlb_mm_range_func = some f;
        invalidate_tlb = some invalidate_tlb_kernel;
      } in
      if has_invpcid_single then load_end s' else load_cr4 (lookup native_write_cr4) s'

  -- After `misc_register`.
  unfoldable pub load_registered : Arch → Module → Loading
  load_registered x86_64 s = load_flush (lookup flush_tlb_mm_range) s
  load_registered aarch64 s =
      load_end (record s { invalidate_tlb = some invalidate_tlb_kernel; size = page_size s.size })

  unfoldable pub load_kallsyms : Arch → Pointer → Module → Loading
  load_kallsyms arch none s = refused s
  load_kallsyms arch (some f) s =
      if misc_register == 0 then load_registered arch (record s { device = true }) else refused s

  unfoldable pub pteditor_init : Arch → Loading
  pteditor_init arch = load_kallsyms arch kallsyms_lookup_name unloaded

-- `pteditor_exit`
unfoldable pub pteditor_exit : Module → Module
pteditor_exit s = record s {
  device = false;
  probe = false;
  umem = if s.has_umem then false else s.umem;
}

-- `devmem_bypass`: the register that holds what `devmem_is_allowed` returns.
pub devmem_bypass : ℕ → ℕ
devmem_bypass returned = if returned == 0 then 1 else returned
