-- ===== src/Kernel/Loaded.antt =====
-- What `pteditor_init` and `pteditor_exit` of module/pteditor.c leave registered.
use pteditor_riscv.Base.{
  ◌^◌, ◌≡◌, refl, arith, Bool, true, false, ◌&&◌, ◌==◌, if◌then◌else◌, is_some,
}
use pteditor_riscv.Entry.{Arch, x86_64, aarch64}
use pteditor_riscv.Kernel.Device.{code, minus}
use pteditor_riscv.Kernel.Load.{
  flush_tlb_mm_range, native_write_cr4, Boot, unloaded, enxio, refused, create_umem, load_end,
  page_size, load_cr4, load_flush, load_registered, load_kallsyms, pteditor_init, pteditor_exit,
}

-- The symbols without which the module does not load on x86.
unfoldable pub has_symbols : Boot → Arch → Bool
has_symbols boot x86_64 =
    is_some (boot.lookup flush_tlb_mm_range)
    && (if boot.has_invpcid_single then true else is_some (boot.lookup native_write_cr4))
has_symbols boot aarch64 = true

pub pteditor_init_lem :
    (boot : Boot) (arch : Arch)
    → ((pteditor_init boot arch).state.device
        ≡ (is_some boot.kallsyms_lookup_name && (boot.misc_register == 0)))
      × ((pteditor_init boot arch).returned ≡ (
          if (pteditor_init boot arch).state.device && has_symbols boot arch
          then code 0
          else minus enxio))
unfolding pteditor_init load_kallsyms load_registered load_flush load_cr4 load_end refused
    create_umem unloaded has_symbols
pteditor_init_lem boot x86_64 = (ground arith, ground arith)
pteditor_init_lem boot aarch64 = (ground arith, ground arith)

pub pteditor_exit-init :
    (boot : Boot) (arch : Arch)
    → ((pteditor_init boot arch).state.size.real_page_size
        ≡ 2 ^ (pteditor_init boot arch).state.size.real_page_shift)
      × ((pteditor_exit (pteditor_init boot arch).state).device ≡ false)
      × ((pteditor_exit (pteditor_init boot arch).state).probe ≡ false)
      × ((pteditor_exit (pteditor_init boot arch).state).umem ≡ false)
unfolding pteditor_init load_kallsyms load_registered load_flush load_cr4 load_end refused
    create_umem unloaded page_size pteditor_exit
pteditor_exit-init boot x86_64 = (ground arith, refl, refl, ground arith)
pteditor_exit-init boot aarch64 = (ground arith, refl, refl, ground arith)

-- The module loads exactly if `kallsyms_lookup_name` is found, the device can be registered and
-- the symbols are there; whenever the first two hold, the device is registered, so that a load
-- that then fails leaves it behind. Whatever the kernel answered, the page size is the power of
-- two of the page shift, and unloading leaves no device, no probe and no `/proc/umem`.
pub pteditor_init-pteditor_exit :
    (boot : Boot) (arch : Arch)
    → ((pteditor_init boot arch).state.device
        ≡ (is_some boot.kallsyms_lookup_name && (boot.misc_register == 0)))
      × ((pteditor_init boot arch).returned ≡ (
          if (pteditor_init boot arch).state.device && has_symbols boot arch
          then code 0
          else minus enxio))
      × ((pteditor_init boot arch).state.size.real_page_size
          ≡ 2 ^ (pteditor_init boot arch).state.size.real_page_shift)
      × ((pteditor_exit (pteditor_init boot arch).state).device ≡ false)
      × ((pteditor_exit (pteditor_init boot arch).state).probe ≡ false)
      × ((pteditor_exit (pteditor_init boot arch).state).umem ≡ false)
pteditor_init-pteditor_exit boot arch =
    let (registered, answer) = pteditor_init_lem boot arch in
    let (size, device, probe, umem) = pteditor_exit-init boot arch in
    (registered, answer, size, device, probe, umem)
