-- ===== src/Kernel/Tlb.antt =====
-- module/pteditor.c, the invalidation of the TLB and the memory-type register.
use pteditor_riscv.Base.{
  ℕ, zero, suc, ◌+◌, ◌-◌, ◌/◌, ◌%◌, ◌^◌, Bool, false, if◌then◌else◌, bit_and, bit_or, ltb, not64,
  shl64, shr64, u64, none, some,
}
use pteditor_riscv.Entry.{Arch, x86_64, aarch64}
use pteditor_riscv.Kernel.{
  Pointer, TlbInvalidation, invalidate_tlb_kernel, invalidate_tlb_custom, Tasks, get_mm,
}

-- What the module takes from the machine and from the kernel's TLB code. `on_each_cpu` runs a
-- function on every processor; the instructions act on the one that runs them. `find_vma`
-- takes a memory map and an address, and `vm_start` is the member of the `vma` that it finds.
-- `barrier` is the sequence `dsb ishst`, `tlbi vmalle1is`, `dsb ish`, `isb`.
pub record Cpu (M : Type 0) : Type 0 where
  pub on_each_cpu : (M → M) → M → M
  pub has_invpcid_single : Bool
  pub invpcid_flush_one : ℕ → ℕ → M → M
  pub read_cr4 : M → ℕ
  pub native_write_cr4 : ℕ → M → M
  pub local_irq_save : M → M
  pub local_irq_restore : M → M → M
  pub barrier : M → M
  pub current_pid : M → ℕ
  pub flush_tlb_mm_range : Pointer → ℕ → ℕ → ℕ → Bool → M → M
  pub find_vma : M → Pointer → ℕ → Pointer
  pub vm_start : M → ℕ → ℕ
  pub flush_tlb_page : ℕ → ℕ → M → M
  pub rdmsr : M → ℕ → ℕ
  pub wrmsr : ℕ → ℕ → ℕ → M → M
  pub read_mair_el1 : M → ℕ
  pub write_mair_el1 : ℕ → M → M

-- `real_page_size` and `real_page_shift`
pub record PageSize : Type 0 where
  pub real_page_size : ℕ
  pub real_page_shift : ℕ

-- `X86_CR4_PGE`
abbrev pub x86_cr4_pge : ℕ
x86_cr4_pge = 128

-- The register number of the PAT.
abbrev pub msr_pat : ℕ
msr_pat = 0x277

module _ {M : Type 0} (cpu : Cpu M) where
  open cpu use {
    on_each_cpu, has_invpcid_single, invpcid_flush_one, read_cr4, native_write_cr4, local_irq_save,
    local_irq_restore, barrier, current_pid, flush_tlb_mm_range, find_vma, vm_start, flush_tlb_page,
    wrmsr, write_mair_el1,
  }

  -- `for(pcid = 0; pcid < 4096; pcid++)`, with the number of rounds that are left.
  unfoldable pub flush_pcids : ℕ → ℕ → ℕ → M → M
  flush_pcids zero pcid addr m = m
  flush_pcids (suc left) pcid addr m =
      flush_pcids left (suc pcid) addr (invpcid_flush_one pcid addr m)

  unfoldable pub reload_cr4 : M → M
  reload_cr4 m =
      let saved = local_irq_save m in
      let cr4 = read_cr4 saved in
      let without = native_write_cr4 (bit_and cr4 (not64 x86_cr4_pge)) saved in
      local_irq_restore m (native_write_cr4 cr4 without)

  -- `_invalidate_tlb`
  unfoldable pub invalidate_local : Arch → ℕ → M → M
  invalidate_local x86_64 addr m =
      if has_invpcid_single then flush_pcids 4096 0 addr m else reload_cr4 m
  invalidate_local aarch64 addr m = barrier m

  -- `invalidate_tlb_kernel` on ARM, with what `find_vma` returned.
  unfoldable pub flush_vma : ℕ → Pointer → M → M
  flush_vma addr none m = m
  flush_vma addr (some vma) m =
      if ltb addr (vm_start m vma) then m else on_each_cpu (flush_tlb_page vma addr) m

  -- `invalidate_tlb_kernel`
  unfoldable pub tlb_kernel : Arch → PageSize → Tasks M → ℕ → M → M
  tlb_kernel x86_64 size tasks addr m =
      flush_tlb_mm_range (get_mm tasks m (current_pid m)) addr (u64 (addr + size.real_page_size))
        size.real_page_shift false m
  tlb_kernel aarch64 size tasks addr m =
      flush_vma addr (find_vma m (tasks.mm m (tasks.current m)) addr) m

  -- A call of `invalidate_tlb`.
  unfoldable pub invalidate : Arch → PageSize → Tasks M → TlbInvalidation → ℕ → M → M
  invalidate arch size tasks invalidate_tlb_kernel addr m = tlb_kernel arch size tasks addr m
  invalidate arch size tasks invalidate_tlb_custom addr m =
      on_each_cpu (invalidate_local arch addr) m

  -- `_set_pat`: the halves go to `eax` and `edx`.
  unfoldable pub set_pat_local : Arch → ℕ → M → M
  set_pat_local x86_64 pat m =
      wrmsr msr_pat (bit_and pat 0xffffffff) (bit_and (shr64 pat 32) 0xffffffff) m
  set_pat_local aarch64 pat m = write_mair_el1 pat m

  unfoldable pub set_pat : Arch → ℕ → M → M
  set_pat arch pat m = on_each_cpu (set_pat_local arch pat) m

-- An `int` that becomes a `size_t`: the sign is extended.
unfoldable pub sign_extend : ℕ → ℕ
sign_extend x = if ltb x (2 ^ 31) then x else x + (2 ^ 64 - 2 ^ 32)

-- `low | (((size_t)high) << 32)`, where `low` and `high` are the halves of the register as `int`.
unfoldable pub join_halves : ℕ → ℕ
join_halves value =
    bit_or (sign_extend (value % 2 ^ 32)) (shl64 (sign_extend (value / 2 ^ 32 % 2 ^ 32)) 32)

-- The value that `PTEDITOR_IOCTL_CMD_GET_PAT` passes on.
unfoldable pub get_pat : {M : Type 0} → Cpu M → Arch → M → ℕ
get_pat cpu x86_64 m = join_halves (cpu.rdmsr m msr_pat)
get_pat cpu aarch64 m = cpu.read_mair_el1 m
