-- ===== src/Kernel/Quiet.antt =====
-- The invalidation of the TLB in module/pteditor.c keeps the page tables.
use pteditor_riscv.Base.{ℕ, zero, suc, Bool, true, false, if◌then◌else◌, ltb, none, some}
use pteditor_riscv.Entry.{Arch, x86_64, aarch64}
use pteditor_riscv.Kernel.{
  Pointer, Tasks, TlbInvalidation, invalidate_tlb_kernel, invalidate_tlb_custom,
}
use pteditor_riscv.Kernel.Tlb.{
  Cpu, PageSize, invalidate, flush_pcids, reload_cr4, invalidate_local, flush_vma, tlb_kernel,
}

-- What is relied on of the machine's TLB operations: what `Kept` relates is kept by each of them.
-- A function that `on_each_cpu` runs keeps it if it does so on each processor.
pub record IsQuiet {M : Type 0} (Kept : M → M → Type 0) (cpu : Cpu M) : Type 0 where
  pub each_cpu : (f : M → M) → ((m : M) → Kept m (f m)) → (m : M) → Kept m (cpu.on_each_cpu f m)
  pub invpcid : (pcid addr : ℕ) (m : M) → Kept m (cpu.invpcid_flush_one pcid addr m)
  pub write_cr4 : (v : ℕ) (m : M) → Kept m (cpu.native_write_cr4 v m)
  pub irq_save : (m : M) → Kept m (cpu.local_irq_save m)
  pub irq_restore : (saved m : M) → Kept m (cpu.local_irq_restore saved m)
  pub barrier : (m : M) → Kept m (cpu.barrier m)
  pub flush_range :
      (mm : Pointer) (a b shift : ℕ) (freed : Bool) (m : M)
      → Kept m (cpu.flush_tlb_mm_range mm a b shift freed m)
  pub flush_page : (vma addr : ℕ) (m : M) → Kept m (cpu.flush_tlb_page vma addr m)

-- What a relation has that can be kept over several steps.
pub record IsPreorder {M : Type 0} (Kept : M → M → Type 0) : Type 0 where
  pub stays : (m : M) → Kept m m
  pub follows : (a b c : M) → Kept a b → Kept b c → Kept a c

module _ {M : Type 0} (Kept : M → M → Type 0) (order : IsPreorder Kept) (cpu : Cpu M)
    (quiet : IsQuiet Kept cpu) where
  pcids_quiet : (left pcid addr : ℕ) (m : M) → Kept m (flush_pcids cpu left pcid addr m)
  unfolding flush_pcids
  pcids_quiet zero pcid addr m = order.stays m
  pcids_quiet (suc left) pcid addr m =
      order.follows m _ _ (quiet.invpcid pcid addr m) (pcids_quiet left (suc pcid) addr _)

  cr4_quiet : (m : M) → Kept m (reload_cr4 cpu m)
  unfolding reload_cr4
  cr4_quiet m = order.follows m _ _ (quiet.irq_save m) (
      order.follows _ _ _ (quiet.write_cr4 _ _)
        (order.follows _ _ _ (quiet.write_cr4 _ _) (quiet.irq_restore m _)))

  if_quiet : (b : Bool) (x y m : M) → Kept m x → Kept m y → Kept m (if b then x else y)
  if_quiet true x y m hx hy = hx
  if_quiet false x y m hx hy = hy

  local_quiet : (arch : Arch) (addr : ℕ) (m : M) → Kept m (invalidate_local cpu arch addr m)
  unfolding invalidate_local
  local_quiet x86_64 addr m =
      if_quiet cpu.has_invpcid_single _ _ m (pcids_quiet 4096 0 addr m) (cr4_quiet m)
  local_quiet aarch64 addr m = quiet.barrier m

  vma_quiet : (addr : ℕ) (found : Pointer) (m : M) → Kept m (flush_vma cpu addr found m)
  unfolding flush_vma
  vma_quiet addr none m = order.stays m
  vma_quiet addr (some vma) m =
      if_quiet (ltb addr (cpu.vm_start m vma)) _ _ m (order.stays m)
        (quiet.each_cpu _ (quiet.flush_page vma addr) m)

  pub invalidate_quiet :
      (arch : Arch) (size : PageSize) (tasks : Tasks M) (mode : TlbInvalidation) (addr : ℕ) (m : M)
      → Kept m (invalidate cpu arch size tasks mode addr m)
  unfolding invalidate tlb_kernel
  invalidate_quiet x86_64 size tasks invalidate_tlb_kernel addr m = quiet.flush_range _ _ _ _ _ m
  invalidate_quiet aarch64 size tasks invalidate_tlb_kernel addr m = vma_quiet addr _ m
  invalidate_quiet arch size tasks invalidate_tlb_custom addr m =
      quiet.each_cpu _ (local_quiet arch addr) m
