-- ===== src/Kernel/Update.antt =====
-- module/pteditor.c, `update_vm` and `vm_to_user`.
use pteditor_riscv.Base.{ℕ, Bool, false, ◌&&◌, if◌then◌else◌, none, some}
use pteditor_riscv.Entry.{
  Arch, Entry, has_level, valid_mask_pgd, valid_mask_p4d, valid_mask_pud, valid_mask_pmd,
  valid_mask_pte,
}
use pteditor_riscv.Kernel.{
  Pointer, Vm, write_lock, write_unlock, State, Tasks, Tables, module_tables, get_mm, lock_if,
}
use pteditor_riscv.Kernel.Resolve.{resolution, resolve_vm_state}
use pteditor_riscv.Kernel.Tlb.{Cpu, PageSize, invalidate}

-- One of the five guarded writes.
unfoldable pub write_entry : {M : Type 0} → (Pointer → ℕ → M → M) → ℕ → ℕ → ℕ → Pointer → ℕ → M → M
write_entry set old_valid new_valid mask pointer value m =
    if has_level old_valid mask && has_level new_valid mask then set pointer value m else m

-- The writes of `update_vm`, from the PGD down.
unfoldable pub write_entries : {M : Type 0} → Tables M → Vm → Entry → M → M
write_entries tables old new m =
    let m_pgd = write_entry tables.set_pgd old.valid new.valid valid_mask_pgd old.pgd new.pgd m in
    let m_p4d =
      write_entry tables.set_p4d old.valid new.valid valid_mask_p4d old.p4d new.p4d m_pgd in
    let m_pud =
      write_entry tables.set_pud old.valid new.valid valid_mask_pud old.pud new.pud m_p4d in
    let m_pmd =
      write_entry tables.set_pmd old.valid new.valid valid_mask_pmd old.pmd new.pmd m_pud in
    write_entry tables.set_pte old.valid new.valid valid_mask_pte old.pte new.pte m_pmd

module _ {M : Type 0} (arch : Arch) (size : PageSize) (cpu : Cpu M) (tasks : Tasks M)
    (tables : Tables M) where
  -- The part of `update_vm` under the lock. `resolve_vm` is called without locking.
  unfoldable pub update_locked : Entry → State M → State M
  update_locked new s =
      let old = (resolution tasks (module_tables arch tables) s.machine new.vaddr new.pid).vm in
      let s_old = resolve_vm_state tasks new.pid false s in
      let written = write_entries tables old new s_old.machine in
      record s_old {
        machine = invalidate cpu arch size tasks s_old.invalidate_tlb new.vaddr written;
      }

  unfoldable pub update_in : Entry → Bool → Pointer → State M → State M
  update_in new lock none s = s
  update_in new lock (some mm) s =
      lock_if lock (write_unlock mm) (update_locked new (lock_if lock (write_lock mm) s))

  unfoldable pub update_vm : Entry → Bool → State M → State M
  update_vm new lock s = update_in new lock (get_mm tasks s.machine new.pid) s

module _ {M : Type 0} (tables : Tables M) (m : M) where
  open tables use {load}

  -- `if(vm->pgd) user->pgd = (vm->pgd)->pgd;`
  unfoldable pub entry_or : Pointer → ℕ → ℕ
  entry_or none old = old
  entry_or (some p) old = load m p

  -- The same on both architectures, where ARM reads by `pgd_val(*(vm->pgd))` and so on.
  unfoldable pub vm_to_user : Entry → Vm → Entry
  vm_to_user user vm = record user {
    p4d = entry_or vm.p4d user.p4d;
    pgd = entry_or vm.pgd user.pgd;
    pmd = entry_or vm.pmd user.pmd;
    pud = entry_or vm.pud user.pud;
    pte = entry_or vm.pte user.pte;
    valid = vm.valid;
  }
