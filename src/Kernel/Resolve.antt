-- ===== src/Kernel/Resolve.antt =====
-- module/pteditor.c, `resolve_vm`. Its callers pass the address of a local `vm_t`, so that the
-- test for `NULL` never fires.
use pteditor_riscv.Base.{ℕ, Bool, ◌||◌, if◌then◌else◌, none, some, bit_or}
use pteditor_riscv.Entry.{
  valid_mask_pgd, valid_mask_p4d, valid_mask_pud, valid_mask_pmd, valid_mask_pte,
}
use pteditor_riscv.Kernel.{
  Pointer, Vm, read_lock, read_unlock, State, Tasks, Tables, get_mm, lock_if,
}

-- The entry as the caller sees it afterwards, and the value that is returned.
pub record Resolution : Type 0 where
  pub vm : Vm
  pub code : ℕ

-- The fields as `resolve_vm` sets them first.
unfoldable pub cleared : ℕ → Vm
cleared pid = record {
  pid = pid;
  pgd = none;
  p4d = none;
  pud = none;
  pmd = none;
  pte = none;
  valid = 0;
}

unfoldable pub failed : Vm → Resolution
failed vm = record { vm = vm; code = 1 }

module _ {M : Type 0} (tables : Tables M) (m : M) (addr : ℕ) where
  open tables use {
    load, pgd_offset, p4d_offset, pud_offset, pmd_offset, pte_offset_map, pgd_none, pgd_bad,
    p4d_none, p4d_bad, pud_none, pud_large, pmd_none, pmd_large,
  }

  -- The last level, with what `pte_offset_map` returned.
  unfoldable pub mapped_pte : ℕ → Vm → Pointer → Resolution
  mapped_pte pmd vm none = failed vm
  mapped_pte pmd vm (some pte) = if pmd_large (load m pmd) then failed vm else record {
    vm = record vm { pte = some pte; valid = bit_or vm.valid valid_mask_pte };
    code = 0;
  }

  -- `pmd` is the pointer in `vm.pmd`, and so on at each level.
  unfoldable pub map_pte : ℕ → Vm → Resolution
  map_pte pmd vm = mapped_pte pmd vm (pte_offset_map m pmd addr)

  unfoldable pub offset_pmd : ℕ → Vm → Resolution
  offset_pmd pud vm =
      let pmd = pmd_offset m pud addr in
      if pmd_none (load m pmd) || pud_large (load m pud)
      then failed vm
      else map_pte pmd (record vm { pmd = some pmd; valid = bit_or vm.valid valid_mask_pmd })

  unfoldable pub offset_pud : ℕ → Vm → Resolution
  offset_pud p4d vm =
      let pud = pud_offset m p4d addr in
      if pud_none (load m pud)
      then failed vm
      else offset_pmd pud (record vm { pud = some pud; valid = bit_or vm.valid valid_mask_pud })

  unfoldable pub offset_p4d : ℕ → Vm → Resolution
  offset_p4d pgd vm =
      let p4d = p4d_offset m pgd addr in
      if p4d_none (load m p4d) || p4d_bad (load m p4d)
      then failed vm
      else offset_pud p4d (record vm { p4d = some p4d; valid = bit_or vm.valid valid_mask_p4d })

  unfoldable pub offset_pgd : ℕ → Vm → Resolution
  offset_pgd mm vm =
      let pgd = pgd_offset m mm addr in
      if pgd_none (load m pgd) || pgd_bad (load m pgd)
      then failed vm
      else offset_p4d pgd (record vm { pgd = some pgd; valid = bit_or vm.valid valid_mask_pgd })

module _ {M : Type 0} (tasks : Tasks M) (tables : Tables M) where
  unfoldable pub resolution_in : M → ℕ → ℕ → Pointer → Resolution
  resolution_in m addr pid none = failed (cleared pid)
  resolution_in m addr pid (some mm) = offset_pgd tables m addr mm (cleared pid)

  -- What `resolve_vm` finds for the process `pid`.
  unfoldable pub resolution : M → ℕ → ℕ → Resolution
  resolution m addr pid = resolution_in m addr pid (get_mm tasks m pid)

-- The calls around the walk, which locks the memory map and unlocks it on every way out.
unfoldable pub resolve_locks : {M : Type 0} → Bool → Pointer → State M → State M
resolve_locks lock none s = s
resolve_locks lock (some mm) s = lock_if lock (read_unlock mm) (lock_if lock (read_lock mm) s)

-- The state after `resolve_vm`.
unfoldable pub resolve_vm_state : {M : Type 0} → Tasks M → ℕ → Bool → State M → State M
resolve_vm_state tasks pid lock s = resolve_locks lock (get_mm tasks s.machine pid) s
