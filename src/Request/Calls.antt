-- ===== src/Request/Calls.antt =====
-- The requests `VM_RESOLVE` and `VM_UPDATE` of module/pteditor.c on x86, at an address with a
-- complete walk.
use pteditor_riscv.Base.{ℕ, ◌^◌, ◌<◌, ◌≡◌, ◌≢◌, refl, sym, subst, ◌∙◌, Bool, true, false, not, some}
use pteditor_riscv.Entry.{x86_64, Entry}
use pteditor_riscv.Kernel.{State, Tasks, Tables, get_mm, lock_if, TlbInvalidation}
use pteditor_riscv.Kernel.Device.{code}
use pteditor_riscv.Kernel.Ioctl.{vm_resolve, User, on_machine, handle_resolve, device_ioctl}
use pteditor_riscv.Kernel.Machine.{resolve_machine}
use pteditor_riscv.Kernel.Quiet.{IsQuiet, invalidate_quiet}
use pteditor_riscv.Kernel.Resolve.{Resolution, resolve_vm_state}
use pteditor_riscv.Kernel.Tlb.{Cpu, PageSize, invalidate}
use pteditor_riscv.Kernel.Translation.{
  Pointers, IsTranslation, found_vm, resolution_found, SameTables, SameKernel,
  SameTables-IsPreorder, SameKernel-SameTables,
}
use pteditor_riscv.Kernel.Update.{
  write_entry, write_entries, update_locked, update_in, update_vm, entry_or, vm_to_user,
}
use pteditor_riscv.Pte.{with_pte}

-- What is relied on: a struct of the process reads back and is no part of the kernel's tables, a
-- page-table entry that is set reads back and is the only one that changes, and no TLB operation
-- changes tables or processes.
pub record IsMachine {M : Type 0} (cpu : Cpu M) (tasks : Tasks M) (tables : Tables M)
    (user : User M) : Type 0 where
  pub buffer_set : (a : ℕ) (e : Entry) (m : M) → user.get_entry (user.put_entry a e m) a ≡ e
  pub buffer_apart : (a : ℕ) (e : Entry) (m : M) → SameKernel tasks tables m (user.put_entry a e m)
  pub pte_set : (q v : ℕ) (m : M) → v < 2 ^ 64 → tables.load (tables.set_pte (some q) v m) q ≡ v
  pub pte_alone :
      (q v : ℕ) (m : M) → SameTables tasks tables (λ p. p ≢ q) m (tables.set_pte (some q) v m)
  pub tlb_quiet : IsQuiet (SameKernel tasks tables) cpu

module _ {M : Type 0} (size : PageSize) (cpu : Cpu M) (tasks : Tasks M) (tables : Tables M)
    (user : User M) where
  -- The entries of a walk, copied to the struct `e`.
  abbrev pub filled : Entry → M → Pointers → Entry
  filled e m p = record e {
    pgd = tables.load m p.pgd;
    p4d = tables.load m p.p4d;
    pud = tables.load m p.pud;
    pmd = tables.load m p.pmd;
    pte = tables.load m p.pte;
    valid = 31;
  }

  copied :
      (m : M) (e : Entry) (pid : ℕ) (p : Pointers)
      → vm_to_user tables m e (found_vm pid p) ≡ filled e m p
  unfolding vm_to_user entry_or
  copied m e pid p = refl

  pub resolve_request :
      (param mm : ℕ) (e : Entry) (p : Pointers) (s : State M)
      → user.get_entry s.machine param ≡ e
      → get_mm tasks s.machine e.pid ≡ some mm
      → IsTranslation tables s.machine mm e.vaddr p
      → device_ioctl x86_64 size cpu tasks tables user vm_resolve param s
        ≡ some (record {
          state =
              on_machine
                (user.put_entry param (filled e s.machine p))
                (resolve_vm_state tasks e.pid (not s.mm_is_locked) s);
          returned = code 0;
        })
  unfolding device_ioctl handle_resolve
  resolve_request param mm e p s asked map walk =
      rw
        (
          asked,
          resolution_found tasks tables s.machine mm e.vaddr p walk e.pid map,
          resolve_machine tasks e.pid (not s.mm_is_locked) s,
          copied s.machine e e.pid p,
        )
        refl

-- The page tables of `m'` are those of `m` with `v` as the entry at `q`.
pub record IsWritten {M : Type 0} (tasks : Tasks M) (tables : Tables M) (q v : ℕ) (m m' : M)
    : Type 0 where
  pub same : SameTables tasks tables (λ p. p ≢ q) m m'
  pub reads : tables.load m' q ≡ v

module _ {M : Type 0} (size : PageSize) (cpu : Cpu M) (tasks : Tasks M) (tables : Tables M)
    (user : User M) (laws : IsMachine cpu tasks tables user) where
  -- Setting the entry and then invalidating the TLB.
  set-IsWritten :
      (mode : TlbInvalidation) (address q v : ℕ) (m : M)
      → v < 2 ^ 64
      → IsWritten tasks tables q v m
          (invalidate cpu x86_64 size tasks mode address (tables.set_pte (some q) v m))
  set-IsWritten mode address q v m small =
      let order = SameTables-IsPreorder tasks tables (λ p. Unit {0}) in
      let set = tables.set_pte (some q) v m in
      let quiet =
        invalidate_quiet (SameKernel tasks tables) order cpu laws.tlb_quiet x86_64 size tasks mode
          address set in
      record {
        same =
            (SameTables-IsPreorder tasks tables (λ p. p ≢ q)).follows m set _ (laws.pte_alone q v m)
              (SameKernel-SameTables tasks tables (λ p. p ≢ q) set _ quiet);
        reads = quiet.load_same q tt ∙ laws.pte_set q v m small;
      }

  locked-IsWritten :
      (mm v : ℕ) (e : Entry) (p : Pointers) (s : State M)
      → v < 2 ^ 64
      → get_mm tasks s.machine e.pid ≡ some mm
      → IsTranslation tables s.machine mm e.vaddr p
      → IsWritten tasks tables p.pte v s.machine
          (update_locked x86_64 size cpu tasks tables (with_pte e v) s).machine
  unfolding update_locked write_entries write_entry
  locked-IsWritten mm v e p s small map walk =
      let s_old = resolve_vm_state tasks e.pid false s in
      subst
        (λ (r : Resolution). IsWritten tasks tables p.pte v s.machine (
          invalidate cpu x86_64 size tasks s_old.invalidate_tlb e.vaddr
            (write_entries tables r.vm (with_pte e v) s_old.machine)))
        (sym (resolution_found tasks tables s.machine mm e.vaddr p walk e.pid map))
        (subst
          (λ m. IsWritten tasks tables p.pte v s.machine (
            invalidate cpu x86_64 size tasks s_old.invalidate_tlb e.vaddr
              (tables.set_pte (some p.pte) v m)))
          (sym (resolve_machine tasks e.pid false s))
          (set-IsWritten s_old.invalidate_tlb e.vaddr p.pte v s.machine small))

  in-IsWritten :
      (lock : Bool) (mm v : ℕ) (e : Entry) (p : Pointers) (s : State M)
      → v < 2 ^ 64
      → get_mm tasks s.machine e.pid ≡ some mm
      → IsTranslation tables s.machine mm e.vaddr p
      → IsWritten tasks tables p.pte v s.machine
          (update_in x86_64 size cpu tasks tables (with_pte e v) lock (some mm) s).machine
  unfolding update_in lock_if
  in-IsWritten true mm v e p s small map walk = locked-IsWritten mm v e p _ small map walk
  in-IsWritten false mm v e p s small map walk = locked-IsWritten mm v e p s small map walk

  pub update-IsWritten :
      (lock : Bool) (mm v : ℕ) (e : Entry) (p : Pointers) (s : State M)
      → v < 2 ^ 64
      → get_mm tasks s.machine e.pid ≡ some mm
      → IsTranslation tables s.machine mm e.vaddr p
      → IsWritten tasks tables p.pte v s.machine
          (update_vm x86_64 size cpu tasks tables (with_pte e v) lock s).machine
  unfolding update_vm
  update-IsWritten lock mm v e p s small map walk =
      subst
        (λ found.
          IsWritten tasks tables p.pte v s.machine
            (update_in x86_64 size cpu tasks tables (with_pte e v) lock found s).machine)
        (sym map) (in-IsWritten lock mm v e p s small map walk)
