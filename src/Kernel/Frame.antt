-- ===== src/Kernel/Frame.antt =====
-- What `update_vm` of module/pteditor.c leaves in the page tables, over the kernel's setters.
use pteditor_riscv.Base.{
  ℕ, ◌==◌, ◌≡◌, ◌≢◌, refl, sym, ap, ◌∙◌, arith, Bool, false, ◌&&◌, if◌then◌else◌, none, some,
  is_some, Bool-cases, inl, inr,
}
use pteditor_riscv.Entry.{
  Arch, Entry, has_level, valid_mask_pgd, valid_mask_p4d, valid_mask_pud, valid_mask_pmd,
  valid_mask_pte,
}
use pteditor_riscv.Kernel.{Pointer, Vm, State, Tasks, Tables, module_tables, get_mm}
use pteditor_riscv.Kernel.Resolve.{resolution, resolution_in, failed, cleared}
use pteditor_riscv.Kernel.Tlb.{Cpu, PageSize}
use pteditor_riscv.Kernel.Quiet.{IsQuiet, IsPreorder, invalidate_quiet}
use pteditor_riscv.Kernel.Machine.{lock_machine, resolve_machine}
use pteditor_riscv.Kernel.Update.{write_entry, write_entries, update_locked, update_in, update_vm}
use pteditor_riscv.Kernel.Valid.{IsConsistent, reached-IsConsistent, resolution-IsReached}

-- What is relied on of one of the kernel's setters: the value reads back, and watched entries
-- elsewhere are kept. (With page-table isolation `set_pgd` writes a second table, which is
-- then not watched.)
pub record IsSetter {M : Type 0} (load : M → ℕ → ℕ) (watched : ℕ → Type 0)
    (set : Pointer → ℕ → M → M) : Type 0 where
  pub writes : (m : M) (p v : ℕ) → load (set (some p) v m) p ≡ v
  pub keeps : (m : M) (p v q : ℕ) → watched q → p ≢ q → load (set (some p) v m) q ≡ load m q

pub record IsStore {M : Type 0} (tables : Tables M) (watched : ℕ → Type 0) : Type 0 where
  pub pgd : IsSetter tables.load watched tables.set_pgd
  pub p4d : IsSetter tables.load watched tables.set_p4d
  pub pud : IsSetter tables.load watched tables.set_pud
  pub pmd : IsSetter tables.load watched tables.set_pmd
  pub pte : IsSetter tables.load watched tables.set_pte

abbrev pub points_to : Pointer → ℕ → Bool
points_to none q = false
points_to (some p) q = p == q

-- A level that both entries have as valid, whose entry is at `q`.
abbrev pub takes : ℕ → Vm → Entry → Pointer → ℕ → Bool
takes mask old new pointer q =
    has_level old.valid mask && has_level new.valid mask && points_to pointer q

-- The entry at `q` after the update, where it was `before`: the one that is requested for the
-- lowest of the levels that take it.
abbrev pub entry_after : Vm → Entry → ℕ → ℕ → ℕ
entry_after old new q before =
    if takes valid_mask_pte old new old.pte q
    then new.pte
    else if takes valid_mask_pmd old new old.pmd q
    then new.pmd
    else if takes valid_mask_pud old new old.pud q
    then new.pud
    else if takes valid_mask_p4d old new old.p4d q
    then new.p4d
    else if takes valid_mask_pgd old new old.pgd q
    then new.pgd
    else before

module _ {M : Type 0} (load : M → ℕ → ℕ) (watched : ℕ → Type 0) (set : Pointer → ℕ → M → M)
    (setter : IsSetter load watched set) where
  set_load :
      (p v q : ℕ) (m : M) → watched q → load (set (some p) v m) q ≡ (if p == q then v else load m q)
  set_load p v q m w = elim (Bool-cases (p == q)) [
    | inl e ↦ ground (arith, setter.writes m p v)
    | inr e ↦ ground (arith, setter.keeps m p v q w (ground arith))
  ]

  write_load :
      (pointer : Pointer) (old new mask v q : ℕ) (m : M)
      → is_some pointer ≡ has_level old mask
      → watched q
      → load (write_entry set old new mask pointer v m) q
        ≡ (if has_level old mask && has_level new mask && points_to pointer q then v else load m q)
  unfolding write_entry
  write_load none old new mask v q m h w = ground arith
  write_load (some p) old new mask v q m h w = ground (arith, set_load p v q m w)

module _ {M : Type 0} (tables : Tables M) (watched : ℕ → Type 0)
    (store : IsStore tables watched) where
  written :
      (old : Vm) (new : Entry) (q : ℕ) (m : M)
      → IsConsistent old
      → watched q
      → tables.load (write_entries tables old new m) q ≡ entry_after old new q (tables.load m q)
  unfolding write_entries
  written old new q m h w = rw (
    write_load tables.load watched tables.set_pte store.pte old.pte old.valid new.valid 16 new.pte q
        _ h.pte w,
    write_load tables.load watched tables.set_pmd store.pmd old.pmd old.valid new.valid 8 new.pmd q
        _ h.pmd w,
    write_load tables.load watched tables.set_pud store.pud old.pud old.valid new.valid 4 new.pud q
        _ h.pud w,
    write_load tables.load watched tables.set_p4d store.p4d old.p4d old.valid new.valid 2 new.p4d q
        _ h.p4d w,
    write_load tables.load watched tables.set_pgd store.pgd old.pgd old.valid new.valid 1 new.pgd q
        m h.pgd w,
  )

-- The words of all page tables are the same.
abbrev pub SameWords : {M : Type 0} → (M → ℕ → ℕ) → M → M → Type 0
SameWords load m m' = (q : ℕ) → load m' q ≡ load m q

pub SameWords-IsPreorder : {M : Type 0} (load : M → ℕ → ℕ) → IsPreorder (SameWords load)
SameWords-IsPreorder load = record {
  stays = λ m q. refl;
  follows = λ a b c first second q. second q ∙ first q;
}

module _ {M : Type 0} (arch : Arch) (size : PageSize) (cpu : Cpu M) (tasks : Tasks M)
    (tables : Tables M) (watched : ℕ → Type 0) (store : IsStore tables watched)
    (quiet : IsQuiet (SameWords tables.load) cpu) where
  locked_load :
      (new : Entry) (s : State M) (q : ℕ)
      → watched q
      → tables.load (update_locked arch size cpu tasks tables new s).machine q
        ≡ entry_after
            (resolution tasks (module_tables arch tables) s.machine new.vaddr new.pid).vm
            new
            q
            (tables.load s.machine q)
  unfolding update_locked
  locked_load new s q w =
      let r = resolution tasks (module_tables arch tables) s.machine new.vaddr new.pid in
      let consistent =
        reached-IsConsistent r
          (resolution-IsReached tasks (module_tables arch tables) s.machine new.vaddr new.pid) in
      invalidate_quiet (SameWords tables.load) (SameWords-IsPreorder tables.load) cpu quiet arch
        size tasks _ new.vaddr _ q
      ∙ written tables watched store r.vm new q _ consistent w
      ∙ ap (λ m. entry_after r.vm new q (tables.load m q)) (resolve_machine tasks new.pid false s)

  in_load :
      (new : Entry) (lock : Bool) (s : State M) (q : ℕ) (found : Pointer)
      → watched q
      → get_mm tasks s.machine new.pid ≡ found
      → tables.load (update_in arch size cpu tasks tables new lock found s).machine q
        ≡ entry_after
            (resolution tasks (module_tables arch tables) s.machine new.vaddr new.pid).vm
            new
            q
            (tables.load s.machine q)
  unfolding update_in resolution resolution_in failed cleared
  in_load new lock s q none w e = sym (
      ap
        (λ f.
          entry_after
            (resolution_in tasks (module_tables arch tables) s.machine new.vaddr new.pid f).vm new q
            (tables.load s.machine q))
        e)
  in_load new lock s q (some mm) w e =
      ap (λ m. tables.load m q) (lock_machine lock _ _)
      ∙ locked_load new _ q w
      ∙ ap
          (λ m.
            entry_after (resolution tasks (module_tables arch tables) m new.vaddr new.pid).vm new q
              (tables.load m q))
          (lock_machine lock _ s)

  -- After `update_vm`, each watched entry is the one that was requested for the lowest level that
  -- the request has, that `resolve_vm` found valid, and whose entry is at this place; every other
  -- entry is as before. It holds for a process without a memory map, and with and without locking.
  pub update_vm-load :
      (new : Entry) (lock : Bool) (s : State M) (q : ℕ)
      → watched q
      → tables.load (update_vm arch size cpu tasks tables new lock s).machine q
        ≡ entry_after
            (resolution tasks (module_tables arch tables) s.machine new.vaddr new.pid).vm
            new
            q
            (tables.load s.machine q)
  unfolding update_vm
  update_vm-load new lock s q w = in_load new lock s q _ w refl
