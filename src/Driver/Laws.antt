-- ===== src/Driver/Laws.antt =====
-- What the requests and the loading of driver/PTEdit/Driver.c do.
use pteditor_riscv.Base.{
  ℕ, zero, suc, ◌≡◌, ◌≢◌, ap, ◌∙◌, arith, true, ◌&&◌, ◌==◌, ltb, if◌then◌else◌, Bool-cases, inl,
  inr,
}
use pteditor_riscv.Driver.{
  Windows, read_phys_val, write_phys_val, control_write_val, done, dispatch_device_ctl, Handler,
  pass_thru, device_ctl, maximum_function, device_control, set_handler, fill_handlers, nt_success,
  driver_entry,
}

filled :
    (n : ℕ) (table : ℕ → Handler) (j : ℕ)
    → fill_handlers n table j ≡ (if ltb j n then pass_thru else table j)
unfolding fill_handlers set_handler
filled zero table j = ground arith
filled (suc n) table j = ground (arith, filled n table j)

-- After DriverEntry, device control has its own function, every other index below
-- IRP_MJ_MAXIMUM_FUNCTION the one that passes requests through, and the rest, the last index
-- included, is as before; unless the device and the link were both created, nothing is left but
-- DriverUnload. The status that is returned is a success exactly if both were created.
pub driver_entry_lem :
    (created linked : ℕ) (table : ℕ → Handler) (j : ℕ)
    → let loads = nt_success created && nt_success linked in
      let loaded = driver_entry created linked table in
      (loaded.handlers j ≡ (
        if loads && (j == device_control)
        then device_ctl
        else if loads && ltb j maximum_function
        then pass_thru
        else table j))
      × (loaded.device ≡ loads)
      × (loaded.link ≡ loads)
      × (loaded.driver_unload ≡ true)
      × (nt_success loaded.status ≡ loads)
unfolding driver_entry set_handler
driver_entry_lem created linked table j = elim (Bool-cases (nt_success created)) [
  | inr no_device ↦ (ground arith, ground arith, ground arith, ground arith, ground arith)
  | inl device ↦ elim (Bool-cases (nt_success linked)) [
    | inr no_link ↦ (ground arith, ground arith, ground arith, ground arith, ground arith)
    | inl link ↦
        (ground (arith, filled 27 table j), ground arith, ground arith, ground arith, ground arith)
  ]
]

-- What is relied on of Windows: MmCopyMemory reads the physical word into the buffer, a word that
-- is stored through a virtual address of a physical one is read back there, and storing it
-- changes no buffer.
pub record IsPhysical {M : Type 0} (win : Windows M) (physical : M → ℕ → ℕ) : Type 0 where
  pub copied : (a : ℕ) (m : M) → win.word (win.copy_physical a 8 m) 0 ≡ physical m a
  pub stored :
      (a v : ℕ) (m : M)
      → win.virtual_for_physical m a ≢ 0
      → physical (win.store (win.virtual_for_physical m a) v m) a ≡ v
  pub buffer_kept : (p v : ℕ) (m : M) (i : ℕ) → win.word (win.store p v m) i ≡ win.word m i

-- WRITE_PHYS_VAL and then READ_PHYS_VAL with one buffer: where the address has a virtual address,
-- the buffer holds the value that was written; where it has none, the first request changes
-- nothing and the second reads what is there.
pub read-write_phys_val :
    {M : Type 0} (win : Windows M) (physical : M → ℕ → ℕ)
    → IsPhysical win physical
    → (m : M)
    → win.word
        (dispatch_device_ctl win read_phys_val
          (dispatch_device_ctl win write_phys_val m).state).state
        0
      ≡ (if win.virtual_for_physical m (win.word m 0) == 0
          then physical m (win.word m 0)
          else win.word m 1)
unfolding dispatch_device_ctl control_write_val done
read-write_phys_val win physical phys m =
    elim (Bool-cases (win.virtual_for_physical m (win.word m 0) == 0)) [
      | inl e ↦ rw e (phys.copied (win.word m 0) m)
      | inr e ↦
          let p = win.virtual_for_physical m (win.word m 0) in
          rw e (
            phys.copied _ _
            ∙ ap (physical (win.store p (win.word m 1) m)) (phys.buffer_kept p (win.word m 1) m 0)
            ∙ phys.stored (win.word m 0) (win.word m 1) m (ground arith))
    ]
