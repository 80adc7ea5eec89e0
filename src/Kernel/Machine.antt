-- ===== src/Kernel/Machine.antt =====
-- Locking in module/pteditor.c touches no page table and no process.
use pteditor_riscv.Base.{ℕ, ◌≡◌, refl, ◌∙◌, Bool, true, false, none, some}
use pteditor_riscv.Kernel.{Pointer, LockCall, State, Tasks, get_mm, lock_if}
use pteditor_riscv.Kernel.Resolve.{resolve_locks, resolve_vm_state}

pub lock_machine :
    {M : Type 0} (lock : Bool) (call : LockCall) (s : State M)
    → (lock_if lock call s).machine ≡ s.machine
unfolding lock_if
lock_machine true call s = refl
lock_machine false call s = refl

pub locks_machine :
    {M : Type 0} (lock : Bool) (found : Pointer) (s : State M)
    → (resolve_locks lock found s).machine ≡ s.machine
unfolding resolve_locks
locks_machine lock none s = refl
locks_machine lock (some mm) s = lock_machine lock _ _ ∙ lock_machine lock _ s

pub resolve_machine :
    {M : Type 0} (tasks : Tasks M) (pid : ℕ) (lock : Bool) (s : State M)
    → (resolve_vm_state tasks pid lock s).machine ≡ s.machine
unfolding resolve_vm_state
resolve_machine tasks pid lock s = locks_machine lock (get_mm tasks s.machine pid) s
