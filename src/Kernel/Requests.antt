-- ===== src/Kernel/Requests.antt =====
-- The requests of `device_ioctl` in module/pteditor.c: what they do with the locks of the memory
-- maps.
use mathlib.Core.List.{append_assoc}
use pteditor_riscv.Base.{
  ℕ, ◌≡◌, refl, sym, ap, ◌∙◌, subst, arith, Bool, true, false, not, if◌then◌else◌, Option, none,
  some, ◌>>=◌, is_some, List, [], ◌∷◌, ◌++◌,
}
use pteditor_riscv.Entry.{Arch, x86_64, aarch64, Entry}
use pteditor_riscv.Kernel.{
  Pointer, LockCall, read_lock, write_lock, State, Tasks, Tables, get_mm, lock_if,
}
use pteditor_riscv.Kernel.Resolve.{resolve_vm_state, resolve_locks}
use pteditor_riscv.Kernel.Tlb.{Cpu, PageSize}
use pteditor_riscv.Kernel.Update.{update_vm, update_in, update_locked}
use pteditor_riscv.Kernel.Device.{code, Outcome}
use pteditor_riscv.Kernel.Ioctl.{
  Paging, Command, vm_resolve, vm_update, vm_lock, vm_unlock, read_page, write_page, get_root,
  set_root, get_pagesize, invalidate_tlb, get_pat_command, set_pat_command, switch_tlb_invalidation,
  other, User, reply, on_machine, handle_resolve, handle_update, handle_lock, handle_read_page,
  handle_write_page, root_of_current, no_pgd, no_mm_root, read_root, get_root_in, handle_get_root,
  set_root_in, handle_set_root, handle_switch, device_ioctl,
}
use pteditor_riscv.Kernel.Locks.{
  free, replay, on_held, lock_of, IsBalanced, unchanged-IsBalanced, read-IsBalanced,
  write-IsBalanced, resolve-IsBalanced, replay-append,
}

-- The two requests that hold the lock beyond their own call.
abbrev pub keeps_lock : Command → Bool
keeps_lock vm_lock = true
keeps_lock vm_unlock = true
keeps_lock command = false

-- The request returns, and has taken every lock of a memory map without waiting for itself and has
-- released it.
abbrev pub Ends : {M : Type 0} → State M → Option (Outcome M) → Type 0
Ends {M} s result =
    (o : Outcome M) × (result ≡ some o) × IsBalanced s.mm_is_locked s.locks o.state.locks

same_locks : {M : Type 0} (s : State M) (o : Outcome M) → o.state.locks ≡ s.locks → Ends s (some o)
same_locks s o same = (
  o,
  refl,
  subst (λ xs. IsBalanced s.mm_is_locked s.locks xs) (sym same)
      (unchanged-IsBalanced s.mm_is_locked s.locks),
)

if_end :
    {M : Type 0} (s : State M) (x y : Option (Outcome M)) (b : Bool)
    → Ends s x
    → Ends s y
    → Ends s (if b then x else y)
if_end s x y true hx hy = hx
if_end s x y false hx hy = hy

unlocked_locks :
    {M : Type 0} (found : Pointer) (t : State M) → (resolve_locks false found t).locks ≡ t.locks
unfolding resolve_locks lock_if
unlocked_locks none t = refl
unlocked_locks (some mm) t = refl

module _ {M : Type 0} (arch : Arch) (size : PageSize) (cpu : Cpu M) (tasks : Tasks M)
    (tables : Tables M) (user : User M) (s : State M) where
  resolve_end :
      (param : ℕ) (found : Pointer) (e : Entry)
      → Ends s (
          reply
            (code 0)
            (on_machine (user.put_entry param e) (resolve_locks (not s.mm_is_locked) found s)))
  resolve_end param found e = (_, refl, resolve-IsBalanced s.mm_is_locked found s)

  locked_locks :
      (new : Entry) (t : State M) → (update_locked arch size cpu tasks tables new t).locks ≡ t.locks
  unfolding update_locked resolve_vm_state
  locked_locks new t = unlocked_locks (get_mm tasks t.machine new.pid) t

  update_end :
      (new : Entry) (found : Pointer)
      → Ends s
          (reply (code 0) (update_in arch size cpu tasks tables new (not s.mm_is_locked) found s))
  unfolding update_in
  update_end new none = same_locks s _ refl
  update_end new (some mm) = (
    _,
    refl,
    write-IsBalanced s.mm_is_locked mm (update_locked arch size cpu tasks tables new) s
        (locked_locks new),
  )

  no_mm_end :
      (a : Arch) (param : ℕ) (paging : Paging)
      → Ends s (no_mm_root arch size cpu tasks tables user a param paging s)
  unfolding no_mm_root root_of_current
  no_mm_end x86_64 param paging = same_locks s _ refl
  no_mm_end aarch64 param paging = same_locks s _ refl

  get_root_end :
      (param : ℕ) (paging : Paging) (found : Pointer)
      → Ends s (get_root_in arch size cpu tasks tables user param paging found s)
  unfolding get_root_in no_mm_root root_of_current read_root
  get_root_end param paging none = no_mm_end arch param paging
  get_root_end param paging (some mm) =
      if_end s _ _ (no_pgd arch size cpu tasks tables user arch s.machine mm) (same_locks s _ refl)
        (_, refl, read-IsBalanced s.mm_is_locked mm s)

  set_root_end :
      (root : ℕ) (found : Pointer)
      → Ends s (set_root_in arch size cpu tasks tables user root found s)
  unfolding set_root_in
  set_root_end root none = same_locks s _ refl
  set_root_end root (some mm) = (
    _,
    refl,
    write-IsBalanced s.mm_is_locked mm (on_machine (user.set_mm_pgd mm (user.phys_to_virt root))) s
        (λ t. refl),
  )

  switch_end : (param : ℕ) → Ends s (handle_switch arch size cpu tasks tables user param s)
  unfolding handle_switch
  switch_end param = if_end s _ _ _ (same_locks s _ refl) (same_locks s _ refl)

  -- On both architectures, each request other than `VM_LOCK` and `VM_UNLOCK` returns, whether
  -- the process and the address are there or not, and has by then taken every lock of a memory map
  -- without waiting for itself and has released it; where the map is locked already, it touches
  -- no lock.
  pub device_ioctl-IsBalanced :
      (command : Command) (param : ℕ)
      → keeps_lock command ≡ false
      → Ends s (device_ioctl arch size cpu tasks tables user command param s)
  unfolding device_ioctl handle_resolve resolve_vm_state handle_update update_vm handle_read_page
      handle_write_page handle_get_root handle_set_root
  device_ioctl-IsBalanced vm_resolve param h = resolve_end param _ _
  device_ioctl-IsBalanced vm_update param h = update_end _ _
  device_ioctl-IsBalanced vm_lock param h = absurd (ground arith)
  device_ioctl-IsBalanced vm_unlock param h = absurd (ground arith)
  device_ioctl-IsBalanced read_page param h = same_locks s _ refl
  device_ioctl-IsBalanced write_page param h = same_locks s _ refl
  device_ioctl-IsBalanced get_root param h = get_root_end param _ _
  device_ioctl-IsBalanced set_root param h = set_root_end _ _
  device_ioctl-IsBalanced get_pagesize param h = same_locks s _ refl
  device_ioctl-IsBalanced invalidate_tlb param h = same_locks s _ refl
  device_ioctl-IsBalanced get_pat_command param h = same_locks s _ refl
  device_ioctl-IsBalanced set_pat_command param h = same_locks s _ refl
  device_ioctl-IsBalanced switch_tlb_invalidation param h = switch_end param
  device_ioctl-IsBalanced (other n) param h = same_locks s _ refl

-- `GET_ROOT` returns.
pub get_root_returns :
    {M : Type 0} (arch : Arch) (size : PageSize) (cpu : Cpu M) (tasks : Tasks M) (tables : Tables M)
    (user : User M) (param : ℕ) (s : State M)
    → is_some (device_ioctl arch size cpu tasks tables user get_root param s) ≡ true
get_root_returns arch size cpu tasks tables user param s =
    let ends = device_ioctl-IsBalanced arch size cpu tasks tables user s get_root param refl in
    ap is_some ends.1

lock_calls :
    {M : Type 0} (arch : Arch) (size : PageSize) (cpu : Cpu M) (tasks : Tasks M) (tables : Tables M)
    (user : User M) (s : State M) (mm : ℕ) (o : Outcome M)
    → s.mm_is_locked ≡ false
    → tasks.active_mm s.machine (tasks.current s.machine) ≡ some mm
    → handle_lock arch size cpu tasks tables user s ≡ some o
    → o.state.locks ≡ (s.locks ++ (write_lock mm ∷ [])) ++ (read_lock mm ∷ [])
unfolding handle_lock lock_if
lock_calls arch size cpu tasks tables user s mm o unlocked active result = ground arith

self_block : (mm : ℕ) → replay mm free (write_lock mm ∷ read_lock mm ∷ []) ≡ none
unfolding replay on_held lock_of
self_block mm = ground arith

lock_twice :
    (mm : ℕ) (before : List LockCall)
    → replay mm free before ≡ some free
    → replay mm free ((before ++ (write_lock mm ∷ [])) ++ (read_lock mm ∷ [])) ≡ none
lock_twice mm before h =
    ap (replay mm free) (append_assoc before (write_lock mm ∷ []) (read_lock mm ∷ []))
    ∙ replay-append mm free before (write_lock mm ∷ read_lock mm ∷ [])
    ∙ ap (λ held. held >>= λ next. replay mm next (write_lock mm ∷ read_lock mm ∷ [])) h
    ∙ self_block mm

-- `VM_LOCK` takes the lock for writing and then for reading: with the lock free before and no
-- other `VM_LOCK` in force, the calls that it makes never all return.
pub vm_lock_blocks :
    {M : Type 0} (arch : Arch) (size : PageSize) (cpu : Cpu M) (tasks : Tasks M) (tables : Tables M)
    (user : User M) (s : State M) (param mm : ℕ) (o : Outcome M)
    → s.mm_is_locked ≡ false
    → tasks.active_mm s.machine (tasks.current s.machine) ≡ some mm
    → replay mm free s.locks ≡ some free
    → device_ioctl arch size cpu tasks tables user vm_lock param s ≡ some o
    → replay mm free o.state.locks ≡ none
unfolding device_ioctl
vm_lock_blocks arch size cpu tasks tables user s param mm o unlocked active before result =
    ap (replay mm free) (lock_calls arch size cpu tasks tables user s mm o unlocked active result)
    ∙ lock_twice mm s.locks before
