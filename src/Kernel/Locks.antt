-- ===== src/Kernel/Locks.antt =====
-- The lock of a memory map, as the Linux documentation describes it, and what the requests of
-- module/pteditor.c do with it.
use mathlib.Core.List.{append-nil, append_assoc}
use pteditor_riscv.Base.{
  ℕ, zero, suc, ◌==◌, ◌≡◌, refl, sym, ap, ◌∙◌, arith, Bool, true, false, not, if◌then◌else◌, Option,
  none, some, ◌>>=◌, List, [], ◌∷◌, ◌++◌,
}
use pteditor_riscv.Kernel.{
  Pointer, LockCall, read_lock, read_unlock, write_lock, write_unlock, State, lock_if,
}
use pteditor_riscv.Kernel.Resolve.{resolve_locks}

-- Who holds the lock: nobody, a number of readers (less one), or a writer.
pub data Held : Type 0 where
  free writer : Held
  readers : ℕ → Held

-- What a call of a single thread does; `none` where it never returns, since nobody else can
-- release the lock, or where it releases what is not held.
unfoldable pub on_held : LockCall → Held → Option Held
on_held (read_lock mm) free = some (readers 0)
on_held (read_lock mm) (readers n) = some (readers (suc n))
on_held (read_unlock mm) (readers zero) = some free
on_held (read_unlock mm) (readers (suc n)) = some (readers n)
on_held (write_lock mm) free = some writer
on_held (write_unlock mm) writer = some free
on_held call held = none

unfoldable pub lock_of : LockCall → ℕ
lock_of (read_lock mm) = mm
lock_of (read_unlock mm) = mm
lock_of (write_lock mm) = mm
lock_of (write_unlock mm) = mm

-- The calls that concern the lock of `mm`, one after the other.
unfoldable pub replay : ℕ → Held → List LockCall → Option Held
replay mm held [] = some held
replay mm held (call ∷ calls) =
    if lock_of call == mm
    then (on_held call held >>= λ next. replay mm next calls)
    else replay mm held calls

-- From `before` to `after` every lock is taken without waiting for oneself and is released
-- again; no lock is touched where the map is locked already.
pub record IsBalanced (locked : Bool) (before after : List LockCall) : Type 0 where
  pub calls : List LockCall
  pub appended : after ≡ before ++ calls
  pub released : (mm : ℕ) → replay mm free calls ≡ some free
  pub untouched : locked ≡ true → calls ≡ []

pub unchanged-IsBalanced : (locked : Bool) (xs : List LockCall) → IsBalanced locked xs xs
unfolding replay
unchanged-IsBalanced locked xs = record {
  calls = [];
  appended = sym (append-nil xs);
  released = λ mm. refl;
  untouched = λ h. refl;
}

pub read-IsBalanced :
    {M : Type 0} (locked : Bool) (mm : ℕ) (s : State M)
    → IsBalanced locked s.locks
        (lock_if (not locked) (read_unlock mm) (lock_if (not locked) (read_lock mm) s)).locks
unfolding lock_if replay on_held lock_of
read-IsBalanced true mm s = unchanged-IsBalanced true s.locks
read-IsBalanced false mm s = record {
  calls = read_lock mm ∷ read_unlock mm ∷ [];
  appended = append_assoc s.locks _ _;
  released = λ other. ground arith;
  untouched = λ h. absurd (ground arith);
}

-- `f` is what happens under the lock.
pub write-IsBalanced :
    {M : Type 0} (locked : Bool) (mm : ℕ) (f : State M → State M) (s : State M)
    → ((t : State M) → (f t).locks ≡ t.locks)
    → IsBalanced locked s.locks
        (lock_if (not locked) (write_unlock mm) (f (lock_if (not locked) (write_lock mm) s))).locks
unfolding lock_if replay on_held lock_of
write-IsBalanced true mm f s keeps = record {
  calls = [];
  appended = keeps s ∙ sym (append-nil s.locks);
  released = λ other. refl;
  untouched = λ h. refl;
}
write-IsBalanced false mm f s keeps = record {
  calls = write_lock mm ∷ write_unlock mm ∷ [];
  appended = ap (λ xs. xs ++ (write_unlock mm ∷ [])) (keeps _) ∙ append_assoc s.locks _ _;
  released = λ other. ground arith;
  untouched = λ h. absurd (ground arith);
}

pub resolve-IsBalanced :
    {M : Type 0} (locked : Bool) (found : Pointer) (s : State M)
    → IsBalanced locked s.locks (resolve_locks (not locked) found s).locks
unfolding resolve_locks
resolve-IsBalanced locked none s = unchanged-IsBalanced locked s.locks
resolve-IsBalanced locked (some mm) s = read-IsBalanced locked mm s

replay_choice :
    (mm : ℕ) (held : Held) (xs ys : List LockCall) (concerned : Bool) (taken : Option Held)
    → ((h : Held) → replay mm h (xs ++ ys) ≡ (replay mm h xs >>= λ next. replay mm next ys))
    → (if concerned
        then (taken >>= λ next. replay mm next (xs ++ ys))
        else replay mm held (xs ++ ys))
      ≡ ((if concerned then (taken >>= λ next. replay mm next xs) else replay mm held xs)
          >>= λ next. replay mm next ys)
replay_choice mm held xs ys true none parts = refl
replay_choice mm held xs ys true (some next) parts = parts next
replay_choice mm held xs ys false taken parts = parts held

-- Calls in two parts.
pub replay-append :
    (mm : ℕ) (held : Held) (xs ys : List LockCall)
    → replay mm held (xs ++ ys) ≡ (replay mm held xs >>= λ next. replay mm next ys)
unfolding replay
replay-append mm held [] ys = refl
replay-append mm held (x ∷ xs) ys =
    replay_choice mm held xs ys (lock_of x == mm) (on_held x held) (λ h. replay-append mm h xs ys)
