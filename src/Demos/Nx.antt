-- ===== src/Demos/Nx.antt =====
-- demos/nx.c: a process makes a page of its child executable.
use pteditor_riscv.Base.{ℕ, ◌+◌, ◌<◌, ◌≡◌, arith, bit_and, not64, u64, if◌then◌else◌, ◌==◌}
use pteditor_riscv.Entry.{Arch, x86_64, aarch64}
use pteditor_riscv.Pte.{Backend, with_pte, pte_clear_bit, pte_get_bit}
use pteditor_riscv.Pte.Laws.{IsRoundTrip, get_bit-clear_bit, get_bit-pte_clear_bit_elsewhere}

-- `NX_BIT`
abbrev pub nx_bit : Arch → ℕ
nx_bit x86_64 = 63
nx_bit aarch64 = 54

-- The bit before and after the change, each 0 if the mapping is reported as executable, and that of
-- the process itself.
pub record Seen (M : Type 0) : Type 0 where
  pub child_before : ℕ
  pub child_after : ℕ
  pub own : ℕ
  pub state : M

-- `nx_function_aligned`
unfoldable pub aligned : ℕ → ℕ
aligned nx_function = bit_and (u64 (nx_function + 4096)) (not64 0xfff)

-- `main` in the parent process, between `ptedit_init` and `ptedit_cleanup`.
pub clear_nx : {M : Type 0} → Arch → Backend M → ℕ → ℕ → M → Seen M
clear_nx arch backend nx_function pid m =
    let page = aligned nx_function in
    let m1 = pte_clear_bit backend page pid (nx_bit arch) m in
    record {
      child_before = pte_get_bit backend m page pid (nx_bit arch);
      child_after = pte_get_bit backend m1 page pid (nx_bit arch);
      own = pte_get_bit backend m1 page 0 (nx_bit arch);
      state = m1;
    }

nx_bit-lt : (arch : Arch) → nx_bit arch < 64
nx_bit-lt x86_64 = omega arith
nx_bit-lt aarch64 = omega arith

-- Where the library keeps its contract at the page of the child, and an update of it changes no
-- resolve of the process itself: the page of the child becomes executable, every other bit of its
-- entry is kept, and the bit of the process itself is the one it was.
pub clear_nx_lem :
    {M : Type 0} (arch : Arch) (backend : Backend M) (nx_function pid : ℕ) (m : M)
    → IsRoundTrip backend m (aligned nx_function) pid
    → ((v : ℕ)
        → backend.resolve
            (backend.update
              (aligned nx_function)
              pid
              (with_pte (backend.resolve m (aligned nx_function) pid) v)
              m)
            (aligned nx_function)
            0
          ≡ backend.resolve m (aligned nx_function) 0)
    → let seen = clear_nx arch backend nx_function pid m in
      (seen.child_after ≡ 0)
      × ((k : ℕ)
          → k < 64
          → pte_get_bit backend seen.state (aligned nx_function) pid k
            ≡ (if nx_bit arch == k then 0 else pte_get_bit backend m (aligned nx_function) pid k))
      × (seen.own ≡ pte_get_bit backend m (aligned nx_function) 0 (nx_bit arch))
unfolding clear_nx
clear_nx_lem arch backend nx_function pid m contract apart =
    let page = aligned nx_function in
    let bit = nx_bit arch in
    let small = nx_bit-lt arch in
    let cleared = get_bit-clear_bit backend m page pid contract bit in
    (
      ground (arith, cleared bit small small),
      λ k h. cleared k small h,
      get_bit-pte_clear_bit_elsewhere backend m page pid contract bit page 0 bit apart,
    )
