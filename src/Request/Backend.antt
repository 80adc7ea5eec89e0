-- ===== src/Request/Backend.antt =====
-- `ptedit_resolve_kernel` and `ptedit_update_kernel` of ptedit.c together, through the kernel
-- module, on x86 with the device open.
use pteditor_riscv.Base.{ℕ, ◌^◌, ◌<◌, ◌≡◌, refl, ap, ◌∙◌, some, ◌>>=◌}
use pteditor_riscv.Entry.{Entry, blank}
use pteditor_riscv.Kernel.{State, get_mm}
use pteditor_riscv.Kernel.Translation.{Pointers, IsTranslation, SameTables-IsTranslation}
use pteditor_riscv.Pte.{Backend, with_pte}
use pteditor_riscv.Pte.Laws.{IsRoundTrip}
use pteditor_riscv.Request.{Host, first_or, or_else, resolve_kernel, update_kernel}
use pteditor_riscv.Request.Calls.{IsMachine}
use pteditor_riscv.Request.Steps.{
  on_device, IsLeaf, walked, resolved, resolved_same, walked_same, resolve_step, update_step,
  resolve_updated,
}

module _ {M : Type 0} (host : Host M) (fd : ℕ)
    (laws : IsMachine host.cpu host.tasks host.tables host.user) (mm address pid : ℕ)
    (p : Pointers) where
  -- Resolve, update the page-table entry alone to a word `v`, and resolve again, with the kernel
  -- implementation, for a process with a memory map and an address with a complete walk, whose
  -- page-table entry stands apart from the entries above: all three calls return, the first with
  -- the five entries of the walk and all levels valid, the last with the same entries but `v` in
  -- place of the page-table entry.
  pub resolve-update_kernel :
      (v : ℕ) (s : State M)
      → v < 2 ^ 64
      → IsLeaf p
      → get_mm host.tasks s.machine pid ≡ some mm
      → IsTranslation host.tables s.machine mm address p
      → (resolve_kernel (on_device host fd) address pid s >>= λ (e, s1).
          update_kernel (on_device host fd) address pid (with_pte e v) s1 >>= λ s2.
          resolve_kernel (on_device host fd) address pid s2 >>= λ (e', s3).
          let found : Entry × Entry = (e, e') in some found)
        ≡ some (
          walked host fd laws mm address pid p s.machine,
          record (walked host fd laws mm address pid p s.machine) { pte = v },
        )
  resolve-update_kernel v s small leaf map walk =
      let same = resolved_same host fd laws mm address pid p s in
      let map' = same.mm_same pid ∙ map in
      let walk' =
        SameTables-IsTranslation host.tasks host.tables (λ q. Unit {0}) s.machine _ mm address p
          same tt tt tt tt walk in
      rw
        (
          resolve_step host fd laws mm address pid p s map walk,
          update_step host fd laws mm address pid p (walked host fd laws mm address pid p s.machine)
              v (resolved host fd laws mm address pid p s),
          resolve_updated host fd laws mm address pid p
              (walked host fd laws mm address pid p s.machine) v
              (resolved host fd laws mm address pid p s) small leaf map' walk',
        )
        (ap {A = Entry}
          (λ z. some (walked host fd laws mm address pid p s.machine, record z { pte = v }))
          (walked_same host fd laws mm address pid p s.machine
            (resolved host fd laws mm address pid p s).machine same))

-- What the two function pointers of `PTEDIT_IMPL_KERNEL` do to the state. Where the kernel
-- dereferences `NULL` the call does not return; the entry is then `blank`, and the state stays. A
-- resolve leaves its local struct and what it locked, which this view drops.
pub kernel_backend : {M : Type 0} → Host M → Backend (State M)
kernel_backend host = record {
  resolve = λ s address pid. first_or blank (resolve_kernel host address pid s);
  update = λ address pid vm s. or_else s (update_kernel host address pid vm s);
}

-- The kernel implementation keeps the contract of `ptedit_resolve` and `ptedit_update`, for a
-- process with a memory map and an address with a complete walk, whose page-table entry is a word
-- and stands apart from the entries above: an update of the page-table entry is what the next
-- resolve returns, with every other field unchanged.
pub kernel_backend-IsRoundTrip :
    {M : Type 0} (host : Host M) (fd : ℕ)
    (laws : IsMachine host.cpu host.tasks host.tables host.user) (mm address pid : ℕ) (p : Pointers)
    (s : State M)
    → IsLeaf p
    → get_mm host.tasks s.machine pid ≡ some mm
    → IsTranslation host.tables s.machine mm address p
    → host.tables.load s.machine p.pte < 2 ^ 64
    → IsRoundTrip (kernel_backend (on_device host fd)) s address pid
unfolding first_or or_else kernel_backend
kernel_backend-IsRoundTrip host fd laws mm address pid p s leaf map walk small =
    let step = resolve_step host fd laws mm address pid p s map walk in
    record {
      reached = rw (step) refl;
      word = rw (step) small;
      updates = λ v h.
          rw
            (
              step,
              update_step host fd laws mm address pid p
                  (walked host fd laws mm address pid p s.machine) v s,
              resolve_updated host fd laws mm address pid p
                  (walked host fd laws mm address pid p s.machine) v s h leaf map walk,
            )
            refl;
    }
