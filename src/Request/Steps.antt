-- ===== src/Request/Steps.antt =====
-- One call of `ptedit_resolve_kernel` or `ptedit_update_kernel` of ptedit.c through the kernel
-- module, on x86 with the device open.
use pteditor_riscv.Base.{ℕ, ◌^◌, ◌<◌, ◌≡◌, ◌≢◌, refl, sym, ap, subst, ◌∙◌, not, some}
use pteditor_riscv.Entry.{x86_64, Entry, blank}
use pteditor_riscv.Kernel.{State, get_mm}
use pteditor_riscv.Kernel.Ioctl.{on_machine, handle_update, device_ioctl}
use pteditor_riscv.Kernel.Machine.{resolve_machine}
use pteditor_riscv.Kernel.Resolve.{resolve_vm_state}
use pteditor_riscv.Kernel.Translation.{
  Pointers, IsTranslation, SameKernel, SameTables-IsPreorder, SameKernel-SameTables,
  SameTables-IsTranslation,
}
use pteditor_riscv.Kernel.Update.{update_vm}
use pteditor_riscv.Pte.{with_pte}
use pteditor_riscv.Request.{Host, ioctl_on, ioctl, resolve_kernel, update_kernel}
use pteditor_riscv.Request.Calls.{IsMachine, filled, resolve_request, IsWritten, update-IsWritten}

-- An x86 host on which `ptedit_fd` is open.
abbrev pub on_device : {M : Type 0} → Host M → ℕ → Host M
on_device host fd = record host { arch = x86_64; ptedit_fd = some fd }

-- The page-table entry of a walk stands apart from those above it.
pub record IsLeaf (p : Pointers) : Type 0 where
  pub pgd : p.pgd ≢ p.pte
  pub p4d : p.p4d ≢ p.pte
  pub pud : p.pud ≢ p.pte
  pub pmd : p.pmd ≢ p.pte

-- The struct that `ptedit_resolve_kernel` passes.
abbrev pub asked : ℕ → ℕ → Entry
asked address pid = record blank { vaddr = address; pid = pid }

module _ {M : Type 0} (host : Host M) (fd : ℕ)
    (laws : IsMachine host.cpu host.tasks host.tables host.user) (mm address pid : ℕ)
    (p : Pointers) where
  open host use {size, cpu, tasks, tables, user, stack}

  -- What a resolve of a complete walk finds.
  abbrev pub walked : M → Entry
  walked m = filled size cpu tasks tables user (asked address pid) m p

  abbrev put : State M → State M
  put s = on_machine (user.put_entry stack (asked address pid)) s

  abbrev pub resolved : State M → State M
  resolved s =
      on_machine (user.put_entry stack (walked (put s).machine))
        (resolve_vm_state tasks pid (not s.mm_is_locked) (put s))

  put_walk :
      (m : M) (e : Entry)
      → IsTranslation tables m mm address p
      → IsTranslation tables (user.put_entry stack e m) mm address p
  put_walk m e walk =
      SameTables-IsTranslation tasks tables (λ q. Unit {0}) m _ mm address p
        (laws.buffer_apart stack e m) tt tt tt tt walk

  put_map :
      (m : M) (e : Entry)
      → get_mm tasks m pid ≡ some mm
      → get_mm tasks (user.put_entry stack e m) pid ≡ some mm
  put_map m e map = (laws.buffer_apart stack e m).mm_same pid ∙ map

  pub resolved_same : (s : State M) → SameKernel tasks tables s.machine (resolved s).machine
  resolved_same s =
      let order = SameTables-IsPreorder tasks tables (λ q. Unit {0}) in
      order.follows s.machine _ _ (laws.buffer_apart stack (asked address pid) s.machine) (
        subst
          (λ m.
            SameKernel tasks tables (put s).machine
              (user.put_entry stack (walked (put s).machine) m))
          (sym (resolve_machine tasks pid (not s.mm_is_locked) (put s)))
          (laws.buffer_apart stack (walked (put s).machine) (put s).machine))

  pub walked_same : (m m' : M) → SameKernel tasks tables m m' → walked m' ≡ walked m
  walked_same m m' same =
      rw
        (
          same.load_same p.pgd tt,
          same.load_same p.p4d tt,
          same.load_same p.pud tt,
          same.load_same p.pmd tt,
          same.load_same p.pte tt,
        )
        refl

  pub resolve_step :
      (s : State M)
      → get_mm tasks s.machine pid ≡ some mm
      → IsTranslation tables s.machine mm address p
      → resolve_kernel (on_device host fd) address pid s ≡ some (walked s.machine, resolved s)
  unfolding resolve_kernel ioctl ioctl_on
  resolve_step s map walk =
      rw
        (
          resolve_request size cpu tasks tables user stack mm (asked address pid) p (put s)
              (laws.buffer_set stack (asked address pid) s.machine)
              (put_map s.machine (asked address pid) map)
              (put_walk s.machine (asked address pid) walk),
          laws.buffer_set stack (walked (put s).machine)
              (resolve_vm_state tasks pid (not s.mm_is_locked) (put s)).machine,
          walked_same s.machine (put s).machine
              (laws.buffer_apart stack (asked address pid) s.machine),
        )
        refl

  -- The struct that `ptedit_update_kernel` passes, with `v` as the page-table entry.
  abbrev sent : Entry → ℕ → Entry
  sent e v = record (with_pte e v) { vaddr = address; pid = pid }

  abbrev pub updated : Entry → ℕ → State M → State M
  updated e v s =
      update_vm x86_64 size cpu tasks tables (sent e v) (not s.mm_is_locked)
        (on_machine (user.put_entry stack (sent e v)) s)

  pub update_step :
      (e : Entry) (v : ℕ) (s : State M)
      → update_kernel (on_device host fd) address pid (with_pte e v) s ≡ some (updated e v s)
  unfolding update_kernel ioctl ioctl_on device_ioctl handle_update
  update_step e v s = rw (laws.buffer_set stack (sent e v) s.machine) refl

  updated-IsWritten :
      (e : Entry) (v : ℕ) (s : State M)
      → v < 2 ^ 64
      → get_mm tasks s.machine pid ≡ some mm
      → IsTranslation tables s.machine mm address p
      → IsWritten tasks tables p.pte v s.machine (updated e v s).machine
  updated-IsWritten e v s small map walk =
      let before = laws.buffer_apart stack (sent e v) s.machine in
      let written =
        update-IsWritten size cpu tasks tables user laws (not s.mm_is_locked) mm v
          (record e { vaddr = address; pid = pid }) p
          (on_machine (user.put_entry stack (sent e v)) s) small (put_map s.machine (sent e v) map)
          (put_walk s.machine (sent e v) walk) in
      let kept : ℕ → Type 0 = λ q. q ≢ p.pte in
      record {
        same =
            (SameTables-IsPreorder tasks tables kept).follows s.machine _ _
              (SameKernel-SameTables tasks tables kept s.machine _ before) written.same;
        reads = written.reads;
      }

  -- After a new page-table entry the walk is complete still, and finds that entry.
  written_walk :
      (v : ℕ) (m m' : M)
      → IsLeaf p
      → IsWritten tasks tables p.pte v m m'
      → IsTranslation tables m mm address p
      → IsTranslation tables m' mm address p
  written_walk v m m' leaf written walk =
      SameTables-IsTranslation tasks tables (λ q. q ≢ p.pte) m m' mm address p written.same leaf.pgd
        leaf.p4d leaf.pud leaf.pmd walk

  written_entry :
      (v : ℕ) (m m' : M)
      → IsLeaf p
      → IsWritten tasks tables p.pte v m m'
      → walked m' ≡ record (walked m) { pte = v }
  written_entry v m m' leaf written =
      rw
        (
          written.same.load_same p.pgd leaf.pgd,
          written.same.load_same p.p4d leaf.p4d,
          written.same.load_same p.pud leaf.pud,
          written.same.load_same p.pmd leaf.pmd,
          written.reads,
        )
        refl

  -- A resolve after an update that keeps the process's walk.
  pub resolve_updated :
      (e : Entry) (v : ℕ) (s : State M)
      → v < 2 ^ 64
      → IsLeaf p
      → get_mm tasks s.machine pid ≡ some mm
      → IsTranslation tables s.machine mm address p
      → resolve_kernel (on_device host fd) address pid (updated e v s)
        ≡ some (record (walked s.machine) { pte = v }, resolved (updated e v s))
  resolve_updated e v s small leaf map walk =
      let written = updated-IsWritten e v s small map walk in
      resolve_step (updated e v s) (written.same.mm_same pid ∙ map)
        (written_walk v s.machine (updated e v s).machine leaf written walk)
      ∙ ap {A = Entry} (λ z. some (z, resolved (updated e v s)))
          (written_entry v s.machine (updated e v s).machine leaf written)
