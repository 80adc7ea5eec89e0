-- ===== src/Physical/Contract.antt =====
-- The system below the page walk of ptedit.c: physical memory, and the kernel module on x86 with
-- the device open.
use pteditor_riscv.Base.{ℕ, ◌+◌, ◌^◌, ◌<◌, ◌≡◌, refl, sym, ap, subst, ◌∙◌, some}
use pteditor_riscv.Entry.{x86_64}
use pteditor_riscv.Kernel.{State, Tasks, get_mm}
use pteditor_riscv.Kernel.Ioctl.{User, device_ioctl}
use pteditor_riscv.Kernel.Quiet.{IsQuiet, IsPreorder, invalidate_quiet}
use pteditor_riscv.Kernel.Tlb.{Cpu}
use pteditor_riscv.Physical.{
  Files, Umem, Access, by_map, by_pread, phys_read_map, phys_write_map, phys_read_pread,
  phys_write_pwrite, system_over, pread_system, map_system,
}
use pteditor_riscv.Request.{
  Host, or_else, first_or, ioctl_on, ioctl, get_paging_root, ptedit_invalidate_tlb,
}
use pteditor_riscv.Request.Root.{SameRoots, IsRootMachine, root_at_same, get_paging_root_lem}
use pteditor_riscv.Request.Steps.{on_device}
use pteditor_riscv.Walk.Memory.{Apart, IsMemory}

-- The physical memory of the machine: the word at an address, and the state after a write.
pub record Ram (M : Type 0) : Type 0 where
  pub word : M → ℕ → ℕ
  pub poke : ℕ → ℕ → M → M

-- The usable words, the processes and the roots are the same.
pub record SameView {M : Type 0} (tasks : Tasks M) (user : User M) (usable : ℕ → Type 0)
    (word : M → ℕ → ℕ) (m m' : M) : Type 0 where
  pub words : (a : ℕ) → usable a → word m' a ≡ word m a
  pub roots : SameRoots tasks user m m'

-- What is relied on of physical memory: a word written at a usable address reads back, and
-- changes no usable word apart from it, no process and no root; nor does any TLB operation. (An
-- address that backs the kernel's data on processes is not usable.)
pub record IsRam {M : Type 0} (cpu : Cpu M) (tasks : Tasks M) (user : User M) (ram : Ram M)
    (usable : ℕ → Type 0) : Type 0 where
  pub reads_back : (m : M) (a v : ℕ) → usable a → v < 2 ^ 64 → ram.word (ram.poke a v m) a ≡ v
  pub keeps :
      (m : M) (a v b : ℕ)
      → usable a
      → usable b
      → Apart a b
      → ram.word (ram.poke a v m) b ≡ ram.word m b
  pub keeps_roots : (m : M) (a v : ℕ) → usable a → SameRoots tasks user m (ram.poke a v m)
  pub tlb_quiet : IsQuiet (SameView tasks user usable ram.word) cpu

-- What is relied on of `/proc/umem`: at a usable address, `pread` and `pwrite` do not fail, and
-- they and the mapping at `ptedit_vmem` are physical memory.
pub record IsUmem {M : Type 0} (files : Files M) (umem : Umem) (ram : Ram M) (usable : ℕ → Type 0)
    : Type 0 where
  pub preads :
      (m : M) (a : ℕ) → usable a → files.pread_word m umem.ptedit_umem a ≡ some (ram.word m a)
  pub pwrites :
      (m : M) (a v : ℕ)
      → usable a
      → files.pwrite_word umem.ptedit_umem a v m ≡ some (ram.poke a v m)
  pub loads : (m : M) (a : ℕ) → usable a → files.load m (umem.ptedit_vmem + a) ≡ ram.word m a
  pub stores :
      (m : M) (a v : ℕ) → usable a → files.store (umem.ptedit_vmem + a) v m ≡ ram.poke a v m

-- At usable addresses, an access reads and writes physical memory.
record IsAccess {M : Type 0} (access : Access M) (ram : Ram M) (usable : ℕ → Type 0) : Type 0 where
  reads : (m : M) (a : ℕ) → usable a → access.read m a ≡ ram.word m a
  writes : (m : M) (a v : ℕ) → usable a → access.write a v m ≡ ram.poke a v m

by_pread-IsAccess :
    {M : Type 0} (files : Files M) (umem : Umem) (ram : Ram M) (usable : ℕ → Type 0)
    → IsUmem files umem ram usable
    → IsAccess (by_pread files umem) ram usable
unfolding phys_read_pread phys_write_pwrite or_else
by_pread-IsAccess files umem ram usable laws = record {
  reads = λ m a ok. ap (or_else 0) (laws.preads m a ok);
  writes = λ m a v ok. ap (or_else m) (laws.pwrites m a v ok);
}

by_map-IsAccess :
    {M : Type 0} (files : Files M) (umem : Umem) (ram : Ram M) (usable : ℕ → Type 0)
    → IsUmem files umem ram usable
    → IsAccess (by_map files umem) ram usable
unfolding phys_read_map phys_write_map
by_map-IsAccess files umem ram usable laws = record { reads = laws.loads; writes = laws.stores }

module _ {M : Type 0} (tasks : Tasks M) (user : User M) (usable : ℕ → Type 0)
    (word : M → ℕ → ℕ) where
  pub SameView-IsPreorder : IsPreorder (SameView tasks user usable word)
  SameView-IsPreorder = record {
    stays = λ m. record {
      words = λ a ok. refl;
      roots = record { mm_same = λ pid. refl; pgd_same = λ mm. refl };
    };
    follows = λ a b c first second. record {
      words = λ q ok. second.words q ok ∙ first.words q ok;
      roots = record {
        mm_same = λ pid. second.roots.mm_same pid ∙ first.roots.mm_same pid;
        pgd_same = λ mm. second.roots.pgd_same mm ∙ first.roots.pgd_same mm;
      };
    };
  }

module _ {M : Type 0} (host : Host M) (fd : ℕ) (laws : IsRootMachine host.tasks host.user) where
  open host use {size, cpu, tasks, user}

  -- The root that is read depends on processes and roots alone.
  same_paging_root :
      (pid : ℕ) (s s' : State M)
      → SameRoots tasks user s.machine s'.machine
      → first_or 0 (get_paging_root (on_device host fd) pid s')
        ≡ first_or 0 (get_paging_root (on_device host fd) pid s)
  unfolding first_or
  same_paging_root pid s s' same =
      rw
        (
          get_paging_root_lem host fd laws pid s',
          get_paging_root_lem host fd laws pid s,
          same.mm_same pid,
        )
        (root_at_same host fd laws (get_mm tasks s.machine pid) s.machine s'.machine same)

  module _ (ram : Ram M) (usable : ℕ → Type 0) (memory : IsRam cpu tasks user ram usable) where
    -- The TLB request, whatever the access to memory.
    tlb_same :
        (access : Access M) (s : State M) (address : ℕ)
        → SameView tasks user usable ram.word s.machine
            ((system_over (on_device host fd) access).invalidate_tlb address s).machine
    unfolding system_over or_else ptedit_invalidate_tlb ioctl ioctl_on device_ioctl
    tlb_same access s address =
        invalidate_quiet (SameView tasks user usable ram.word)
          (SameView-IsPreorder tasks user usable ram.word) cpu memory.tlb_quiet x86_64 size tasks
          s.invalidate_tlb address s.machine

    system_over-IsMemory :
        (access : Access M)
        → IsAccess access ram usable
        → IsMemory (system_over (on_device host fd) access) usable
    unfolding system_over
    system_over-IsMemory access through = record {
      reads_back = λ s a v ok small.
          ap (λ m. access.read m a) (through.writes s.machine a v ok)
          ∙ through.reads _ a ok
          ∙ memory.reads_back s.machine a v ok small;
      keeps = λ s a v b ok ok_b apart.
          ap (λ m. access.read m b) (through.writes s.machine a v ok)
          ∙ through.reads _ b ok_b
          ∙ memory.keeps s.machine a v b ok ok_b apart
          ∙ sym (through.reads s.machine b ok_b);
      keeps_root = λ s a v pid ok. same_paging_root pid s _ (
          subst (SameRoots tasks user s.machine) (sym (through.writes s.machine a v ok))
            (memory.keeps_roots s.machine a v ok));
      tlb_keeps = λ s a b ok.
          through.reads _ b ok
          ∙ (tlb_same access s a).words b ok
          ∙ sym (through.reads s.machine b ok);
      tlb_keeps_root = λ s a pid. same_paging_root pid s _ (tlb_same access s a).roots;
    }

    -- Both user-space implementations give the page walk the system that it relies on, on x86 with
    -- the device open: with `pread` and `pwrite` on `/proc/umem` and with its mapping, words
    -- written at usable addresses read back and change no other usable word, and neither they nor
    -- TLB requests change the root that `ptedit_get_paging_root` reads for any process, with a
    -- memory map or without.
    pub systems-IsMemory :
        (files : Files M) (umem : Umem)
        → IsUmem files umem ram usable
        → IsMemory (pread_system (on_device host fd) files umem) usable
          × IsMemory (map_system (on_device host fd) files umem) usable
    systems-IsMemory files umem laws = (
      system_over-IsMemory (by_pread files umem) (by_pread-IsAccess files umem ram usable laws),
      system_over-IsMemory (by_map files umem) (by_map-IsAccess files umem ram usable laws),
    )
