-- ===== src/Request/Tests.antt =====
-- The library over the kernel module, on the small machine of the tests of the module.
use pteditor_riscv.Base.{◌≡◌, refl, arith, some, ◌>>=◌, ap, ==_of_eq, if◌then◌else◌}
use pteditor_riscv.Entry.{x86_64, Entry}
use pteditor_riscv.Walk.Tests.{address}
use pteditor_riscv.Kernel.{get_mm, mm_of_pid, mm_of_task, or_active}
use pteditor_riscv.Kernel.Translation.{Pointers, IsTranslation, SameTables-IsPreorder}
use pteditor_riscv.Kernel.Tests.Machine.{
  Board, tasks, tables_of_words, cpu, user, machine, loaded, pages,
}
use pteditor_riscv.Pte.{with_pte}
use pteditor_riscv.Pte.Laws.{IsRoundTrip}
use pteditor_riscv.Kernel.Tests.Machine.{machine-IsRootStore}
use pteditor_riscv.Request.{Host, resolve_kernel, update_kernel, full_serializing_barrier}
use pteditor_riscv.Request.Root.{IsRootMachine, full_serializing_barrier_lem}
use pteditor_riscv.Request.Calls.{IsMachine}
use pteditor_riscv.Request.Steps.{on_device, IsLeaf}
use pteditor_riscv.Request.Backend.{
  resolve-update_kernel, kernel_backend, kernel_backend-IsRoundTrip,
}

abbrev pub host : Host Board
host = record {
  arch = x86_64;
  size = pages;
  cpu = cpu;
  tasks = tasks;
  tables = tables_of_words;
  user = user;
  get_word = λ m a. 0;
  put_page = λ a page m. m;
  stack = 0;
  ptedit_fd = some 3;
}

abbrev pub pointers : Pointers
pointers = record { pgd = 0x1008; p4d = 0x1008; pud = 0x2010; pmd = 0x3018; pte = 0x4020 }

pointers-IsLeaf : IsLeaf pointers
pointers-IsLeaf = record {
  pgd = λ h. absurd (omega arith);
  p4d = λ h. absurd (omega arith);
  pud = λ h. absurd (omega arith);
  pmd = λ h. absurd (omega arith);
}

pub machine-IsTranslation : IsTranslation tables_of_words machine 100 address pointers
machine-IsTranslation = record {
  pgd_at = refl;
  pgd_there = refl;
  p4d_at = refl;
  p4d_there = refl;
  pud_at = refl;
  pud_there = refl;
  pmd_at = refl;
  pmd_there = refl;
  pte_at = refl;
  pmd_small = refl;
}

pub board-IsMachine : IsMachine cpu tasks tables_of_words user
unfolding get_mm mm_of_pid mm_of_task
board-IsMachine =
    let stays = (SameTables-IsPreorder tasks tables_of_words (λ p. Unit {0})).stays in
    record {
      buffer_set = λ a e m. ap (λ b. if b then e else m.entries a) (==_of_eq a a refl);
      buffer_apart = λ a e m. record {
        load_same = λ p k. refl;
        pgd_same = λ mm b. refl;
        p4d_same = λ p b k. refl;
        pud_same = λ p b k. refl;
        pmd_same = λ p b k. refl;
        pte_same = λ p b k. refl;
        mm_same = λ pid. refl;
      };
      pte_set = λ q v m small. ground arith;
      pte_alone = λ q v m. record {
        load_same = λ p k. ground arith;
        pgd_same = λ mm b. refl;
        p4d_same = λ p b k. refl;
        pud_same = λ p b k. ground arith;
        pmd_same = λ p b k. ground arith;
        pte_same = λ p b k. ground arith;
        mm_same = λ pid. refl;
      };
      tlb_quiet = record {
        each_cpu = λ f h m. h m;
        invpcid = λ pcid addr m. stays m;
        write_cr4 = λ v m. stays m;
        irq_save = λ m. stays m;
        irq_restore = λ saved m. stays m;
        barrier = λ m. stays m;
        flush_range = λ mm a b shift freed m. stays m;
        flush_page = λ vma addr m. stays m;
      };
    }

resolve-update_kernel_example :
    (resolve_kernel (on_device host 3) address 7 loaded >>= λ (e, s1).
    update_kernel (on_device host 3) address 7 (with_pte e 0x5065) s1 >>= λ s2.
    resolve_kernel (on_device host 3) address 7 s2 >>= λ (e', s3).
    let found : Entry × Entry = (e, e') in some found)
    ≡ (let e : Entry = record {
      pid = 7;
      vaddr = address;
      pgd = 0x2001;
      p4d = 0x2001;
      pud = 0x3001;
      pmd = 0x4001;
      pte = 0x5067;
      valid = 31;
    } in
        some (e, record e { pte = 0x5065 }))
unfolding get_mm mm_of_pid mm_of_task or_active
resolve-update_kernel_example =
    resolve-update_kernel host 3 board-IsMachine 100 address 7 pointers 0x5065 loaded (omega arith)
      pointers-IsLeaf refl machine-IsTranslation

kernel_backend-IsRoundTrip_example :
    IsRoundTrip (kernel_backend (on_device host 3)) loaded address 7
unfolding get_mm mm_of_pid mm_of_task or_active
kernel_backend-IsRoundTrip_example =
    kernel_backend-IsRoundTrip host 3 board-IsMachine 100 address 7 pointers loaded pointers-IsLeaf
      refl machine-IsTranslation (omega arith)

pub machine-IsRootMachine : IsRootMachine tasks user
unfolding get_mm mm_of_pid mm_of_task
machine-IsRootMachine = record {
  store = machine-IsRootStore;
  apart = λ a v m. record { mm_same = λ pid. refl; pgd_same = λ mm. refl };
}

-- The PGD of the caller is at the start of the kernel's map of physical memory.
full_serializing_barrier_lem_example :
    (full_serializing_barrier (on_device host 3) (λ m. m) (λ m. m) loaded >>= λ s'.
    some (user.mm_pgd s'.machine 100))
    ≡ some 0x1000
unfolding get_mm mm_of_pid mm_of_task or_active
full_serializing_barrier_lem_example =
    full_serializing_barrier_lem host 3 machine-IsRootMachine 100 (λ m. m) (λ m. m) loaded
      (λ m. record { mm_same = λ pid. refl; pgd_same = λ mm. refl })
      (λ m. record { mm_same = λ pid. refl; pgd_same = λ mm. refl }) refl refl
