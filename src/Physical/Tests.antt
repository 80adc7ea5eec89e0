-- ===== src/Physical/Tests.antt =====
-- Physical memory and the kernel module on the small machine of the tests of the module.
use pteditor_riscv.Base.{ℕ, ◌+◌, ◌-◌, ◌≡◌, refl, ap, arith, some}
use pteditor_riscv.Kernel.{get_mm, mm_of_pid, mm_of_task}
use pteditor_riscv.Kernel.Tests.Machine.{Board, tasks, user, cpu, machine, store_word}
use pteditor_riscv.Physical.{Files, Umem, pread_system, map_system, pmap}
use pteditor_riscv.Physical.Contract.{Ram, IsRam, IsUmem, SameView-IsPreorder, systems-IsMemory}
use pteditor_riscv.Physical.Mapped.{pmap_lem}
use pteditor_riscv.Request.Steps.{on_device}
use pteditor_riscv.Request.Tests.{host, machine-IsRootMachine}
use pteditor_riscv.Walk.Memory.{IsMemory}
use pteditor_riscv.Walk.Tests.{AnyAddress}

-- Physical memory is mapped at 0x100000 of the process.
abbrev files : Files Board
files = record {
  load = λ m p. m.words (p - 0x100000);
  store = λ p v m. store_word (some (p - 0x100000)) v m;
  pread_word = λ m fd a. some (m.words a);
  pwrite_word = λ fd a v m. some (store_word (some a) v m);
  pread = λ fd buffer length offset m. some m;
  pwrite = λ fd buffer length offset m. some m;
  mmap = λ m fd length offset. 0x100000 + offset;
}

abbrev umem : Umem
umem = record { ptedit_umem = some 4; ptedit_pagesize = 4096; ptedit_vmem = 0x100000 }

abbrev ram : Ram Board
ram = record { word = λ m a. m.words a; poke = λ a v m. store_word (some a) v m }

ram-IsRam : IsRam cpu tasks user ram AnyAddress
unfolding get_mm mm_of_pid mm_of_task
ram-IsRam =
    let stays = (SameView-IsPreorder tasks user AnyAddress ram.word).stays in
    record {
      reads_back = λ m a v ok small. ground arith;
      keeps = λ m a v b ok ok_b apart. ground arith;
      keeps_roots = λ m a v ok. record { mm_same = λ pid. refl; pgd_same = λ mm. refl };
      tlb_quiet = record {
        each_cpu = λ f h m. h m;
        invpcid = λ pcid addr m. stays m;
        write_cr4 = λ v m. stays m;
        irq_save = λ m. stays m;
        irq_restore = λ saved m. stays m;
        barrier = λ m. stays m;
        flush_range = λ mm a b shift freed m. stays m;
        flush_page = λ vma addr m. stays m;
      };
    }

offset_back : (a : ℕ) → 0x100000 + a - 0x100000 ≡ a
offset_back a = omega arith

umem-IsUmem : IsUmem files umem ram AnyAddress
umem-IsUmem = record {
  preads = λ m a ok. refl;
  pwrites = λ m a v ok. refl;
  loads = λ m a ok. ap (λ p. m.words p) (offset_back a);
  stores = λ m a v ok. ap (λ p. store_word (some p) v m) (offset_back a);
}

systems-IsMemory_example :
    IsMemory (pread_system (on_device host 3) files umem) AnyAddress
    × IsMemory (map_system (on_device host 3) files umem) AnyAddress
systems-IsMemory_example =
    systems-IsMemory host 3 machine-IsRootMachine ram AnyAddress ram-IsRam files umem umem-IsUmem

-- Byte 4 of the range of 8 bytes from 0x2010 on.
abbrev byte : Board → ℕ → ℕ
byte m p = m.words (p - 0x100000)

pmap_lem_example : byte machine (pmap files umem machine 0x2010 8 + 4) ≡ machine.words 0x2014
pmap_lem_example =
    pmap_lem files umem byte (λ m a. m.words a) machine 0x2010 8 4 (omega arith)
      (λ k h. ground arith) (omega arith)
