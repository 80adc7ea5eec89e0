-- ===== src/Demos/Virt2phys/Tests.antt =====
-- demos/virt2phys.c over page tables with a page of 2 MB.
use pteditor_riscv.Base.{ℕ, ◌≡◌, ◌↔◌, refl, arith, true, ◌||◌, ◌==◌}
use pteditor_riscv.Entry.{x86_64, blank}
use pteditor_riscv.Pfn.{get_pfn}
use pteditor_riscv.Pte.{Backend}
use pteditor_riscv.Demos.MemMap.{is_normal_page}
use pteditor_riscv.Demos.Virt2phys.{virt2phys, physical_address, translated, virt2phys_lem}

-- The PMD 0x2000e7 maps the 2 MB at 0x200000.
abbrev large : Backend ℕ
large = record {
  resolve = λ m address pid. record blank { pmd = 0x2000e7; valid = 13 };
  update = λ address pid e m. m;
}

virt2phys_lem_example :
    (virt2phys x86_64 large 0 0x7fff1234 ≡ translated (large.resolve 0 0x7fff1234 0) 0x7fff1234)
    ↔ ((is_normal_page x86_64 0x2000e7 || get_pfn x86_64 0x2000e7 == 0) ≡ true)
virt2phys_lem_example = virt2phys_lem large 0 0x7fff1234 (omega arith) (omega arith) (omega arith)

-- The address 0x3f1234 is 2 MB and the offset; what is printed is 1 GB and the offset.
large_runs :
    (translated (large.resolve 0 0x7fff1234 0) 0x7fff1234 ≡ 0x3f1234)
    × (virt2phys x86_64 large 0 0x7fff1234 ≡ 0x401f1234)
unfolding virt2phys physical_address translated is_normal_page get_pfn
large_runs = (refl, refl)
