-- ===== src/Demos/MemMap/Tests.antt =====
-- demos/memmap.c over the small memory of the page walk.
use pteditor_riscv.Base.{ℕ, ◌*◌, ◌^◌, ◌≤◌, ◌≡◌, ◌↔◌, refl, arith, true, u64, []}
use pteditor_riscv.Entry.{x86_64, has_level, valid_mask_pte}
use pteditor_riscv.Paging.{init_definition, split_address}
use pteditor_riscv.Pfn.{get_pfn}
use pteditor_riscv.Walk
use pteditor_riscv.Walk.{slot, resolve_user_ext}
use pteditor_riscv.Walk.Tests.{ram, tables, address, library}
use pteditor_riscv.Demos.MemMap.{
  Buffer, Dump, mem_map, for, pml4_round, below_pml4, pdpt_round, pd_loop, pd_round, pt_round,
  is_present, is_normal_page,
}
use pteditor_riscv.Demos.MemMap.Listed.{lists}
use pteditor_riscv.Demos.MemMap.Path.{is_page}
use pteditor_riscv.Demos.MemMap.Agrees.{IsReadable, mem_map-resolve_user_ext}
use pteditor_riscv.Demos.MemMap.Usage.{total, mem_usage_lem}

read_page : ℕ → Buffer → Buffer
read_page pfn old index = tables (slot (u64 (pfn * 4096)) index)

zeros : Buffer
zeros index = 0

start : Dump
start = record { pdpt = zeros; pd = zeros; pt = zeros; lines = []; mem_usage = 0 }

small_memory : (a : ℕ) → tables a ≤ 0x5067
small_memory a = ground arith

tables-IsReadable : IsReadable ram tables 7 address read_page
unfolding read_page split_address init_definition slot get_pfn
tables-IsReadable = record {
  root_there = omega arith;
  root_aligned = refl;
  root_small = omega arith;
  word = λ a. omega (arith, small_memory a);
  reads = λ pfn old. refl;
  pml4_fits = omega arith;
  pdpt_fits = omega arith;
  pd_fits = omega arith;
}

mem_map-resolve_user_ext_example :
    (lists (is_page address) (mem_map x86_64 read_page 0x1000 4096 zeros start).lines ≡ true)
    ↔ (has_level (resolve_user_ext ram library tables address 7).valid valid_mask_pte ≡ true)
      × (Walk.is_present x86_64 (resolve_user_ext ram library tables address 7).pte ≡ true)
mem_map-resolve_user_ext_example =
    mem_map-resolve_user_ext ram tables 7 address read_page tables-IsReadable zeros start
      (omega arith) refl

mem_usage_lem_example :
    ((mem_map x86_64 read_page 0x1000 4096 zeros start).mem_usage
      ≡ total (mem_map x86_64 read_page 0x1000 4096 zeros start).lines)
    × ((mem_map x86_64 read_page 0x1000 4096 zeros start).mem_usage ≤ 2 ^ 48)
mem_usage_lem_example = mem_usage_lem x86_64 read_page 0x1000 4096 zeros start

-- The memory maps one page, of 4 KB.
runs : (mem_map x86_64 read_page 0x1000 4096 zeros start).mem_usage ≡ 4096
unfolding mem_map read_page zeros start for pml4_round below_pml4 pdpt_round pd_loop pd_round
    pt_round is_present is_normal_page get_pfn slot
runs = refl
