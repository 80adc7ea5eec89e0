-- ===== src/Demos/MemMap/Usage.antt =====
-- The figure that demos/memmap.c prints last is the size of the pages that it lists.
use Prim.Native.String.{String}
use pteditor_riscv.Base.{
  ℕ, zero, suc, ◌+◌, ◌-◌, ◌*◌, ◌/◌, ◌^◌, ◌≤◌, ◌≡◌, refl, ap, ◌∙◌, sym, arith, u64, List, [], ◌∷◌,
  ◌++◌, Bool-cases, inl, inr,
}
use pteditor_riscv.Entry.{Arch, x86_64, aarch64}
use pteditor_riscv.Pfn.{get_pfn}
use pteditor_riscv.Print.{Printf, print_entry_line}
use pteditor_riscv.Demos.MemMap.{
  Buffer, Output, printed, page, large_page, printed_all, dump_lines, Dump, dump, dump_entry,
  table_entries, is_present, is_normal_page, page_address, large_address, pt_round, pd_round,
  pd_loop, pdpt_round, below_pml4, pml4_round, mem_map, for, first_level_entries,
}

-- The bytes that a line stands for.
abbrev pub size_of : Output → ℕ
size_of (printed x) = 0
size_of (page address) = 4096
size_of (large_page address) = 2 * 1024 * 1024

pub total : List Output → ℕ
total [] = 0
total (x ∷ xs) = size_of x + total xs

total-append : (xs ys : List Output) → total (xs ++ ys) ≡ total xs + total ys
unfolding total
total-append [] ys = omega arith
total-append (x ∷ xs) ys = omega (arith, total-append xs ys)

total-printed_all : (xs : List Printf) → total (printed_all xs) ≡ 0
unfolding total printed_all
total-printed_all [] = refl
total-printed_all (x ∷ xs) = omega (arith, total-printed_all xs)

total-dump_lines :
    (arch : Arch) (entry : ℕ) (type : String) (left : ℕ)
    → total (dump_lines arch entry type left) ≡ 0
unfolding total dump_lines
total-dump_lines arch entry type zero = refl
total-dump_lines arch entry type (suc left) = omega (
  arith,
  total-append (printed_all (print_entry_line arch entry (3 - left)))
      (dump_lines arch entry type left),
  total-printed_all (print_entry_line arch entry (3 - left)),
  total-dump_lines arch entry type left,
)

total-dump :
    (arch : Arch) (entry : ℕ) (type : String) (lines : List Output)
    → total (lines ++ dump arch dump_entry entry type) ≡ total lines
unfolding dump
total-dump arch entry type lines =
    omega
      (arith, total-append lines (dump_lines arch entry type 4), total-dump_lines arch entry type 4)

total-line :
    (lines : List Output) (line : Output) → total (lines ++ line ∷ []) ≡ total lines + size_of line
unfolding total
total-line lines line = omega (arith, total-append lines (line ∷ []))

-- The figure is the size of the lines so far.
abbrev IsExact : Dump → Type 0
IsExact s = s.mem_usage ≡ u64 (total s.lines)

-- A step keeps the figure exact, and adds lines of at most `room` bytes.
abbrev Counts : ℕ → (Dump → Dump) → Type 0
Counts room step =
    (s : Dump) → IsExact s → IsExact (step s) × (total (step s).lines ≤ total s.lines + room)

for-Counts :
    (room : ℕ) (body : ℕ → Dump → Dump)
    → ((i : ℕ) → Counts room (body i))
    → (n : ℕ) → Counts (n * room) (for n body)
unfolding for
for-Counts room body each zero s exact = (exact, omega arith)
for-Counts room body each (suc n) s exact =
    let (halfway, so_far) = for-Counts room body each n s exact in
    let (after, last) = each n (for n body s) halfway in (after, grind arith)

module _ (arch : Arch) (read_physical_page : ℕ → Buffer → Buffer) where
  pt_round-Counts :
      (pml4i pdpti pdi pti : ℕ) → Counts 4096 (pt_round arch read_physical_page pml4i pdpti pdi pti)
  unfolding pt_round
  pt_round-Counts pml4i pdpti pdi pti s exact = elim (Bool-cases (is_present arch (s.pt pti))) [
    | inl there ↦
        let out = dump arch dump_entry (s.pt pti) "        PT  " in
        let line = page (page_address arch pml4i pdpti pdi pti) in
        let grown : total ((s.lines ++ out) ++ line ∷ []) ≡ total s.lines + 4096 =
          total-line (s.lines ++ out) line
          ∙ ap (λ t. t + 4096) (total-dump arch (s.pt pti) "        PT  " s.lines) in
        rw there (omega (arith, grown, exact), omega (arith, grown))
    | inr missing ↦ rw missing (exact, omega arith)
  ]

  pd_round-Counts :
      (pml4i pdpti pdi : ℕ) → Counts (2 ^ 21) (pd_round arch read_physical_page pml4i pdpti pdi)
  unfolding pd_round
  pd_round-Counts pml4i pdpti pdi s exact = elim (Bool-cases (is_present arch (s.pd pdi))) [
    | inl there ↦
        let e : ℕ = s.pd pdi in
        let out = dump arch dump_entry (s.pd pdi) "    PD  " in
        let dumped = total-dump arch (s.pd pdi) "    PD  " s.lines in
        elim (Bool-cases (is_normal_page arch (s.pd pdi))) [
          | inl normal ↦
              let (after, grown) =
                for-Counts 4096 (pt_round arch read_physical_page pml4i pdpti pdi)
                  (pt_round-Counts pml4i pdpti pdi) table_entries
                  (record s {
                    lines = s.lines ++ out;
                    pt = read_physical_page (get_pfn arch (s.pd pdi)) s.pt;
                  })
                  (exact ∙ ap u64 (sym dumped)) in
              rw (there, normal) (after, omega (arith, grown, dumped))
          | inr large ↦
              let line = large_page (large_address pml4i pdpti pdi) in
              let grown : total ((s.lines ++ out) ++ line ∷ []) ≡ total s.lines + 2 ^ 21 =
                total-line (s.lines ++ out) line ∙ ap (λ t. t + 2 ^ 21) dumped in
              rw (there, large) (omega (arith, grown, exact), omega (arith, grown))
        ]
    | inr missing ↦ rw missing (exact, omega arith)
  ]

  pd_loop-Counts :
      (pml4i pdpti entry : ℕ) → Counts (2 ^ 30) (pd_loop arch read_physical_page pml4i pdpti entry)
  unfolding pd_loop
  pd_loop-Counts pml4i pdpti entry s exact =
      for-Counts (2 ^ 21) (pd_round arch read_physical_page pml4i pdpti)
        (pd_round-Counts pml4i pdpti) table_entries
        (record s { pd = read_physical_page (get_pfn arch entry) s.pd }) exact

  pdpt_round-Counts :
      (pml4i pdpti : ℕ) → Counts (2 ^ 30) (pdpt_round arch read_physical_page pml4i pdpti)
  unfolding pdpt_round
  pdpt_round-Counts pml4i pdpti s exact = elim (Bool-cases (is_present arch (s.pdpt pdpti))) [
    | inl there ↦
        let dumped = total-dump arch (s.pdpt pdpti) "PDPT" s.lines in
        let (after, grown) =
          pd_loop-Counts pml4i pdpti (s.pdpt pdpti)
            (record s { lines = s.lines ++ dump arch dump_entry (s.pdpt pdpti) "PDPT" })
            (exact ∙ ap u64 (sym dumped)) in
        rw there (after, omega (arith, grown, dumped))
    | inr missing ↦ rw missing (exact, omega arith)
  ]

  below_pml4-Counts :
      (a : Arch) (pml4i entry : ℕ)
      → Counts (2 ^ 39) (below_pml4 arch read_physical_page a pml4i entry)
  unfolding below_pml4
  below_pml4-Counts x86_64 pml4i entry s exact =
      for-Counts (2 ^ 30) (pdpt_round arch read_physical_page pml4i) (pdpt_round-Counts pml4i)
        table_entries (record s { pdpt = read_physical_page (get_pfn arch entry) s.pdpt }) exact
  below_pml4-Counts aarch64 pml4i entry s exact =
      let (after, grown) = pd_loop-Counts pml4i 0 entry s exact in (after, omega (arith, grown))

  pml4_round-Counts :
      (pml4 : Buffer) (pml4i : ℕ) → Counts (2 ^ 39) (pml4_round arch read_physical_page pml4 pml4i)
  unfolding pml4_round
  pml4_round-Counts pml4 pml4i s exact = elim (Bool-cases (is_present arch (pml4 pml4i))) [
    | inl there ↦
        let dumped = total-dump arch (pml4 pml4i) "" s.lines in
        let (after, grown) =
          below_pml4-Counts arch pml4i (pml4 pml4i)
            (record s { lines = s.lines ++ dump arch dump_entry (pml4 pml4i) "" })
            (exact ∙ ap u64 (sym dumped)) in
        rw there (after, omega (arith, grown, dumped))
    | inr missing ↦ rw missing (exact, omega arith)
  ]

  -- For every page table, the figure that demos/memmap.c prints last is the sum of the sizes of the
  -- pages that it lists, 4 KB or 2 MB each: the count does not overflow, since it is at most 2 ^ 48.
  pub mem_usage_lem :
      (root pagesize : ℕ) (stack : Buffer) (s : Dump)
      → let done = mem_map arch read_physical_page root pagesize stack s in
        (done.mem_usage ≡ total done.lines) × (done.mem_usage ≤ 2 ^ 48)
  unfolding mem_map total
  mem_usage_lem root pagesize stack s =
      let (exact, room) =
        for-Counts (2 ^ 39)
          (pml4_round arch read_physical_page (read_physical_page (root / pagesize) stack))
          (pml4_round-Counts (read_physical_page (root / pagesize) stack))
          (first_level_entries arch) (record s { lines = []; mem_usage = 0 }) start_exact in
      let small = bounded arch in
      (omega (arith, exact, room, small), omega (arith, exact, room, small))
    where
      start_exact : 0 ≡ u64 (total [])
      start_exact = refl

      bounded : (a : Arch) → first_level_entries a * 2 ^ 39 ≤ 2 ^ 48
      bounded x86_64 = omega arith
      bounded aarch64 = omega arith
