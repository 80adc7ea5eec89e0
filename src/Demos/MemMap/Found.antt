-- ===== src/Demos/MemMap/Found.antt =====
-- What demos/memmap.c prints on x86, as nested searches of the page tables.
use pteditor_riscv.Base.{
  ℕ, ◌/◌, ◌≡◌, ap, ◌∙◌, arith, Bool, ◌&&◌, ◌||◌, if◌then◌else◌, [], ◌++◌, Bool-cases, inl, inr,
}
use pteditor_riscv.Entry.{x86_64}
use pteditor_riscv.Pfn.{get_pfn}
use pteditor_riscv.Demos.MemMap.{
  Buffer, Output, page, large_page, Dump, dump, dump_entry, table_entries, is_present,
  is_normal_page, page_address, large_address, pt_round, pd_round, pd_loop, pdpt_round, below_pml4,
  pml4_round, mem_map,
}
use pteditor_riscv.Demos.MemMap.Listed.{
  any_below, lists, IsSilent, lists-dump, lists-line, Adds, for-Adds,
}

-- What the buffers hold.
record HoldsPdpt (pdpt : Buffer) (s : Dump) : Type 0 where
  pdpt_same : s.pdpt ≡ pdpt

record HoldsPd (pdpt pd : Buffer) (s : Dump) : Type 0 where
  pdpt_same : s.pdpt ≡ pdpt
  pd_same : s.pd ≡ pd

record HoldsPt (pdpt pd pt : Buffer) (s : Dump) : Type 0 where
  pdpt_same : s.pdpt ≡ pdpt
  pd_same : s.pd ≡ pd
  pt_same : s.pt ≡ pt

-- `words pfn` is the content of a page. Each search looks below an entry of the table that it is
-- given.
module _ (words : ℕ → Buffer) (p : Output → Bool) where
  unfoldable pub in_pt : ℕ → ℕ → ℕ → Buffer → ℕ → Bool
  in_pt pml4i pdpti pdi pt pti =
      is_present x86_64 (pt pti) && p (page (page_address x86_64 pml4i pdpti pdi pti))

  unfoldable pub in_pd : ℕ → ℕ → Buffer → ℕ → Bool
  unfolding in_pt
  in_pd pml4i pdpti pd pdi =
      is_present x86_64 (pd pdi)
      && (if is_normal_page x86_64 (pd pdi)
          then any_below table_entries (in_pt pml4i pdpti pdi (words (get_pfn x86_64 (pd pdi))))
          else p (large_page (large_address pml4i pdpti pdi)))

  unfoldable pub in_pdpt : ℕ → Buffer → ℕ → Bool
  unfolding in_pd
  in_pdpt pml4i pdpt pdpti =
      is_present x86_64 (pdpt pdpti)
      && any_below table_entries (in_pd pml4i pdpti (words (get_pfn x86_64 (pdpt pdpti))))

  unfoldable pub in_pml4 : Buffer → ℕ → Bool
  unfolding in_pdpt
  in_pml4 pml4 pml4i =
      is_present x86_64 (pml4 pml4i)
      && any_below table_entries (in_pdpt pml4i (words (get_pfn x86_64 (pml4 pml4i))))

module _ (read_physical_page : ℕ → Buffer → Buffer) (words : ℕ → Buffer)
    (reads : (pfn : ℕ) (old : Buffer) → read_physical_page pfn old ≡ words pfn) (p : Output → Bool)
    (silent : IsSilent p) where
  pt_round-Adds :
      (pml4i pdpti pdi pti : ℕ) (pdpt pd pt : Buffer)
      → Adds p
          (HoldsPt pdpt pd pt)
          (pt_round x86_64 read_physical_page pml4i pdpti pdi pti)
          (in_pt words p pml4i pdpti pdi pt pti)
  unfolding pt_round in_pt
  pt_round-Adds pml4i pdpti pdi pti pdpt pd pt s holds =
      let entry : s.pt pti ≡ pt pti = ap (λ (b : Buffer). b pti) holds.pt_same in
      let out = dump x86_64 dump_entry (pt pti) "        PT  " in
      let line = page (page_address x86_64 pml4i pdpti pdi pti) in
      elim (Bool-cases (is_present x86_64 (pt pti))) [
        | inl there ↦
            rw (entry, there)
              (
                record {
                  pdpt_same = holds.pdpt_same;
                  pd_same = holds.pd_same;
                  pt_same = holds.pt_same;
                },
                lists-line p (s.lines ++ out) line
                    ∙ ap (λ b. b || p line)
                        (lists-dump p silent x86_64 (pt pti) "        PT  " s.lines),
              )
        | inr missing ↦ rw (entry, missing) (holds, ground arith)
      ]

  pd_round-Adds :
      (pml4i pdpti pdi : ℕ) (pdpt pd : Buffer)
      → Adds p
          (HoldsPd pdpt pd)
          (pd_round x86_64 read_physical_page pml4i pdpti pdi)
          (in_pd words p pml4i pdpti pd pdi)
  unfolding pd_round in_pd
  pd_round-Adds pml4i pdpti pdi pdpt pd s holds =
      let e = pd pdi in
      let entry : s.pd pdi ≡ pd pdi = ap (λ (b : Buffer). b pdi) holds.pd_same in
      let out = dump x86_64 dump_entry (pd pdi) "    PD  " in
      let line = large_page (large_address pml4i pdpti pdi) in
      let pt = words (get_pfn x86_64 (pd pdi)) in
      let silent_out = lists-dump p silent x86_64 (pd pdi) "    PD  " s.lines in
      elim (Bool-cases (is_present x86_64 (pd pdi))) [
        | inl there ↦ elim (Bool-cases (is_normal_page x86_64 (pd pdi))) [
          | inl normal ↦
              let read : Dump = record s {
                lines = s.lines ++ out;
                pt = read_physical_page (get_pfn x86_64 (pd pdi)) s.pt;
              } in
              let (kept, added) =
                for-Adds p (HoldsPt pdpt pd pt) (pt_round x86_64 read_physical_page pml4i pdpti pdi)
                  (in_pt words p pml4i pdpti pdi pt)
                  (λ pti. pt_round-Adds pml4i pdpti pdi pti pdpt pd pt) table_entries read
                  (record {
                    pdpt_same = holds.pdpt_same;
                    pd_same = holds.pd_same;
                    pt_same = reads _ s.pt;
                  }) in
              rw (entry, there, normal)
                (
                  record { pdpt_same = kept.pdpt_same; pd_same = kept.pd_same },
                  added
                      ∙ ap (λ b. b || any_below table_entries (in_pt words p pml4i pdpti pdi pt))
                          silent_out,
                )
          | inr large ↦
              rw (entry, there, large)
                (
                  record { pdpt_same = holds.pdpt_same; pd_same = holds.pd_same },
                  lists-line p (s.lines ++ out) line ∙ ap (λ b. b || p line) silent_out,
                )
        ]
        | inr missing ↦ rw (entry, missing) (holds, ground arith)
      ]

  pdpt_round-Adds :
      (pml4i pdpti : ℕ) (pdpt : Buffer)
      → Adds p
          (HoldsPdpt pdpt)
          (pdpt_round x86_64 read_physical_page pml4i pdpti)
          (in_pdpt words p pml4i pdpt pdpti)
  unfolding pdpt_round pd_loop in_pdpt
  pdpt_round-Adds pml4i pdpti pdpt s holds =
      let entry : s.pdpt pdpti ≡ pdpt pdpti = ap (λ (b : Buffer). b pdpti) holds.pdpt_same in
      let out = dump x86_64 dump_entry (pdpt pdpti) "PDPT" in
      let pd = words (get_pfn x86_64 (pdpt pdpti)) in
      elim (Bool-cases (is_present x86_64 (pdpt pdpti))) [
        | inl there ↦
            let read : Dump = record s {
              lines = s.lines ++ out;
              pd = read_physical_page (get_pfn x86_64 (pdpt pdpti)) s.pd;
            } in
            let (kept, added) =
              for-Adds p (HoldsPd pdpt pd) (pd_round x86_64 read_physical_page pml4i pdpti)
                (in_pd words p pml4i pdpti pd) (λ pdi. pd_round-Adds pml4i pdpti pdi pdpt pd)
                table_entries read
                (record { pdpt_same = holds.pdpt_same; pd_same = reads _ s.pd }) in
            rw (entry, there)
              (
                record { pdpt_same = kept.pdpt_same },
                added
                    ∙ ap (λ b. b || any_below table_entries (in_pd words p pml4i pdpti pd))
                        (lists-dump p silent x86_64 (pdpt pdpti) "PDPT" s.lines),
              )
        | inr missing ↦ rw (entry, missing) (holds, ground arith)
      ]

  pml4_round-Adds :
      (pml4i : ℕ) (pml4 : Buffer)
      → Adds p
          (λ s. Unit {0})
          (pml4_round x86_64 read_physical_page pml4 pml4i)
          (in_pml4 words p pml4 pml4i)
  unfolding pml4_round below_pml4 in_pml4
  pml4_round-Adds pml4i pml4 s holds =
      let out = dump x86_64 dump_entry (pml4 pml4i) "" in
      let pdpt = words (get_pfn x86_64 (pml4 pml4i)) in
      elim (Bool-cases (is_present x86_64 (pml4 pml4i))) [
        | inl there ↦
            let read : Dump = record s {
              lines = s.lines ++ out;
              pdpt = read_physical_page (get_pfn x86_64 (pml4 pml4i)) s.pdpt;
            } in
            let (kept, added) =
              for-Adds p (HoldsPdpt pdpt) (pdpt_round x86_64 read_physical_page pml4i)
                (in_pdpt words p pml4i pdpt) (λ pdpti. pdpt_round-Adds pml4i pdpti pdpt)
                table_entries read (record { pdpt_same = reads _ s.pdpt }) in
            rw there (
              tt,
              added
                  ∙ ap (λ b. b || any_below table_entries (in_pdpt words p pml4i pdpt))
                      (lists-dump p silent x86_64 (pml4 pml4i) "" s.lines),
            )
        | inr missing ↦ rw missing (tt, ground arith)
      ]

  -- A line that passes the test is printed exactly if the nested searches find one.
  pub lists-mem_map :
      (root pagesize : ℕ) (stack : Buffer) (s : Dump)
      → lists p (mem_map x86_64 read_physical_page root pagesize stack s).lines
        ≡ any_below 256 (in_pml4 words p (words (root / pagesize)))
  unfolding mem_map lists
  lists-mem_map root pagesize stack s = rw (reads (root / pagesize) stack) (
      (for-Adds p (λ s. Unit {0}) (pml4_round x86_64 read_physical_page (words (root / pagesize)))
        (in_pml4 words p (words (root / pagesize)))
        (λ pml4i. pml4_round-Adds pml4i (words (root / pagesize))) 256
        (record s { lines = []; mem_usage = 0 }) tt).1)
