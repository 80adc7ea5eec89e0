-- ===== src/Demos/MemMap.antt =====
-- demos/memmap.c: all pages that a process maps, by reading its page tables through
-- `ptedit_read_physical_page`, without the page walk of the library.
pub mod Listed
pub mod Found
pub mod Path
pub mod Agrees
pub mod Usage
pub mod Tests
use Prim.Native.String.{String}
use pteditor_riscv.Base.{
  ℕ, zero, suc, ◌+◌, ◌-◌, ◌*◌, ◌/◌, Bool, true, not, bit_and, bit_or, ◌==◌, if◌then◌else◌, u64,
  shl64, List, [], ◌∷◌, ◌++◌,
}
use pteditor_riscv.Entry.{Arch, x86_64, aarch64}
use pteditor_riscv.Pfn.{get_pfn}
use pteditor_riscv.Print.{Printf, text, print_entry_line}
use pteditor_riscv.Print.PageBit

unfoldable pub is_present : Arch → ℕ → Bool
is_present x86_64 entry = not (bit_and entry (shl64 1 PageBit.present) == 0)
is_present aarch64 entry = bit_and entry 3 == 3

unfoldable pub is_normal_page : Arch → ℕ → Bool
is_normal_page x86_64 entry = bit_and entry (shl64 1 PageBit.pse) == 0
is_normal_page aarch64 entry = true

-- `FIRST_LEVEL_ENTRIES`: on x86 the upper half is the kernel's.
abbrev pub first_level_entries : Arch → ℕ
first_level_entries x86_64 = 256
first_level_entries aarch64 = 512

abbrev pub table_entries : ℕ
table_entries = 512

-- What the program prints: the dump of an entry, the line of a page, and that of a large page.
pub data Output : Type 0 where
  printed : Printf → Output
  page : ℕ → Output
  large_page : ℕ → Output

unfoldable pub printed_all : List Printf → List Output
printed_all [] = []
printed_all (p ∷ ps) = printed p ∷ printed_all ps

-- The loop of `dump`, with `left` rounds to go up to line 3.
unfoldable pub dump_lines : Arch → ℕ → String → ℕ → List Output
dump_lines arch entry type zero = []
dump_lines arch entry type (suc left) =
    printed (text type)
    ∷ (printed_all (print_entry_line arch entry (3 - left)) ++ dump_lines arch entry type left)

unfoldable pub dump : Arch → Bool → ℕ → String → List Output
dump arch do_dump entry type = if do_dump then dump_lines arch entry type 4 else []

-- A buffer of one page, as words.
abbrev pub Buffer : Type 0
Buffer = ℕ → ℕ

-- The variables of `main` that the loops change, and what is printed so far.
pub record Dump : Type 0 where
  pub pdpt : Buffer
  pub pd : Buffer
  pub pt : Buffer
  pub lines : List Output
  pub mem_usage : ℕ

abbrev pub dump_entry : Bool
dump_entry = true

-- `for (i = 0; i < n; i++)`, with the body as a function of `i`.
pub for : ℕ → (ℕ → Dump → Dump) → Dump → Dump
for zero body s = s
for (suc n) body s = body n (for n body s)

abbrev pub print : List Output → Dump → Dump
print out s = record s { lines = s.lines ++ out }

-- The page of the four indices; the PDPT has no index on ARM.
pub page_address : Arch → ℕ → ℕ → ℕ → ℕ → ℕ
page_address x86_64 pml4i pdpti pdi pti =
    bit_or (bit_or (bit_or (shl64 pti 12) (shl64 pdi 21)) (shl64 pdpti 30)) (shl64 pml4i 39)
page_address aarch64 pml4i pdpti pdi pti =
    bit_or (bit_or (shl64 pti 12) (shl64 pdi 21)) (shl64 pml4i 30)

pub large_address : ℕ → ℕ → ℕ → ℕ
large_address pml4i pdpti pdi = bit_or (bit_or (shl64 pdi 21) (shl64 pdpti 30)) (shl64 pml4i 39)

-- `read_physical_page pfn old` is the content of a buffer after `ptedit_read_physical_page`, where
-- it held `old`.
module _ (arch : Arch) (read_physical_page : ℕ → Buffer → Buffer) where
  -- The bodies of the loops, the innermost one first.
  pub pt_round : ℕ → ℕ → ℕ → ℕ → Dump → Dump
  pt_round pml4i pdpti pdi pti s =
      let pt_entry = s.pt pti in
      if not (is_present arch pt_entry)
      then s
      else let s1 = print (dump arch dump_entry pt_entry "        PT  ") s in
        let s2 = print (page (page_address arch pml4i pdpti pdi pti) ∷ []) s1 in
        record s2 { mem_usage = u64 (s2.mem_usage + 4096) }

  pub pd_round : ℕ → ℕ → ℕ → Dump → Dump
  pd_round pml4i pdpti pdi s =
      let pd_entry = s.pd pdi in
      let s1 = print (dump arch dump_entry pd_entry "    PD  ") s in
      if not (is_present arch pd_entry)
      then s
      else if is_normal_page arch pd_entry
      then for table_entries (pt_round pml4i pdpti pdi)
          (record s1 { pt = read_physical_page (get_pfn arch pd_entry) s1.pt })
      else let s2 = print (large_page (large_address pml4i pdpti pdi) ∷ []) s1 in
        record s2 { mem_usage = u64 (s2.mem_usage + 2 * 1024 * 1024) }

  -- Below the entry that stands for the PDPT.
  pub pd_loop : ℕ → ℕ → ℕ → Dump → Dump
  pd_loop pml4i pdpti pdpt_entry s =
      for table_entries (pd_round pml4i pdpti)
        (record s { pd = read_physical_page (get_pfn arch pdpt_entry) s.pd })

  pub pdpt_round : ℕ → ℕ → Dump → Dump
  pdpt_round pml4i pdpti s =
      let pdpt_entry = s.pdpt pdpti in
      if not (is_present arch pdpt_entry)
      then s
      else pd_loop pml4i pdpti pdpt_entry (print (dump arch dump_entry pdpt_entry "PDPT") s)

  -- On ARM there is no PDPT: its entry is the one above.
  pub below_pml4 : Arch → ℕ → ℕ → Dump → Dump
  below_pml4 x86_64 pml4i pml4_entry s =
      for table_entries (pdpt_round pml4i)
        (record s { pdpt = read_physical_page (get_pfn arch pml4_entry) s.pdpt })
  below_pml4 aarch64 pml4i pml4_entry s = pd_loop pml4i 0 pml4_entry s

  pub pml4_round : Buffer → ℕ → Dump → Dump
  pml4_round pml4 pml4i s =
      let pml4_entry = pml4 pml4i in
      if not (is_present arch pml4_entry)
      then s
      else below_pml4 arch pml4i pml4_entry (print (dump arch dump_entry pml4_entry "") s)

  -- The loops of `main`; `stack` is what the buffer of the PML4 held, and `s` holds the others.
  pub mem_map : ℕ → ℕ → Buffer → Dump → Dump
  mem_map root pagesize stack s =
      for (first_level_entries arch) (pml4_round (read_physical_page (root / pagesize) stack))
        (record s { lines = []; mem_usage = 0 })
