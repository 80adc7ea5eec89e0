-- ===== src/Print.antt =====
-- ptedit.c, the printing of entries: `ptedit_print_entry_line`, `ptedit_print_entry` and
-- `ptedit_print_entry_t`, as the calls of `printf` that they make, the first one first.
pub mod PageBit
pub mod Joined
pub mod Fields
pub mod Tests
use Prim.Native.String.{String}
use pteditor_riscv.Base.{
  ℕ, zero, suc, ◌-◌, ◌*◌, ◌^◌, Bool, ◌||◌, bit_and, bit_or, ◌==◌, if◌then◌else◌, shr64, List, [],
  ◌∷◌, ◌++◌,
}
use pteditor_riscv.Entry.{
  Arch, x86_64, aarch64, Entry, has_level, valid_mask_pgd, valid_mask_p4d, valid_mask_pud,
  valid_mask_pmd, valid_mask_pte,
}
use pteditor_riscv.MemType.{flag, page_bit_pwt, page_bit_pcd, page_bit_pat_large}
use pteditor_riscv.Print.PageBit

-- A call with a plain text, with a format and a number, or with a format and a pointer;
-- `PTEDIT_COLOR_GREEN` and `PTEDIT_COLOR_RESET` are escape sequences.
pub data Printf : Type 0 where
  text : String → Printf
  number : String → ℕ → Printf
  pointer : String → ℕ → Printf
  color_green color_reset : Printf

-- The cells of the line of values: `PEDIT_PRINT_B` of a number, or the page-frame number.
pub data Cell : Type 0 where
  bits : String → ℕ → Cell
  frame_number : String → ℕ → Cell

unfoldable pub print_cell : Cell → List Printf
print_cell (bits fmt bit) =
    if bit == 0
    then number fmt bit ∷ text "|" ∷ []
    else color_green ∷ number fmt bit ∷ color_reset ∷ text "|" ∷ []
print_cell (frame_number fmt pfn) = pointer fmt pfn ∷ []

-- `(PTEDIT_B(entry, k + 1) << 1) | PTEDIT_B(entry, k)`, and the same of three, four and five bits.
abbrev pub join_2 : ℕ → ℕ → ℕ → ℕ
join_2 entry k1 k0 = bit_or (flag entry k1 * 2 ^ 1) (flag entry k0)

abbrev pub join_3 : ℕ → ℕ → ℕ → ℕ → ℕ
join_3 entry k2 k1 k0 =
    bit_or (bit_or (flag entry k2 * 2 ^ 2) (flag entry k1 * 2 ^ 1)) (flag entry k0)

abbrev pub join_4 : ℕ → ℕ → ℕ → ℕ → ℕ → ℕ
join_4 entry k3 k2 k1 k0 =
    bit_or (bit_or (bit_or (flag entry k3 * 2 ^ 3) (flag entry k2 * 2 ^ 2)) (flag entry k1 * 2 ^ 1))
      (flag entry k0)

abbrev pub join_5 : ℕ → ℕ → ℕ → ℕ → ℕ → ℕ → ℕ
join_5 entry k4 k3 k2 k1 k0 =
    bit_or
      (bit_or
        (bit_or (bit_or (flag entry k4 * 2 ^ 4) (flag entry k3 * 2 ^ 3)) (flag entry k2 * 2 ^ 2))
        (flag entry k1 * 2 ^ 1))
      (flag entry k0)

-- What stands in the line of values.
unfoldable pub cells : Arch → ℕ → List Cell
cells x86_64 entry =
    bits " %d" (flag entry PageBit.nx)
    ∷ frame_number " %16p |" (bit_and (shr64 entry 12) (2 ^ 40 - 1))
    ∷ bits "%d" (flag entry page_bit_pat_large)
    ∷ bits "%d" (flag entry PageBit.softw3)
    ∷ bits "%d" (flag entry PageBit.softw2)
    ∷ bits "%d" (flag entry PageBit.softw1)
    ∷ bits "%d" (flag entry PageBit.global)
    ∷ bits "%d" (flag entry PageBit.pse)
    ∷ bits "%d" (flag entry PageBit.dirty)
    ∷ bits "%d" (flag entry PageBit.accessed)
    ∷ bits " %d" (flag entry page_bit_pcd)
    ∷ bits " %d" (flag entry page_bit_pwt)
    ∷ bits "%d" (flag entry PageBit.user)
    ∷ bits "%d" (flag entry PageBit.rw)
    ∷ bits "%d" (flag entry PageBit.present)
    ∷ []
cells aarch64 entry =
    bits "%2d" (join_5 entry 63 62 61 60 59)
    ∷ bits "%2d" (join_4 entry 58 57 56 55)
    ∷ bits " %d" (flag entry 54)
    ∷ bits " %d " (flag entry 53)
    ∷ bits "%d" (flag entry 52)
    ∷ bits "%2d" (join_4 entry 51 50 49 48)
    ∷ frame_number " %16p |" (bit_and (shr64 entry 12) (2 ^ 36 - 1))
    ∷ bits " %d" (flag entry 11)
    ∷ bits "%d" (flag entry 10)
    ∷ bits "%d" (join_2 entry 9 8)
    ∷ bits "%d" (join_2 entry 7 6)
    ∷ bits " %d" (flag entry 5)
    ∷ bits " %d " (join_3 entry 4 3 2)
    ∷ bits "%d" (join_2 entry 1 0)
    ∷ []

unfoldable pub print_cells : List Cell → List Printf
print_cells [] = text "\n" ∷ []
print_cells (c ∷ cs) = print_cell c ++ print_cells cs

-- The line of values, `line == 2`.
pub print_values : Arch → ℕ → List Printf
print_values arch entry = text "|" ∷ print_cells (cells arch entry)

abbrev pub frame : Arch → String
frame x86_64 = "+--+------------------+-+-+-+-+-+-+-+-+--+--+-+-+-+\n"
frame aarch64 = "+--+--+--+---+-+--+------------------+--+-+-+-+--+---+-+\n"

abbrev pub heading : Arch → String
heading x86_64 = "|NX|       PFN        |H|?|?|?|G|S|D|A|UC|WT|U|W|P|\n"
heading aarch64 = "| ?| ?|XN|PXN|C| ?|        PFN       |NG|A|S|P|NS|MAI|T|\n"

pub print_entry_line : Arch → ℕ → ℕ → List Printf
print_entry_line arch entry line =
    (if line == 0 || line == 3 then text (frame arch) ∷ [] else [])
    ++ (if line == 1 then text (heading arch) ∷ [] else [])
    ++ (if line == 2 then print_values arch entry else [])

-- The loop of `ptedit_print_entry`, with `left` rounds to go up to line 3.
pub print_lines : Arch → ℕ → ℕ → List Printf
print_lines arch entry zero = []
print_lines arch entry (suc left) =
    print_entry_line arch entry (3 - left) ++ print_lines arch entry left

pub print_entry : Arch → ℕ → List Printf
print_entry arch entry = print_lines arch entry 4

pub print_level : Arch → ℕ → ℕ → String → ℕ → List Printf
print_level arch valid mask title entry =
    if has_level valid mask then text title ∷ print_entry arch entry else []

pub print_entry_t : Arch → Entry → List Printf
print_entry_t arch entry =
    print_level arch entry.valid valid_mask_pgd "PGD of address\n" entry.pgd
    ++ (print_level arch entry.valid valid_mask_p4d "P4D of address\n" entry.p4d
        ++ (print_level arch entry.valid valid_mask_pud "PUD of address\n" entry.pud
            ++ (print_level arch entry.valid valid_mask_pmd "PMD of address\n" entry.pmd
                ++ print_level arch entry.valid valid_mask_pte "PTE of address\n" entry.pte)))
