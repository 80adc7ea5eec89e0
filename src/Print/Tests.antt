-- ===== src/Print/Tests.antt =====
-- The printed lines at concrete entries.
use pteditor_riscv.Base.{◌+◌, ◌^◌, ◌≡◌, refl, arith, [], ◌∷◌}
use pteditor_riscv.Entry.{x86_64, aarch64, blank}
use pteditor_riscv.Print.{
  bits, text, number, color_green, color_reset, frame, heading, print_cell, print_cells,
  print_values, print_entry_line, print_level, print_entry_t,
}
use pteditor_riscv.Print.Fields.{numbers, weigh, weights, weigh-print_values}

weigh-print_values_example :
    weigh (weights x86_64) (numbers (print_values x86_64 (2 ^ 63 + 2 ^ 58 + 0x5067)))
    ≡ 2 ^ 63 + 0x5067
weigh-print_values_example = weigh-print_values x86_64 (2 ^ 63 + 2 ^ 58 + 0x5067) (omega arith)

-- A bit that is set is green.
cells_run :
    print_cells (bits "%d" 0 ∷ bits " %d" 1 ∷ [])
    ≡ number "%d" 0
      ∷ text "|"
      ∷ color_green
      ∷ number " %d" 1
      ∷ color_reset
      ∷ text "|"
      ∷ text "\n"
      ∷ []
unfolding print_cells print_cell
cells_run = refl

-- The frame, the heading and the frame again; an entry without valid levels prints nothing.
lines_run : print_entry_line aarch64 0 0 ≡ text (frame aarch64) ∷ []
unfolding print_entry_line
lines_run = refl

heading_runs : print_entry_line x86_64 7 1 ≡ text (heading x86_64) ∷ []
unfolding print_entry_line
heading_runs = refl

blank_runs : print_entry_t x86_64 blank ≡ []
unfolding print_entry_t print_level
blank_runs = refl
