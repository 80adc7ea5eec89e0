-- ===== src/Print/Fields.antt =====
-- The line of values that `ptedit_print_entry_line` prints shows the entry: which bits can be
-- read back from it.
use pteditor_riscv.Base.{
  ℕ, ◌+◌, ◌-◌, ◌*◌, ◌/◌, ◌%◌, ◌^◌, ◌<◌, ◌≡◌, refl, ap, ◌∙◌, arith, ◌==◌, List, [], ◌∷◌, ◌++◌,
  Bool-cases, inl, inr,
}
use pteditor_riscv.Entry.{Arch, x86_64, aarch64}
use pteditor_riscv.Print.{
  Printf, text, number, pointer, color_green, color_reset, Cell, bits, frame_number, print_cell,
  cells, print_cells, print_values,
}
use pteditor_riscv.Print.Joined.{
  digit, join_5_field, join_4_high, join_4_low, join_3_field, join_2_share, join_2_permission,
  join_2_type, frame_field_36, frame_field_40,
}

-- The numbers that stand in printed text, in order.
pub numbers : List Printf → List ℕ
numbers [] = []
numbers (text t ∷ rest) = numbers rest
numbers (number fmt n ∷ rest) = n ∷ numbers rest
numbers (pointer fmt n ∷ rest) = n ∷ numbers rest
numbers (color_green ∷ rest) = numbers rest
numbers (color_reset ∷ rest) = numbers rest

-- The weight of each number of the line in the entry; on x86 the third repeats bit 12.
abbrev pub weights : Arch → List ℕ
weights x86_64 =
    2 ^ 63
    ∷ 2 ^ 12
    ∷ 0
    ∷ 2 ^ 11
    ∷ 2 ^ 10
    ∷ 2 ^ 9
    ∷ 2 ^ 8
    ∷ 2 ^ 7
    ∷ 2 ^ 6
    ∷ 2 ^ 5
    ∷ 2 ^ 4
    ∷ 2 ^ 3
    ∷ 2 ^ 2
    ∷ 2 ^ 1
    ∷ 1
    ∷ []
weights aarch64 =
    2 ^ 59
    ∷ 2 ^ 55
    ∷ 2 ^ 54
    ∷ 2 ^ 53
    ∷ 2 ^ 52
    ∷ 2 ^ 48
    ∷ 2 ^ 12
    ∷ 2 ^ 11
    ∷ 2 ^ 10
    ∷ 2 ^ 8
    ∷ 2 ^ 6
    ∷ 2 ^ 5
    ∷ 2 ^ 2
    ∷ 1
    ∷ []

abbrev pub weigh : List ℕ → List ℕ → ℕ
weigh [] ns = 0
weigh ws [] = 0
weigh (w ∷ ws) (n ∷ ns) = n * w + weigh ws ns

value : Cell → ℕ
value (bits fmt n) = n
value (frame_number fmt n) = n

values : List Cell → List ℕ
unfolding value
values [] = []
values (c ∷ cs) = value c ∷ values cs

numbers-cell :
    (c : Cell) (rest : List Printf) → numbers (print_cell c ++ rest) ≡ value c ∷ numbers rest
unfolding numbers print_cell value
numbers-cell (bits fmt n) rest = elim (Bool-cases (n == 0)) [
  | inl e ↦ rw e refl
  | inr e ↦ rw e refl
]
numbers-cell (frame_number fmt n) rest = refl

numbers-print_cells : (cs : List Cell) → numbers (print_cells cs) ≡ values cs
unfolding numbers print_cells values
numbers-print_cells [] = refl
numbers-print_cells (c ∷ cs) =
    numbers-cell c (print_cells cs) ∙ ap (λ ns. value c ∷ ns) (numbers-print_cells cs)

weigh-aarch64 :
    (entry : ℕ) → entry < 2 ^ 64 → weigh (weights aarch64) (values (cells aarch64 entry)) ≡ entry
unfolding values cells
weigh-aarch64 entry word =
    rw
      (
        join_5_field entry,
        join_4_high entry,
        join_4_low entry,
        join_3_field entry,
        join_2_share entry,
        join_2_permission entry,
        join_2_type entry,
        frame_field_36 entry word,
        digit entry 54 (omega arith),
        digit entry 53 (omega arith),
        digit entry 52 (omega arith),
        digit entry 11 (omega arith),
        digit entry 10 (omega arith),
        digit entry 5 (omega arith),
      )
      (omega arith)

weigh-x86_64 :
    (entry : ℕ)
    → entry < 2 ^ 64
    → weigh (weights x86_64) (values (cells x86_64 entry))
      ≡ entry - entry / 2 ^ 52 % 2 ^ 11 * 2 ^ 52
unfolding values cells
weigh-x86_64 entry word =
    rw
      (
        frame_field_40 entry word,
        digit entry 63 (omega arith),
        digit entry 12 (omega arith),
        digit entry 11 (omega arith),
        digit entry 10 (omega arith),
        digit entry 9 (omega arith),
        digit entry 8 (omega arith),
        digit entry 7 (omega arith),
        digit entry 6 (omega arith),
        digit entry 5 (omega arith),
        digit entry 4 (omega arith),
        digit entry 3 (omega arith),
        digit entry 2 (omega arith),
        digit entry 1 (omega arith),
        digit entry 0 (omega arith),
      )
      (omega arith)

-- What the line does not show: bits 52 to 62 on x86.
abbrev pub hidden : Arch → ℕ → ℕ
hidden x86_64 entry = entry / 2 ^ 52 % 2 ^ 11 * 2 ^ 52
hidden aarch64 entry = 0

-- The numbers in the line of values, each with its weight, make up the entry (a word): all of it
-- on ARM, and all but bits 52 to 62 on x86.
pub weigh-print_values :
    (arch : Arch) (entry : ℕ)
    → entry < 2 ^ 64
    → weigh (weights arch) (numbers (print_values arch entry)) ≡ entry - hidden arch entry
unfolding print_values numbers
weigh-print_values x86_64 entry word =
    ap (weigh (weights x86_64)) (numbers-print_cells (cells x86_64 entry)) ∙ weigh-x86_64 entry word
weigh-print_values aarch64 entry word =
    ap (weigh (weights aarch64)) (numbers-print_cells (cells aarch64 entry))
    ∙ weigh-aarch64 entry word
    ∙ omega arith
