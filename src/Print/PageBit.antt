-- ===== src/Print/PageBit.antt =====
-- ptedit.h, the numbers of the bits of an x86 entry, `PTEDIT_PAGE_BIT_*`, that printing uses.
use pteditor_riscv.Base.{ℕ}

abbrev pub present : ℕ
present = 0

abbrev pub rw : ℕ
rw = 1

abbrev pub user : ℕ
user = 2

abbrev pub accessed : ℕ
accessed = 5

abbrev pub dirty : ℕ
dirty = 6

abbrev pub pse : ℕ
pse = 7

abbrev pub global : ℕ
global = 8

abbrev pub softw1 : ℕ
softw1 = 9

abbrev pub softw2 : ℕ
softw2 = 10

abbrev pub softw3 : ℕ
softw3 = 11

abbrev pub nx : ℕ
nx = 63
