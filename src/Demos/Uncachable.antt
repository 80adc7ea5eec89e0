-- ===== src/Demos/Uncachable.antt =====
-- demos/uncachable.c: a page of 4 KB, and one of 2 MB, are made uncachable, and cachable again.
pub mod Types
pub mod Huge
pub mod Tests
use pteditor_riscv.Base.{ℕ, Option, none, some}
use pteditor_riscv.Entry.{Arch, x86_64, aarch64, Entry, valid_mask_pmd}
use pteditor_riscv.MemType.{MtsAccess, find_first_mt, apply_mt, apply_mt_huge}
use pteditor_riscv.Pte.{Backend, with_pte}

-- `PTEDIT_MT_UC` and `PTEDIT_MT_WB`
abbrev pub mt_uc : Arch → ℕ
mt_uc x86_64 = 0
mt_uc aarch64 = 0x44

abbrev pub mt_wb : Arch → ℕ
mt_wb x86_64 = 6
mt_wb aarch64 = 0xff

-- The state and the variable `entry` after one of the two updates.
pub record Step (M : Type 0) : Type 0 where
  pub state : M
  pub entry : Entry

-- The states after the two updates of the huge page.
pub record HugeSteps (M : Type 0) : Type 0 where
  pub uncached : M
  pub state : M

-- What the steps lead to; `none` where the program ends at `error` before, or for the huge page
-- where there is none.
pub record Steps (M : Type 0) : Type 0 where
  pub uncached : Option (Step M)
  pub cached : Option (Step M)
  pub huge : Option (HugeSteps M)

-- The update of a PMD alone.
abbrev pub with_pmd : Entry → ℕ → Entry
with_pmd entry v = record entry { pmd = v; valid = valid_mask_pmd }

module _ {M S : Type 0} (arch : Arch) (access : MtsAccess S) (s : S) (backend : Backend M)
    (pt : ℕ) where
  -- `entry.pte = ptedit_apply_mt(entry.pte, mt)`, and the update of that entry alone.
  unfoldable pub apply_type : ℕ → Entry → M → Step M
  apply_type mt entry m =
      let changed = with_pte entry (apply_mt arch entry.pte mt) in
      record { state = backend.update pt 0 changed m; entry = changed }

  -- With the result of `ptedit_find_first_mt`, where -1 is `none`.
  unfoldable pub with_type : Option ℕ → Entry → M → Option (Step M)
  with_type none entry m = none
  with_type (some mt) entry m = some (apply_type mt entry m)

  -- The second step, if the first one was made.
  unfoldable pub back_to_cached : Option (Step M) → Option (Step M)
  back_to_cached none = none
  back_to_cached (some first) =
      with_type (find_first_mt arch access s (mt_wb arch)) first.entry first.state

  -- The steps with the huge page, where `mmap` returned one (`none` is `MAP_FAILED`) and the steps
  -- before did not end at `error`.
  unfoldable pub with_huge : Option ℕ → Option ℕ → Option (Step M) → Option (HugeSteps M)
  with_huge (some uc) (some huge_page) (some second) =
      let huge_entry = backend.resolve second.state huge_page 0 in
      let changed = with_pmd huge_entry (apply_mt_huge arch huge_entry.pmd uc) in
      let m1 = backend.update huge_page 0 changed second.state in
      let restored = with_pmd changed huge_entry.pmd in
      some (record { uncached = m1; state = backend.update huge_page 0 restored m1 })
  with_huge (some uc) (some huge_page) none = none
  with_huge (some uc) none second = none
  with_huge none huge_page second = none

  -- `main` from the first `ptedit_resolve` to `munmap`.
  pub uncachable : Option ℕ → M → Steps M
  unfolding back_to_cached with_type apply_type with_huge
  uncachable huge_page m =
      let entry = backend.resolve m pt 0 in
      let uc_mt = find_first_mt arch access s (mt_uc arch) in
      let uncached = with_type uc_mt entry m in
      let cached = back_to_cached uncached in
      record { uncached = uncached; cached = cached; huge = with_huge uc_mt huge_page cached }
