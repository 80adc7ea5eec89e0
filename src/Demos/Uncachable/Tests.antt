-- ===== src/Demos/Uncachable/Tests.antt =====
-- demos/uncachable.c over the user-space implementation, in the small memory of the page walk with
-- one huge page, and the types of the PAT register after a reset.
use pteditor_riscv.Base.{
  ℕ, ◌+◌, ◌*◌, ◌/◌, ◌%◌, ◌^◌, ◌<◌, refl, arith, true, false, u64, ◌==◌, if◌then◌else◌, none, some,
  ◌≡◌, ap, sym, ◌∙◌, subst, Option,
}
use pteditor_riscv.Bits.{bit_at}
use pteditor_riscv.Entry.{x86_64, Entry, has_level, valid_mask_pte}
use pteditor_riscv.Entry.Fields.{table_present, table_pfn}
use pteditor_riscv.Entry.X86
use pteditor_riscv.MemType.{MtsAccess, find_first_mt, apply_mt, apply_mt_huge, page_bit_pat_large}
use pteditor_riscv.MemType.Register.{IsRegister}
use pteditor_riscv.MemType.Select.{
  selects, apply_mt-lt, apply_mt_huge-lt, extract_mt_huge-apply_mt_huge,
}
use pteditor_riscv.Paging.{init_definition, split_address}
use pteditor_riscv.Pte.{Backend, with_pte}
use pteditor_riscv.Pte.Laws.{IsRoundTrip}
use pteditor_riscv.Pte.User.{user_backend, user_backend-IsRoundTrip, user_backend-IsRoundTrip_again}
use pteditor_riscv.Walk.{
  slot, table_of, is_present, is_huge, level_entry, resolve_pte, resolve_pmd, resolve_pud,
  resolve_p4d, resolve_pgd, root_of, resolve_user_ext, write_level, update_user_ext, update_user,
}
use pteditor_riscv.Walk.Memory.{IsWords, IsSeparate, slots_of}
use pteditor_riscv.Walk.Tests.{
  ram, AnyAddress, ram-IsMemory, tables, library, address, entries, walk_runs, tables-IsSeparate,
}
use pteditor_riscv.Demos.Uncachable.{
  mt_uc, mt_wb, Step, apply_type, with_type, back_to_cached, with_pmd, uncachable,
}
use pteditor_riscv.Demos.Uncachable.Huge.{IsHugePage, IsKept, IsRestored, with_mt_huge}
use pteditor_riscv.Demos.Uncachable.Types.{Typed, Follows, uncachable_lem}

-- Entry 4 of the PMD maps a huge page.
abbrev start : ℕ → ℕ
start a = if a == 0x3020 then 0x20_00e7 else tables a

abbrev huge_page : ℕ
huge_page = 2 ^ 39 + 2 * 2 ^ 30 + 4 * 2 ^ 21

abbrev backend : Backend (ℕ → ℕ)
backend = user_backend ram library

abbrev register : MtsAccess ℕ
register = record { get_mts = λ s. u64 s; set_mts = λ s mts. u64 mts }

register-IsRegister : IsRegister register
register-IsRegister = record { word = λ s. omega arith }

abbrev pat : ℕ
pat = 0x0007_0406_0007_0406

-- A word that maps a huge page.
record IsHugeWord (v : ℕ) : Type 0 where
  present : v % 2 ≡ 1
  size : v / 128 % 2 ≡ 1
  word : v < 2 ^ 64

-- The tables above the page and the huge page.
record IsTable (m : ℕ → ℕ) : Type 0 where
  pgd : m 0x1008 ≡ 0x2001
  pud : m 0x2010 ≡ 0x3001
  pmd : m 0x3018 ≡ 0x4001
  huge : IsHugeWord (m 0x3020)

start-IsTable : IsTable start
start-IsTable = record {
  pgd = refl;
  pud = refl;
  pmd = refl;
  huge = record { present = refl; size = refl; word = omega arith };
}

page_found :
    (m : ℕ → ℕ)
    → IsTable m
    → resolve_user_ext ram library m address 0 ≡ record entries { pte = m 0x4020 }
unfolding resolve_user_ext root_of split_address resolve_pgd resolve_p4d resolve_pud resolve_pmd
    resolve_pte level_entry is_present is_huge table_of slot table_present table_pfn X86.cast_pgd
    init_definition
page_found m t = rw (t.pgd, t.pud, t.pmd) refl

huge_found :
    (m : ℕ → ℕ)
    → IsTable m
    → resolve_user_ext ram library m huge_page 0
      ≡ record entries { vaddr = huge_page; pmd = m 0x3020; pte = 0; valid = 13 }
unfolding resolve_user_ext root_of split_address resolve_pgd resolve_p4d resolve_pud resolve_pmd
    resolve_pte level_entry is_present is_huge table_of slot table_present table_pfn X86.cast_pgd
    init_definition
huge_found m t =
    let present = t.huge.present in let size = t.huge.size in rw (t.pgd, t.pud) (ground arith)

page_updated :
    (m : ℕ → ℕ) (e : Entry) (v : ℕ)
    → IsTable m
    → backend.update address 0 (with_pte e v) m ≡ ram.pset 0x4020 v m
unfolding update_user update_user_ext write_level root_of split_address table_of slot table_pfn
    X86.cast_pgd init_definition user_backend
page_updated m e v t = rw (page_found m t) refl

huge_updated :
    (m : ℕ → ℕ) (e : Entry) (v : ℕ)
    → IsTable m
    → backend.update huge_page 0 (with_pmd e v) m ≡ ram.pset 0x3020 v m
unfolding update_user update_user_ext write_level root_of split_address table_of slot table_pfn
    X86.cast_pgd init_definition user_backend
huge_updated m e v t = rw (huge_found m t) refl

page_written : (m : ℕ → ℕ) (v : ℕ) → IsTable m → IsTable (ram.pset 0x4020 v m)
page_written m v t = record { pgd = t.pgd; pud = t.pud; pmd = t.pmd; huge = t.huge }

huge_written : (m : ℕ → ℕ) (v : ℕ) → IsTable m → IsHugeWord v → IsTable (ram.pset 0x3020 v m)
huge_written m v t huge = record { pgd = t.pgd; pud = t.pud; pmd = t.pmd; huge = huge }

abbrev huge_entry : (ℕ → ℕ) → Entry
huge_entry m = resolve_user_ext ram library m huge_page 0

-- A change of the bits of the memory type leaves a huge page.
other_bits :
    (v w : ℕ)
    → v < 2 ^ 64
    → IsHugeWord w
    → ((i : ℕ) → selects x86_64 page_bit_pat_large i ≡ false → bit_at v i ≡ bit_at w i)
    → IsHugeWord v
unfolding bit_at
other_bits v w small huge same =
    let first : v % 2 ≡ w % 2 = same 0 refl in
    let seventh = same 7 refl in
    record {
      present = first ∙ huge.present;
      size = omega (arith, seventh, huge.size);
      word = small;
    }

start-IsHugePage : (m : ℕ → ℕ) → IsTable m → IsHugePage x86_64 backend m huge_page
unfolding user_backend
start-IsHugePage m t =
    let found = huge_found m t in
    let pmd : (huge_entry m).pmd ≡ m 0x3020 = ap (λ (z : Entry). z.pmd) found in
    record {
      word = subst (λ w. w < 2 ^ 64) (sym pmd) t.huge.word;
      updates = λ v small same.
          ap (λ x. resolve_user_ext ram library x huge_page 0) (huge_updated m (huge_entry m) v t)
          ∙ huge_found (ram.pset 0x3020 v m) (
              huge_written m v t (
                other_bits v (m 0x3020) small t.huge
                  (λ i out. same i out ∙ ap (λ w. bit_at w i) pmd)))
          ∙ ap (λ (z : Entry). record z { pmd = v }) (sym found);
    }

huge-IsTable :
    (m : ℕ → ℕ) (mt : ℕ) → IsTable m → mt < 8 → IsTable (with_mt_huge x86_64 backend huge_page m mt)
unfolding user_backend
huge-IsTable m mt t small =
    let found = huge_found m t in
    let pmd : (huge_entry m).pmd ≡ m 0x3020 = ap (λ (z : Entry). z.pmd) found in
    let word : (huge_entry m).pmd < 2 ^ 64 = subst (λ w. w < 2 ^ 64) (sym pmd) t.huge.word in
    let v = apply_mt_huge x86_64 (huge_entry m).pmd mt in
    subst IsTable (sym (huge_updated m (huge_entry m) v t)) (
      huge_written m v t (
        other_bits v (m 0x3020) (apply_mt_huge-lt x86_64 (huge_entry m).pmd mt word (omega arith))
          t.huge
          (λ i out.
            (extract_mt_huge-apply_mt_huge x86_64 (huge_entry m).pmd mt word (omega arith)).1 i out
            ∙ ap (λ w. bit_at w i) pmd)))

-- The steps with the page of 4 KB leave the tables above.
abbrev After : Option (Step (ℕ → ℕ)) → Type 0
After none = Unit {0}
After (some step) = IsTable step.state

first_step :
    (mt : Option ℕ) (entry : Entry) (m : ℕ → ℕ)
    → IsTable m
    → After (with_type x86_64 register pat backend address mt entry m)
unfolding with_type apply_type
first_step none entry m t = tt
first_step (some mt) entry m t =
    let v = apply_mt x86_64 entry.pte mt in
    subst IsTable (sym (page_updated m entry v t)) (page_written m v t)

second_step :
    (first : Option (Step (ℕ → ℕ)))
    → After first
    → After (back_to_cached x86_64 register pat backend address first)
unfolding back_to_cached
second_step none h = tt
second_step (some first) h =
    first_step (find_first_mt x86_64 register pat (mt_wb x86_64)) first.entry first.state h

start-IsKept :
    (page : ℕ) (second : Step (ℕ → ℕ))
    → some huge_page ≡ some page
    → (uncachable x86_64 register pat backend address (some huge_page) start).cached ≡ some second
    → IsKept x86_64 backend second.state page
unfolding uncachable
start-IsKept page second e h =
    let found = find_first_mt x86_64 register pat (mt_uc x86_64) in
    let kept : IsTable second.state =
      subst After h
        (second_step _ (first_step found (backend.resolve start address 0) start start-IsTable)) in
    let same : huge_page ≡ page = cc in
    subst (IsKept x86_64 backend second.state) same (record {
      before = start-IsHugePage second.state kept;
      after = λ mt small.
          start-IsHugePage (with_mt_huge x86_64 backend huge_page second.state mt)
            (huge-IsTable second.state mt kept small);
    })

same_entries :
    resolve_user_ext ram library start address 0 ≡ resolve_user_ext ram library tables address 0
same_entries = page_found start start-IsTable ∙ sym walk_runs

start_reached : has_level (resolve_user_ext ram library start address 0).valid valid_mask_pte ≡ true
start_reached =
    ap (λ (e : Entry). has_level e.valid valid_mask_pte) (page_found start start-IsTable)

start-IsWords : IsWords (resolve_user_ext ram library start address 0)
start-IsWords = subst IsWords (sym (page_found start start-IsTable)) (omega arith)

start-IsSeparate : IsSeparate AnyAddress library.definition (
    slots_of library
      (root_of ram library start 0)
      (split_address library.definition address)
      (resolve_user_ext ram library start address 0))
unfolding root_of
start-IsSeparate =
    subst
      (λ (e : Entry). IsSeparate AnyAddress library.definition (
        slots_of library (root_of ram library tables 0) (split_address library.definition address)
          e))
      (sym same_entries) tables-IsSeparate

start-IsRoundTrip : IsRoundTrip backend start address 0
start-IsRoundTrip =
    user_backend-IsRoundTrip ram library AnyAddress ram-IsMemory start address 0 start_reached
      start-IsWords start-IsSeparate

again :
    (mt : ℕ)
    → mt < 8
    → IsRoundTrip backend
        (backend.update address 0
          (with_pte
            (backend.resolve start address 0)
            (apply_mt x86_64 (backend.resolve start address 0).pte mt))
          start)
        address
        0
unfolding user_backend
again mt h =
    let v = apply_mt x86_64 (backend.resolve start address 0).pte mt in
    let small = apply_mt-lt x86_64 _ mt start-IsRoundTrip.word (omega arith) in
    user_backend-IsRoundTrip_again ram library AnyAddress ram-IsMemory start _ address v
      start_reached start-IsWords start-IsSeparate (start-IsRoundTrip.updates v small) small

uncachable_lem_example :
    let steps = uncachable x86_64 register pat backend address (some huge_page) start in
    Typed x86_64 register pat backend address (mt_uc x86_64) steps.uncached
    × Follows x86_64 register pat backend address (mt_wb x86_64) steps.uncached steps.cached
    × IsRestored x86_64 register pat backend address (some huge_page) steps.cached steps.huge
uncachable_lem_example =
    uncachable_lem x86_64 register pat backend address register-IsRegister (some huge_page) start
      start-IsRoundTrip again start-IsKept
