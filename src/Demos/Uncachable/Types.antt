-- ===== src/Demos/Uncachable/Types.antt =====
-- The memory type of the page that demos/uncachable.c changes.
use pteditor_riscv.Base.{
  ℕ, ◌%◌, ◌<◌, ◌≡◌, refl, sym, ap, ◌∙◌, arith, inl, inr, none, some, Option, subst,
}
use pteditor_riscv.Entry.{Arch, Entry}
use pteditor_riscv.MemType.{MtsAccess, get_mt, find_first_mt, apply_mt, extract_mt}
use pteditor_riscv.MemType.Find.{HasType, find_first_mt_lem}
use pteditor_riscv.MemType.Register.{IsRegister}
use pteditor_riscv.MemType.Select.{extract_mt-apply_mt, apply_mt-lt}
use pteditor_riscv.Pte.{Backend, with_pte}
use pteditor_riscv.Pte.Laws.{IsRoundTrip}
use pteditor_riscv.Demos.Uncachable.Huge.{
  IsKept, IsRestored, with_huge-IsRestored, find_first_mt-IsFound,
}
use pteditor_riscv.Demos.Uncachable.{
  mt_uc, mt_wb, Step, apply_type, with_type, back_to_cached, uncachable,
}

module _ {M S : Type 0} (arch : Arch) (access : MtsAccess S) (s : S) (backend : Backend M)
    (pt : ℕ) where
  open backend use {resolve, update}

  -- No memory type counts as `type`.
  abbrev pub NoType : ℕ → Type 0
  NoType type = (j : ℕ) → j < 8 → ¬ HasType arch (get_mt arch access s j) type

  -- The memory type that the page-table entry selects.
  abbrev pub type_of : M → ℕ
  type_of m = get_mt arch access s (extract_mt arch (resolve m pt 0).pte)

  module _ (m : M) (contract : IsRoundTrip backend m pt 0) where
    abbrev pub vm : Entry
    vm = resolve m pt 0

    -- The page as it is after the update.
    abbrev pub with_mt : ℕ → M
    with_mt mt = update pt 0 (with_pte vm (apply_mt arch vm.pte mt)) m

    pub resolve-with_mt :
        (mt : ℕ) → mt < 8 → resolve (with_mt mt) pt 0 ≡ record vm { pte = apply_mt arch vm.pte mt }
    resolve-with_mt mt h =
        contract.updates _ (apply_mt-lt arch vm.pte mt contract.word (omega arith))

    pub type_of-with_mt : (mt : ℕ) → mt < 8 → type_of (with_mt mt) ≡ get_mt arch access s mt
    type_of-with_mt mt h =
        let low : mt % 8 ≡ mt = omega arith in
        ap (λ (z : Entry). get_mt arch access s (extract_mt arch z.pte)) (resolve-with_mt mt h)
        ∙ ap (get_mt arch access s)
            ((extract_mt-apply_mt arch vm.pte mt contract.word (omega arith)).0 ∙ low)

  -- What a step is to reach: the page has a memory type that counts as `type`, or the step is not
  -- made since there is none.
  abbrev pub Typed : ℕ → Option (Step M) → Type 0
  Typed type none = NoType type
  Typed type (some step) = HasType arch (type_of step.state) type

  -- A second step is made after a first one only.
  abbrev pub Follows : ℕ → Option (Step M) → Option (Step M) → Type 0
  Follows type none second = second ≡ none
  Follows type (some first) second = Typed type second

  module _ (register : IsRegister access) where
    with_type-Typed :
        (m : M)
        → IsRoundTrip backend m pt 0
        → (type valid : ℕ)
        → Typed type (
            with_type arch access s backend pt
              (find_first_mt arch access s type)
              (record (resolve m pt 0) { valid = valid })
              m)
    unfolding with_type apply_type
    with_type-Typed m contract type valid = elim (find_first_mt_lem arch access register s type) [
      | inl (e, missing) ↦ rw e missing
      | inr (mt, e, small, has, lowest) ↦
          rw e (subst (λ t. HasType arch t type) (sym (type_of-with_mt m contract mt small)) has)
    ]

    -- The two steps with the page of 4 KB.
    two_steps :
        (huge_page : Option ℕ) (m : M) (contract : IsRoundTrip backend m pt 0)
        → ((mt : ℕ) → mt < 8 → IsRoundTrip backend (with_mt m contract mt) pt 0)
        → let steps = uncachable arch access s backend pt huge_page m in
          Typed (mt_uc arch) steps.uncached × Follows (mt_wb arch) steps.uncached steps.cached
    unfolding uncachable back_to_cached with_type apply_type
    two_steps huge_page m contract again =
        elim (find_first_mt_lem arch access register s (mt_uc arch)) [
          | inl (e, missing) ↦ rw e (missing, refl)
          | inr (mt, e, small, has, lowest) ↦ rw e (
            subst (λ t. HasType arch t (mt_uc arch)) (sym (type_of-with_mt m contract mt small))
                has,
            subst
                (λ z. Typed (mt_wb arch) (
                  with_type arch access s backend pt (find_first_mt arch access s (mt_wb arch))
                    (record z { valid = 16 }) (with_mt m contract mt)))
                (resolve-with_mt m contract mt small)
                (with_type-Typed (with_mt m contract mt) (again mt small) (mt_wb arch) 16),
          )
        ]

    left_out :
        (uc : Option ℕ) (entry : Entry) (m : M)
        → uc ≡ none
        → back_to_cached arch access s backend pt (with_type arch access s backend pt uc entry m)
          ≡ none
    unfolding back_to_cached with_type
    left_out uc entry m h = rw h refl

    -- Where the library keeps its contract at the page, before and after an update of its memory
    -- type, and at the huge page if there is one (there for updates that change no bit but those of
    -- the memory type), and `ptedit_get_mts` returns a `size_t`: after the first step of
    -- demos/uncachable.c the page has a memory type that counts as uncachable, and after the second one that counts as
    -- write-back; a step is left out, with all that follows, exactly where no memory type counts as
    -- the one that it looks for. If neither is left out and there is a huge page, then that has a
    -- memory type that counts as uncachable after its first update, and at the end a resolve of it
    -- finds what it found before.
    pub uncachable_lem :
        (huge_page : Option ℕ) (m : M) (contract : IsRoundTrip backend m pt 0)
        → ((mt : ℕ) → mt < 8 → IsRoundTrip backend (with_mt m contract mt) pt 0)
        → ((page : ℕ) (second : Step M)
            → huge_page ≡ some page
            → (uncachable arch access s backend pt huge_page m).cached ≡ some second
            → IsKept arch backend second.state page)
        → let steps = uncachable arch access s backend pt huge_page m in
          Typed (mt_uc arch) steps.uncached
          × Follows (mt_wb arch) steps.uncached steps.cached
          × IsRestored arch access s backend pt huge_page steps.cached steps.huge
    unfolding uncachable
    uncachable_lem huge_page m contract again kept =
        let (first, second) = two_steps huge_page m contract again in
        let uc = find_first_mt arch access s (mt_uc arch) in
        (
          first,
          second,
          with_huge-IsRestored arch access s backend pt uc huge_page _
              (left_out uc (resolve m pt 0) m)
              (find_first_mt-IsFound arch access s backend pt register) kept,
        )
