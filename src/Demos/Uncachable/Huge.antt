-- ===== src/Demos/Uncachable/Huge.antt =====
-- The huge page that demos/uncachable.c changes.
use pteditor_riscv.Base.{
  false, ℕ, ◌%◌, ◌^◌, ◌<◌, ◌≡◌, refl, sym, ap, ◌∙◌, arith, none, some, Option, subst, inl, inr,
}
use pteditor_riscv.Entry.{Arch, Entry}
use pteditor_riscv.MemType.{
  page_bit_pat_large, MtsAccess, get_mt, find_first_mt, apply_mt_huge, extract_mt_huge,
}
use pteditor_riscv.Bits.{bit_at}
use pteditor_riscv.MemType.Find.{HasType, find_first_mt_lem}
use pteditor_riscv.MemType.Register.{IsRegister}
use pteditor_riscv.MemType.Select.{selects, extract_mt_huge-apply_mt_huge, apply_mt_huge-lt}
use pteditor_riscv.Pte.{Backend}
use pteditor_riscv.Demos.Uncachable.{mt_uc, Step, HugeSteps, with_pmd, with_huge}

-- What is relied on of resolve and update at a huge page: the PMD is a word, and a resolve finds an
-- update of it that changes no bit but those of the memory type.
pub record IsHugePage {M : Type 0} (arch : Arch) (backend : Backend M) (m : M) (page : ℕ)
    : Type 0 where
  pub word : (backend.resolve m page 0).pmd < 2 ^ 64
  pub updates :
      (v : ℕ)
      → v < 2 ^ 64
      → ((i : ℕ)
          → selects arch page_bit_pat_large i ≡ false
          → bit_at v i ≡ bit_at (backend.resolve m page 0).pmd i)
      → backend.resolve (backend.update page 0 (with_pmd (backend.resolve m page 0) v) m) page 0
        ≡ record (backend.resolve m page 0) { pmd = v }

-- The state with a memory type in the PMD of the huge page.
abbrev pub with_mt_huge : {M : Type 0} → Arch → Backend M → ℕ → M → ℕ → M
with_mt_huge arch backend page m mt =
    backend.update page 0
      (with_pmd (backend.resolve m page 0) (apply_mt_huge arch (backend.resolve m page 0).pmd mt)) m

-- That holds in the state of a step, and with any memory type in the PMD.
pub record IsKept {M : Type 0} (arch : Arch) (backend : Backend M) (m : M) (page : ℕ) : Type 0 where
  pub before : IsHugePage arch backend m page
  pub after : (mt : ℕ) → mt < 8 → IsHugePage arch backend (with_mt_huge arch backend page m mt) page

module _ {M S : Type 0} (arch : Arch) (access : MtsAccess S) (s : S) (backend : Backend M)
    (pt : ℕ) where
  open backend use {resolve, update}

  -- What the steps with the huge page are to reach, if there is one and the steps before were made:
  -- its memory type counts as uncachable, and at the end a resolve finds what it found before.
  abbrev pub IsRestored : Option ℕ → Option (Step M) → Option (HugeSteps M) → Type 0
  IsRestored none second done = done ≡ none
  IsRestored (some page) none done = done ≡ none
  IsRestored (some page) (some second) done =
      (h : HugeSteps M) × (done ≡ some h)
      × HasType arch (get_mt arch access s (extract_mt_huge arch (resolve h.uncached page 0).pmd))
          (mt_uc arch)
      × (resolve h.state page 0 ≡ resolve second.state page 0)

  -- A memory type that was found counts as uncachable.
  abbrev pub IsFound : Option ℕ → Type 0
  IsFound uc =
      (mt : ℕ) → uc ≡ some mt → (mt < 8) × HasType arch (get_mt arch access s mt) (mt_uc arch)

  with_huge-some :
      (mt page : ℕ) (second : Step M)
      → mt < 8
      → HasType arch (get_mt arch access s mt) (mt_uc arch)
      → IsKept arch backend second.state page
      → IsRestored
          (some page)
          (some second)
          (with_huge arch access s backend pt (some mt) (some page) (some second))
  unfolding with_huge
  with_huge-some mt page second small has kept =
      let vm = resolve second.state page 0 in
      let v = apply_mt_huge arch vm.pmd mt in
      let m1 = with_mt_huge arch backend page second.state mt in
      let others =
        (extract_mt_huge-apply_mt_huge arch vm.pmd mt kept.before.word (omega arith)).1 in
      let again : resolve m1 page 0 ≡ record vm { pmd = v } =
        kept.before.updates v (apply_mt_huge-lt arch vm.pmd mt kept.before.word (omega arith))
          others in
      let low : mt % 8 ≡ mt = omega arith in
      let read : extract_mt_huge arch (resolve m1 page 0).pmd ≡ mt =
        ap (λ (z : Entry). extract_mt_huge arch z.pmd) again
        ∙ (extract_mt_huge-apply_mt_huge arch vm.pmd mt kept.before.word (omega arith)).0
        ∙ low in
      let restored : resolve (update page 0 (with_pmd (record vm { pmd = v }) vm.pmd) m1) page 0
          ≡ vm =
        ap (λ z. resolve (update page 0 (with_pmd z vm.pmd) m1) page 0) (sym again)
        ∙ (kept.after mt small).updates vm.pmd kept.before.word
            (λ i out. sym (ap (λ (z : Entry). bit_at z.pmd i) again ∙ others i out))
        ∙ ap (λ (z : Entry). record z { pmd = vm.pmd }) again in
      (
        _,
        refl,
        subst (λ t. HasType arch (get_mt arch access s t) (mt_uc arch)) (sym read) has,
        restored,
      )

  pub with_huge-IsRestored :
      (uc huge_page : Option ℕ) (cached : Option (Step M))
      → (uc ≡ none → cached ≡ none)
      → IsFound uc
      → ((page : ℕ) (second : Step M)
          → huge_page ≡ some page
          → cached ≡ some second
          → IsKept arch backend second.state page)
      → IsRestored huge_page cached (with_huge arch access s backend pt uc huge_page cached)
  unfolding with_huge
  with_huge-IsRestored none none cached ends found kept = refl
  with_huge-IsRestored none (some page) none ends found kept = refl
  with_huge-IsRestored none (some page) (some second) ends found kept =
      let left_out = ends refl in absurd (ground arith)
  with_huge-IsRestored (some mt) none cached ends found kept = refl
  with_huge-IsRestored (some mt) (some page) none ends found kept = refl
  with_huge-IsRestored (some mt) (some page) (some second) ends found kept =
      let (small, has) = found mt refl in
      with_huge-some mt page second small has (kept page second refl refl)

  -- What `ptedit_find_first_mt` finds counts as uncachable.
  pub find_first_mt-IsFound : IsRegister access → IsFound (find_first_mt arch access s (mt_uc arch))
  find_first_mt-IsFound register = elim (find_first_mt_lem arch access register s (mt_uc arch)) [
    | inl (e, missing) ↦ λ mt h. let both : none ≡ some mt = sym e ∙ h in absurd (ground arith)
    | inr (first, e, small, has, lowest) ↦ λ mt h.
        let same : first ≡ mt = cc in
        subst (λ k. (k < 8) × HasType arch (get_mt arch access s k) (mt_uc arch)) same (small, has)
  ]
