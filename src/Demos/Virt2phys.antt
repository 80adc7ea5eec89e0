-- ===== src/Demos/Virt2phys.antt =====
-- demos/virt2phys.c: the physical address of a virtual one, computed from its entries.
pub mod Tests
use pteditor_riscv.Base.{
  ℕ, ◌+◌, ◌*◌, ◌/◌, ◌%◌, ◌^◌, ◌<◌, ◌≡◌, ◌↔◌, arith, true, bit_and, bit_or, ◌||◌, ◌==◌,
  if◌then◌else◌, shl64, refl, Bool-cases, inl, inr, ==_iff, ==_of_eq,
}
use pteditor_riscv.Bits.{or_low, shr-field_mask}
use pteditor_riscv.Entry.{Arch, x86_64, Entry}
use pteditor_riscv.Pfn.{get_pfn}
use pteditor_riscv.Pfn.Laws.{get_pfn_field}
use pteditor_riscv.Pte.{Backend}
use pteditor_riscv.Demos.MemMap.{is_normal_page}

-- `pd` is another name of the member `pmd`.
pub physical_address : Arch → Entry → ℕ → ℕ
physical_address arch entry target =
    if is_normal_page arch entry.pmd
    then bit_or (shl64 (get_pfn arch entry.pte) 12) (bit_and target 0xfff)
    else bit_or (shl64 (get_pfn arch entry.pmd) 21) (bit_and target 0x1fffff)

-- What `main` prints as the physical address, over what `ptedit_resolve` points to.
pub virt2phys : {M : Type 0} → Arch → Backend M → M → ℕ → ℕ
unfolding physical_address
virt2phys arch backend m target = physical_address arch (backend.resolve m target 0) target

-- What the processor translates to on x86: the frame of the page-table entry, or bits 21 to 51 of
-- the PMD for a page of 2 MB, and the offset in the page.
pub translated : Entry → ℕ → ℕ
translated entry target =
    if is_normal_page x86_64 entry.pmd
    then entry.pte / 2 ^ 12 % 2 ^ 40 * 2 ^ 12 + target % 2 ^ 12
    else entry.pmd / 2 ^ 21 % 2 ^ 31 * 2 ^ 21 + target % 2 ^ 21

small_page :
    (pte target : ℕ)
    → pte < 2 ^ 64
    → target < 2 ^ 64
    → bit_or (shl64 (get_pfn x86_64 pte) 12) (bit_and target 0xfff)
      ≡ pte / 2 ^ 12 % 2 ^ 40 * 2 ^ 12 + target % 2 ^ 12
small_page pte target word address =
    let offset : bit_and target 0xfff ≡ target % 2 ^ 12 =
      omega (arith, shr-field_mask 0 12 target address) in
    let frame : shl64 (get_pfn x86_64 pte) 12 ≡ pte / 2 ^ 12 % 2 ^ 40 * 2 ^ 12 =
      omega (arith, get_pfn_field x86_64 pte word) in
    rw (offset, frame)
      (or_low 12 (target % 2 ^ 12) (pte / 2 ^ 12 % 2 ^ 40) (omega arith) (omega arith)
        (omega arith))

large_page :
    (pmd target : ℕ)
    → pmd < 2 ^ 64
    → target < 2 ^ 64
    → bit_or (shl64 (get_pfn x86_64 pmd) 21) (bit_and target 0x1fffff)
      ≡ get_pfn x86_64 pmd * 2 ^ 21 + target % 2 ^ 21
large_page pmd target word address =
    let offset : bit_and target 0x1fffff ≡ target % 2 ^ 21 =
      omega (arith, shr-field_mask 0 21 target address) in
    let frame : shl64 (get_pfn x86_64 pmd) 21 ≡ get_pfn x86_64 pmd * 2 ^ 21 =
      omega (arith, get_pfn_field x86_64 pmd word) in
    rw (offset, frame)
      (or_low 21 (target % 2 ^ 21) (get_pfn x86_64 pmd) (omega arith) (omega arith)
        (omega (arith, get_pfn_field x86_64 pmd word)))

-- On x86, for entries and an address that are words, demos/virt2phys.c prints the physical address
-- that the processor translates to exactly if the page has 4 KB or the frame number of the PMD is
-- 0: for a page of 2 MB it shifts the number of a frame of 4 KB by 21 bits.
pub virt2phys_lem :
    {M : Type 0} (backend : Backend M) (m : M) (target : ℕ)
    → target < 2 ^ 64
    → (backend.resolve m target 0).pmd < 2 ^ 64
    → (backend.resolve m target 0).pte < 2 ^ 64
    → let entry = backend.resolve m target 0 in
      (virt2phys x86_64 backend m target ≡ translated entry target)
      ↔ ((is_normal_page x86_64 entry.pmd || get_pfn x86_64 entry.pmd == 0) ≡ true)
unfolding virt2phys translated
virt2phys_lem backend m target word pmd_word pte_word =
    let entry = backend.resolve m target 0 in
    elim (Bool-cases (is_normal_page x86_64 entry.pmd)) [
      | inl normal ↦ rw normal (λ h. refl, λ h. small_page entry.pte target pte_word word)
      | inr large ↦
          rw (large, large_page entry.pmd target pmd_word word)
            (
              λ e. ==_of_eq _ 0 (omega (arith, e, get_pfn_field x86_64 entry.pmd pmd_word)),
              λ h.
                  let zero_frame = (==_iff (get_pfn x86_64 entry.pmd) 0).0 h in
                  omega (arith, zero_frame, get_pfn_field x86_64 entry.pmd pmd_word),
            )
    ]
