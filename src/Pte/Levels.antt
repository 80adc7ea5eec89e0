-- ===== src/Pte/Levels.antt =====
-- `ptedit_set_bit` and `ptedit_clear_bit` of ptedit.c at several levels at once, with a user-space
-- implementation on x86.
pub mod Kept
pub mod Steps
pub mod Tests
use native.Mathlib.Nat.{one-le-pow, mod-lt}
use pteditor_riscv.Base.{
  ℕ, ◌+◌, ◌*◌, ◌/◌, ◌%◌, ◌^◌, ◌≤◌, ◌<◌, ◌≡◌, ◌≢◌, refl, sym, ap, subst, ◌∙◌, arith, Bool, true,
  false, not, ◌&&◌, bit_and, bit_or, ◌==◌, if◌then◌else◌, not64, shl64, ◌⊎◌, Bool-cases, inl, inr,
}
use pteditor_riscv.Bits.{
  bit_at, bit_at-set, bit_at-clear, bit_at-field, bit_ext, bit_or-lt, bit_and-lt,
}
use pteditor_riscv.Entry.{
  x86_64, Entry, has_level, valid_mask_pgd, valid_mask_p4d, valid_mask_pud, valid_mask_pmd,
  valid_mask_pte,
}
use pteditor_riscv.Entry.Fields.{table_present, table_pfn}
use pteditor_riscv.Entry.X86
use pteditor_riscv.Paging.{
  init_definition, PagingDefinition, Indices, init_definition, split_address,
}
use pteditor_riscv.Pte.{edit_levels, set_bit, clear_bit}
use pteditor_riscv.Pte.User.{user_backend}
use pteditor_riscv.Walk.Mapped.{IsMapped, full_mask, resolve_mapped}
use pteditor_riscv.Walk.Reached.{resolve_reached}
use pteditor_riscv.Walk.Memory.{IsMemory, slots_of, IsSeparate, updated, IsStable, IsWords}
use pteditor_riscv.Walk.Update.{resolve-update_user}
use pteditor_riscv.Walk.{
  Library, System, is_present, is_huge, table_of, root_of, resolve_user_ext, update_user,
  level_entry,
}
use pteditor_riscv.Pte.Levels.Kept.{IsKeeping, IsFree, set-IsKeeping, clear-IsKeeping}
use pteditor_riscv.Pte.Levels.Steps.{
  definition, x86_library, edited, edit_levels_lem, updated_lem, edited-IsStable, edited-IsWords,
}

module _ {M : Type 0} (sys : System M) (root : ℕ) (usable : ℕ → Type 0)
    (memory : IsMemory sys usable) (m : M) (address pid levels : ℕ) where
  abbrev pub lib : Library
  lib = x86_library root

  abbrev pub found : Entry
  found = resolve_user_ext sys lib m address pid

  module _ (reached : has_level found.valid valid_mask_pte ≡ true) (words : IsWords found)
      (separate : IsSeparate usable definition
        (slots_of lib (root_of sys lib m pid) (split_address definition address) found)) where
    found-valid : found.valid ≡ 29
    unfolding init_definition
    found-valid =
        let (nonzero, mapped) = resolve_reached sys lib m address pid reached in
        ap (λ (z : Entry). z.valid) (resolve_mapped sys lib m address pid found nonzero mapped)

    found-folded : found.p4d ≡ found.pgd
    unfolding init_definition level_entry
    found-folded = (resolve_reached sys lib m address pid reached).1.p4d_read

    resolve-edit :
        (edit : ℕ → ℕ)
        → IsKeeping edit
        → resolve_user_ext sys lib
            (update_user sys lib
              (resolve_user_ext sys lib)
              address
              pid
              (edit_levels definition edit levels found)
              m)
            address
            pid
          ≡ edited edit levels found
    resolve-edit edit keep =
        let mapped = (resolve_reached sys lib m address pid reached).1 in
        let vm = edit_levels definition edit levels found in
        let same = updated_lem edit levels found found-valid found-folded in
        let changed = edited-IsWords edit keep levels found words in
        resolve-update_user sys lib usable memory m address pid vm reached separate
          (subst IsWords (sym (edit_levels_lem edit levels found found-valid)) (record {
            pgd_word = changed.pgd_word;
            p4d_word = words.p4d_word;
            pud_word = changed.pud_word;
            pmd_word = changed.pmd_word;
            pte_word = changed.pte_word;
          }))
          (subst (IsStable lib found) (sym same) (
            edited-IsStable edit keep root levels (sys.deref m) (root_of sys lib m pid)
              (split_address definition address) found mapped words))
        ∙ same

    -- With a user-space implementation on x86, where the walk to a page-table entry is complete,
    -- its slots are usable and disjoint, and its entries are words: after `ptedit_set_bit` or
    -- `ptedit_clear_bit` at any set of levels, of a bit other than the present bit (0), the size
    -- bit (7) and bits 12 to 39 of the page-frame number, a resolve finds the entries of before,
    -- with the bit set or cleared in the entry of each of these levels.
    pub resolve-set_bit-clear_bit :
        (bit : ℕ)
        → IsFree bit
        → (resolve_user_ext sys lib
              (set_bit (user_backend sys lib) definition address pid bit levels m)
              address
              pid
            ≡ edited (λ v. bit_or v (shl64 1 bit)) levels found)
          × (resolve_user_ext sys lib
                (clear_bit (user_backend sys lib) definition address pid bit levels m)
                address
                pid
              ≡ edited (λ v. bit_and v (not64 (shl64 1 bit))) levels found)
    unfolding set_bit clear_bit user_backend
    resolve-set_bit-clear_bit bit free = (
      resolve-edit (λ v. bit_or v (shl64 1 bit)) (set-IsKeeping bit free),
      resolve-edit (λ v. bit_and v (not64 (shl64 1 bit))) (clear-IsKeeping bit free),
    )
