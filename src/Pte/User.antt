-- ===== src/Pte/User.antt =====
-- The user-space pair `ptedit_resolve_user` and `ptedit_update_user` meets the contract of the
-- two function pointers.
use pteditor_riscv.Base.{ap, ℕ, ◌^◌, ◌<◌, ◌≡◌, refl, sym, ◌∙◌, arith, true, subst}
use pteditor_riscv.Entry.{Entry, has_level, valid_mask_pte}
use pteditor_riscv.Paging.{Indices, split_address}
use pteditor_riscv.Walk.{Library, System, root_of, resolve_user_ext, update_user, level_entry}
use pteditor_riscv.Walk.Mapped.{IsMapped}
use pteditor_riscv.Walk.Reached.{resolve_reached}
use pteditor_riscv.Walk.Memory.{IsMemory, slots_of, IsSeparate, updated, IsStable, IsWords}
use pteditor_riscv.Walk.Update.{resolve-update_user}
use pteditor_riscv.Pte.{Backend, with_pte}
use pteditor_riscv.Pte.Laws.{IsRoundTrip}

-- `ptedit_use_implementation` with one of the two user-space implementations.
unfoldable pub user_backend : {M : Type 0} → System M → Library → Backend M
user_backend sys lib = record {
  resolve = resolve_user_ext sys lib;
  update = update_user sys lib (resolve_user_ext sys lib);
}

-- An update of the page-table entry alone changes no entry above it.
updated_pte :
    (lib : Library) (deref : ℕ → ℕ) (root : ℕ) (ix : Indices) (e : Entry) (v : ℕ)
    → IsMapped lib deref root ix e
    → updated lib.definition e (with_pte e v) ≡ record e { pte = v }
unfolding updated level_entry
updated_pte lib deref root ix e v mapped =
    ground (arith, mapped.p4d_read, mapped.pud_read, mapped.pmd_read)

same_path :
    (lib : Library) (deref : ℕ → ℕ) (root : ℕ) (ix : Indices) (e : Entry) (v : ℕ)
    → IsMapped lib deref root ix e
    → IsStable lib e (record e { pte = v })
same_path lib deref root ix e v mapped = record {
  pgd_present = mapped.pgd_present;
  p4d_present = mapped.p4d_present;
  pud_present = mapped.pud_present;
  pmd_present = mapped.pmd_present;
  small_page = mapped.small_page;
  pgd_table = refl;
  p4d_table = refl;
  pud_table = refl;
  pmd_table = refl;
}

module _ {M : Type 0} (sys : System M) (lib : Library) (usable : ℕ → Type 0)
    (memory : IsMemory sys usable) (m : M) (address pid : ℕ) where
  -- Where the walk reaches a page-table entry through usable and disjoint slots, the user-space
  -- implementation keeps the contract of `ptedit_resolve` and `ptedit_update`: an update of the
  -- page-table entry is what the next resolve returns, with every other field unchanged.
  pub user_backend-IsRoundTrip :
      has_level (resolve_user_ext sys lib m address pid).valid valid_mask_pte ≡ true
      → IsWords (resolve_user_ext sys lib m address pid)
      → IsSeparate usable lib.definition (
          slots_of lib
            (root_of sys lib m pid)
            (split_address lib.definition address)
            (resolve_user_ext sys lib m address pid))
      → IsRoundTrip (user_backend sys lib) m address pid
  unfolding user_backend
  user_backend-IsRoundTrip reached words separate = record {
    reached = reached;
    word = words.pte_word;
    updates = λ v small. round_trip v small;
  }
    where
      e : Entry
      e = resolve_user_ext sys lib m address pid

      mapped :
          IsMapped lib
            (sys.deref m)
            (root_of sys lib m pid)
            (split_address lib.definition address)
            e
      mapped = (resolve_reached sys lib m address pid reached).1

      round_trip :
          (v : ℕ)
          → v < 2 ^ 64
          → resolve_user_ext sys lib
              (update_user sys lib (resolve_user_ext sys lib) address pid (with_pte e v) m)
              address
              pid
            ≡ record e { pte = v }
      round_trip v small =
          let same =
            updated_pte lib (sys.deref m) (root_of sys lib m pid)
              (split_address lib.definition address) e v mapped in
          resolve-update_user sys lib usable memory m address pid (with_pte e v) reached separate
            (record {
              pgd_word = words.pgd_word;
              p4d_word = words.p4d_word;
              pud_word = words.pud_word;
              pmd_word = words.pmd_word;
              pte_word = small;
            })
            (subst (IsStable lib e) (sym same) (
              same_path lib (sys.deref m) (root_of sys lib m pid)
                (split_address lib.definition address) e v mapped))
          ∙ same

-- The contract of the own process holds again in a state where a resolve finds another page-table
-- entry, and all else as before.
pub user_backend-IsRoundTrip_again :
    {M : Type 0} (sys : System M) (lib : Library) (usable : ℕ → Type 0)
    (memory : IsMemory sys usable) (m m' : M) (address v : ℕ)
    → let e = resolve_user_ext sys lib m address 0 in
      has_level e.valid valid_mask_pte ≡ true
      → IsWords e
      → IsSeparate usable lib.definition
          (slots_of lib (root_of sys lib m 0) (split_address lib.definition address) e)
      → resolve_user_ext sys lib m' address 0 ≡ record e { pte = v }
      → v < 2 ^ 64
      → IsRoundTrip (user_backend sys lib) m' address 0
unfolding root_of
user_backend-IsRoundTrip_again sys lib usable memory m m' address v reached words separate found
      small =
    let ix = split_address lib.definition address in
    user_backend-IsRoundTrip sys lib usable memory m' address 0
      (ap (λ (z : Entry). has_level z.valid valid_mask_pte) found ∙ reached)
      (subst IsWords (sym found) (record {
        pgd_word = words.pgd_word;
        p4d_word = words.p4d_word;
        pud_word = words.pud_word;
        pmd_word = words.pmd_word;
        pte_word = small;
      }))
      (subst
        (λ (z : Entry). IsSeparate usable lib.definition (slots_of lib (root_of sys lib m 0) ix z))
        (sym found) separate)
