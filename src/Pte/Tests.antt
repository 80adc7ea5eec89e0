-- ===== src/Pte/Tests.antt =====
-- The operations on entries over the small memory of the page walk.
use pteditor_riscv.Base.{ℕ, ◌+◌, ◌≤◌, ◌<◌, ◌≡◌, refl, sym, subst, arith, true, ◌⊎◌}
use pteditor_riscv.Entry.{x86_64, Entry, has_level, valid_mask_pte}
use pteditor_riscv.Pfn.{pfn_bits}
use pteditor_riscv.Walk.Memory.{IsWords}
use pteditor_riscv.Walk.Tests.{
  ram, AnyAddress, ram-IsMemory, tables, library, address, entries, walk_runs, tables-IsSeparate,
}
use pteditor_riscv.Pte.{pte_set_bit, pte_clear_bit, pte_get_bit, pte_get_pfn, pte_set_pfn}
use pteditor_riscv.Pte.Laws.{IsRoundTrip, pte_reads_back}
use pteditor_riscv.Pte.User.{user_backend, user_backend-IsRoundTrip}

entries-IsWords : IsWords entries
entries-IsWords = omega arith

user_backend-IsRoundTrip_example : IsRoundTrip (user_backend ram library) tables address 0
user_backend-IsRoundTrip_example =
    user_backend-IsRoundTrip ram library AnyAddress ram-IsMemory tables address 0
      (subst (λ (e : Entry). has_level e.valid valid_mask_pte ≡ true) (sym walk_runs) refl)
      (subst IsWords (sym walk_runs) entries-IsWords) tables-IsSeparate

contract : IsRoundTrip (user_backend ram library) tables address 0
contract =
    user_backend-IsRoundTrip ram library AnyAddress ram-IsMemory tables address 0
      (subst (λ (e : Entry). has_level e.valid valid_mask_pte ≡ true) (sym walk_runs) refl)
      (subst IsWords (sym walk_runs) entries-IsWords) tables-IsSeparate

-- Bit 5 of 0x5067 is set, and bit 3 is not.
pte_reads_back_example :
    let backend = user_backend ram library in
    (pte_get_bit backend (pte_set_bit backend address 0 5 tables) address 0 5 ≡ 1)
    × (pte_get_bit backend (pte_clear_bit backend address 0 5 tables) address 0 5 ≡ 0)
    × (pte_get_pfn backend x86_64 (pte_set_pfn backend x86_64 address 0 0x77 tables) address 0
        ≡ 0x77)
    × ((k : ℕ)
        → k < 64
        → (k < 12) ⊎ (12 + pfn_bits x86_64 ≤ k)
        → pte_get_bit backend (pte_set_pfn backend x86_64 address 0 0x77 tables) address 0 k
          ≡ pte_get_bit backend tables address 0 k)
pte_reads_back_example =
    pte_reads_back (user_backend ram library) tables address 0 contract 5 5 x86_64 0x77
      (omega arith) (omega arith) (omega arith)
