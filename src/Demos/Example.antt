-- ===== src/Demos/Example.antt =====
-- example.c: an address is given the page of another one, and gets its own page back.
pub mod Passes
pub mod Tests
use pteditor_riscv.Base.{ℕ, ◌*◌, Bool, ◌==◌, if◌then◌else◌, u64, List, [], ◌∷◌}
use pteditor_riscv.Entry.{Arch, Entry}
use pteditor_riscv.Pfn.{set_pfn, get_pfn}
use pteditor_riscv.Pte.{Backend, with_pte, pte_get_pfn, pte_set_pfn}

-- What the program takes from the process that it runs in and from the library, beside the two
-- function pointers: `*(volatile char*)p`; byte `i` of the buffer after
-- `ptedit_read_physical_page`; `ptedit_write_physical_page` of a buffer; byte `i` at the address
-- that `ptedit_pmap` returns for a physical one; and `ptedit_full_serializing_barrier`.
pub record Process (M : Type 0) : Type 0 where
  pub load : M → ℕ → ℕ
  pub read_physical_page : M → ℕ → ℕ → ℕ
  pub write_physical_page : ℕ → (ℕ → ℕ) → M → M
  pub pmap_byte : M → ℕ → ℕ → ℕ
  pub full_serializing_barrier : M → M

-- The state at the end, and for each test whether the program prints `OK!`.
pub record Checked (M : Type 0) : Type 0 where
  pub state : M
  pub checks : List Bool

module _ {M : Type 0} (arch : Arch) (backend : Backend M) (process : Process M) (pagesize : ℕ) where
  open backend use {resolve, update}
  open process use {
    load, read_physical_page, write_physical_page, pmap_byte, full_serializing_barrier,
  }

  -- `vm.pte = ptedit_set_pfn(vm.pte, target_pfn)`, and the update of that entry alone.
  pub redirect : ℕ → Entry → ℕ → M → M
  redirect address vm target_pfn m =
      update address 0 (with_pte vm (set_pfn arch vm.pte target_pfn)) m

  -- The page of the target filled with `C`.
  pub overwrite : ℕ → M → M
  overwrite target_pfn m = full_serializing_barrier (write_physical_page target_pfn (λ i. b'C') m)

  -- `main`, from the entries of `address` on.
  pub run_from : ℕ → ℕ → Entry → M → Checked M
  run_from address target vm m =
      let address_pfn = get_pfn arch vm.pte in
      let target_pfn = pte_get_pfn backend arch m target 0 in
      let m1 = redirect address vm target_pfn m in
      let m2 = overwrite target_pfn m1 in
      record {
        state = pte_set_pfn backend arch address 0 address_pfn m2;
        checks =
            (load m address == b'A')
            ∷ (load m1 address == b'B')
            ∷ (read_physical_page m1 address_pfn 0 == b'A')
            ∷ (pmap_byte m1 (u64 (address_pfn * pagesize)) 0 == b'A')
            ∷ (load m2 address == b'C')
            ∷ [];
      }

  -- `main` between `ptedit_init` and `ptedit_cleanup`.
  pub run : ℕ → ℕ → M → Checked M
  unfolding run_from
  run address target m =
      let vm = resolve m address 0 in
      if vm.pgd == 0 then record { state = m; checks = [] } else run_from address target vm m
