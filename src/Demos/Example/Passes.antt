-- ===== src/Demos/Example/Passes.antt =====
-- What example.c reads at the address, and the page that it gives back at the end.
use pteditor_riscv.Base.{
  ℕ, ◌*◌, ◌^◌, ◌%◌, ◌<◌, ◌≡◌, ◌≢◌, refl, ap, ◌∙◌, u64, [], ◌∷◌, ◌==◌, ==_of_ne,
}
use pteditor_riscv.Entry.{Arch, Entry}
use pteditor_riscv.Pfn.{pfn_bits, set_pfn, get_pfn}
use pteditor_riscv.Pfn.Laws.{get_pfn-set_pfn, set_pfn-lt, set_pfn-get_pfn}
use pteditor_riscv.Pte.{Backend, pte_get_pfn, pte_set_pfn}
use pteditor_riscv.Pte.Laws.{IsRoundTrip, resolve-pte_set_pfn}
use pteditor_riscv.Demos.Example.{Process, redirect, overwrite, run_from, run}

module _ {M : Type 0} (arch : Arch) (backend : Backend M) (process : Process M) (pagesize : ℕ)
    (byte : M → ℕ → ℕ → ℕ) (address target : ℕ) where
  open backend use {resolve}

  -- The processor translates the address by its page-table entry, with `byte m p i` for byte `i` of
  -- page `p` of physical memory.
  abbrev pub IsTranslated : M → Type 0
  IsTranslated s =
      process.load s address ≡ byte s (get_pfn arch (resolve s address 0).pte) (address % pagesize)

  module _ (m : M) where
    abbrev pub vm : Entry
    vm = resolve m address 0

    abbrev pub address_pfn : ℕ
    address_pfn = get_pfn arch vm.pte

    abbrev pub target_pfn : ℕ
    target_pfn = pte_get_pfn backend arch m target 0

    -- The states after the update and after the physical page was written.
    abbrev pub m1 : M
    m1 = redirect arch backend process pagesize address vm target_pfn m

    abbrev pub m2 : M
    m2 = overwrite arch backend process pagesize target_pfn m1

    new_pte : ℕ
    new_pte = set_pfn arch vm.pte target_pfn

    module _ (contract : IsRoundTrip backend m address 0)
        (small : target_pfn < 2 ^ pfn_bits arch) where
      redirected : resolve m1 address 0 ≡ record vm { pte = new_pte }
      unfolding redirect new_pte
      redirected = contract.updates new_pte (set_pfn-lt arch vm.pte target_pfn contract.word)

      new_frame : get_pfn arch new_pte ≡ target_pfn
      unfolding new_pte
      new_frame = (get_pfn-set_pfn arch vm.pte target_pfn contract.word small).0

      loads_target :
          (s : M)
          → resolve s address 0 ≡ record vm { pte = new_pte }
          → IsTranslated s
          → process.load s address ≡ byte s target_pfn (address % pagesize)
      loads_target s e translated =
          translated
          ∙ ap (λ (z : Entry). byte s (get_pfn arch z.pte) (address % pagesize)) e
          ∙ ap (λ p. byte s p (address % pagesize)) new_frame

      restored :
          resolve m2 address 0 ≡ record vm { pte = new_pte }
          → IsRoundTrip backend m2 address 0
          → resolve (pte_set_pfn backend arch address 0 address_pfn m2) address 0 ≡ vm
      unfolding new_pte
      restored kept again =
          resolve-pte_set_pfn backend m2 address 0 again arch address_pfn
          ∙ ap (λ (z : Entry). record z { pte = set_pfn arch z.pte address_pfn }) kept
          ∙ ap (λ v. record vm { pte = v })
              (set_pfn-get_pfn arch vm.pte target_pfn contract.word small)

    -- Where the address is mapped, the library keeps its contract there at the start and after the
    -- physical page was written, that write changes no entry of the address, and the processor
    -- translates by the page-table entry: the first test of example.c reads the page of the
    -- address, the second and the last one, after the update, read the page of the target; and at
    -- the end a resolve finds the entries of the start.
    pub run_lem :
        IsRoundTrip backend m address 0
        → IsRoundTrip backend m2 address 0
        → resolve m2 address 0 ≡ resolve m1 address 0
        → vm.pgd ≢ 0
        → target_pfn < 2 ^ pfn_bits arch
        → IsTranslated m
        → IsTranslated m1
        → IsTranslated m2
        → let done = run arch backend process pagesize address target m in
          let i = address % pagesize in
          (done.checks ≡ (
            (byte m address_pfn i == b'A')
            ∷ (byte m1 target_pfn i == b'B')
            ∷ (process.read_physical_page m1 address_pfn 0 == b'A')
            ∷ (process.pmap_byte m1 (u64 (address_pfn * pagesize)) 0 == b'A')
            ∷ (byte m2 target_pfn i == b'C')
            ∷ []))
          × (resolve done.state address 0 ≡ vm)
    unfolding run run_from
    run_lem contract again kept mapped small first second third =
        let changed = redirected contract small in
        let still = kept ∙ changed in
        let second_read = loads_target contract small m1 changed second in
        let third_read = loads_target contract small m2 still third in
        rw (==_of_ne vm.pgd 0 mapped, first, second_read, third_read)
          (refl, restored contract small still again)
