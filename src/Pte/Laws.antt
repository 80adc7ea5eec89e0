-- ===== src/Pte/Laws.antt =====
-- The operations on a page-table entry, over any pair of resolve and update that fit together.
use pteditor_riscv.Base.{
  ℕ, ◌+◌, ◌^◌, ◌≤◌, ◌<◌, ◌≡◌, sym, ap, ◌∙◌, arith, true, not, bit_and, bit_or, ◌==◌, if◌then◌else◌,
  not64, shl64, ◌⊎◌, ◌/◌, ◌%◌,
}
use pteditor_riscv.Bits.{
  bit_at, bit_at-set, bit_at-clear, test_bit, bit_at_as_field, bit_or-lt, bit_and-lt,
}
use pteditor_riscv.Entry.{Arch, Entry, has_level, valid_mask_pte}
use pteditor_riscv.MemType.{flag}
use pteditor_riscv.Pfn.{pfn_bits, set_pfn, get_pfn}
use pteditor_riscv.Pfn.Laws.{set_pfn-lt, get_pfn-set_pfn}
use pteditor_riscv.Pte.{
  Backend, with_pte, pte_set_bit, pte_clear_bit, pte_get_bit, pte_get_pfn, pte_set_pfn,
}

-- The contract of the two function pointers at one address: its page-table entry resolves to a
-- word, and after an update of that entry alone it resolves to the new word, with all else as
-- before.
pub record IsRoundTrip {M : Type 0} (backend : Backend M) (m : M) (address pid : ℕ) : Type 0 where
  pub reached : has_level (backend.resolve m address pid).valid valid_mask_pte ≡ true
  pub word : (backend.resolve m address pid).pte < 2 ^ 64
  pub updates :
      (v : ℕ)
      → v < 2 ^ 64
      → backend.resolve
          (backend.update address pid (with_pte (backend.resolve m address pid) v) m)
          address
          pid
        ≡ record (backend.resolve m address pid) { pte = v }

module _ {M : Type 0} (backend : Backend M) (m : M) (address pid : ℕ)
    (contract : IsRoundTrip backend m address pid) where
  open backend use {resolve, update}

  abbrev pub vm : Entry
  vm = resolve m address pid

  -- With a valid page-table entry the three writers call `ptedit_update` with the new one.
  enters :
      (v : ℕ)
      → (if not (has_level vm.valid valid_mask_pte)
          then m
          else update address pid (with_pte vm v) m)
        ≡ update address pid (with_pte vm v) m
  enters v = ap (λ b. if not b then m else update address pid (with_pte vm v) m) contract.reached

  get_bit_after :
      (v other : ℕ)
      → v < 2 ^ 64
      → other < 64
      → pte_get_bit backend
          (if not (has_level vm.valid valid_mask_pte)
            then m
            else update address pid (with_pte vm v) m)
          address
          pid
          other
        ≡ bit_at v other
  unfolding pte_get_bit
  get_bit_after v other small h =
      ap (λ x. flag (resolve x address pid).pte other) (enters v)
      ∙ ap (λ (z : Entry). flag z.pte other) (contract.updates v small)
      ∙ test_bit v other h

  get_bit_before :
      (other : ℕ) → other < 64 → pte_get_bit backend m address pid other ≡ bit_at vm.pte other
  unfolding pte_get_bit
  get_bit_before other h = test_bit vm.pte other h

  pub get_bit-set_bit :
      (bit other : ℕ)
      → bit < 64
      → other < 64
      → pte_get_bit backend (pte_set_bit backend address pid bit m) address pid other
        ≡ (if bit == other then 1 else pte_get_bit backend m address pid other)
  unfolding pte_set_bit
  get_bit-set_bit bit other h g = ground (
    arith,
    get_bit_after (bit_or vm.pte (shl64 1 bit)) other
        (bit_or-lt 64 vm.pte (shl64 1 bit) contract.word (omega arith)) g,
    bit_at-set vm.pte bit other h,
    get_bit_before other g,
  )

  pub get_bit-clear_bit :
      (bit other : ℕ)
      → bit < 64
      → other < 64
      → pte_get_bit backend (pte_clear_bit backend address pid bit m) address pid other
        ≡ (if bit == other then 0 else pte_get_bit backend m address pid other)
  unfolding pte_clear_bit
  get_bit-clear_bit bit other h g = ground (
    arith,
    get_bit_after (bit_and vm.pte (not64 (shl64 1 bit))) other
        (bit_and-lt 64 vm.pte (not64 (shl64 1 bit)) contract.word) g,
    bit_at-clear vm.pte bit other contract.word h,
    get_bit_before other g,
  )

  -- A resolve that no update of this entry changes is not changed by `ptedit_pte_clear_bit`.
  pub get_bit-pte_clear_bit_elsewhere :
      (bit a p other : ℕ)
      → ((v : ℕ) → resolve (update address pid (with_pte vm v) m) a p ≡ resolve m a p)
      → pte_get_bit backend (pte_clear_bit backend address pid bit m) a p other
        ≡ pte_get_bit backend m a p other
  unfolding pte_clear_bit pte_get_bit
  get_bit-pte_clear_bit_elsewhere bit a p other kept =
      let v = bit_and vm.pte (not64 (shl64 1 bit)) in
      ap (λ x. flag (resolve x a p).pte other) (enters v)
      ∙ ap (λ (z : Entry). flag z.pte other) (kept v)

  -- What a resolve finds after `ptedit_pte_set_pfn`.
  pub resolve-pte_set_pfn :
      (arch : Arch) (pfn : ℕ)
      → resolve (pte_set_pfn backend arch address pid pfn m) address pid
        ≡ record vm { pte = set_pfn arch vm.pte pfn }
  unfolding pte_set_pfn
  resolve-pte_set_pfn arch pfn =
      let v = set_pfn arch vm.pte pfn in
      ap (λ x. resolve x address pid) (enters v)
      ∙ contract.updates v (set_pfn-lt arch vm.pte pfn contract.word)

  pub pte_get_pfn-set_pfn :
      (arch : Arch) (pfn : ℕ)
      → pfn < 2 ^ pfn_bits arch
      → (pte_get_pfn backend arch (pte_set_pfn backend arch address pid pfn m) address pid ≡ pfn)
        × ((other : ℕ)
            → other < 64
            → (other < 12) ⊎ (12 + pfn_bits arch ≤ other)
            → pte_get_bit backend (pte_set_pfn backend arch address pid pfn m) address pid other
              ≡ pte_get_bit backend m address pid other)
  unfolding pte_set_pfn pte_get_pfn
  pte_get_pfn-set_pfn arch pfn small = (
    ap (λ x. pfn_read (resolve x address pid)) (enters v)
        ∙ ap pfn_read (contract.updates v v_small)
        ∙ ap (λ b. if not b then 0 else get_pfn arch v) contract.reached
        ∙ changed.0,
    λ other h out. get_bit_after v other v_small h ∙ kept other out ∙ sym (get_bit_before other h),
  )
    where
      v : ℕ
      v = set_pfn arch vm.pte pfn

      v_small : v < 2 ^ 64
      v_small = set_pfn-lt arch vm.pte pfn contract.word

      pfn_read : Entry → ℕ
      pfn_read z = if not (has_level z.valid valid_mask_pte) then 0 else get_pfn arch z.pte

      changed :
          (get_pfn arch v ≡ pfn)
          × ((k n : ℕ)
              → (k + n ≤ 12) ⊎ (12 + pfn_bits arch ≤ k)
              → v / 2 ^ k % 2 ^ n ≡ vm.pte / 2 ^ k % 2 ^ n)
      changed = get_pfn-set_pfn arch vm.pte pfn contract.word small

      kept :
          (other : ℕ)
          → (other < 12) ⊎ (12 + pfn_bits arch ≤ other)
          → bit_at v other ≡ bit_at vm.pte other
      kept other out =
          bit_at_as_field v other
          ∙ changed.1 other 1 (ground arith)
          ∙ sym (bit_at_as_field vm.pte other)

  -- Under the contract of resolve and update: after `ptedit_pte_set_bit` (bit below 64) the bit reads
  -- 1, after `ptedit_pte_clear_bit` it reads 0, and every other bit of the entry reads as before;
  -- after `ptedit_pte_set_pfn` with a page-frame number that fits, `ptedit_pte_get_pfn` reads it,
  -- and every bit outside the page-frame number reads as before.
  pub pte_reads_back :
      (bit other : ℕ) (arch : Arch) (pfn : ℕ)
      → bit < 64
      → other < 64
      → pfn < 2 ^ pfn_bits arch
      → (pte_get_bit backend (pte_set_bit backend address pid bit m) address pid other
          ≡ (if bit == other then 1 else pte_get_bit backend m address pid other))
        × (pte_get_bit backend (pte_clear_bit backend address pid bit m) address pid other
            ≡ (if bit == other then 0 else pte_get_bit backend m address pid other))
        × (pte_get_pfn backend arch (pte_set_pfn backend arch address pid pfn m) address pid ≡ pfn)
        × ((k : ℕ)
            → k < 64
            → (k < 12) ⊎ (12 + pfn_bits arch ≤ k)
            → pte_get_bit backend (pte_set_pfn backend arch address pid pfn m) address pid k
              ≡ pte_get_bit backend m address pid k)
  pte_reads_back bit other arch pfn h g small =
      let (frame, kept) = pte_get_pfn-set_pfn arch pfn small in
      (get_bit-set_bit bit other h g, get_bit-clear_bit bit other h g, frame, kept)
