-- ===== src/Demos/MemMap/Path.antt =====
-- The page tables that demos/memmap.c searches on x86: when it lists an address.
use pteditor_riscv.Base.{
  ℕ, ◌+◌, ◌*◌, ◌/◌, ◌%◌, ◌^◌, ◌<◌, ◌≡◌, refl, sym, subst, ◌∙◌, arith, Bool, true, false, ◌&&◌, ◌==◌,
  if◌then◌else◌, u64, shl64, ==_iff, ==_of_eq,
}
use pteditor_riscv.Bits.{or_high}
use pteditor_riscv.Entry.{x86_64}
use pteditor_riscv.Paging.{Indices, PagingDefinition, init_definition, split_address}
use pteditor_riscv.Pfn.{get_pfn}
use pteditor_riscv.Walk.{slot}
use pteditor_riscv.Demos.MemMap.{
  Buffer, Output, printed, page, large_page, is_present, is_normal_page, page_address,
}
use pteditor_riscv.Demos.MemMap.Listed.{any_below, any_below_sound, any_below_complete, IsSilent}
use pteditor_riscv.Demos.MemMap.Found.{in_pt, in_pd, in_pdpt, in_pml4}

abbrev pub x86_definition : PagingDefinition
x86_definition = init_definition x86_64 4096

-- The line of the page at `address`.
abbrev pub is_page : ℕ → Output → Bool
is_page address (printed x) = false
is_page address (page b) = b == address
is_page address (large_page b) = false

pub is_page-IsSilent : (address : ℕ) → IsSilent (is_page address)
is_page-IsSilent address x = refl

pub page_address_sum :
    (pml4i pdpti pdi pti : ℕ)
    → pml4i < 256
    → pdpti < 512
    → pdi < 512
    → pti < 512
    → page_address x86_64 pml4i pdpti pdi pti
      ≡ pti * 2 ^ 12 + pdi * 2 ^ 21 + pdpti * 2 ^ 30 + pml4i * 2 ^ 39
unfolding page_address
page_address_sum pml4i pdpti pdi pti h4 h3 h2 h1 =
    let k1 : shl64 pti 12 ≡ pti * 2 ^ 12 = omega arith in
    let k2 : shl64 pdi 21 ≡ pdi * 2 ^ 21 = omega arith in
    let k3 : shl64 pdpti 30 ≡ pdpti * 2 ^ 30 = omega arith in
    let k4 : shl64 pml4i 39 ≡ pml4i * 2 ^ 39 = omega arith in
    rw
      (
        k1,
        k2,
        k3,
        k4,
        or_high 21 (pti * 2 ^ 12) pdi (omega arith),
        or_high 30 (pti * 2 ^ 12 + pdi * 2 ^ 21) pdpti (omega arith),
        or_high 39 (pti * 2 ^ 12 + pdi * 2 ^ 21 + pdpti * 2 ^ 30) pml4i (omega arith),
      )
      refl

abbrev pub path : ℕ → ℕ → ℕ → ℕ → Indices
path pml4i pdpti pdi pti = record { pgdi = pml4i; p4di = 0; pudi = pdpti; pmdi = pdi; pti = pti }

-- An address of the lower half at the start of a page has the line of its own indices.
split-page_address :
    (address pml4i pdpti pdi pti : ℕ)
    → pml4i < 256
    → pdpti < 512
    → pdi < 512
    → pti < 512
    → page_address x86_64 pml4i pdpti pdi pti ≡ address
    → split_address x86_definition address ≡ path pml4i pdpti pdi pti
unfolding split_address init_definition
split-page_address address pml4i pdpti pdi pti h4 h3 h2 h1 e =
    ground (arith, page_address_sum pml4i pdpti pdi pti)

page_address-split :
    (address : ℕ)
    → address < 2 ^ 47
    → address % 4096 ≡ 0
    → let ix = split_address x86_definition address in
      page_address x86_64 ix.pgdi ix.pudi ix.pmdi ix.pti ≡ address
unfolding split_address init_definition
page_address-split address low aligned =
    page_address_sum (address / 2 ^ 39 % 2 ^ 9) (address / 2 ^ 30 % 2 ^ 9)
      (address / 2 ^ 21 % 2 ^ 9) (address / 2 ^ 12 % 2 ^ 9) (omega arith) (omega arith)
      (omega arith) (omega arith)
    ∙ omega arith

module _ (deref : ℕ → ℕ) where
  -- A page of physical memory.
  abbrev pub words : ℕ → Buffer
  words pfn index = deref (slot (u64 (pfn * 4096)) index)

  module _ (pml4 : Buffer) (ix : Indices) where
    -- The entries at the indices, each in the page of the one above.
    abbrev pub pdpt_entry : ℕ
    pdpt_entry = words (get_pfn x86_64 (pml4 ix.pgdi)) ix.pudi

    abbrev pub pd_entry : ℕ
    pd_entry = words (get_pfn x86_64 pdpt_entry) ix.pmdi

    abbrev pub pt_entry : ℕ
    pt_entry = words (get_pfn x86_64 pd_entry) ix.pti

    -- The tests of the program along the way.
    pub record IsListed : Type 0 where
      pub pml4_there : is_present x86_64 (pml4 ix.pgdi) ≡ true
      pub pdpt_there : is_present x86_64 pdpt_entry ≡ true
      pub pd_there : is_present x86_64 pd_entry ≡ true
      pub small : is_normal_page x86_64 pd_entry ≡ true
      pub pt_there : is_present x86_64 pt_entry ≡ true

both : (a b : Bool) → (a && b) ≡ true → (a ≡ true) × (b ≡ true)
both a b h = ground arith

taken : (a b : Bool) → (if a then b else false) ≡ true → (a ≡ true) × (b ≡ true)
taken a b h = ground arith

module _ (deref : ℕ → ℕ) (pml4 : Buffer) (address : ℕ) where
  abbrev pub hits : ℕ → Bool
  hits = in_pml4 (words deref) (is_page address) pml4

  -- What the searches find has the indices of the address.
  pub hits-IsListed :
      any_below 256 hits ≡ true → IsListed deref pml4 (split_address x86_definition address)
  unfolding in_pml4 in_pdpt in_pd in_pt
  hits-IsListed found =
      let (pml4i, h4, in4) = any_below_sound 256 hits found in
      let (there4, more4) = both _ _ in4 in
      let (pdpti, h3, in3) = any_below_sound 512 _ more4 in
      let (there3, more3) = both _ _ in3 in
      let (pdi, h2, in2) = any_below_sound 512 _ more3 in
      let (there2, more2) = both _ _ in2 in
      let (normal, in_table) = taken _ _ more2 in
      let (pti, h1, in1) = any_below_sound 512 _ in_table in
      let (there1, own) = both _ _ in1 in
      subst (IsListed deref pml4)
        (sym
          (split-page_address address pml4i pdpti pdi pti h4 h3 h2 h1 ((==_iff _ address).0 own)))
        (record {
          pml4_there = there4;
          pdpt_there = there3;
          pd_there = there2;
          small = normal;
          pt_there = there1;
        })

  -- The line of an address of the lower half is found at its indices.
  pub IsListed-hits :
      address < 2 ^ 47
      → address % 4096 ≡ 0
      → IsListed deref pml4 (split_address x86_definition address)
      → any_below 256 hits ≡ true
  unfolding in_pml4 in_pdpt in_pd in_pt split_address init_definition
  IsListed-hits low aligned listed =
      let ix = split_address x86_definition address in
      let own = ==_of_eq _ _ (page_address-split address low aligned) in
      any_below_complete 256 hits ix.pgdi (omega arith) (
        rw listed.pml4_there (
          any_below_complete 512 _ ix.pudi (omega arith) (
            rw listed.pdpt_there (
              any_below_complete 512 _ ix.pmdi (omega arith) (
                rw (listed.pd_there, listed.small)
                  (any_below_complete 512 _ ix.pti (omega arith) (rw (listed.pt_there) own)))))))
