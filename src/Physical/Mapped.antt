-- ===== src/Physical/Mapped.antt =====
-- `ptedit_pmap` of ptedit.c: any physical range is mapped by whole pages.
use native.Mathlib.Nat.{div-add-mod'}
use pteditor_riscv.Base.{ℕ, ◌+◌, ◌*◌, ◌/◌, ◌%◌, ◌^◌, ◌<◌, ◌≡◌, sym, ap, ◌∙◌, arith, u64}
use pteditor_riscv.Physical.{Files, Umem, pmap}

-- What is relied on of a shared mapping of `/proc/umem` that succeeds, at an offset of whole
-- pages: byte `k` of it is byte `offset + k` of physical memory. `byte` and `physical`
-- read one byte of the process's memory and of physical memory.
abbrev pub IsMmap : {M : Type 0} → Files M → Umem → (M → ℕ → ℕ) → (M → ℕ → ℕ) → M → ℕ → ℕ → Type 0
IsMmap files umem byte physical m length offset =
    (k : ℕ)
    → k < length
    → byte m (files.mmap m umem.ptedit_umem length offset + k) ≡ physical m (offset + k)

word_small : (n : ℕ) → n < 2 ^ 64 → u64 n ≡ n
word_small n small = omega arith

sum_swap : (a b c : ℕ) → a + b + c ≡ a + (b + c)
sum_swap a b c = omega arith

below_sum : (length r k : ℕ) → k < length → r + k < length + r
below_sum length r k h = omega arith

-- Byte `k` behind the pointer that `ptedit_pmap` returns is byte `k` of the physical range, for
-- the whole length that was asked for, where the call of `mmap` succeeds and the length with the
-- offset into the first page is a `size_t`.
pub pmap_lem :
    {M : Type 0} (files : Files M) (umem : Umem) (byte physical : M → ℕ → ℕ) (m : M)
    (address length k : ℕ)
    → length + address % umem.ptedit_pagesize < 2 ^ 64
    → IsMmap files umem byte physical m
        (length + address % umem.ptedit_pagesize)
        (address / umem.ptedit_pagesize * umem.ptedit_pagesize)
    → k < length
    → byte m (pmap files umem m address length + k) ≡ physical m (address + k)
unfolding pmap
pmap_lem files umem byte physical m address length k fits maps h =
    let page = address / umem.ptedit_pagesize * umem.ptedit_pagesize in
    let within = address % umem.ptedit_pagesize in
    ap (λ n. byte m (files.mmap m umem.ptedit_umem n page + within + k))
      (word_small (length + within) fits)
    ∙ ap (byte m) (sum_swap (files.mmap m umem.ptedit_umem (length + within) page) within k)
    ∙ maps (within + k) (below_sum length within k h)
    ∙ ap (physical m)
        (sym (sum_swap page within k) ∙ ap (λ a. a + k) (div-add-mod' address umem.ptedit_pagesize))
