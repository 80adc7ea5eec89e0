-- ===== src/Demos/Performance.antt =====
-- demos/performance.c: the comparison of what the kernel's resolver and that of user space return.
pub mod Agrees
pub mod Tests
use Prim.Native.Nat.{bit_xor}
use pteditor_riscv.Base.{ℕ, ◌%◌, ◌^◌, Bool, ◌&&◌, ◌==◌, bit_or, if◌then◌else◌}
use pteditor_riscv.Entry.{
  Entry, has_level, valid_mask_pgd, valid_mask_p4d, valid_mask_pud, valid_mask_pmd, valid_mask_pte,
}

-- `if ((e1->valid & mask) && (e2->valid & mask)) diff |= a ^ b`: the result is stored in an `int`,
-- which keeps 32 bits of the word.
unfoldable pub compare_level : ℕ → ℕ → ℕ → ℕ → ℕ → ℕ → ℕ
compare_level mask valid1 valid2 a b diff =
    if has_level valid1 mask && has_level valid2 mask
    then bit_or diff (bit_xor a b) % 2 ^ 32
    else diff

pub is_same : Entry → Entry → Bool
unfolding compare_level
is_same e1 e2 =
    let diff_pgd = compare_level valid_mask_pgd e1.valid e2.valid e1.pgd e2.pgd 0 in
    let diff_p4d = compare_level valid_mask_p4d e1.valid e2.valid e1.p4d e2.p4d diff_pgd in
    let diff_pud = compare_level valid_mask_pud e1.valid e2.valid e1.pud e2.pud diff_p4d in
    let diff_pmd = compare_level valid_mask_pmd e1.valid e2.valid e1.pmd e2.pmd diff_pud in
    let diff_pte = compare_level valid_mask_pte e1.valid e2.valid e1.pte e2.pte diff_pmd in
    diff_pte == 0
