-- ===== src/Kernel/Translation.antt =====
-- A complete walk of the kernel's page tables, apart from the code, and `resolve_vm` of
-- module/pteditor.c against it.
use pteditor_riscv.Base.{ℕ, ◌≡◌, refl, ap, ◌∙◌, false, ◌||◌, some}
use pteditor_riscv.Kernel.{Vm, Tasks, Tables, get_mm}
use pteditor_riscv.Kernel.Quiet.{IsPreorder}
use pteditor_riscv.Kernel.Resolve.{
  cleared, mapped_pte, map_pte, offset_pmd, offset_pud, offset_p4d, offset_pgd, resolution_in,
  resolution,
}

-- Where the entries of a walk stand.
pub record Pointers : Type 0 where
  pub pgd : ℕ
  pub p4d : ℕ
  pub pud : ℕ
  pub pmd : ℕ
  pub pte : ℕ

-- Each pointer is the one that the kernel finds from the entry above; no entry on the way down is
-- missing or bad, and none maps a huge page.
pub record IsTranslation {M : Type 0} (tables : Tables M) (m : M) (mm addr : ℕ) (p : Pointers)
    : Type 0 where
  pub pgd_at : tables.pgd_offset m mm addr ≡ p.pgd
  pub pgd_there :
      (tables.pgd_none (tables.load m p.pgd) || tables.pgd_bad (tables.load m p.pgd)) ≡ false
  pub p4d_at : tables.p4d_offset m p.pgd addr ≡ p.p4d
  pub p4d_there :
      (tables.p4d_none (tables.load m p.p4d) || tables.p4d_bad (tables.load m p.p4d)) ≡ false
  pub pud_at : tables.pud_offset m p.p4d addr ≡ p.pud
  pub pud_there : tables.pud_none (tables.load m p.pud) ≡ false
  pub pmd_at : tables.pmd_offset m p.pud addr ≡ p.pmd
  pub pmd_there :
      (tables.pmd_none (tables.load m p.pmd) || tables.pud_large (tables.load m p.pud)) ≡ false
  pub pte_at : tables.pte_offset_map m p.pmd addr ≡ some p.pte
  pub pmd_small : tables.pmd_large (tables.load m p.pmd) ≡ false

-- The `vm_t` of a complete walk.
abbrev pub found_vm : ℕ → Pointers → Vm
found_vm pid p = record {
  pid = pid;
  pgd = some p.pgd;
  p4d = some p.p4d;
  pud = some p.pud;
  pmd = some p.pmd;
  pte = some p.pte;
  valid = 31;
}

module _ {M : Type 0} (tasks : Tasks M) (tables : Tables M) (m : M) (mm addr : ℕ) (p : Pointers)
    (walk : IsTranslation tables m mm addr p) where
  walk_found :
      (pid : ℕ)
      → resolution_in tasks tables m addr pid (some mm) ≡ record { vm = found_vm pid p; code = 0 }
  unfolding resolution_in offset_pgd offset_p4d offset_pud offset_pmd map_pte mapped_pte cleared
  walk_found pid =
      rw
        (
          walk.pgd_at, walk.pgd_there, walk.p4d_at, walk.p4d_there, walk.pud_at, walk.pud_there,
          walk.pmd_at, walk.pmd_there, walk.pte_at, walk.pmd_small,
        )
        refl

  -- Where a complete walk exists, `resolve_vm` finds its pointers, marks all five levels and
  -- returns 0.
  pub resolution_found :
      (pid : ℕ)
      → get_mm tasks m pid ≡ some mm
      → resolution tasks tables m addr pid ≡ record { vm = found_vm pid p; code = 0 }
  unfolding resolution
  resolution_found pid map = ap (resolution_in tasks tables m addr pid) map ∙ walk_found pid

-- Two states of the machine in which the kernel sees the same processes and, at the entries of
-- `kept`, the same page tables. What an offset function returns depends on the entry that it is
-- given and on nothing else of the tables.
pub record SameTables {M : Type 0} (tasks : Tasks M) (tables : Tables M) (kept : ℕ → Type 0)
    (m m' : M) : Type 0 where
  pub load_same : (p : ℕ) → kept p → tables.load m' p ≡ tables.load m p
  pub pgd_same : (mm a : ℕ) → tables.pgd_offset m' mm a ≡ tables.pgd_offset m mm a
  pub p4d_same : (p a : ℕ) → kept p → tables.p4d_offset m' p a ≡ tables.p4d_offset m p a
  pub pud_same : (p a : ℕ) → kept p → tables.pud_offset m' p a ≡ tables.pud_offset m p a
  pub pmd_same : (p a : ℕ) → kept p → tables.pmd_offset m' p a ≡ tables.pmd_offset m p a
  pub pte_same : (p a : ℕ) → kept p → tables.pte_offset_map m' p a ≡ tables.pte_offset_map m p a
  pub mm_same : (pid : ℕ) → get_mm tasks m' pid ≡ get_mm tasks m pid

-- All entries are kept.
abbrev pub SameKernel : {M : Type 0} → Tasks M → Tables M → M → M → Type 0
SameKernel tasks tables = SameTables tasks tables (λ p. Unit {0})

pub SameTables-IsPreorder :
    {M : Type 0} (tasks : Tasks M) (tables : Tables M) (kept : ℕ → Type 0)
    → IsPreorder (SameTables tasks tables kept)
SameTables-IsPreorder tasks tables kept = record {
  stays = λ m. record {
    load_same = λ p k. refl;
    pgd_same = λ mm a. refl;
    p4d_same = λ p a k. refl;
    pud_same = λ p a k. refl;
    pmd_same = λ p a k. refl;
    pte_same = λ p a k. refl;
    mm_same = λ pid. refl;
  };
  follows = λ a b c first second. record {
    load_same = λ p k. second.load_same p k ∙ first.load_same p k;
    pgd_same = λ mm v. second.pgd_same mm v ∙ first.pgd_same mm v;
    p4d_same = λ p v k. second.p4d_same p v k ∙ first.p4d_same p v k;
    pud_same = λ p v k. second.pud_same p v k ∙ first.pud_same p v k;
    pmd_same = λ p v k. second.pmd_same p v k ∙ first.pmd_same p v k;
    pte_same = λ p v k. second.pte_same p v k ∙ first.pte_same p v k;
    mm_same = λ pid. second.mm_same pid ∙ first.mm_same pid;
  };
}

-- What keeps all entries keeps those of `kept`.
pub SameKernel-SameTables :
    {M : Type 0} (tasks : Tasks M) (tables : Tables M) (kept : ℕ → Type 0) (m m' : M)
    → SameKernel tasks tables m m'
    → SameTables tasks tables kept m m'
SameKernel-SameTables tasks tables kept m m' same = record {
  load_same = λ p k. same.load_same p tt;
  pgd_same = same.pgd_same;
  p4d_same = λ p a k. same.p4d_same p a tt;
  pud_same = λ p a k. same.pud_same p a tt;
  pmd_same = λ p a k. same.pmd_same p a tt;
  pte_same = λ p a k. same.pte_same p a tt;
  mm_same = same.mm_same;
}

-- A complete walk stays one while its entries above the page-table entry are kept.
pub SameTables-IsTranslation :
    {M : Type 0} (tasks : Tasks M) (tables : Tables M) (kept : ℕ → Type 0) (m m' : M) (mm addr : ℕ)
    (p : Pointers)
    → SameTables tasks tables kept m m'
    → kept p.pgd
    → kept p.p4d
    → kept p.pud
    → kept p.pmd
    → IsTranslation tables m mm addr p
    → IsTranslation tables m' mm addr p
SameTables-IsTranslation tasks tables kept m m' mm addr p same pgd p4d pud pmd walk = record {
  pgd_at = same.pgd_same mm addr ∙ walk.pgd_at;
  pgd_there =
      ap (λ v. tables.pgd_none v || tables.pgd_bad v) (same.load_same p.pgd pgd) ∙ walk.pgd_there;
  p4d_at = same.p4d_same p.pgd addr pgd ∙ walk.p4d_at;
  p4d_there =
      ap (λ v. tables.p4d_none v || tables.p4d_bad v) (same.load_same p.p4d p4d) ∙ walk.p4d_there;
  pud_at = same.pud_same p.p4d addr p4d ∙ walk.pud_at;
  pud_there = ap tables.pud_none (same.load_same p.pud pud) ∙ walk.pud_there;
  pmd_at = same.pmd_same p.pud addr pud ∙ walk.pmd_at;
  pmd_there =
      ap (λ v. tables.pmd_none v || tables.pud_large (tables.load m' p.pud))
        (same.load_same p.pmd pmd)
      ∙ ap (λ v. tables.pmd_none (tables.load m p.pmd) || tables.pud_large v)
          (same.load_same p.pud pud)
      ∙ walk.pmd_there;
  pte_at = same.pte_same p.pmd addr pmd ∙ walk.pte_at;
  pmd_small = ap tables.pmd_large (same.load_same p.pmd pmd) ∙ walk.pmd_small;
}
