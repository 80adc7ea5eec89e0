-- ===== src/Kernel/Valid.antt =====
-- `resolve_vm` of module/pteditor.c: how the pointers, the valid mask and the returned value
-- belong together on every way out.
use pteditor_riscv.Base.{
  ℕ, ◌-◌, ◌^◌, ◌≤◌, ◌<◌, ◌≡◌, refl, ap, arith, Bool, true, false, leb, ◌==◌, ◌||◌, if◌then◌else◌,
  none, some, is_some, all_below, below-all, same, same_eq, bit_or, ◌∙◌, sym, ◌+◌,
}
use pteditor_riscv.Entry.{
  has_level, valid_mask_pgd, valid_mask_p4d, valid_mask_pud, valid_mask_pmd, valid_mask_pte,
}
use pteditor_riscv.Kernel.{Pointer, Vm, Tasks, Tables, get_mm}
use pteditor_riscv.Kernel.Resolve.{
  Resolution, cleared, failed, mapped_pte, map_pte, offset_pmd, offset_pud, offset_p4d, offset_pgd,
  resolution_in, resolution,
}

-- The levels from the PGD down to number `depth` of five are valid and have a pointer, and no
-- level below them is.
pub record IsDownTo (depth : ℕ) (vm : Vm) : Type 0 where
  pub mask : vm.valid ≡ 2 ^ depth - 1
  pub has_pgd : is_some vm.pgd ≡ leb 1 depth
  pub has_p4d : is_some vm.p4d ≡ leb 2 depth
  pub has_pud : is_some vm.pud ≡ leb 3 depth
  pub has_pmd : is_some vm.pmd ≡ leb 4 depth
  pub has_pte : is_some vm.pte ≡ leb 5 depth

-- Zero is returned where all five levels were found, and one otherwise.
pub record IsReached (r : Resolution) : Type 0 where
  pub depth : ℕ
  pub bounded : depth ≤ 5
  pub levels : IsDownTo depth r.vm
  pub returned : r.code ≡ (if depth == 5 then 0 else 1)

failed-IsReached : (depth : ℕ) (vm : Vm) → depth < 5 → IsDownTo depth vm → IsReached (failed vm)
unfolding failed
failed-IsReached depth vm below h = record {
  depth = depth;
  bounded = omega arith;
  levels = h;
  returned = ground arith;
}

if-IsReached :
    {x y : Resolution} (b : Bool) → IsReached x → IsReached y → IsReached (if b then x else y)
if-IsReached true hx hy = hx
if-IsReached false hx hy = hy

module _ {M : Type 0} (tables : Tables M) (m : M) (addr : ℕ) where
  mapped-IsReached :
      (pmd : ℕ) (vm : Vm) (found : Pointer)
      → IsDownTo 4 vm
      → IsReached (mapped_pte tables m addr pmd vm found)
  unfolding mapped_pte
  mapped-IsReached pmd vm none h = failed-IsReached 4 vm (ground arith) h
  mapped-IsReached pmd vm (some pte) h =
      if-IsReached (tables.pmd_large (tables.load m pmd)) (failed-IsReached 4 vm (ground arith) h)
        (record {
          depth = 5;
          bounded = omega arith;
          levels = record {
            mask = ap (λ v. bit_or v 16) h.mask;
            has_pgd = h.has_pgd;
            has_p4d = h.has_p4d;
            has_pud = h.has_pud;
            has_pmd = h.has_pmd;
            has_pte = refl;
          };
          returned = refl;
        })

  pmd-IsReached : (pud : ℕ) (vm : Vm) → IsDownTo 3 vm → IsReached (offset_pmd tables m addr pud vm)
  unfolding offset_pmd map_pte
  pmd-IsReached pud vm h =
      let pmd = tables.pmd_offset m pud addr in
      if-IsReached (tables.pmd_none (tables.load m pmd) || tables.pud_large (tables.load m pud))
        (failed-IsReached 3 vm (ground arith) h)
        (mapped-IsReached pmd _ (tables.pte_offset_map m pmd addr) (record {
          mask = ap (λ v. bit_or v 8) h.mask;
          has_pgd = h.has_pgd;
          has_p4d = h.has_p4d;
          has_pud = h.has_pud;
          has_pmd = refl;
          has_pte = h.has_pte;
        }))

  pud-IsReached : (p4d : ℕ) (vm : Vm) → IsDownTo 2 vm → IsReached (offset_pud tables m addr p4d vm)
  unfolding offset_pud
  pud-IsReached p4d vm h =
      let pud = tables.pud_offset m p4d addr in
      if-IsReached (tables.pud_none (tables.load m pud)) (failed-IsReached 2 vm (ground arith) h) (
        pmd-IsReached pud _ (record {
          mask = ap (λ v. bit_or v 4) h.mask;
          has_pgd = h.has_pgd;
          has_p4d = h.has_p4d;
          has_pud = refl;
          has_pmd = h.has_pmd;
          has_pte = h.has_pte;
        }))

  p4d-IsReached : (pgd : ℕ) (vm : Vm) → IsDownTo 1 vm → IsReached (offset_p4d tables m addr pgd vm)
  unfolding offset_p4d
  p4d-IsReached pgd vm h =
      let p4d = tables.p4d_offset m pgd addr in
      if-IsReached (tables.p4d_none (tables.load m p4d) || tables.p4d_bad (tables.load m p4d))
        (failed-IsReached 1 vm (ground arith) h)
        (pud-IsReached p4d _ (record {
          mask = ap (λ v. bit_or v 2) h.mask;
          has_pgd = h.has_pgd;
          has_p4d = refl;
          has_pud = h.has_pud;
          has_pmd = h.has_pmd;
          has_pte = h.has_pte;
        }))

  pgd-IsReached : (mm : ℕ) (vm : Vm) → IsDownTo 0 vm → IsReached (offset_pgd tables m addr mm vm)
  unfolding offset_pgd
  pgd-IsReached mm vm h =
      let pgd = tables.pgd_offset m mm addr in
      if-IsReached (tables.pgd_none (tables.load m pgd) || tables.pgd_bad (tables.load m pgd))
        (failed-IsReached 0 vm (ground arith) h)
        (p4d-IsReached pgd _ (record {
          mask = ap (λ v. bit_or v 1) h.mask;
          has_pgd = refl;
          has_p4d = h.has_p4d;
          has_pud = h.has_pud;
          has_pmd = h.has_pmd;
          has_pte = h.has_pte;
        }))

cleared-IsDownTo : (pid : ℕ) → IsDownTo 0 (cleared pid)
unfolding cleared
cleared-IsDownTo pid = record {
  mask = refl;
  has_pgd = refl;
  has_p4d = refl;
  has_pud = refl;
  has_pmd = refl;
  has_pte = refl;
}

found-IsReached :
    {M : Type 0} (tasks : Tasks M) (tables : Tables M) (m : M) (addr pid : ℕ) (mm : Pointer)
    → IsReached (resolution_in tasks tables m addr pid mm)
unfolding resolution_in
found-IsReached tasks tables m addr pid none =
    failed-IsReached 0 _ (ground arith) (cleared-IsDownTo pid)
found-IsReached tasks tables m addr pid (some mm) =
    pgd-IsReached tables m addr mm _ (cleared-IsDownTo pid)

-- Whatever the page tables hold, `resolve_vm` marks the levels from the PGD down to some level
-- as valid and no other, has a pointer for exactly these, and returns 0 if they are all five and
-- 1 otherwise.
pub resolution-IsReached :
    {M : Type 0} (tasks : Tasks M) (tables : Tables M) (m : M) (addr pid : ℕ)
    → IsReached (resolution tasks tables m addr pid)
unfolding resolution
resolution-IsReached tasks tables m addr pid =
    found-IsReached tasks tables m addr pid (get_mm tasks m pid)

-- The mask of the first `depth` levels has level `n` exactly if that is among them.
mask_level :
    (n : ℕ)
    → all_below 6 (λ d. same (leb (n + 1) d) (has_level (2 ^ d - 1) (2 ^ n))) ≡ true
    → (depth : ℕ) → depth ≤ 5
    → leb (n + 1) depth ≡ has_level (2 ^ depth - 1) (2 ^ n)
mask_level n checked depth bounded = same_eq _ _ (
    below-all 6 (λ d. same (leb (n + 1) d) (has_level (2 ^ d - 1) (2 ^ n))) checked depth
      (omega arith))

-- A level of `vm` is valid exactly if there is a pointer to its entry.
pub record IsConsistent (vm : Vm) : Type 0 where
  pub pgd : is_some vm.pgd ≡ has_level vm.valid valid_mask_pgd
  pub p4d : is_some vm.p4d ≡ has_level vm.valid valid_mask_p4d
  pub pud : is_some vm.pud ≡ has_level vm.valid valid_mask_pud
  pub pmd : is_some vm.pmd ≡ has_level vm.valid valid_mask_pmd
  pub pte : is_some vm.pte ≡ has_level vm.valid valid_mask_pte

pub reached-IsConsistent : (r : Resolution) → IsReached r → IsConsistent r.vm
unfolding all_below same
reached-IsConsistent r h =
    let of_mask : (mask : ℕ) → has_level (2 ^ h.depth - 1) mask ≡ has_level r.vm.valid mask =
      λ mask. ap (λ v. has_level v mask) (sym h.levels.mask) in
    record {
      pgd = h.levels.has_pgd ∙ mask_level 0 refl h.depth h.bounded ∙ of_mask 1;
      p4d = h.levels.has_p4d ∙ mask_level 1 refl h.depth h.bounded ∙ of_mask 2;
      pud = h.levels.has_pud ∙ mask_level 2 refl h.depth h.bounded ∙ of_mask 4;
      pmd = h.levels.has_pmd ∙ mask_level 3 refl h.depth h.bounded ∙ of_mask 8;
      pte = h.levels.has_pte ∙ mask_level 4 refl h.depth h.bounded ∙ of_mask 16;
    }
