-- ===== src/Walk/Memory.antt =====
-- What the update of page tables relies on: physical words, and tables that do not overlap.
use pteditor_riscv.Base.{
  ℕ, ◌+◌, ◌^◌, ◌≤◌, ◌<◌, ◌≡◌, ◌∙◌, arith, Bool, true, false, ◌&&◌, ◌⊎◌, if◌then◌else◌, refl,
}
use pteditor_riscv.Entry.{
  Entry, has_level, valid_mask_pgd, valid_mask_p4d, valid_mask_pud, valid_mask_pmd, valid_mask_pte,
}
use pteditor_riscv.Paging.{PagingDefinition, Indices}
use pteditor_riscv.Walk.{
  Library, System, slot, table_of, is_present, is_huge, write_level, entry_size,
}

-- Two words that share no byte.
abbrev pub Apart : ℕ → ℕ → Type 0
Apart a b = (a + entry_size ≤ b) ⊎ (b + entry_size ≤ a)

pub Apart-sym : (a b : ℕ) → Apart a b → Apart b a
Apart-sym a b h = ground arith

-- What is relied on of the system: a word written at a usable address reads back, and keeps the
-- usable words apart from it and the roots; invalidating the TLB changes neither.
pub record IsMemory {M : Type 0} (sys : System M) (usable : ℕ → Type 0) : Type 0 where
  pub reads_back : (m : M) (a v : ℕ) → usable a → v < 2 ^ 64 → sys.deref (sys.pset a v m) a ≡ v
  pub keeps :
      (m : M) (a v b : ℕ)
      → usable a
      → usable b
      → Apart a b
      → sys.deref (sys.pset a v m) b ≡ sys.deref m b
  pub keeps_root :
      (m : M) (a v pid : ℕ)
      → usable a
      → sys.get_paging_root (sys.pset a v m) pid ≡ sys.get_paging_root m pid
  pub tlb_keeps :
      (m : M) (a b : ℕ) → usable b → sys.deref (sys.invalidate_tlb a m) b ≡ sys.deref m b
  pub tlb_keeps_root :
      (m : M) (a pid : ℕ)
      → sys.get_paging_root (sys.invalidate_tlb a m) pid ≡ sys.get_paging_root m pid

-- The addresses from which the entries of a walk are read.
pub record Slots : Type 0 where
  pub pgd : ℕ
  pub p4d : ℕ
  pub pud : ℕ
  pub pmd : ℕ
  pub pte : ℕ

abbrev pub slots_of : Library → ℕ → Indices → Entry → Slots
slots_of lib root ix e = record {
  pgd = slot root ix.pgdi;
  p4d = slot (table_of lib.arch e.pgd) ix.p4di;
  pud = slot (table_of lib.arch e.p4d) ix.pudi;
  pmd = slot (table_of lib.arch e.pud) ix.pmdi;
  pte = slot (table_of lib.arch e.pmd) ix.pti;
}

-- The slots of the levels that the definition has are usable and share no byte.
pub record IsSeparate (usable : ℕ → Type 0) (d : PagingDefinition) (s : Slots) : Type 0 where
  pub pgd_usable : usable s.pgd
  pub p4d_usable : d.has_p4d ≡ true → usable s.p4d
  pub pud_usable : d.has_pud ≡ true → usable s.pud
  pub pmd_usable : d.has_pmd ≡ true → usable s.pmd
  pub pte_usable : usable s.pte
  pub pgd_p4d : d.has_p4d ≡ true → Apart s.pgd s.p4d
  pub pgd_pud : d.has_pud ≡ true → Apart s.pgd s.pud
  pub pgd_pmd : d.has_pmd ≡ true → Apart s.pgd s.pmd
  pub pgd_pte : Apart s.pgd s.pte
  pub p4d_pud : d.has_p4d ≡ true → d.has_pud ≡ true → Apart s.p4d s.pud
  pub p4d_pmd : d.has_p4d ≡ true → d.has_pmd ≡ true → Apart s.p4d s.pmd
  pub p4d_pte : d.has_p4d ≡ true → Apart s.p4d s.pte
  pub pud_pmd : d.has_pud ≡ true → d.has_pmd ≡ true → Apart s.pud s.pmd
  pub pud_pte : d.has_pud ≡ true → Apart s.pud s.pte
  pub pmd_pte : d.has_pmd ≡ true → Apart s.pmd s.pte

-- The entries that an update by `vm` is to leave where those of `e` stand: a level that `vm`
-- marks takes its entry, and a folded level follows the one above.
unfoldable pub updated : PagingDefinition → Entry → Entry → Entry
updated d e vm =
    let pgd = if has_level vm.valid valid_mask_pgd && d.has_pgd then vm.pgd else e.pgd in
    let p4d =
      if d.has_p4d then (if has_level vm.valid valid_mask_p4d then vm.p4d else e.p4d) else pgd in
    let pud =
      if d.has_pud then (if has_level vm.valid valid_mask_pud then vm.pud else e.pud) else p4d in
    let pmd =
      if d.has_pmd then (if has_level vm.valid valid_mask_pmd then vm.pmd else e.pmd) else pud in
    record e {
      pgd = pgd;
      p4d = p4d;
      pud = pud;
      pmd = pmd;
      pte = if has_level vm.valid valid_mask_pte then vm.pte else e.pte;
    }

-- What an update by `vm` leaves in the slots, `old` and `new` being the words of memory.
pub record IsWritten (d : PagingDefinition) (vm : Entry) (s : Slots) (old new : ℕ → ℕ)
    : Type 0 where
  pub at_pgd :
      new s.pgd ≡ (if has_level vm.valid valid_mask_pgd && d.has_pgd then vm.pgd else old s.pgd)
  pub at_p4d :
      d.has_p4d ≡ true
      → new s.p4d ≡ (if has_level vm.valid valid_mask_p4d then vm.p4d else old s.p4d)
  pub at_pud :
      d.has_pud ≡ true
      → new s.pud ≡ (if has_level vm.valid valid_mask_pud then vm.pud else old s.pud)
  pub at_pmd :
      d.has_pmd ≡ true
      → new s.pmd ≡ (if has_level vm.valid valid_mask_pmd then vm.pmd else old s.pmd)
  pub at_pte : new s.pte ≡ (if has_level vm.valid valid_mask_pte then vm.pte else old s.pte)

-- The description goes over to words that are the same in the slots.
pub IsWritten-same :
    (d : PagingDefinition) (vm : Entry) (s : Slots) (old new new' : ℕ → ℕ)
    → IsWritten d vm s old new
    → (new' s.pgd ≡ new s.pgd)
    → (d.has_p4d ≡ true → new' s.p4d ≡ new s.p4d)
    → (d.has_pud ≡ true → new' s.pud ≡ new s.pud)
    → (d.has_pmd ≡ true → new' s.pmd ≡ new s.pmd)
    → (new' s.pte ≡ new s.pte)
    → IsWritten d vm s old new'
IsWritten-same d vm s old new new' written pgd p4d pud pmd pte = record {
  at_pgd = pgd ∙ written.at_pgd;
  at_p4d = λ h. p4d h ∙ written.at_p4d h;
  at_pud = λ h. pud h ∙ written.at_pud h;
  at_pmd = λ h. pmd h ∙ written.at_pmd h;
  at_pte = pte ∙ written.at_pte;
}

-- The entries that the walk goes through on the way down still lead to the same tables.
pub record IsStable (lib : Library) (e e' : Entry) : Type 0 where
  pub pgd_present : is_present lib.arch e'.pgd ≡ true
  pub p4d_present : is_present lib.arch e'.p4d ≡ true
  pub pud_present : is_present lib.arch e'.pud ≡ true
  pub pmd_present : is_present lib.arch e'.pmd ≡ true
  pub small_page : is_huge lib.arch e'.pmd ≡ false
  pub pgd_table : table_of lib.arch e'.pgd ≡ table_of lib.arch e.pgd
  pub p4d_table : table_of lib.arch e'.p4d ≡ table_of lib.arch e.p4d
  pub pud_table : table_of lib.arch e'.pud ≡ table_of lib.arch e.pud
  pub pmd_table : table_of lib.arch e'.pmd ≡ table_of lib.arch e.pmd

pub record IsWords (vm : Entry) : Type 0 where
  pub pgd_word : vm.pgd < 2 ^ 64
  pub p4d_word : vm.p4d < 2 ^ 64
  pub pud_word : vm.pud < 2 ^ 64
  pub pmd_word : vm.pmd < 2 ^ 64
  pub pte_word : vm.pte < 2 ^ 64

module _ {M : Type 0} (sys : System M) (lib : Library) (usable : ℕ → Type 0)
    (memory : IsMemory sys usable) where
  open sys use {deref, get_paging_root}

  pub write_level_keeps :
      (has : Bool) (mask nv ov a v b : ℕ) (usable_b : usable b) (m : M)
      → (has ≡ true → usable a)
      → (has ≡ true → Apart a b)
      → deref (write_level sys lib has mask nv ov a v m) b ≡ deref m b
  unfolding write_level
  write_level_keeps true mask nv ov a v b usable_b m ok apart =
      ground (arith, memory.keeps m a v b (ok refl) usable_b (apart refl))
  write_level_keeps false mask nv ov a v b usable_b m ok apart = ground arith

  pub write_level_reads :
      (has : Bool) (mask nv ov a v : ℕ) (m : M)
      → usable a
      → v < 2 ^ 64
      → deref (write_level sys lib has mask nv ov a v m) a
        ≡ (if has_level nv mask && has_level ov mask && has then v else deref m a)
  unfolding write_level
  write_level_reads has mask nv ov a v m ok small = ground (arith, memory.reads_back m a v ok small)

  pub write_level_root :
      (has : Bool) (mask nv ov a v pid : ℕ) (m : M)
      → (has ≡ true → usable a)
      → get_paging_root (write_level sys lib has mask nv ov a v m) pid ≡ get_paging_root m pid
  unfolding write_level
  write_level_root true mask nv ov a v pid m ok =
      ground (arith, memory.keeps_root m a v pid (ok refl))
  write_level_root false mask nv ov a v pid m ok = ground arith
