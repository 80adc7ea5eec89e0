-- ===== src/Kernel/Tests/Machine.antt =====
-- A small machine that the kernel module runs on: its page tables are those of the tests of the
-- walk, and a process has buffers for entries and for roots.
use pteditor_riscv.Base.{
  ℕ, ◌+◌, ◌*◌, ◌/◌, ◌%◌, ◌^◌, refl, arith, false, ◌==◌, if◌then◌else◌, none, some, [], ◌-◌, ap,
  ==_of_eq,
}
use pteditor_riscv.Entry.{Entry, blank}
use pteditor_riscv.Walk.Tests.{address, tables, AnyAddress}
use pteditor_riscv.Kernel.{
  Pointer, State, invalidate_tlb_custom, Tasks, Tables, get_mm, mm_of_pid, mm_of_task,
}
use pteditor_riscv.Kernel.Tlb.{Cpu, PageSize}
use pteditor_riscv.Kernel.Ioctl.{Paging, User}
use pteditor_riscv.Kernel.Quiet.{IsQuiet}
use pteditor_riscv.Kernel.Frame.{SameWords, IsSetter, IsStore}
use pteditor_riscv.Kernel.Roundtrip.{IsRootStore}

-- Words, the PGD of each memory map, and the buffers of the process.
pub record Board : Type 0 where
  pub words : ℕ → ℕ
  pub pgd : ℕ → ℕ
  pub entries : ℕ → Entry
  pub pagings : ℕ → Paging

abbrev pub tasks : Tasks Board
tasks = record {
  current = λ m. 1;
  find_vpid = λ m pid. if pid == 7 then some 7 else none;
  pid_task = λ m vpid. some vpid;
  mm = λ m task. some 100;
  active_mm = λ m task. some 100;
}

-- The entry at `index` of the table that the entry at `p` refers to.
abbrev pub below : Board → ℕ → ℕ → ℕ
below m p index = m.words p / 4096 * 4096 + index % 512 * 8

abbrev pub store_word : Pointer → ℕ → Board → Board
store_word none v m = m
store_word (some p) v m = record m { words = λ q. if p == q then v else m.words q }

abbrev pub tables_of_words : Tables Board
tables_of_words = record {
  load = λ m p. m.words p;
  pgd_offset = λ m mm addr. m.pgd mm + addr / 2 ^ 39 % 512 * 8;
  p4d_offset = λ m p addr. p;
  pud_offset = λ m p addr. below m p (addr / 2 ^ 30);
  pmd_offset = λ m p addr. below m p (addr / 2 ^ 21);
  pte_offset_map = λ m p addr. some (below m p (addr / 2 ^ 12));
  pgd_none = λ v. v % 2 == 0;
  pgd_bad = λ v. false;
  p4d_none = λ v. v % 2 == 0;
  p4d_bad = λ v. false;
  pud_none = λ v. v % 2 == 0;
  pud_large = λ v. v / 128 % 2 == 1;
  pmd_none = λ v. v % 2 == 0;
  pmd_large = λ v. v / 128 % 2 == 1;
  set_pgd = store_word;
  set_p4d = store_word;
  set_pud = store_word;
  set_pmd = store_word;
  set_pte = store_word;
}

abbrev pub cpu : Cpu Board
cpu = record {
  on_each_cpu = λ f m. f m;
  has_invpcid_single = false;
  invpcid_flush_one = λ pcid addr m. m;
  read_cr4 = λ m. 128;
  native_write_cr4 = λ v m. m;
  local_irq_save = λ m. m;
  local_irq_restore = λ saved m. m;
  barrier = λ m. m;
  current_pid = λ m. 7;
  flush_tlb_mm_range = λ mm a b shift freed m. m;
  find_vma = λ m mm addr. none;
  vm_start = λ m vma. 0;
  flush_tlb_page = λ vma addr m. m;
  rdmsr = λ m r. 0x0007040600070406;
  wrmsr = λ r low high m. m;
  read_mair_el1 = λ m. 0;
  write_mair_el1 = λ v m. m;
}

abbrev pub user : User Board
user = record {
  get_entry = λ m a. m.entries a;
  put_entry = λ a e m. record m { entries = λ b. if a == b then e else m.entries b };
  get_page = λ m a. record { pfn = 0; buffer = 0 };
  get_paging = λ m a. m.pagings a;
  put_paging = λ a v m. record m { pagings = λ b. if a == b then v else m.pagings b };
  put_word = λ a v m. m;
  copy_to_user = λ a b n m. m;
  copy_from_user = λ a b n m. m;
  phys_to_virt = λ r. r + 4096;
  virt_to_phys = λ v. v - 4096;
  mm_pgd = λ m mm. m.pgd mm;
  set_mm_pgd = λ mm p m. record m { pgd = λ other. if mm == other then p else m.pgd other };
  read_ttbr0_el1 = λ m. 0;
}

-- A request for the page-table entry of a mapped address.
abbrev pub change : Entry
change = record blank { pid = 7; vaddr = address; pte = 0x5065; valid = 16 }

abbrev pub machine : Board
machine = record {
  words = tables;
  pgd = λ mm. 0x1000;
  entries = λ a. change;
  pagings = λ a. record { pid = 7; root = 0x9000 };
}

abbrev pub loaded : State Board
loaded = record {
  machine = machine;
  locks = [];
  device_busy = false;
  mm_is_locked = false;
  invalidate_tlb = invalidate_tlb_custom;
}

abbrev pub pages : PageSize
pages = record { real_page_size = 4096; real_page_shift = 12 }

pub word-IsSetter : IsSetter tables_of_words.load AnyAddress store_word
word-IsSetter = record { writes = λ m p v. ground arith; keeps = λ m p v q w h. ground arith }

pub words-IsStore : IsStore tables_of_words AnyAddress
words-IsStore = record {
  pgd = word-IsSetter;
  p4d = word-IsSetter;
  pud = word-IsSetter;
  pmd = word-IsSetter;
  pte = word-IsSetter;
}

pub cpu-IsQuiet : IsQuiet (SameWords tables_of_words.load) cpu
cpu-IsQuiet = record {
  each_cpu = λ f h m. h m;
  invpcid = λ pcid addr m q. refl;
  write_cr4 = λ v m q. refl;
  irq_save = λ m q. refl;
  irq_restore = λ saved m q. refl;
  barrier = λ m q. refl;
  flush_range = λ mm a b shift freed m q. refl;
  flush_page = λ vma addr m q. refl;
}

pub machine-IsRootStore : IsRootStore tasks user
unfolding get_mm mm_of_pid mm_of_task
machine-IsRootStore = record {
  pgd_set = λ mm p m. ground arith;
  tasks_kept = λ mm p m pid. refl;
  buffer_kept = λ mm p m a. refl;
  buffer_set = λ a v m. ap (λ b. if b then v else m.pagings a) (==_of_eq a a refl);
  virt_of = λ r. omega arith;
}
