-- ===== src/Kernel/Tests.antt =====
-- The kernel module on a small machine.
pub mod Machine
use pteditor_riscv.Base.{
  ℕ, ◌+◌, ◌*◌, ◌/◌, ◌%◌, ◌^◌, ◌≡◌, refl, arith, Bool, true, false, ◌==◌, if◌then◌else◌, none, some,
  ◌>>=◌, [], ◌∷◌, ◌-◌, is_some, not,
}
use pteditor_riscv.Entry.{Arch, x86_64, aarch64, Entry, blank}
use pteditor_riscv.Walk.Tests.{address, tables, AnyAddress}
use pteditor_riscv.Kernel.{
  lock_if, Pointer, State, read_lock, read_unlock, write_lock, write_unlock, invalidate_tlb_custom,
  Tasks, Tables, get_mm, mm_of_pid, mm_of_task, or_active,
}
use pteditor_riscv.Kernel.Resolve.{
  resolution, resolution_in, offset_pgd, offset_p4d, offset_pud, offset_pmd, map_pte, mapped_pte,
  failed, cleared,
}
use pteditor_riscv.Kernel.Tlb.{Cpu, PageSize, join_halves}
use pteditor_riscv.Kernel.Update.{update_vm}
use pteditor_riscv.Kernel.Device.{
  code, minus, ebusy, Outcome, open_call, release_call, device_open, run_call, run_calls,
  device_release,
}
use pteditor_riscv.Kernel.Ioctl.{
  handle_update, handle_lock, Page, Paging, User, vm_resolve, vm_update, vm_lock, set_root,
  get_root, device_ioctl,
}
use pteditor_riscv.Kernel.Quiet.{IsQuiet}
use pteditor_riscv.Kernel.Frame.{IsSetter, IsStore, entry_after, update_vm-load}
use pteditor_riscv.Kernel.Valid.{IsReached, resolution-IsReached}
use pteditor_riscv.Kernel.Locks.{IsBalanced, free, replay}
use pteditor_riscv.Kernel.Requests.{Ends, device_ioctl-IsBalanced, vm_lock_blocks}
use pteditor_riscv.Kernel.Roundtrip.{IsRootStore, get_root-set_root}
use pteditor_riscv.Kernel.Exclusive.{last_opens, device_open-run_calls}
use pteditor_riscv.Kernel.Pat.{join_halves_lem}
use pteditor_riscv.Kernel.Load.{
  Boot, pteditor_init, pteditor_exit, load_kallsyms, load_registered, load_flush, load_end, refused,
  create_umem, page_size, unloaded,
}
use pteditor_riscv.Kernel.Loaded.{has_symbols, pteditor_init-pteditor_exit}
use pteditor_riscv.Kernel.Tests.Machine.{
  Board, tasks, tables_of_words, cpu, user, change, machine, loaded, pages, words-IsStore,
  cpu-IsQuiet, machine-IsRootStore,
}

update_vm-load_example :
    tables_of_words.load
      (update_vm x86_64 pages cpu tasks tables_of_words change true loaded).machine
      0x4020
    ≡ entry_after (resolution tasks tables_of_words machine address 7).vm change 0x4020 0x5067
update_vm-load_example =
    update_vm-load x86_64 pages cpu tasks tables_of_words AnyAddress words-IsStore cpu-IsQuiet
      change true loaded 0x4020 tt

resolution-IsReached_example : IsReached (resolution tasks tables_of_words machine address 7)
resolution-IsReached_example = resolution-IsReached tasks tables_of_words machine address 7

-- The mapped address is resolved down to its page-table entry; an unknown process is not.
resolution_runs : (resolution tasks tables_of_words machine address 7).vm.valid ≡ 31
unfolding resolution get_mm resolution_in offset_pgd offset_p4d offset_pud offset_pmd map_pte
    mapped_pte mm_of_pid mm_of_task or_active cleared
resolution_runs = refl

abbrev updated_state : State Board
updated_state = update_vm x86_64 pages cpu tasks tables_of_words change true loaded

device_ioctl-IsBalanced_example :
    Ends loaded (device_ioctl x86_64 pages cpu tasks tables_of_words user vm_update 0 loaded)
device_ioctl-IsBalanced_example =
    device_ioctl-IsBalanced x86_64 pages cpu tasks tables_of_words user loaded vm_update 0 refl

vm_lock_blocks_example : replay 100 free (write_lock 100 ∷ read_lock 100 ∷ []) ≡ none
unfolding device_ioctl handle_lock lock_if replay
vm_lock_blocks_example =
    vm_lock_blocks x86_64 pages cpu tasks tables_of_words user loaded 0 100
      (record {
        state = record loaded { locks = write_lock 100 ∷ read_lock 100 ∷ []; mm_is_locked = true };
        returned = code 0;
      })
      refl refl refl refl

get_root-set_root_example :
    (device_ioctl x86_64 pages cpu tasks tables_of_words user set_root 0 loaded >>= λ o.
    device_ioctl x86_64 pages cpu tasks tables_of_words user get_root 0 o.state >>= λ o'.
    some (user.get_paging o'.state.machine 0))
    ≡ some (record { pid = 7; root = 0x9000 })
unfolding get_mm mm_of_pid mm_of_task or_active
get_root-set_root_example =
    get_root-set_root x86_64 pages cpu tasks tables_of_words user machine-IsRootStore 0 100 loaded
      refl (omega arith)

device_open-run_calls_example :
    device_open (run_calls (open_call ∷ release_call ∷ open_call ∷ []) loaded) ≡ record {
      state = run_calls (open_call ∷ release_call ∷ open_call ∷ []) loaded;
      returned = minus ebusy;
    }
unfolding last_opens
device_open-run_calls_example =
    device_open-run_calls (open_call ∷ release_call ∷ open_call ∷ []) loaded

-- The default of the register is passed on; with bit 31 set, its upper half is lost.
join_halves_lem_example : join_halves 0x0007040680070406 ≡ 0xffffffff80070406
join_halves_lem_example = join_halves_lem 0x0007040680070406 (omega arith)

-- A kernel without `flush_tlb_mm_range`.
abbrev incomplete : Boot
incomplete = record {
  kallsyms_lookup_name = some 1;
  misc_register = 0;
  lookup = λ symbol. none;
  has_invpcid_single = true;
  kretprobe_registers = true;
  tcr_el1 = 2 ^ 14;
}

pteditor_init-pteditor_exit_example :
    ((pteditor_init incomplete x86_64).state.device ≡ true)
    × ((pteditor_init incomplete x86_64).returned ≡ minus 6)
    × ((pteditor_init incomplete x86_64).state.size.real_page_size
        ≡ 2 ^ (pteditor_init incomplete x86_64).state.size.real_page_shift)
    × ((pteditor_exit (pteditor_init incomplete x86_64).state).device ≡ false)
    × ((pteditor_exit (pteditor_init incomplete x86_64).state).probe ≡ false)
    × ((pteditor_exit (pteditor_init incomplete x86_64).state).umem ≡ false)
unfolding pteditor_init load_kallsyms load_registered load_flush refused has_symbols
pteditor_init-pteditor_exit_example = pteditor_init-pteditor_exit incomplete x86_64
