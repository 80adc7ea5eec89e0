-- ===== src/Lib.antt =====
-- PTEditor, a library and a kernel module that read and modify the page tables of any process:
-- the verification library.
--
-- The program. ptedit.c (interface ptedit.h) is the user-space library. Its operations on a
-- page-table entry call two function pointers, ptedit_resolve and ptedit_update, which either ask
-- the kernel module (module/pteditor.c, over ioctl requests with the structs of module/pteditor.h)
-- or walk the page tables themselves over physical memory. Beside them stand page-frame numbers
-- and memory types (PAT on x86, MAIR on ARM). Only the 64-bit builds are modelled; the value `Arch`
-- stands for the compile-time choice between x86-64 and ARMv8.
--
-- Files, by the code that they model:
--   Base         shared names, tests on numbers, 64-bit words with their wrap-around.
--   Bits         the digits of a number, and what the bit operations of C do to each of them.
--   Entry        module/pteditor.h: ptedit_entry_t as the record `Entry`, the valid masks;
--                Entry/X86 and Entry/Aarch64 the bit-field structs of ptedit.h, each as a record
--                with its cast from a word; Entry/Fields the members that the walk reads.
--   Pfn          ptedit.c: ptedit_set_pfn and ptedit_get_pfn as `set_pfn` and `get_pfn`.
--   MemType      ptedit.c: ptedit_set_mt, ptedit_get_mt (MemType/Register), ptedit_find_mt,
--                ptedit_find_first_mt (MemType/Find), ptedit_apply_mt, ptedit_extract_mt and their
--                huge-page forms (MemType/Select). The register is an interface, `MtsAccess`.
--                MemType/Name has ptedit_mt_to_string with its static buffer.
--   Paging       ptedit.c: ptedit_paging_definition, the definitions that ptedit_init chooses, and
--                the indices of a virtual address.
--   Walk         ptedit.c: ptedit_resolve_user_ext, one function for each level of the walk, and
--                ptedit_update_user_ext, one guarded write for each level, over the interface
--                `System` (the deref and pset arguments, the paging root, TLB invalidation).
--                Walk/Mapped describes a complete walk apart from the code (completeness),
--                Walk/Reached has soundness, Walk/Memory what is relied on of memory,
--                Walk/Writes and Walk/Update the update.
--   Pte          ptedit.c: ptedit_set_bit, ptedit_clear_bit and ptedit_pte_set_bit to
--                ptedit_pte_set_pfn, over the pair of function pointers, `Backend`; Pte/Laws over
--                the contract of such a pair, Pte/User fills the contract by the user-space walk,
--                and Pte/Levels is about changing a bit at several levels.
--   Print        ptedit.c: ptedit_print_entry_line, ptedit_print_entry and ptedit_print_entry_t as
--                the calls of printf that they make; Print/Fields about the line of values.
--   Demos        demos/ and example.c, programs that use the library: Demos/MemMap (memmap.c, its
--                four nested loops as `pml4_round` to `pt_round`), Demos/Virt2phys, Demos/Performance
--                (`is_same`, and the two resolvers that it compares), Demos/MapPt (map_pt.c and
--                map_pt_manual.c), Demos/Uncachable (uncachable.c), Demos/Nx (nx.c, the parent process),
--                Demos/ClearBits (clear_bits.c) and Demos/Example (example.c).
--   Kernel       module/pteditor.c, the Linux kernel module, for kernels of 5.8 or later with page
--                tables of five levels: its static variables as the record `State`, the kernel's
--                processes and page-table functions as the records `Tasks` and `Tables`.
--                Kernel/Resolve and Kernel/Update have resolve_vm, update_vm and vm_to_user,
--                Kernel/Tlb the TLB and the PAT, Kernel/Device open and release, Kernel/Ioctl
--                every request of device_ioctl, Kernel/Load pteditor_init and pteditor_exit.
--                Kernel/Valid, Kernel/Quiet and Kernel/Frame are about the entries,
--                Kernel/Translation about complete walks, Kernel/Locks, Kernel/Machine and
--                Kernel/Requests about locking and the requests that return, Kernel/Roundtrip about
--                roots, Kernel/Exclusive about the open device, Kernel/Pat about the PAT, and Kernel/Loaded about loading. A call
--                that locks a memory map is recorded in the state.
--   Request      ptedit.c: the functions that ask the kernel module by ioctl, over the system that
--                a process runs on, the record `Host`, with device_ioctl as the kernel.
--                Request/Calls and Request/Steps are about single requests, Request/Backend about
--                resolve and update together, Request/Root about roots and the full serializing
--                barrier.
--                Request/OnWindows has the functions that ask the Windows driver.
--   Physical     ptedit.c: physical memory through the mapping and through /proc/umem, whole pages,
--                and ptedit_pmap; `system_over` is the `System` of the page walk over these and the
--                kernel module. Physical/Contract and Physical/Mapped have the theorems.
--   Session      ptedit.c: the globals of the library as the record `Session`, ptedit_init,
--                ptedit_cleanup and ptedit_use_implementation; Session/Opened composes them with
--                device_open and device_release of the kernel module, which is loaded and may be
--                opened by the process; Session/OnWindows is the same over the driver.
--   Driver       driver/PTEdit/Driver.c, the Windows driver: the requests of DispatchDeviceCtl,
--                DispatchPassThru, Unload, and DriverEntry with the table of functions that it
--                fills, over the record `Windows`; Driver/Laws about the requests and the table.
--   Tests        the theorems at concrete inputs; Walk/Tests and Pte/Tests run the walk over a small
--                memory.
--
-- Conventions. A size_t is a number below 2^64 where a theorem needs it, and every operation that
-- can wrap is cut back. A function that changes state takes the state and returns the new one.
-- Undefined behaviour of C is a missing result (`none`) where the code can run into it. The walk
-- has a fixed depth, so no definition needs fuel: the loop over the PCIDs counts the 4096 rounds
-- that are left, the loop of ptedit_find_mt runs over its eight rounds and __builtin_ffs over the
-- 32 bits of an int.
--
-- Not modelled: the loader and the tests, and the single header that make generates; of the demos,
-- tlb_test.c, and what they print of their progress; the messages on standard error; the branches
-- for older kernels and for 32-bit x86. The state that a resolve of the kernel implementation, or
-- a read of a root, leaves behind (its local struct and the locks that it took and released) is
-- part of the functions in Request, and dropped where they fill the interfaces `Backend` and
-- `System`, whose members return a value alone.
pub mod Base
pub mod Bits
pub mod Entry
pub mod Pfn
pub mod MemType
pub mod Paging
pub mod Walk
pub mod Pte
pub mod Kernel
pub mod Request
pub mod Physical
pub mod Session
pub mod Print
pub mod Driver
pub mod Tests
pub mod Demos
