-- ===== src/Lib.antt =====
-- TuixOS, a small kernel for 32-bit x86, in C. The development models the parts of it that keep
-- the kernel's own state: memory, processes, locks, devices, and the paths by which interrupts
-- reach them; and the builder of its disk images.
--
-- The parts, the files that model them, and the source:
-- - Base: names and types that every part shares; Base.Outcome has the ways in which a kernel function
--   can end: it returns, panics, hangs, uses memory that it may not, or the model's fuel ran out.
-- - Memory: the flat memory of bytes and 32-bit words behind all pointers. Bits: `|` on numbers.
-- - Str: lib/string.c; Str.Blocks has `memset`, `memcpy`, `memmove`, `memcmp`, and Str.Chars the
--   functions on zero-ended strings, with `strlen` of include/string.h, and Str.Numbers `int_to_str`.
-- - Queue: kernel/sys/queue.c, over the memory. Queue.Run compares sequences of calls with a list.
-- - Mmu: the constants and macros of include/Tuix/mmu.h.
-- - Kalloc: kernel/mm/kalloc.c. The record Kmem is the memory with the head of the free list.
-- - Vm: kernel/mm/vm.c, `walk_pgdir`, `map_pages`, `setup_kvm` and `init_uvm`, which maps the page of the first
--   process. Vm.Entry reads what the
--   processor reads; Vm.Space says that a directory, its tables and the free pages are distinct pages.
-- - Spinlock: kernel/sys/spinlock.c. The record Cpu has the interrupt flag beside `ncli` and `intena`.
-- - Process: kernel/sys/process.c. The record Kernel has the processor, `ptable`, `next_pid` and the
--   allocator. A function that goes through `switch_to` comes in two halves: `yield_enter` and
--   `yield_resume`, `sleep_enter` and `sleep_resume`. `dispatch` is the scheduler at one entry.
--   Process.Scheduler has the loop of `launch_first_proc`, and the steps of scheduler and processes in turn.
-- - Gdt: kernel/sys/gdt.c.
-- - Start: the part of `kernel_main` in init/main.c on memory and the first process, with `init_kvm` of
--   kernel/mm/vm.c and `init_user` of kernel/sys/process.c.
-- - Main: `kernel_main` of init/main.c with all its parts in order, up to the scheduler. Main.Parts puts the parts
--   together, Main.Screen says what `init_show` keeps.
-- - Machine: include/Tuix/trap_frame.h, and the kernel with its ports, ticks and key reports.
-- - Devices: kernel/drivers/pic.c, kernel/drivers/timer.c and kernel/drivers/keyboard.c.
-- - Syscall: kernel/sys/syscall.c and kernel/sys/sysfile.c.
-- - Trap: kernel/trap/idt.c, with include/Tuix/idt_list.h; Trap.Exceptions and Trap.Interrupts have the
--   handlers of kernel/trap/interrupts.c.
-- - Fs: include/Tuix/fs.h and tools/stat.h. Mkfs: tools/mkfs.c, the builder of disk images; the record Image
--   has the bytes of the image file and its length in blocks, with the next free inode and block, and what the
--   arrays of `iappend` hold before they are written to: a read past the end of the file leaves an array as it
--   was. `plain_indirect`, `plain_block` and `plain_put` are the steps of `iappend` when each read succeeds, and
--   Mkfs.Read compares the two. Mkfs.Build is its `main`, `build` up to the bitmap. Mkfs.Slots reads a file
--   through its block numbers, Mkfs.Whole says what all inodes hold.
-- - Console: Console.Serial is kernel/drivers/serial.c, Console.Screen is kernel/drivers/screen.c. A function
--   that prints on the serial line gives the bytes that it sends; `serial_putchar` waits for the line.
-- - Boot: kernel/sys/mulitiboot2.c. The record SystemMemoryInfo is `mem_info`; the linker's addresses are the
--   parameter Sections.
-- - Uvm: `switch_uvm` and `switch_kvm` of kernel/mm/vm.c; the record Loaded is what the processor has loaded.
-- - Sleeplock: kernel/sys/sleeplock.c, on top of `sleep`, so `acquire_sleep` has an entering and a resumed half.
-- - Ide: kernel/drivers/ide.c. The record Ide has the lock, the requests in order, and the disk as
--   the states that its port will give and what it is sent.
-- - Tests: the theorems at concrete inputs.
--
-- How the parts interact: Vm and Process take pages from Kalloc, which keeps them in Memory, and
-- clear them with Str; Process takes locks of Spinlock; Ide takes its own lock and wakes
-- processes; Trap calls Devices and Syscall; Syscall calls `sched`;
-- Start frees memory with Kalloc, maps it with Vm, and makes the first process with Process;
-- Main starts all of them.
--
-- Fuel: `free_range` needs one round more than there are whole pages in its range, `kmem_size`
-- more rounds than there are free pages, `map_pages` more than the pages of its range (2 ^ 20 + 1
-- rounds do for any range), a string function more than the bytes of the string, and the loop of
-- `acquire` one round on a free lock. The loop of `iappend` gets one round more than bytes, and
-- the loop of `serial_print_int` 32, of which 11 do; `int_to_str` has one fuel of 12
-- for its digits and its reversal. The walk over the tags of the boot
-- information needs one round more than there are tags. The theorems that say that a result is
-- given have these bounds as hypotheses; a busy lock uses up any fuel.
--
-- Not modelled: assembly (context switches, loading of control registers, interrupt stubs), the
-- text that the other parts print on the serial line; `release_sleep` and `holding_sleep` have
-- no body in the source; errors of seeking and writing in the image file, and its positions from 4 GB on;
-- wake-ups by interrupts between two rounds of the scheduler, as steps of their own. Of C, addresses inside one
-- object are not wrapped at 32 bits, and `next_pid` does not overflow.
pub mod Base
pub mod Tests
pub mod Memory
pub mod Str
pub mod Queue
pub mod Mmu
pub mod Bits
pub mod Kalloc
pub mod Vm
pub mod Spinlock
pub mod Start
pub mod Process
pub mod Sleeplock
pub mod Main
pub mod Uvm
pub mod Gdt
pub mod Machine
pub mod Devices
pub mod Syscall
pub mod Trap
pub mod Fs
pub mod Mkfs
pub mod Console
pub mod Boot
pub mod Ide
