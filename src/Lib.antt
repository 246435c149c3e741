-- ===== src/Lib.antt =====
-- JOS: a small x86 kernel with paging, one running environment at a time, system calls and traps,
-- and the C library that the kernel and its user programs share.
--
-- The parts, and the files that model them:
--
-- - Mmu: the address arithmetic and the memory layout (inc/mmu.h, inc/memlayout.h, inc/types.h), with
--   Mmu/Gate for the gate and segment descriptors and the descriptor table `gdt` of kern/env.c.
-- - Errno: the error codes (inc/error.h).
-- - Kernel: the state of kern/pmap.c, its commands, and the reasons to panic.
-- - PageAlloc: boot_alloc, page_init, page_alloc, page_free, page_decref of kern/pmap.c and the
--   conversions of kern/pmap.h.
-- - PageTable: pgdir_walk, page_lookup, page_remove, page_insert, boot_map_region, user_mem_check.
--   PageTable/Region has the ranges that boot_map_region maps, PageTable/Released what the page_decref
--   of many pages gives back.
-- - MemInit: mem_init of kern/pmap.c, the run of the boot allocator, page_init and boot_map_region
--   that makes the kernel's address space. MemInit/Whole has mem_init in its order, from
--   i386_detect_memory, which is in Clock with the clock's memory (kern/kclock.c). MemInit/Check has
--   check_kern_pgdir, the kernel's own test of that space, and MemInit/Check/Listed check_page_free_list.
-- - Env: environments (kern/env.c): envid2env, env_init, env_setup_vm, env_alloc, region_alloc,
--   env_free, env_destroy, env_run, and user_mem_assert of kern/pmap.c. Env/Load has load_icode and
--   env_create, Env/Region/Backed and Env/Region/Covered the pages of region_alloc, Env/Free what env_free
--   gives back.
-- - Syscall: the system calls (kern/syscall.c). Trap: the interrupt table, and the way of a trap
--   through the kernel (kern/trap.c). Trap/Traces and Trap/Isolation let user code and traps take
--   turns.
-- - KernelStart: i386_init (kern/init.c). BootLoader: bootmain and its reading of the disk
--   (boot/main.c). Elf: the headers of an image (inc/elf.h). Ports: the port instructions (inc/x86.h).
-- - CString: the string routines (lib/string.c). Format: numbers, the buffer of snprintf and, in
--   Format/Directive, vprintfmt (lib/printfmt.c). Lines: readline and the output buffer
--   (lib/readline.c, lib/printf.c).
-- - Console: the input ring, the text screen and the keyboard (kern/console.c), with Console/Devices
--   for the serial line, the printer and the cursor behind their ports.
-- - Kdebug: the search in the debugging table (kern/kdebug.c).
-- - Monitor: the commands on the address space (kern/monitor.c), with Monitor/Runcmd for the command
--   line and Monitor/Backtrace for the backtrace.
-- - EntryTable: the tables that the kernel starts with (kern/entrypgdir.c).
-- - Prelude has the shared names and the lemmas on bits; Sample is a small machine for the tests.
--
-- How they interact: Trap saves the frame in the current environment, calls Syscall or env_destroy,
-- and resumes with env_run. Syscall asks PageTable whether the caller may read a range. Env takes its
-- directories and pages from PageAlloc and maps them with PageTable. A command of the memory system
-- runs on the field `kernel` of the system's state. KernelStart runs MemInit, Env and Trap in the order
-- of the source.
--
-- Conventions: numbers are natural numbers, and a result of 32 bits has its modulus written out. A
-- pointer to a `struct PageInfo` or a `struct Env` is an index, NULL is `none`. Directories and tables
-- lie in `mem`, at kernel virtual addresses, one word each. A function is a command over an explicit
-- state, and a panic is a value. Assertions of the source are panics.
--
-- Loops run by recursion on the number of rounds that are left, which the source's bounds give. The
-- loops over terminated strings and printnum have fuel: more than the length of the string, and more
-- than the number, is enough. stab_binsearch takes at most twice the length of its interval plus 1
-- rounds. vprintfmt gives printnum 65 rounds, more than a 64-bit number has digits in base 8. The loops
-- of the monitor's commands over addresses have fuel, since they need not end. The wait for the disk has
-- fuel, and enough is more rounds than the disk stays busy; the loop over sectors has one round for each
-- sector. getchar runs over a list of what its polls find. The memory theorems are
-- for at most 2 ^ 16 pages, the 256 MB that are mapped at KERNBASE.
--
-- Parameters: the address `end` that the linker defines, the addresses of the trap handlers that
-- kern/trapentry.S assembles, the boot stack, the debugging tables, the addresses of the command names,
-- the words that the processor reads for memxv and memxp, the monitor as a command of env_destroy, the
-- devices behind the ports, what user code does between two traps, and the program's image that
-- ENV_CREATE names.
--
-- The arrays `pages` and `envs` and the kernel's variables are beside the model's memory, not in it. Where
-- user code writes to memory, in Trap/Isolation, a write into the frames of the kernel's image and of
-- its arrays may change the state in any way. The kernel's own reads and writes above 4 MB before cr3 is
-- loaded are no page faults in the model.
--
-- Not modelled: check_page_alloc, check_page and check_page_installed_pgdir, which test functions that
-- have theorems here, and which are arguments of mem_init; the monitor's commands that only print, and
-- its loop; the printing of a trap's frame; _panic and _warn, which print and enter the monitor; the
-- wrappers that only pass their arguments on; inline assembly but the string and port instructions; and
-- the user programs with their library.
pub mod Prelude
pub mod Mmu
pub mod Kernel
pub mod PageAlloc
pub mod Ports
pub mod Clock
pub mod Elf
pub mod BootLoader
pub mod Errno
pub mod PageTable
pub mod Env
pub mod Syscall
pub mod Trap
pub mod MemInit
pub mod KernelStart
pub mod Kdebug
pub mod Monitor
pub mod Sample
pub mod CString
pub mod Lines
pub mod Console
pub mod EntryTable
pub mod Format
