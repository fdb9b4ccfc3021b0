-- ===== src/Lib.antt =====
-- Verification of the mugo kernel, a hobby microkernel for i686.
--
-- Links models the circular lists of kern/list.h, Thread the register contexts of
-- arch/i686/thread.c, and Sched the round-robin scheduler kern/sched_rr.c that uses both: the
-- scheduler's queues are circular lists of headers inside the thread objects, all in one address
-- space.
--
-- Interrupt models the dispatch of arch/i686/interrupt.c, and Pic the interrupt controllers of
-- arch/i686/drivers/pic.c that it acknowledges to. Gdt (arch/i686/boot/gdt.c) and Idt
-- (arch/i686/idt.c) model the tables the processor reads to get there, and Timer the clock of
-- arch/i686/drivers/timer.c, whose interrupt drives the scheduler.
--
-- Stdlib models lib/stdlib/stdlib.c over a memory of bytes, and Elf the loader lib/libelf/elf.c,
-- which reads the file from such a memory; its child Load has elf_ctx_load.
--
-- Vga is the text console arch/i686/drivers/vga.c, with the buffer by index.
--
-- Early is arch/i686/early.c, which the boot loader starts: the walk of early_main over the tags, in
-- Early/Main its beginning and end, and in Early/Tables the first page tables. Paging has the
-- identity mappings of arch/i686/paging_utils.c, with tables by index, and Paging/Map its
-- bootstrap_mmap with the callers, over a memory of words, as the tables are found through it. Kmem
-- is kern/kmem.c, which maps the parts of the kernel with it and starts the allocator of small
-- objects, Kmalloc (kern/kmalloc.c; kfree is Kmalloc/Free). Frames has the stack of frames and the
-- count of frames of kern/mem, which the build leaves out. Kcall has the kernel calls of
-- kern/kcall.c.
--
-- Loops over strings, tags, memory maps and lists are on fuel, and none, or an outcome of its own,
-- tells that it ran out. strlen takes one more than the characters of the string, the walk over the
-- tags one more than the tags before the end, a memory map the size of its tag and one, kfree one
-- more than the pages in front of the one it looks for; these are enough, as entries have at least
-- one byte.
--
-- Printf is vsprintf_s of lib/stdlib/stdlib.c on lists of characters, with the variadic arguments as
-- a list; its child Kernel has what prints by it: kprintf of kern/kprint.c, the macro of kern/log.h,
-- panic of kern/util.c with arch/i686/panic.c, and the report of page_fault_handler in kern/kmem.c.
-- The fuel of its loop is the length of the format and one, as a round reads a character.
--
-- Modules is load_boot_modules of kern/main.c, which joins Elf, Paging/Map and Thread. Memory has two
-- parts there: the page tables, and the rest. What the processor's paging does with a page directory
-- loaded is a parameter: what it shows of the rest, and whether it leads an address to itself. Where
-- it does not, the accesses to tables by physical addresses in load_boot_modules and kmem_init fault.
-- Start joins the scheduler, the clock and the dispatch of interrupts, with
-- kern/sched.c and kern/time.c. Boot has arch_init of arch/i686/init.c, and bootstrap of kern/main.c,
-- which joins Kmem, Paging, Modules and Start.
--
-- Words are natural numbers with their wrap-around written out. Ports are a list of the writes
-- made, and what a port reads is a parameter.
--
-- Not modelled: the assembly of arch/i686/boot and arch/i686/trace.asm, whose effect is a parameter or
-- a field where the code above it uses one; the calls of the kernel log outside Printf, which have no
-- effect on the rest; the call of console_init in bootstrap, as the console has no part in the rest of
-- it; the memory server and the
-- stubs of the system calls, which are assembly in C; and arch/amd64, which the build leaves out.
-- multiboot.h is a copy of the header of the Multiboot2 specification.
pub mod Base
pub mod Boot
pub mod Early
pub mod Elf
pub mod Frames
pub mod Gdt
pub mod Idt
pub mod Interrupt
pub mod Kcall
pub mod Kmalloc
pub mod Kmem
pub mod Links
pub mod Modules
pub mod Paging
pub mod Pic
pub mod Printf
pub mod Sched
pub mod Start
pub mod Stdlib
pub mod Thread
pub mod Timer
pub mod Vga
