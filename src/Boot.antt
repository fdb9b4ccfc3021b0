-- ===== src/Boot.antt =====
-- arch_init of arch/i686/init.c, and bootstrap of kern/main.c from load_boot_modules to the return
-- to user mode. page_fault_handler of kern/kmem.c only logs and waits, so that as a
-- callback it changes nothing here; Printf/Kernel has what it logs. none is a panic, or a page fault.
mod Kept
mod Prepared
mod Threads
mod Running
mod Tests
use mugo.Base.{
  Bool, true, ◌&&◌, ◌||◌, ℕ, zero, suc, ◌+◌, ◌==◌, if◌then◌else◌, Option, none, some, List, [], ◌∷◌,
}
use mugo.Stdlib.{Bytes}
use mugo.Paging.{BootModule, Addresses, Tables, sub32, bootstrap_identity_map_init_mem}
use mugo.Kmem.{KernelLayout, KmapCall, kmap_calls, map_boot_modules, table_at, put_table, kmem_init}
use mugo.Kmalloc.{Pool}
use mugo.Paging.Map.{Space, kmap}
use mugo.Pic.{Io, Device, pic_init}
use mugo.Gdt.{GdtEntries, GdtPtr, Tss, init_gdt}
use mugo.Idt.{IdtEntries, IdtPtr, init_idt}
use mugo.Interrupt.{Sys, Callback, Callbacks, register_interrupt_callback}
use mugo.Thread.{Machine}
use mugo.Sched.{Rr}
use mugo.Start.{World, start}
use mugo.Modules.{Memory, tables_reached, Boot, Statics, process_at, load_boot_modules}

-- The tables of the processor with the operands of `lgdt` and `lidt`, the model specific registers,
-- the ports and the callbacks.
pub record Arch : Type 0 where
  pub gdt : GdtEntries
  pub gdt_ptr : GdtPtr
  pub tss : Tss
  pub idt : IdtEntries
  pub idt_ptr : IdtPtr
  pub msr : ℕ → ℕ
  pub io : Io
  pub callbacks : Callbacks (Option World)

-- The addresses of the tables and of the stubs in assembly.
pub record ArchStatics : Type 0 where
  pub gdt_entries : ℕ
  pub tss : ℕ
  pub idt_entries : ℕ
  pub handler : ℕ → ℕ
  pub arch_sysenter_stub : ℕ

-- enum Register
abbrev pub sysenter_cs : ℕ
sysenter_cs = 0x174

abbrev pub sysenter_esp : ℕ
sysenter_esp = 0x175

abbrev pub sysenter_eip : ℕ
sysenter_eip = 0x176

abbrev pub msr_write : (reg val : ℕ) → (ℕ → ℕ) → ℕ → ℕ
msr_write reg val msr k = if k == reg then val else msr k

unfoldable pub page_fault_callback : Callback (Option World)
page_fault_callback ctx s = s

unfoldable pub arch_init : ArchStatics → (kstack_top : ℕ) → Arch → Arch
arch_init at kstack_top a =
    let (gdt, gdt_ptr, tss) = init_gdt at.gdt_entries at.tss kstack_top a.gdt in
    let (idt, idt_ptr) = init_idt at.idt_entries at.handler a.idt in
    record {
      gdt = gdt;
      gdt_ptr = gdt_ptr;
      tss = tss;
      idt = idt;
      idt_ptr = idt_ptr;
      msr =
          msr_write sysenter_esp tss.sp0
            (msr_write sysenter_eip at.arch_sysenter_stub (msr_write sysenter_cs 0x8 a.msr));
      io = pic_init a.io;
      callbacks = register_interrupt_callback 0xe page_fault_callback a.callbacks;
    }

-- The array `boot_processes` as sched_init goes through it: `n` processes from the `i`-th on.
abbrev pub processes : Statics → (i : ℕ) → List BootModule → List ℕ
processes at i [] = []
processes at i (m ∷ ms) = process_at at i ∷ processes at (i + 1) ms

-- kmem_init_cleanup: the boot directory is loaded again.
abbrev pub kmem_init_cleanup : (boot_page_directory kernel_high_vma : ℕ) → Machine → Machine
kmem_init_cleanup boot_page_directory kernel_high_vma m = record m {
  cr3 = sub32 boot_page_directory kernel_high_vma;
}

-- bootstrap_identity_map_init_mem on the tables where they lie.
abbrev pub identity_map_init_mem : Addresses → Space → Space
identity_map_init_mem at s =
    let t : Tables = record {
      boot_page_directory = table_at at.boot_page_directory s.words;
      page_directory = table_at at.page_directory s.words;
      bootstrap_pt = table_at at.bootstrap_pt s.words;
      module_bootstrap_pt = table_at at.module_bootstrap_pt s.words;
      loaded = 0;
    } in
    let (info, t') = bootstrap_identity_map_init_mem at s.kinfo t in
    record {
      words =
          put_table at.boot_page_directory t'.boot_page_directory
            (put_table at.module_bootstrap_pt t'.module_bootstrap_pt s.words);
      kinfo = info;
    }

-- What bootstrap does before load_boot_modules: kmem_init, whose heap is not used yet, and the
-- identity mapping.
unfoldable pub prepare_memory : Addresses → KernelLayout → Pool → Space → Option Space
prepare_memory tables y pool s = elim (kmem_init tables y s pool) [
  | none ↦ none
  | some (s1, (loaded_directory, pool1)) ↦ some (identity_map_init_mem tables s1)
]

-- Whether the tables are reached that calls of kmap take and fill. The kernel's page directory is
-- used by the address that the linker gave it, where it is always mapped.
unfoldable pub kmap_reached : (reached : Space → ℕ → Bool) (pd : ℕ) → List KmapCall → Space → Bool
kmap_reached reached pd [] s = true
kmap_reached reached pd (c ∷ cs) s = elim (kmap pd c.vaddr c.paddr c.size c.flags s) [
  | none ↦ true
  | some s1 ↦
      tables_reached (λ p. reached s p || (p == pd)) pd c.vaddr c.size s.words s1.words
      && kmap_reached reached pd cs s1
]

-- Whether those are reached that kmem_init fills, with the directory loaded that early_main set up.
abbrev pub kmem_reached : (reached : Space → ℕ → Bool) → Addresses → KernelLayout → Space → Bool
kmem_reached reached tables y s =
    kmap_reached reached tables.page_directory (kmap_calls y).0 (map_boot_modules tables s)

-- The directory that bootstrap_identity_map_init_mem has loaded when it returns is the boot
-- directory too.
abbrev pub with_boot_directory : Addresses → Space → World → World
with_boot_directory tables s world =
    let rr = world.rr in
    record world {
      rr = record rr {
        machine = kmem_init_cleanup tables.boot_page_directory s.kinfo.kernel_high_vma rr.machine;
      };
    }

module _ {Ram : Type 0} (view : (cr3 : ℕ) → Space → Ram → Bytes)
    (write : (cr3 : ℕ) → Space → Bytes → Ram → Ram) (reach : (cr3 : ℕ) → Space → ℕ → Bool) where
  -- The tables, the callbacks, and the state that the first interrupt finds.
  unfoldable pub bootstrap_modules :
      Statics
      → ArchStatics
      → (ready_queue : ℕ) → Device
      → Memory Ram
      → Arch
      → World
      → Option (Arch × (Callbacks (Option World) × Sys (Option World)))
  bootstrap_modules at arch_at ready_queue read w a world =
      let rr = world.rr in
      elim (load_boot_modules view write reach at w rr.machine) [
        | none ↦ none
        | some b ↦
            let m =
              kmem_init_cleanup at.boot_page_directory b.memory.space.kinfo.kernel_high_vma
                b.machine in
            let a1 = arch_init arch_at at.kstack_top a in
            some (
              a1,
              start ready_queue read (processes at 0 w.space.kinfo.modules) a1.callbacks
                  (record world { rr = record rr { machine = m } }) a1.io,
            )
      ]

  -- All of bootstrap but for console_init. The memory is as the boot loader and early_main left it.
  unfoldable pub bootstrap :
      Addresses
      → KernelLayout
      → Statics
      → ArchStatics
      → (ready_queue : ℕ) → Device
      → Pool
      → Memory Ram
      → Arch
      → World
      → Option (Arch × (Callbacks (Option World) × Sys (Option World)))
  bootstrap tables y at arch_at ready_queue read pool w a world =
      if kmem_reached (reach world.rr.machine.cr3) tables y w.space
      then elim (prepare_memory tables y pool w.space) [
        | none ↦ none
        | some s ↦
            bootstrap_modules at arch_at ready_queue read (record w { space = s }) a
              (with_boot_directory tables s world)
      ]
      else none
