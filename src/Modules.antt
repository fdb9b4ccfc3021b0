-- ===== src/Modules.antt =====
-- load_boot_modules of kern/main.c, which makes a process of each module that the boot loader left
-- in memory, with the loader of lib/libelf, the page tables of arch/i686/paging_utils.c and the
-- contexts of arch/i686/thread.c. Log lines are left out, and none is a panic or a fault.
-- The memory has two parts: the page tables, by the addresses that the code uses for them, and the
-- rest, `Ram`. What the processor's paging does with a directory loaded, the one in `cr3`, is a
-- parameter: `view` is what it shows of the rest at an address, `write` what a change of the bytes
-- that it shows makes of it, and `reach` whether it leads an address to itself, as the code takes
-- for granted of the page directories and tables that it fills by their physical addresses.
pub mod Room
pub mod Image
pub mod Headers
pub mod File
pub mod Started
pub mod Loaded
pub mod Within
pub mod Tests
use mugo.Base.{
  Bool, true, ◌/◌, ℕ, zero, suc, ◌+◌, ◌-◌, ◌*◌, ◌%◌, ◌^◌, ◌&&◌, Option, none, some, List, [], ◌∷◌,
  ltb, leb, ◌==◌, if◌then◌else◌,
}
use mugo.Stdlib.{Bytes}
use mugo.Paging.{BootModule, page, page_size, pd_offset, sub32, bootstrap_create_page_dir}
use mugo.Paging.Map.{Words, Space, entry, no_page_tables, zero_page, bootstrap_elf_mmap}
use mugo.Elf.{elf_word, elf_ok, ElfCtx, elf_ctx_create}
use mugo.Elf.Load.{ExecInfo, elf_ctx_load}
use mugo.Thread.{Machine, Tcb, Proc, write_tcb, sizeof_tcb, native_create_thread}

pub record Memory (Ram : Type 0) : Type 0 where
  pub space : Space
  pub ram : Ram

-- What load_boot_modules changes, with its variables `pid` and `info.main_thread_stack_top`.
pub record Boot (Ram : Type 0) : Type 0 where
  pub memory : Memory Ram
  pub machine : Machine
  pub pid : ℕ
  pub stack_top : ℕ

-- The addresses that the linker chooses, and the value of `kstack_top`.
pub record Statics : Type 0 where
  pub boot_processes : ℕ
  pub boot_processes_threads : ℕ
  pub boot_page_directory : ℕ
  pub kstack_top : ℕ

-- proc_t has five words and the two of its list header.
abbrev pub sizeof_proc : ℕ
sizeof_proc = 28

abbrev pub process_at : Statics → ℕ → ℕ
process_at at i = at.boot_processes + i * sizeof_proc

abbrev pub thread_at : Statics → ℕ → ℕ
thread_at at i = at.boot_processes_threads + i * sizeof_tcb

abbrev pub e_entry : ℕ → Bytes → ℕ
e_entry hdr = elf_word (hdr + 24)

-- `memset(&module_ctx, 0, ...)`
abbrev pub no_ctx : ElfCtx
no_ctx = record {
  elf_hdr = 0;
  section_headers = 0;
  symbol_table = 0;
  string_table = 0;
  program_headers = 0;
}

-- The memcpy of a page directory.
abbrev pub copy_page : (dest src : ℕ) → Words → Words
copy_page dest src w k =
    if leb dest k && ltb k (dest + page_size) then w (src + (k - dest)) else w k

abbrev pub write_proc : ℕ → Proc → Machine → Machine
write_proc p v m = record m { proc = λ q. if q == p then v else m.proc q }

-- arch_load_pagedir
abbrev pub load_pagedir : ℕ → Machine → Machine
load_pagedir pd_addr m = record m { cr3 = pd_addr }

-- Whether the tables are reached that a call of bootstrap_mmap takes for the `left` entries of the
-- directory from the `i`-th on, and clears: those of the entries that were empty.
unfoldable pub new_reached : (reached : ℕ → Bool) (pd left i : ℕ) (old words : Words) → Bool
new_reached reached pd zero i old words = true
new_reached reached pd (suc left) i old words =
    (if old (entry pd i) == 0 then reached (page (words (entry pd i))) else true)
    && new_reached reached pd left (i + 1) old words

-- Whether the tables are reached that it fills, for the `left` pages from `offset` on.
unfoldable pub filled_reached :
    (reached : ℕ → Bool) (pd vaddr left offset : ℕ) (words : Words) → Bool
filled_reached reached pd vaddr zero offset words = true
filled_reached reached pd vaddr (suc left) offset words =
    reached (page (words (entry pd (pd_offset ((vaddr + offset) % 2 ^ 32)))))
    && filled_reached reached pd vaddr left (offset + page_size) words

-- Whether all that it reads and writes by physical addresses is reached: the directory and these
-- tables, which are those that the directory has at the end. Else it is a page fault.
abbrev pub tables_reached : (reached : ℕ → Bool) (pd vaddr size : ℕ) (old words : Words) → Bool
tables_reached reached pd vaddr size old words =
    reached pd
    && new_reached reached pd (no_page_tables vaddr size (page (old (entry pd (pd_offset vaddr)))))
        (pd_offset vaddr) old words
    && filled_reached reached pd vaddr ((size + (page_size - 1)) / page_size) 0 words

-- bootstrap_elf_mmap as a callback, with the directory `cr3` loaded: none once it has panicked or
-- faulted.
unfoldable pub elf_mmap :
    {Ram : Type 0}
    → (reach : (cr3 : ℕ) → Space → ℕ → Bool) (cr3 pd paddr vaddr size flags : ℕ)
    → Option (Memory Ram)
    → Option (Memory Ram)
elf_mmap reach cr3 pd paddr vaddr size flags none = none
elf_mmap reach cr3 pd paddr vaddr size flags (some w) =
    elim (bootstrap_elf_mmap pd paddr vaddr size flags w.space) [
      | none ↦ none
      | some s ↦
          if tables_reached (reach cr3 w.space) pd vaddr size w.space.words s.words
          then some (record w { space = s })
          else none
    ]

-- What the loop does to the objects of module `i`.
unfoldable pub start_module : Statics → (i pid pd_addr entry stack_top : ℕ) → Machine → Machine
start_module at i pid pd_addr entry stack_top m =
    let proc = process_at at i in
    let thread = thread_at at i in
    let m1 =
      write_proc proc
        record { id = pid; page_dir = pd_addr; priority = 0; threads = thread; thread_count = 1 }
        m in
    let t = m1.tcb thread in
    let ctx = t.sched_ctx in
    native_create_thread thread entry stack_top at.kstack_top (
      write_tcb thread (record t { proc = proc; sched_ctx = record ctx { priority = 0 }; id = 0 })
        m1)

-- The page directory of a module: a copy of the boot directory in a new page. It gives the address
-- too; none is the panic, or the fault of its memset with the directory `cr3` loaded.
unfoldable pub create_directory :
    {Ram : Type 0}
    → (reach : (cr3 : ℕ) → Space → ℕ → Bool) → Statics
    → (cr3 : ℕ) → Memory Ram
    → Option (ℕ × Memory Ram)
create_directory reach at cr3 w =
    let (pd_addr, kinfo) = bootstrap_create_page_dir w.space.kinfo in
    let words = copy_page pd_addr at.boot_page_directory (zero_page pd_addr w.space.words) in
    if pd_addr == 0
    then none
    else (if reach cr3 w.space pd_addr
        then some (pd_addr, record w { space = record { words = words; kinfo = kinfo } })
        else none)

module _ {Ram : Type 0} (view : (cr3 : ℕ) → Space → Ram → Bytes)
    (write : (cr3 : ℕ) → Space → Bytes → Ram → Ram) (reach : (cr3 : ℕ) → Space → ℕ → Bool) where
  -- The memory as the loader sees it.
  abbrev pub memory_bytes : (cr3 : ℕ) → Option (Memory Ram) → Bytes
  memory_bytes cr3 none k = 0
  memory_bytes cr3 (some w) k = view cr3 w.space w.ram k

  abbrev pub write_bytes : (cr3 : ℕ) → Bytes → Option (Memory Ram) → Option (Memory Ram)
  write_bytes cr3 b none = none
  write_bytes cr3 b (some w) = some (record w { ram = write cr3 w.space b w.ram })

  -- The callbacks are those of paging_utils.c; bootstrap_elf_on_load is empty.
  abbrev pub info_for : (cr3 pd stack_top : ℕ) → ExecInfo (Option (Memory Ram))
  info_for cr3 pd stack_top = record {
    main_thread_stack_top = stack_top;
    mmap = some (elf_mmap reach cr3 pd);
    on_load = λ w. w;
  }

  -- What is left of a call of elf_ctx_load: the stack and the memory, unless it failed.
  abbrev pub load_result :
      Option (ℕ × Option (ExecInfo (Option (Memory Ram))) × Option (Memory Ram))
      → Option (ℕ × Memory Ram)
  load_result none = none
  load_result (some (err, none, w)) = none
  load_result (some (err, some info, none)) = none
  load_result (some (err, some info, some w)) =
      if err == elf_ok then some (info.main_thread_stack_top, w) else none

  -- The file at `start` into the page directory `pd`, with `cr3` loaded: its context, the stack and
  -- the memory.
  unfoldable pub load_file :
      (cr3 pd start stack_top : ℕ) → Memory Ram → Option (ElfCtx × (ℕ × Memory Ram))
  load_file cr3 pd start stack_top w =
      let (err, ctx) = elf_ctx_create no_ctx start (memory_bytes cr3 (some w)) in
      if err == elf_ok
      then elim (load_result (
          elf_ctx_load (memory_bytes cr3) (write_bytes cr3) ctx (some (info_for cr3 pd stack_top))
            (some w))) [ none ↦ none | some (top, w1) ↦ some (ctx, (top, w1)) ]
      else none

  -- The body of the loop.
  unfoldable pub load_boot_module : Statics → (i : ℕ) → BootModule → Boot Ram → Option (Boot Ram)
  load_boot_module at i module_ b = elim (create_directory reach at b.machine.cr3 b.memory) [
    | none ↦ none
    | some (pd_addr, w) ↦
        let m = load_pagedir pd_addr b.machine in
        elim (load_file m.cr3 pd_addr module_.start_paddr b.stack_top w) [
          | none ↦ none
          | some (ctx, (top, w1)) ↦ some record {
            memory = w1;
            machine =
                start_module at i b.pid pd_addr (e_entry ctx.elf_hdr (memory_bytes m.cr3 (some w1)))
                  top m;
            pid = suc b.pid;
            stack_top = top;
          }
        ]
  ]

  -- The loop from module `i` on.
  unfoldable pub load_modules : Statics → (i : ℕ) → List BootModule → Boot Ram → Option (Boot Ram)
  load_modules at i [] b = some b
  load_modules at i (m ∷ ms) b = elim (load_boot_module at i m b) [
    | none ↦ none
    | some b1 ↦ load_modules at (i + 1) ms b1
  ]

  unfoldable pub load_boot_modules : Statics → Memory Ram → Machine → Option (Boot Ram)
  load_boot_modules at w m =
      load_modules at 0 w.space.kinfo.modules
        record { memory = w; machine = m; pid = 1; stack_top = 0 }
