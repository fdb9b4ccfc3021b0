-- ===== src/Boot/Running.antt =====
-- What runs when bootstrap of kern/main.c has started the scheduler.
use mathlib.Core.Path.{subst}
use mugo.Base.{
  Bool, true, ap, ℕ, suc, ◌+◌, ◌*◌, ◌^◌, ◌<◌, ◌≡◌, ◌≢◌, refl, sym, ◌∙◌, Option, none, some, List,
  [], ◌∷◌, length,
}
use mugo.Stdlib.{Bytes}
use mugo.Paging.{BootModule, sub32}
use mugo.Paging.Map.{Space}
use mugo.Thread.{Machine, IrqContext, sizeof_tcb}
use mugo.Pic.{Io, Device, pic_check_spurious}
use mugo.Interrupt.{Sys, Callbacks}
use mugo.Sched.{Rr, rr_init}
use mugo.Sched.Ticks.{ticks}
use mugo.Start.{World, start, interrupts}
use mugo.Start.Interrupts.{AllTimer, start-ticks}
use mugo.Modules.{Memory, Boot, Statics, process_at, create_directory, load_boot_modules}
use mugo.Modules.Room.{Room}
use mugo.Modules.Loaded.{
  Image, AreImages, AreStarted, AllStarted, frames_of_all, load_boot_modules-AllStarted,
}
use mugo.Boot.{Arch, ArchStatics, processes, kmem_init_cleanup, arch_init, bootstrap_modules}
use mugo.Boot.Threads.{Apart, IsBooted, process_list, init-IsBooted}

module _ (ready_queue : ℕ) where
  -- The kernel has booted: it runs the first module, and the interrupts `ctxs` of the timer bring
  -- the scheduler on by as many ticks.
  abbrev pub AfterBoot :
      Statics
      → (entry : ℕ) → Device
      → List IrqContext
      → Option (Arch × (Callbacks (Option World) × Sys (Option World)))
      → Type 0
  AfterBoot at entry read ctxs none = ⊥
  AfterBoot at entry read ctxs (some (a, (callbacks, s))) =
      (rr : Rr) × (IsBooted ready_queue at entry rr
        × ((w : World) × (((interrupts read callbacks ctxs s).world ≡ some w)
              × (w.rr ≡ ticks ready_queue ctxs rr))))

module _ {Ram : Type 0} (view : (cr3 : ℕ) → Space → Ram → Bytes)
    (write : (cr3 : ℕ) → Space → Bytes → Ram → Ram) (reach : (cr3 : ℕ) → Space → ℕ → Bool)
    (at : Statics) (limit : ℕ) (Holds : (cr3 : ℕ) → Memory Ram → Type 0)
    (reached : (cr3 : ℕ) (w : Memory Ram)
      → Room limit 1 w.space
      → Holds cr3 w
      → reach cr3 w.space w.space.kinfo.memmap_addr ≡ true)
    (directories : (cr3 : ℕ) (w : Memory Ram) (pd : ℕ) (w1 : Memory Ram)
      → Room limit 1 w.space
      → Holds cr3 w
      → create_directory reach at cr3 w ≡ some (pd, w1)
      → Holds pd w1)
    (ready_queue : ℕ) where
  processes-process_list :
      (m : Machine) (i : ℕ) (ms : List BootModule) (fs : List Image)
      → AreImages view write reach at limit Holds reached directories ms fs
      → processes at i ms ≡ process_list ready_queue at m i fs
  processes-process_list m i [] [] images = refl
  processes-process_list m i [] (f ∷ fs) images = absurd images
  processes-process_list m i (x ∷ xs) [] images = absurd images
  processes-process_list m i (x ∷ xs) (f ∷ fs) images =
      ap {B = List ℕ} (λ l. process_at at i ∷ l) (processes-process_list m (i + 1) xs fs images.1)

  started-cr3 :
      (cr3 : ℕ) (i : ℕ) (fs : List Image) (m : Machine)
      → AreStarted at i fs m
      → AreStarted at i fs (record m { cr3 = cr3 })
  started-cr3 cr3 i [] m started = tt
  started-cr3 cr3 i (f ∷ fs) m (first, later) = (
    record {
      pid = first.pid;
      directory = first.directory;
      thread = first.thread;
      thread_count = first.thread_count;
      owner = first.owner;
      level = first.level;
      eip = first.eip;
      esp = first.esp;
      cs = first.cs;
      ss = first.ss;
      eflags = first.eflags;
    },
    started-cr3 cr3 (i + 1) fs m later,
  )

  -- From load_boot_modules on, bootstrap boots the kernel: under the conditions of
  -- load_boot_modules, with at least one module, no process selected, and the arrays of the
  -- processes, threads and ready queues apart below the end of memory, it neither panics nor faults,
  -- the first module's thread runs at its entry point in user mode under the scheduler's invariant,
  -- and any interrupts of the timer that are not spurious then are ticks of the scheduler from that state.
  pub bootstrap_modules-AfterBoot :
      (arch_at : ArchStatics) (read : Device) (f : Image) (fs : List Image) (w : Memory Ram)
      (a : Arch) (world : World) (ctxs : List IrqContext)
      → AreImages view write reach at limit Holds reached directories w.space.kinfo.modules (f ∷ fs)
      → Room limit (frames_of_all (f ∷ fs)) w.space
      → Holds world.rr.machine.cr3 w
      → world.rr.machine.current_proc ≡ 0
      → at.boot_processes ≢ 0
      → at.boot_processes_threads ≢ 0
      → at.boot_processes_threads + (length fs + 2) * sizeof_tcb < 2 ^ 32
      → Apart ready_queue at (suc (length fs))
      → ((io : Io) → (pic_check_spurious read io).0 ≡ 0)
      → AllTimer ctxs
      → AfterBoot ready_queue at f.entry read ctxs
          (bootstrap_modules view write reach at arch_at ready_queue read w a world)
  unfolding bootstrap_modules
  bootstrap_modules-AfterBoot arch_at read f fs w a world ctxs images room holds unselected procs
        tcbs fits apart real timer =
      let m = world.rr.machine in
      booted (load_boot_modules view write reach at w m) (
        load_boot_modules-AllStarted view write reach at limit Holds reached directories (f ∷ fs) w
          m images room holds)
    where
      booted :
          (r : Option (Boot Ram))
          → AllStarted view write reach at limit Holds reached directories w.space.kinfo.modules
              (f ∷ fs)
              w
              world.rr.machine
              r
          → AfterBoot ready_queue at f.entry read ctxs (elim r [
            | none ↦ none
            | some b ↦
                let m =
                  kmem_init_cleanup at.boot_page_directory b.memory.space.kinfo.kernel_high_vma
                    b.machine in
                let a1 = arch_init arch_at at.kstack_top a in
                let rr = world.rr in
                some (
                  a1,
                  start ready_queue read
                      (processes at 0 w.space.kinfo.modules)
                      a1.callbacks
                      (record world { rr = record rr { machine = m } })
                      a1.io,
                )
          ])
      booted none started = absurd started
      booted (some b) (started, (placed, selected)) =
          let cr3 = sub32 at.boot_page_directory b.memory.space.kinfo.kernel_high_vma in
          let m : Machine = let m = b.machine in record m { cr3 = cr3 } in
          let rr0 : Rr = let rr = world.rr in record rr { machine = m } in
          let a1 = arch_init arch_at at.kstack_top a in
          let tasks = processes at 0 w.space.kinfo.modules in
          let names = processes-process_list m 0 w.space.kinfo.modules (f ∷ fs) images in
          let known : IsBooted ready_queue at f.entry (rr_init ready_queue tasks rr0) =
            subst (λ l. IsBooted ready_queue at f.entry (rr_init ready_queue l rr0)) (sym names)
              (init-IsBooted ready_queue at f fs rr0 procs tcbs fits apart
                (started-cr3 cr3 0 (f ∷ fs) b.machine started) (selected ∙ unselected)) in
          let run =
            start-ticks ready_queue read tasks a1.callbacks (record world { rr = rr0 }) a1.io ctxs
              real timer in
          (rr_init ready_queue tasks rr0, (known, (run.0, (run.1, run.2))))
