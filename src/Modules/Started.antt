-- ===== src/Modules/Started.antt =====
-- The objects of a module that load_boot_modules of kern/main.c fills in.
use mugo.Base.{ℕ, suc, ◌+◌, ◌<◌, ◌≡◌, ◌≢◌, refl, sym, ap, arith, ◌∙◌}
use mugo.Elf.Load.{main_thread_stack_addr}
use mugo.Thread.{Machine, native_create_thread, thread_default_eflags}
use mugo.Modules.{Statics, process_at, thread_at, start_module}

-- A module's process, with a page directory of its own, and its thread, which will enter the file
-- at its entry point in user mode, with interrupts on and the stack at its place.
pub record IsStarted (at : Statics) (i entry : ℕ) (m : Machine) : Type 0 where
  pub pid : (m.proc (process_at at i)).id ≡ suc i
  pub directory : (m.proc (process_at at i)).page_dir ≢ 0
  pub thread : (m.proc (process_at at i)).threads ≡ thread_at at i
  pub thread_count : (m.proc (process_at at i)).thread_count ≡ 1
  pub owner : (m.tcb (thread_at at i)).proc ≡ process_at at i
  pub level : (m.tcb (thread_at at i)).sched_ctx.priority ≡ 0
  pub eip : (m.tcb (thread_at at i)).exec_ctx.eip ≡ entry
  pub esp : (m.tcb (thread_at at i)).exec_ctx.esp ≡ main_thread_stack_addr
  pub cs : (m.tcb (thread_at at i)).exec_ctx.cs ≡ 0x1B
  pub ss : (m.tcb (thread_at at i)).exec_ctx.ss ≡ 0x23
  pub eflags : (m.tcb (thread_at at i)).exec_ctx.eflags ≡ thread_default_eflags

-- Two machines agree on the objects of the modules before the `i`-th, and on the process selected.
pub record SameBefore (at : Statics) (i : ℕ) (m m' : Machine) : Type 0 where
  pub procs : (j : ℕ) → j < i → m'.proc (process_at at j) ≡ m.proc (process_at at j)
  pub tcbs : (j : ℕ) → j < i → m'.tcb (thread_at at j) ≡ m.tcb (thread_at at j)
  pub selected : m'.current_proc ≡ m.current_proc

pub start_module-IsStarted :
    (at : Statics) (i pd entry : ℕ) (m : Machine)
    → pd ≢ 0
    → IsStarted at i entry (start_module at i (suc i) pd entry main_thread_stack_addr m)
unfolding start_module native_create_thread
start_module-IsStarted at i pd entry m nonzero = record {
  pid = ground arith;
  directory = ground (arith, nonzero);
  thread = ground arith;
  thread_count = ground arith;
  owner = ground arith;
  level = ground arith;
  eip = ground arith;
  esp = ground arith;
  cs = ground arith;
  ss = ground arith;
  eflags = ground arith;
}

pub start_module-SameBefore :
    (at : Statics) (i pid pd entry top : ℕ) (m : Machine)
    → SameBefore at i m (start_module at i pid pd entry top m)
unfolding start_module native_create_thread
start_module-SameBefore at i pid pd entry top m = record {
  procs = λ j lt. ground arith;
  tcbs = λ j lt. ground arith;
  selected = refl;
}

-- The process has the directory, which stays loaded.
pub start_module-page_dir :
    (at : Statics) (i pid pd entry top : ℕ) (m : Machine)
    → let m' = start_module at i pid pd entry top m in
      ((m'.proc (process_at at i)).page_dir ≡ pd) × (m'.cr3 ≡ m.cr3)
unfolding start_module native_create_thread
start_module-page_dir at i pid pd entry top m = (ground arith, refl)

pub SameBefore-cr3 :
    (at : Statics) (i pd : ℕ) (m m' : Machine)
    → SameBefore at i (record m { cr3 = pd }) m'
    → SameBefore at i m m'
SameBefore-cr3 at i pd m m' same = record {
  procs = same.procs;
  tcbs = same.tcbs;
  selected = same.selected;
}

-- What is done to later modules keeps a module started.
pub IsStarted-same :
    (at : Statics) (i k entry : ℕ) (m m' : Machine)
    → i < k
    → SameBefore at k m m'
    → IsStarted at i entry m
    → IsStarted at i entry m'
IsStarted-same at i k entry m m' lt same started =
    let p = same.procs i lt in
    let t = same.tcbs i lt in
    record {
      pid = ap (λ v. v.id) p ∙ started.pid;
      directory = λ e. started.directory (sym (ap (λ v. v.page_dir) p) ∙ e);
      thread = ap (λ v. v.threads) p ∙ started.thread;
      thread_count = ap (λ v. v.thread_count) p ∙ started.thread_count;
      owner = ap (λ v. v.proc) t ∙ started.owner;
      level = ap (λ v. v.sched_ctx.priority) t ∙ started.level;
      eip = ap (λ v. v.exec_ctx.eip) t ∙ started.eip;
      esp = ap (λ v. v.exec_ctx.esp) t ∙ started.esp;
      cs = ap (λ v. v.exec_ctx.cs) t ∙ started.cs;
      ss = ap (λ v. v.exec_ctx.ss) t ∙ started.ss;
      eflags = ap (λ v. v.exec_ctx.eflags) t ∙ started.eflags;
    }

pub SameBefore-trans :
    (at : Statics) (i : ℕ) (m m1 m2 : Machine)
    → SameBefore at i m m1
    → SameBefore at (i + 1) m1 m2
    → SameBefore at i m m2
SameBefore-trans at i m m1 m2 first second = record {
  procs = λ j lt. second.procs j (omega arith) ∙ first.procs j lt;
  tcbs = λ j lt. second.tcbs j (omega arith) ∙ first.tcbs j lt;
  selected = second.selected ∙ first.selected;
}
