-- ===== src/Boot/Threads.antt =====
-- The threads of the modules in the scheduler, when bootstrap of kern/main.c has started it.
use mathlib.Core.Path.{subst}
use mugo.Base.{
  ◌⊎◌, ap, ℕ, suc, ◌+◌, ◌*◌, ◌^◌, ◌<◌, ◌≤◌, ◌≡◌, ◌≢◌, refl, sym, ◌∙◌, false, some, List, [], ◌∷◌,
  ◌++◌, length, arith, inl, inr, ◌==◌, Bool-cases,
}
use mugo.Links.Ring.{has, Distinct}
use mugo.Thread.{Machine, native_select_thread, sizeof_tcb}
use mugo.Sched.{
  list_of, queue_head, Rr, enqueue_tasks, rr_enqueue, rr_get_next_ready, rr_init, rr_move_to_ready,
  init_queues,
}
use mugo.Sched.Queues.{Queues, push, pop_from, replace}
use mugo.Sched.Threads.{IsThread}
use mugo.Sched.Schedule.{IsRunning}
use mugo.Sched.Init.{AreFresh, threads, enqueued, Started, init-IsRunning}
use mugo.Elf.Load.{main_thread_stack_addr}
use mugo.Modules.{Statics, process_at, thread_at}
use mugo.Modules.Loaded.{Image, AreStarted}

-- What the start of the scheduler leaves of a thread: its process and its context.
record SameContexts (m m' : Machine) : Type 0 where
  contexts : (t : ℕ) → (m'.tcb t).exec_ctx ≡ (m.tcb t).exec_ctx
  owners : (t : ℕ) → (m'.tcb t).proc ≡ (m.tcb t).proc

SameContexts-trans :
    (m m1 m2 : Machine) → SameContexts m m1 → SameContexts m1 m2 → SameContexts m m2
SameContexts-trans m m1 m2 first second = record {
  contexts = λ t. second.contexts t ∙ first.contexts t;
  owners = λ t. second.owners t ∙ first.owners t;
}

select-SameContexts : (t : ℕ) (m : Machine) → SameContexts m (native_select_thread t m)
unfolding native_select_thread
select-SameContexts t m = record { contexts = λ p. ground arith; owners = λ p. ground arith }

module _ (ready_queue : ℕ) where
  enqueue-SameContexts :
      (s : Rr) (t : ℕ) → SameContexts s.machine (rr_enqueue ready_queue t s).machine
  unfolding rr_enqueue rr_move_to_ready
  enqueue-SameContexts s t = record { contexts = λ p. ground arith; owners = λ p. ground arith }

  enqueue_tasks-SameContexts :
      (tasks : List ℕ) (s : Rr) → SameContexts s.machine (enqueue_tasks ready_queue tasks s).machine
  unfolding enqueue_tasks
  enqueue_tasks-SameContexts [] s = record { contexts = λ t. refl; owners = λ t. refl }
  enqueue_tasks-SameContexts (k ∷ ks) s =
      SameContexts-trans s.machine _ _ (enqueue-SameContexts s (s.machine.proc k).threads)
        (enqueue_tasks-SameContexts ks (rr_enqueue ready_queue (s.machine.proc k).threads s))

  init-SameContexts :
      (tasks : List ℕ) (s : Rr) → SameContexts s.machine (rr_init ready_queue tasks s).machine
  unfolding rr_init rr_get_next_ready
  init-SameContexts tasks s =
      let s0 : Rr = record s { links = init_queues ready_queue 16 0 s.links } in
      SameContexts-trans s.machine _ _ (enqueue_tasks-SameContexts tasks s0)
        (select-SameContexts _ (enqueue_tasks ready_queue tasks s0).machine)

  -- A thread that is first in the first queue stays it.
  enqueued-first :
      (m : Machine) (ts : List ℕ) (q : Queues) (t : ℕ) (rest : List ℕ)
      → q 0 ≡ t ∷ rest
      → (rest' : List ℕ) × (enqueued ready_queue m ts q 0 ≡ t ∷ rest')
  enqueued-first m [] q t rest e = (rest, e)
  enqueued-first m (x ∷ xs) q t rest e = elim (Bool-cases (0 == (m.tcb x).sched_ctx.priority)) [
    | inl is ↦
        enqueued-first m xs (push (m.tcb x).sched_ctx.priority x q) t (rest ++ (x ∷ []))
          (rw (is, e) refl)
    | inr is ↦ enqueued-first m xs (push (m.tcb x).sched_ctx.priority x q) t rest (rw is e)
  ]

  pop_from-first :
      (n : ℕ) (q : Queues) (t : ℕ) (rest : List ℕ)
      → q 0 ≡ t ∷ rest
      → pop_from (suc n) 0 q ≡ some (0, t, replace 0 rest q)
  unfolding pop_from
  pop_from-first n q t rest e = rw (e, pop_from) refl

  -- The first `n` threads of the modules lie before the ready queues or behind them.
  abbrev pub Apart : Statics → ℕ → Type 0
  Apart at n =
      (at.boot_processes_threads + n * sizeof_tcb ≤ ready_queue)
      ⊎ (ready_queue + 16 * sizeof_tcb ≤ at.boot_processes_threads)

  heads-Apart :
      (at : Statics) (i n j : ℕ)
      → i < n
      → j < 16
      → Apart at n
      → (list_of (thread_at at i) == queue_head ready_queue j) ≡ false
  heads-Apart at i n j lt small (inl before) =
      let ne : list_of (thread_at at i) ≢ queue_head ready_queue j =
        λ e. absurd (omega (arith, e, before)) in
      ground (arith, ne)
  heads-Apart at i n j lt small (inr behind) =
      let ne : list_of (thread_at at i) ≢ queue_head ready_queue j =
        λ e. absurd (omega (arith, e, behind)) in
      ground (arith, ne)

  -- The threads of started modules are the objects that rr_init asks for.
  module _ (at : Statics) (m : Machine) where
    abbrev pub thread_list : ℕ → List Image → List ℕ
    thread_list i [] = []
    thread_list i (f ∷ fs) = thread_at at i ∷ thread_list (i + 1) fs

    abbrev pub process_list : ℕ → List Image → List ℕ
    process_list i [] = []
    process_list i (f ∷ fs) = process_at at i ∷ process_list (i + 1) fs

    threads-thread_list :
        (i : ℕ) (fs : List Image)
        → AreStarted at i fs m
        → threads ready_queue m (process_list i fs) ≡ thread_list i fs
    threads-thread_list i [] started = refl
    threads-thread_list i (f ∷ fs) (first, later) =
        rw (first.thread, threads-thread_list (i + 1) fs later) refl

    thread_list-after :
        (i j : ℕ) (fs : List Image) → i < j → has (thread_at at i) (thread_list j fs) ≡ false
    thread_list-after i j [] lt = refl
    thread_list-after i j (f ∷ fs) lt =
        let ne : (thread_at at i == thread_at at j) ≡ false = ground arith in
        rw (thread_list-after i (j + 1) fs (omega arith)) (ground (arith, ne))

    thread_list-Distinct : (i : ℕ) (fs : List Image) → Distinct (thread_list i fs)
    thread_list-Distinct i [] = tt
    thread_list-Distinct i (f ∷ fs) =
        (thread_list-after i (i + 1) fs (omega arith), thread_list-Distinct (i + 1) fs)

    thread_list-AreFresh :
        (i : ℕ) (fs : List Image)
        → at.boot_processes ≢ 0
        → at.boot_processes_threads ≢ 0
        → at.boot_processes_threads + (i + length fs + 1) * sizeof_tcb < 2 ^ 32
        → Apart at (i + length fs)
        → AreStarted at i fs m
        → AreFresh ready_queue m (λ i. []) (thread_list i fs)
    thread_list-AreFresh i [] procs tcbs fits apart started = tt
    thread_list-AreFresh i (f ∷ fs) procs tcbs fits apart (first, later) =
        let there : Apart at (i + 1 + length fs) = subst (Apart at) (omega arith) apart in
        let thread : IsThread m (thread_at at i) = record {
          nonnull = λ e. tcbs (omega (arith, e));
          fits = omega (arith, fits);
          owned = λ e. procs (omega (arith, e, first.owner));
          level = omega (arith, first.level);
        } in
        (
          thread,
          λ j lt. rw (heads-Apart at i (i + suc (length fs)) j (omega arith) lt apart) refl,
          thread_list-AreFresh (i + 1) fs procs tcbs (omega (arith, fits)) there later,
        )

  -- The first module's thread runs: the processor has its context and its page directory, it will
  -- enter the module in user mode, and the scheduler's invariant holds with the other threads.
  pub record IsBooted (at : Statics) (entry : ℕ) (rr : Rr) : Type 0 where
    pub current : rr.current_thread ≡ thread_at at 0
    pub queues : Queues
    pub running : IsRunning ready_queue rr queues
    pub owner : (rr.machine.tcb (thread_at at 0)).proc ≡ process_at at 0
    pub eip : (rr.machine.tcb (thread_at at 0)).exec_ctx.eip ≡ entry
    pub esp : (rr.machine.tcb (thread_at at 0)).exec_ctx.esp ≡ main_thread_stack_addr
    pub cs : (rr.machine.tcb (thread_at at 0)).exec_ctx.cs ≡ 0x1B

  pub init-IsBooted :
      (at : Statics) (f : Image) (fs : List Image) (s : Rr)
      → at.boot_processes ≢ 0
      → at.boot_processes_threads ≢ 0
      → at.boot_processes_threads + (length fs + 2) * sizeof_tcb < 2 ^ 32
      → Apart at (suc (length fs))
      → AreStarted at 0 (f ∷ fs) s.machine
      → s.machine.current_proc ≡ 0
      → IsBooted at f.entry (rr_init ready_queue (process_list at s.machine 0 (f ∷ fs)) s)
  init-IsBooted at f fs s procs tcbs fits apart started unselected =
      let m = s.machine in
      let tasks = process_list at m 0 (f ∷ fs) in
      let s' = rr_init ready_queue tasks s in
      let same = init-SameContexts tasks s in
      let ts = threads-thread_list at m 0 (f ∷ fs) started in
      let fresh : AreFresh ready_queue m (λ i. []) (threads ready_queue m tasks) =
        subst (AreFresh ready_queue m (λ i. [])) (sym ts) (
          thread_list-AreFresh at m 0 (f ∷ fs) procs tcbs (omega (arith, fits))
            (subst (Apart at) (omega arith) apart) started) in
      let distinct : Distinct (threads ready_queue m tasks) =
        subst Distinct (sym ts) (thread_list-Distinct at m 0 (f ∷ fs)) in
      let begun =
        init-IsRunning ready_queue s (process_at at 0) (process_list at m 1 fs) unselected fresh
          distinct in
      let t = thread_at at 0 in
      let rest = thread_list at m 1 fs in
      let q0 = push (m.tcb t).sched_ctx.priority t (λ i. []) in
      let level : q0 0 ≡ t ∷ [] = rw started.0.level refl in
      let front = enqueued-first m rest q0 t [] level in
      let q' = replace 0 front.0 (enqueued ready_queue m rest q0) in
      let listed : Started ready_queue (pop_from 16 0 (enqueued ready_queue m rest q0)) s' =
        subst (λ l. Started ready_queue (pop_from 16 0 (enqueued ready_queue m l (λ i. []))) s') ts
          begun in
      let popped : Started ready_queue (some (0, t, q')) s' =
        subst (λ o. Started ready_queue o s')
          (pop_from-first 15 (enqueued ready_queue m rest q0) t front.0 front.1) listed in
      record {
        current = popped.0;
        queues = q';
        running = popped.1;
        owner = same.owners t ∙ started.0.owner;
        eip = ap (λ c. c.eip) (same.contexts t) ∙ started.0.eip;
        esp = ap (λ c. c.esp) (same.contexts t) ∙ started.0.esp;
        cs = ap (λ c. c.cs) (same.contexts t) ∙ started.0.cs;
      }
