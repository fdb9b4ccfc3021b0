-- ===== src/Sched/Init.antt =====
-- `rr_init` of kern/sched_rr.c: the empty queues, and the boot tasks' threads in them.
use mathlib.Core.Path.{subst}
use native.Mathlib.Decide.{ℕ_discrete}
use mugo.Base.{
  ap, ℕ, zero, suc, ◌+◌, ◌<◌, ◌≤◌, ◌≡◌, ◌≢◌, refl, sym, ◌∙◌, Bool, true, false, ◌&&◌, Option, none,
  some, List, [], ◌∷◌, ◌++◌, map, arith, inl, inr, ◌==◌, Bool-cases,
}
use mugo.Links.{Links, list_head_init}
use mugo.Links.Ring.{has, Distinct}
use mugo.Thread.{Machine, native_select_thread}
use mugo.Thread.Context.{IsLoaded}
use mugo.Sched.{
  Rr, queue_head, list_of, init_queues, enqueue_tasks, rr_enqueue, rr_get_next_ready, rr_init,
  rr_move_to_ready,
}
use mugo.Sched.Queues.{Queues, push, pop_from, IsPopped, pop_from-IsPopped}
use mugo.Sched.Ready.{AreQueues, IsUnlinked, has-headers-push}
use mugo.Sched.Threads.{
  or_none, IsThread, IsWaiting, IsReady, IsFetched, enqueue-IsReady, get_next-IsFetched,
}
use mugo.Sched.Schedule.{IsRunning, push_self-ne, select-IsRunning}

and_none : (a : Bool) {b : Bool} → b ≡ false → (a && b) ≡ false
and_none true e = e
and_none false e = refl

push-ne : (q : Queues) (p i t : ℕ) → q i ≢ [] → push p t q i ≢ []
push-ne q p i t ne = elim (Bool-cases (i == p)) [ inl e ↦ rw e (snoc-ne (q i)) | inr e ↦ rw e ne ]
  where
    snoc-ne : (ts : List ℕ) → ts ++ (t ∷ []) ≢ []
    snoc-ne [] e = cc
    snoc-ne (x ∷ ts) e = cc

module _ (ready_queue : ℕ) where
  abbrev IsAlone : Links → ℕ → Type 0
  IsAlone h p = (h.next p ≡ p) × (h.prev p ≡ p)

  head-ne : (i j : ℕ) → i < j → queue_head ready_queue i ≢ queue_head ready_queue j
  head-ne i j lt = omega arith

  init_queues-kept :
      (n i j : ℕ) (h : Links)
      → j < i
      → IsAlone h (queue_head ready_queue j)
      → IsAlone (init_queues ready_queue n i h) (queue_head ready_queue j)
  unfolding init_queues
  init_queues-kept zero i j h lt a = a
  init_queues-kept (suc n) i j h lt a =
      init_queues-kept n (i + 1) j (list_head_init (queue_head ready_queue i) h) (omega arith)
        (unfold list_head_init in (ground (arith, head-ne j i lt)))

  init_queues-IsAlone :
      (n i j : ℕ) (h : Links)
      → i ≤ j
      → j < i + n
      → IsAlone (init_queues ready_queue n i h) (queue_head ready_queue j)
  unfolding init_queues
  init_queues-IsAlone zero i j h le lt = absurd (omega arith)
  init_queues-IsAlone (suc n) i j h le lt = elim (ℕ_discrete i j) [
    | yes e ↦
        init_queues-kept n (i + 1) j (list_head_init (queue_head ready_queue i) h) (omega arith)
          (rw e (unfold list_head_init in (ground arith)))
    | no ne ↦
        init_queues-IsAlone n (i + 1) j (list_head_init (queue_head ready_queue i) h) (omega arith)
          (omega arith)
  ]

  init-AreQueues : (h : Links) → AreQueues ready_queue (init_queues ready_queue 16 0 h) (λ i. [])
  init-AreQueues h = record {
    ring = λ i lt. record {
      chain = init_queues-IsAlone 16 0 i h (omega arith) (omega arith);
      distinct = (refl, tt);
    };
    apart = λ i j x li lj hi hj. ground (arith, head-ne i j, head-ne j i);
  }

  -- What rr_init reads of a machine: the first thread of a process, the threads' processes and
  -- priorities.
  record SameTasks (m m' : Machine) : Type 0 where
    procs : (p : ℕ) → m'.proc p ≡ m.proc p
    owners : (p : ℕ) → (m'.tcb p).proc ≡ (m.tcb p).proc
    levels : (p : ℕ) → (m'.tcb p).sched_ctx.priority ≡ (m.tcb p).sched_ctx.priority

  abbrev pub threads : Machine → List ℕ → List ℕ
  threads m = map (λ k. (m.proc k).threads)

  -- The queues when the threads `ts` have been appended in order, each at its priority.
  abbrev pub enqueued : Machine → List ℕ → Queues → Queues
  enqueued m [] q = q
  enqueued m (t ∷ ts) q = enqueued m ts (push (m.tcb t).sched_ctx.priority t q)

  -- Each is a thread object whose header is in no queue.
  abbrev pub AreFresh : Machine → Queues → List ℕ → Type 0
  AreFresh m q [] = Unit {0}
  AreFresh m q (t ∷ ts) = IsThread m t × IsUnlinked ready_queue q t × AreFresh m q ts

  AreFresh-push :
      (m : Machine) (q : Queues) (p t : ℕ) (ts : List ℕ)
      → has t ts ≡ false
      → AreFresh m q ts
      → AreFresh m (push p t q) ts
  AreFresh-push m q p t [] out f = tt
  AreFresh-push m q p t (x ∷ ts) out (th, u, f) = (
    th,
    λ i lt.
        has-headers-push ready_queue q p t i (list_of x) ∙ or_none (u i lt) (and_none (i == p) ne),
    AreFresh-push m q p t ts (ground arith) f,
  )
    where
      ne : (list_of x == list_of t) ≡ false
      ne = ground arith

  AreFresh-same :
      (m m' : Machine) (q : Queues) (ts : List ℕ)
      → SameTasks m m'
      → AreFresh m q ts
      → AreFresh m' q ts
  AreFresh-same m m' q [] s f = tt
  AreFresh-same m m' q (t ∷ ts) s (th, u, f) =
      (ground (arith, th, s.owners t, s.levels t), u, AreFresh-same m m' q ts s f)

  enqueue-SameTasks : (s : Rr) (t : ℕ) → SameTasks s.machine (rr_enqueue ready_queue t s).machine
  unfolding rr_enqueue rr_move_to_ready
  enqueue-SameTasks s t = record {
    procs = λ p. refl;
    owners = λ p. ground arith;
    levels = λ p. ground arith;
  }

  threads-same : (m m' : Machine) (ks : List ℕ) → SameTasks m m' → threads m' ks ≡ threads m ks
  threads-same m m' [] s = refl
  threads-same m m' (k ∷ ks) s = rw (threads-same m m' ks s, s.procs k)

  enqueued-same :
      (m m' : Machine) (ts : List ℕ) (q : Queues)
      → SameTasks m m'
      → enqueued m' ts q ≡ enqueued m ts q
  enqueued-same m m' [] q s = refl
  enqueued-same m m' (t ∷ ts) q s =
      rw (enqueued-same m m' ts (push (m'.tcb t).sched_ctx.priority t q) s, s.levels t)

  -- The loop over the tasks appends their threads in order.
  enqueue_tasks-IsReady :
      (tasks : List ℕ) (s : Rr) (q : Queues)
      → IsReady ready_queue s q
      → AreFresh s.machine q (threads s.machine tasks)
      → Distinct (threads s.machine tasks)
      → IsReady ready_queue
          (enqueue_tasks ready_queue tasks s)
          (enqueued s.machine (threads s.machine tasks) q)
  unfolding enqueue_tasks
  enqueue_tasks-IsReady [] s q r f d = r
  enqueue_tasks-IsReady (k ∷ ks) s q r (th, u, f) d =
      let t = (s.machine.proc k).threads in
      let s1 = rr_enqueue ready_queue t s in
      let same = enqueue-SameTasks s t in
      let q1 = push (s.machine.tcb t).sched_ctx.priority t q in
      let names = threads-same s.machine s1.machine ks same in
      subst (IsReady ready_queue (enqueue_tasks ready_queue ks s1))
        (ap (λ ts. enqueued s1.machine ts q1) names
          ∙ enqueued-same s.machine s1.machine (threads s.machine ks) q1 same)
        (enqueue_tasks-IsReady ks s1 q1 (enqueue-IsReady ready_queue s q t r th u)
          (subst (AreFresh s1.machine q1) (sym names) (
            AreFresh-same s.machine s1.machine q1 (threads s.machine ks) same
              (AreFresh-push s.machine q _ t (threads s.machine ks) d.0 f)))
          (subst Distinct (sym names) d.1))

  enqueue_tasks-proc :
      (tasks : List ℕ) (s : Rr)
      → (enqueue_tasks ready_queue tasks s).machine.current_proc ≡ s.machine.current_proc
  unfolding enqueue_tasks rr_enqueue rr_move_to_ready
  enqueue_tasks-proc [] s = refl
  enqueue_tasks-proc (k ∷ ks) s =
      enqueue_tasks-proc ks (rr_enqueue ready_queue (s.machine.proc k).threads s)

  enqueued-ne : (m : Machine) (ts : List ℕ) (q : Queues) (p : ℕ) → q p ≢ [] → enqueued m ts q p ≢ []
  enqueued-ne m [] q p ne = ne
  enqueued-ne m (t ∷ ts) q p ne =
      enqueued-ne m ts (push (m.tcb t).sched_ctx.priority t q) p (push-ne q _ p t ne)

  -- Of the threads in their queues the first of the first level runs, and the others wait.
  abbrev pub Started : Option (ℕ × ℕ × Queues) → Rr → Type 0
  Started none s' = ⊥
  Started (some (l, t, q')) s' = (s'.current_thread ≡ t) × IsRunning ready_queue s' q'

  Started-of :
      (s : Rr) (q : Queues) (p : ℕ) (o : Option (ℕ × ℕ × Queues)) (r : ℕ × Rr)
      → q p ≢ []
      → p < 16
      → IsLoaded s.machine
      → IsPopped 0 16 q o
      → IsFetched ready_queue s q o r
      → let s' = r.1 in
        Started o
          (record s' { current_thread = r.0; machine = native_select_thread r.0 s'.machine })
  Started-of s q p none r ne small load pop f = absurd (ne (pop p (omega arith) (omega arith)))
  Started-of s q p (some (l, t, q')) (ret, s') ne small load pop (ret_eq, ready, u, w, s'_eq) =
      let machine_eq : s.machine ≡ s'.machine = ap (λ c. c.machine) (sym s'_eq) in
      rw ret_eq (
        refl,
        select-IsRunning ready_queue s' q' l t ready u (subst (λ m. IsWaiting m l t) machine_eq w)
            (subst IsLoaded machine_eq load) s'.current_sched_ctx,
      )

  -- With at least one task, no process selected yet, and the tasks' first threads all different
  -- objects outside the queues, `rr_init` establishes the scheduler's invariant: each thread waits
  -- at its priority in the order of the tasks, but for the first of the first level, which runs.
  pub init-IsRunning :
      (s : Rr) (task : ℕ) (tasks : List ℕ)
      → s.machine.current_proc ≡ 0
      → AreFresh s.machine (λ i. []) (threads s.machine (task ∷ tasks))
      → Distinct (threads s.machine (task ∷ tasks))
      → Started
          (pop_from 16 0 (enqueued s.machine (threads s.machine (task ∷ tasks)) (λ i. [])))
          (rr_init ready_queue (task ∷ tasks) s)
  unfolding rr_init
  init-IsRunning s task tasks unselected f d =
      let s0 = record s { links = init_queues ready_queue 16 0 s.links } in
      let s1 = enqueue_tasks ready_queue (task ∷ tasks) s0 in
      let t = (s.machine.proc task).threads in
      let q1 = enqueued s.machine (threads s.machine (task ∷ tasks)) (λ i. []) in
      let start : IsReady ready_queue s0 (λ i. []) = record {
        queues = init-AreQueues s.links;
        waiting = λ i x lt h. cc;
      } in
      let ready : IsReady ready_queue s1 q1 =
        enqueue_tasks-IsReady (task ∷ tasks) s0 (λ i. []) start f d in
      Started-of s1 q1 (s.machine.tcb t).sched_ctx.priority (pop_from 16 0 q1)
        (rr_get_next_ready ready_queue s1)
        (enqueued-ne s.machine (threads s.machine tasks)
          (push (s.machine.tcb t).sched_ctx.priority t (λ i. [])) _
          (push_self-ne ready_queue (λ i. []) _ t))
        f.0.level (λ ne. absurd (ne (enqueue_tasks-proc (task ∷ tasks) s0 ∙ unselected)))
        (pop_from-IsPopped 16 0 q1) (get_next-IsFetched ready_queue s1 q1 ready)
