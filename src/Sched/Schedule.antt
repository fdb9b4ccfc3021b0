-- ===== src/Sched/Schedule.antt =====
-- `rr_schedule` of kern/sched_rr.c: when it switches, to which thread, and what it keeps true.
use mugo.Base.{
  ap, ℕ, ◌<◌, ◌≤◌, ◌≡◌, ◌≢◌, refl, sym, ◌∙◌, Option, none, some, List, [], ◌∷◌, ◌++◌, arith, inl,
  inr, ◌==◌, if◌then◌else◌, Bool-cases,
}
use native.Mathlib.Decide.{dec_lt}
use mathlib.Core.Path.{subst, subst₂}
use mugo.Thread.{Machine, native_select_thread}
use mugo.Thread.Context.{Runs, IsLoaded, select-Runs, select-tcb}
use mugo.Sched.{Rr, rr_move_to_ready, rr_get_next_ready, rr_schedule, switch_to}
use mugo.Sched.Queues.{Queues, push, pop_from, IsPopped, pop_from-IsPopped}
use mugo.Sched.Ready.{IsUnlinked}
use mugo.Sched.Threads.{
  IsThread, IsWaiting, IsReady, IsFetched, IsReady-quantum, move-IsReady, get_next-IsFetched,
}

abbrev pub quantum : Rr → ℕ → ℕ
quantum s t = (s.machine.tcb t).sched_ctx.quantum_nsec

abbrev pub priority : Rr → ℕ → ℕ
priority s t = (s.machine.tcb t).sched_ctx.priority

module _ (ready_queue : ℕ) where
  -- The scheduler runs a thread that is in no queue, and the others wait in `q`.
  pub record IsRunning (s : Rr) (q : Queues) : Type 0 where
    pub ready : IsReady ready_queue s q
    pub thread : IsThread s.machine s.current_thread
    pub unlinked : IsUnlinked ready_queue q s.current_thread
    pub runs : Runs s.machine s.current_thread

  -- While the current thread has time left, `rr_schedule` changes nothing.
  pub schedule-kept : (s : Rr) → quantum s s.current_thread ≢ 0 → rr_schedule ready_queue s ≡ s
  unfolding rr_schedule
  schedule-kept s ne = ground arith

  -- The thread that the abstract queues give next runs, at a level no later than that of the
  -- thread that ran, and the rest wait.
  abbrev pub Rotated : ℕ → Option (ℕ × ℕ × Queues) → Rr → Type 0
  Rotated prio none s' = ⊥
  Rotated prio (some (l, t, q')) s' = (s'.current_thread ≡ t) × (l ≤ prio) × IsRunning s' q'

  pub push_self-ne : (q : Queues) (p t : ℕ) → push p t q p ≢ []
  push_self-ne q p t e = snoc-ne (q p) (if_same p (q p ++ (t ∷ [])) (q p) ∙ e)
    where
      snoc-ne : (ts : List ℕ) → ts ++ (t ∷ []) ≢ []
      snoc-ne [] e = cc
      snoc-ne (x ∷ ts) e = cc

      if_same : (p : ℕ) (xs ys : List ℕ) → xs ≡ (if p == p then xs else ys)
      if_same p xs ys = ground arith

  pub select-IsRunning :
      (s : Rr) (q : Queues) (l t : ℕ)
      → IsReady ready_queue s q
      → IsUnlinked ready_queue q t
      → IsWaiting s.machine l t
      → IsLoaded s.machine
      → (ctx : ℕ)
      → IsRunning
          (record s {
            machine = native_select_thread t s.machine;
            current_thread = t;
            current_sched_ctx = ctx;
          })
          q
  select-IsRunning s q l t r u w load ctx =
      let (runs, same, procs) = select-Runs t s.machine load w.thread.owned in
      let m = native_select_thread t s.machine in
      let at : (p : ℕ) → m.tcb p ≡ s.machine.tcb p = λ p i. same i p in
      record {
        ready =
            let r' =
              IsReady-quantum ready_queue m r (λ p. ap (λ c. c.proc) (at p))
                (λ p. ap (λ c. c.sched_ctx.priority) (at p))
                (λ p. ap (λ c. c.sched_ctx.state) (at p)) in
            record { queues = r'.queues; waiting = r'.waiting };
        thread = ground (arith, w.thread, at t);
        unlinked = u;
        runs = runs;
      }

  Runs-IsLoaded : (m : Machine) (t : ℕ) → Runs m t → IsLoaded m
  Runs-IsLoaded m t r ne = r.directory ∙ ap (λ p. (m.proc p).page_dir) (sym r.process)

  switch-IsRunning :
      (s : Rr) (q : Queues) (l t : ℕ)
      → IsReady ready_queue s q
      → IsUnlinked ready_queue q t
      → IsWaiting s.machine l t
      → Runs s.machine s.current_thread
      → ((switch_to ready_queue t s).current_thread ≡ t) × IsRunning (switch_to ready_queue t s) q
  switch-IsRunning s q l t r u w runs = elim (Bool-cases (t == s.current_thread)) [
    | inl e ↦
        let same : s.current_thread ≡ t = ground arith in
        rw e (
          same,
          record {
            ready = r;
            thread = subst (IsThread s.machine) (sym same) w.thread;
            unlinked = subst (IsUnlinked ready_queue q) (sym same) u;
            runs = runs;
          },
        )
    | inr e ↦
        rw e
          (refl, select-IsRunning s q l t r u w (Runs-IsLoaded s.machine s.current_thread runs) _)
  ]

  move-Runs :
      (s : Rr)
      → Runs s.machine s.current_thread
      → let s1 = rr_move_to_ready ready_queue s.current_thread s in
        Runs s1.machine s1.current_thread
  unfolding rr_move_to_ready
  move-Runs s r = ground (arith, r)

  Rotated-of :
      (s : Rr) (q : Queues) (prio : ℕ) (o : Option (ℕ × ℕ × Queues)) (r : ℕ × Rr)
      → q prio ≢ []
      → prio < 16
      → Runs s.machine s.current_thread
      → IsPopped 0 16 q o
      → IsFetched ready_queue s q o r
      → Rotated prio o (switch_to ready_queue r.0 r.1)
  Rotated-of s q prio none r ne small runs p f = absurd (ne (p prio (omega arith) (omega arith)))
  Rotated-of s q prio (some (l, t, q')) (ret, s') ne small runs p (ret_eq, ready, u, w, s'_eq) =
      let machine_eq : s.machine ≡ s'.machine = ap (λ c. c.machine) (sym s'_eq) in
      let cur_eq : s.current_thread ≡ s'.current_thread = ap (λ c. c.current_thread) (sym s'_eq) in
      let (got, run) =
        switch-IsRunning s' q' l t ready u (subst (λ m. IsWaiting m l t) machine_eq w)
          (subst₂ Runs machine_eq cur_eq runs) in
      rw ret_eq (got, level, run)
    where
      level : l ≤ prio
      level = elim (dec_lt prio l) [
        | yes lt ↦ absurd (ne (p.before prio (omega arith) lt))
        | no ge ↦ omega arith
      ]

  -- When its time is up, the current thread goes to the end of its queue, and the first thread of
  -- the first queue that is not empty runs. There always is one, so the ASSERT holds.
  pub schedule-Rotated :
      (s : Rr) (q : Queues)
      → IsRunning s q
      → quantum s s.current_thread ≡ 0
      → Rotated
          (priority s s.current_thread)
          (pop_from 16 0 (push (priority s s.current_thread) s.current_thread q))
          (rr_schedule ready_queue s)
  unfolding rr_schedule
  schedule-Rotated s q run expired =
      let p = priority s s.current_thread in
      let s1 = rr_move_to_ready ready_queue s.current_thread s in
      let q1 = push p s.current_thread q in
      let r1 =
        move-IsReady ready_queue s q s.current_thread p run.ready run.thread refl run.unlinked in
      rw expired (
        Rotated-of s1 q1 p (pop_from 16 0 q1) (rr_get_next_ready ready_queue s1)
          (push_self-ne q p s.current_thread) run.thread.level (move-Runs s run.runs)
          (pop_from-IsPopped 16 0 q1) (get_next-IsFetched ready_queue s1 q1 r1))

  -- Registers, quantum and priority of a thread.
  abbrev Keeps : Rr → Rr → ℕ → Type 0
  Keeps s s' p =
      ((s'.machine.tcb p).exec_ctx ≡ (s.machine.tcb p).exec_ctx)
      × (quantum s' p ≡ quantum s p)
      × (priority s' p ≡ priority s p)

  switch-Keeps : (s : Rr) (t p : ℕ) → Keeps s (switch_to ready_queue t s) p
  switch-Keeps s t p = elim (Bool-cases (t == s.current_thread)) [
    | inl e ↦ rw e (refl, refl, refl)
    | inr e ↦ rw e (ground (arith, select-tcb t s.machine p))
  ]

  next-Keeps : (s : Rr) (p : ℕ) → Keeps s (rr_get_next_ready ready_queue s).1 p
  unfolding rr_get_next_ready
  next-Keeps s p = (refl, refl, refl)

  move-Keeps : (s : Rr) (t p : ℕ) → Keeps s (rr_move_to_ready ready_queue t s) p
  unfolding rr_move_to_ready
  move-Keeps s t p = ground arith

  Keeps-trans : (s1 s2 s3 : Rr) (p : ℕ) → Keeps s1 s2 p → Keeps s2 s3 p → Keeps s1 s3 p
  Keeps-trans s1 s2 s3 p k k' = (k'.0 ∙ k.0, k'.1 ∙ k.1, k'.2 ∙ k.2)

  -- Whatever it does, `rr_schedule` writes to no thread's saved registers, quantum or priority.
  pub schedule-keeps :
      (s : Rr) (p : ℕ)
      → (((rr_schedule ready_queue s).machine.tcb p).exec_ctx ≡ (s.machine.tcb p).exec_ctx)
        × (quantum (rr_schedule ready_queue s) p ≡ quantum s p)
        × (priority (rr_schedule ready_queue s) p ≡ priority s p)
  unfolding rr_schedule
  schedule-keeps s p = elim (Bool-cases (quantum s s.current_thread == 0)) [
    | inl e ↦
        let s1 = rr_move_to_ready ready_queue s.current_thread s in
        let (next, s2) = rr_get_next_ready ready_queue s1 in
        rw e (
          Keeps-trans s s1 (switch_to ready_queue next s2) p (move-Keeps s s.current_thread p) (
            Keeps-trans s1 s2 (switch_to ready_queue next s2) p (next-Keeps s1 p)
              (switch-Keeps s2 next p)))
    | inr e ↦ rw e (switch-Keeps s s.current_thread p)
  ]
