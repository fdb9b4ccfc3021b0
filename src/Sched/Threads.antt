-- ===== src/Sched/Threads.antt =====
-- The threads that wait in the ready queues of kern/sched_rr.c, and how `rr_move_to_ready`,
-- `rr_enqueue` and `rr_get_next_ready` change the queues.
use mugo.Base.{
  ◌∙◌, ap, ℕ, ◌+◌, ◌<◌, ◌^◌, ◌≡◌, ◌≢◌, refl, Bool, true, false, ◌||◌, Option, none, some, List, [],
  ◌∷◌, map, arith, ◌⊎◌, inl, inr, ◌==◌, Bool-cases,
}
use mugo.Links.{Links}
use mugo.Links.Ring.{has, has-append, IsRing}
use mugo.Thread.{Machine, sizeof_tcb}
use mugo.Sched.{
  Rr, queue_head, list_of, thread_ready, rr_move_to_ready, rr_get_next_ready, rr_enqueue,
  write_sched, rr_quant_from_prio,
}
use mugo.Sched.Queues.{Queues, push, replace, pop_from, IsPopped, pop_from-IsPopped}
use mugo.Sched.Ready.{AreQueues, headers, IsUnlinked, add-AreQueues}
use mugo.Sched.Next.{IsNext, get_next_from-IsNext, list_data-list_of}

-- A thread object: it lies within the address space, has a process, and a priority that has a
-- queue.
pub record IsThread (m : Machine) (t : ℕ) : Type 0 where
  pub nonnull : t ≢ 0
  pub fits : t + sizeof_tcb < 2 ^ 32
  pub owned : (m.tcb t).proc ≢ 0
  pub level : (m.tcb t).sched_ctx.priority < 16

pub record IsWaiting (m : Machine) (i t : ℕ) : Type 0 where
  pub thread : IsThread m t
  pub priority : (m.tcb t).sched_ctx.priority ≡ i
  pub state : (m.tcb t).sched_ctx.state ≡ thread_ready

has-map : (t : ℕ) (ts : List ℕ) → has t ts ≡ true → has (list_of t) (map list_of ts) ≡ true
has-map t [] h = cc
has-map t (s ∷ ts) h = ground (arith, has-map t ts)

pub or_none : {a b : Bool} → a ≡ false → b ≡ false → (a || b) ≡ false
or_none p q = rw (p, q)

module _ (ready_queue : ℕ) where
  pub record IsReady (s : Rr) (q : Queues) : Type 0 where
    pub queues : AreQueues ready_queue s.links q
    pub waiting : (i t : ℕ) → i < 16 → has t (q i) ≡ true → IsWaiting s.machine i t

  -- The queues do not read a thread's quantum.
  pub IsReady-quantum :
      {s : Rr} {q : Queues} (m : Machine)
      → IsReady s q
      → ((p : ℕ) → (m.tcb p).proc ≡ (s.machine.tcb p).proc)
      → ((p : ℕ) → (m.tcb p).sched_ctx.priority ≡ (s.machine.tcb p).sched_ctx.priority)
      → ((p : ℕ) → (m.tcb p).sched_ctx.state ≡ (s.machine.tcb p).sched_ctx.state)
      → IsReady (record s { machine = m }) q
  IsReady-quantum m r proc prio state = record {
    queues = r.queues;
    waiting = λ i t lt h.
        let w = r.waiting i t lt h in
        record {
          thread = record {
            nonnull = w.thread.nonnull;
            fits = w.thread.fits;
            owned = rw (proc t) w.thread.owned;
            level = rw (prio t) w.thread.level;
          };
          priority = prio t ∙ w.priority;
          state = state t ∙ w.state;
        };
  }

  unlinked-not-has :
      (q : Queues) (i t : ℕ) → i < 16 → IsUnlinked ready_queue q t → has t (q i) ≡ false
  unlinked-not-has q i t lt u = elim (Bool-cases (has t (q i))) [
    | inl h ↦ ground (arith, u i lt, has-map t (q i) h)
    | inr h ↦ h
  ]

  has-push :
      (q : Queues) (p c i t : ℕ)
      → has t (push p c q i) ≡ true
      → (has t (q i) ≡ true) ⊎ ((i ≡ p) × (t ≡ c))
  has-push q p c i t h = ground (arith, has-append t (q i) (c ∷ []))

  -- `rr_move_to_ready` appends the thread to the queue of its priority.
  pub move-IsReady :
      (s : Rr) (q : Queues) (t p : ℕ)
      → IsReady s q
      → IsThread s.machine t
      → (s.machine.tcb t).sched_ctx.priority ≡ p
      → IsUnlinked ready_queue q t
      → IsReady (rr_move_to_ready ready_queue t s) (push p t q)
  unfolding rr_move_to_ready
  move-IsReady s q t p r th e u = record {
    queues = rw e (add-AreQueues ready_queue p t r.queues (ground (arith, th.level)) u);
    waiting = λ i x lt h. elim (has-push q p t i x h) [
      | inl old ↦ ground (arith, r.waiting i x lt old)
      | inr (level, same) ↦ ground arith
    ];
  }

  -- `rr_enqueue` gives the thread its quantum first.
  pub enqueue-IsReady :
      (s : Rr) (q : Queues) (t : ℕ)
      → IsReady s q
      → IsThread s.machine t
      → IsUnlinked ready_queue q t
      → IsReady (rr_enqueue ready_queue t s) (push (s.machine.tcb t).sched_ctx.priority t q)
  unfolding rr_enqueue
  enqueue-IsReady s q t r th u =
      let ctx = (s.machine.tcb t).sched_ctx in
      let m =
        write_sched t (record ctx { quantum_nsec = rr_quant_from_prio ctx.priority }) s.machine in
      move-IsReady (record s { machine = m }) q t ctx.priority
        (IsReady-quantum m r (λ p. ground arith) (λ p. ground arith) (λ p. ground arith))
        (ground arith) (ground arith) u

  headers-of_front :
      (q : Queues) (l t : ℕ) (ts : List ℕ)
      → q l ≡ t ∷ ts
      → has (list_of t) (headers ready_queue q l) ≡ true
  headers-of_front q l t ts e = rw e (ground arith)

  -- A thread that was popped is in no queue.
  popped-IsUnlinked :
      {h : Links} {q : Queues} (l t : ℕ) (ts : List ℕ)
      → AreQueues ready_queue h q
      → l < 16
      → q l ≡ t ∷ ts
      → IsUnlinked ready_queue (replace l ts q) t
  popped-IsUnlinked {h} {q} l t ts a lt e i li = elim (Bool-cases (i == l)) [
    | inl hit ↦ rw hit (or_none (ground (arith, r.distinct.0)) r.distinct.1.0)
    | inr miss ↦ rw miss (other (ground arith))
  ]
    where
      r : IsRing h (queue_head ready_queue l) (list_of t ∷ map list_of ts)
      r = rw e at (a.ring l lt)

      other : i ≢ l → has (list_of t) (headers ready_queue q i) ≡ false
      other ne = elim (Bool-cases (has (list_of t) (headers ready_queue q i))) [
        | inl h ↦ absurd (ne (a.apart i l (list_of t) li lt h (headers-of_front q l t ts e)))
        | inr h ↦ h
      ]

  has_front : (q : Queues) (l t : ℕ) (ts : List ℕ) → q l ≡ t ∷ ts → has t (q l) ≡ true
  has_front q l t ts e = rw e (ground arith)

  has-replace :
      (q : Queues) (l t : ℕ) (ts : List ℕ) (i x : ℕ)
      → q l ≡ t ∷ ts
      → has x (replace l ts q i) ≡ true
      → has x (q i) ≡ true
  has-replace q l t ts i x e = elim (Bool-cases (i == l)) [
    | inl hit ↦ let e' : q i ≡ t ∷ ts = rw (eq i hit) e in rw (hit, e') (λ h. ground arith)
    | inr miss ↦ rw miss (λ h. h)
  ]
    where
      eq : (i : ℕ) → (i == l) ≡ true → i ≡ l
      eq i h = ground arith

  -- What `rr_get_next_ready` returns and leaves, by the abstract pop: NULL and the same state, or
  -- the thread that waits longest at the first level, which is then in no queue.
  abbrev pub IsFetched : Rr → Queues → Option (ℕ × ℕ × Queues) → ℕ × Rr → Type 0
  IsFetched s q none (ret, s') = (ret ≡ 0) × (s' ≡ s)
  IsFetched s q (some (l, t, q')) (ret, s') =
      (ret ≡ t)
      × IsReady s' q'
      × IsUnlinked ready_queue q' t
      × IsWaiting s.machine l t
      × (s' ≡ record s { links = s'.links })

  get_next-IsFetched_of :
      (s : Rr) (q : Queues) (o : Option (ℕ × ℕ × Queues)) (r : ℕ × Links)
      → IsReady s q
      → IsPopped 0 16 q o
      → IsNext ready_queue s.links o r
      → IsFetched s q o (r.0, record s { links = r.1 })
  get_next-IsFetched_of s q none r ready p n = (n.0, ap (λ k. record s { links = k }) n.1)
  get_next-IsFetched_of s q (some (l, t, q')) r ready p n =
      let w = ready.waiting l t p.below (has_front q l t p.rest p.front) in
      (
        n.0 ∙ list_data-list_of t (omega (arith, w.thread.fits)),
        record {
          queues = n.1;
          waiting = λ i x lt h.
              ready.waiting i x lt (has-replace q l t p.rest i x p.front (rw p.replaced at h));
        },
        rw p.replaced (popped-IsUnlinked l t p.rest ready.queues p.below p.front),
        w,
        refl,
      )

  pub get_next-IsFetched :
      (s : Rr) (q : Queues)
      → IsReady s q
      → IsFetched s q (pop_from 16 0 q) (rr_get_next_ready ready_queue s)
  unfolding rr_get_next_ready
  get_next-IsFetched s q r =
      get_next-IsFetched_of s q _ _ r (pop_from-IsPopped 16 0 q)
        (get_next_from-IsNext ready_queue 16 0 r.queues (omega arith))
