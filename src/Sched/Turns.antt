-- ===== src/Sched/Turns.antt =====
-- The ticks of kern/sched_rr.c over time: every thread that waits at the first level in use gets
-- its turn.
use native.Mathlib.Decide.{dec_le}
use mathlib.Core.List.{append_assoc}
use mathlib.Core.Path.{subst, subst₂}
use mugo.Base.{
  ap, true, ℕ, zero, suc, ◌+◌, ◌*◌, ◌/◌, ◌<◌, ◌≤◌, ◌≡◌, refl, sym, ◌∙◌, Option, none, some, List,
  [], ◌∷◌, ◌++◌, arith,
}
use mugo.Links.Ring.{has}
use mugo.Thread.{IrqContext}
use mugo.Sched.{Rr, sched_tick_nsec, rr_tick_handler}
use mugo.Sched.Queues.{Queues, push, replace, pop_from, IsPopped, pop_from-IsPopped}
use mugo.Sched.Schedule.{IsRunning, Rotated, quantum, priority}
use mugo.Sched.Ticks.{tick-kept, tick-Rotated, tick-priority, tick_le}

abbrev pub Frames : Type 0
Frames = ℕ → IrqContext

abbrev later : Frames → Frames
later irq i = irq (suc i)

abbrev skip : ℕ → Frames → Frames
skip zero irq = irq
skip (suc m) irq = skip m (later irq)

-- The most ticks that the threads can use, each until its time is up.
abbrev pub longest : Rr → List ℕ → ℕ
longest s [] = 0
longest s (t ∷ ts) = quantum s t / sched_tick_nsec + 1 + longest s ts

module _ (ready_queue : ℕ) where
  -- The first `n` ticks of a sequence.
  abbrev pub after : ℕ → Frames → Rr → Rr
  after zero irq s = s
  after (suc n) irq s = after n (later irq) (rr_tick_handler ready_queue (irq 0) s)

  -- Only the first level that is not empty is served.
  popped-front :
      (q : Queues) (p x prio : ℕ) (rest : List ℕ) (s : Rr) (o : Option (ℕ × ℕ × Queues))
      → p < 16
      → ((j : ℕ) → j < p → q j ≡ [])
      → q p ≡ x ∷ rest
      → IsPopped 0 16 q o
      → Rotated ready_queue prio o s
      → (s.current_thread ≡ x) × IsRunning ready_queue s (replace p rest q)
  popped-front q p x prio rest s none small empty front popped rotated = absurd rotated
  popped-front q p x prio rest s (some (l, t, q')) small empty front popped rotated =
      let not_before : ¬ (l < p) = λ lt. cc (empty l lt, popped.front) in
      let not_behind : ¬ (p < l) = λ lt. cc (popped.before p (omega arith) lt, front) in
      let same : l ≡ p = omega arith in
      let fronts : (t ∷ popped.rest) ≡ (x ∷ rest) = sym popped.front ∙ ap q same ∙ front in
      let (first, rest_eq) : (t ≡ x) × (popped.rest ≡ rest) = ground (arith, fronts) in
      let left : q' ≡ replace p rest q =
        popped.replaced
        ∙ ap (λ l. replace l popped.rest q) same
        ∙ ap (λ r. replace p r q) rest_eq in
      (rotated.0 ∙ first, subst (IsRunning ready_queue s) left rotated.2)

  -- Within its time and one tick the current thread is switched away from.
  turn :
      (k : ℕ) (s : Rr) (q : Queues) (irq : Frames)
      → IsRunning ready_queue s q
      → quantum s s.current_thread ≤ (k + 1) * sched_tick_nsec
      → (n : ℕ) × (n ≤ k)
        × Rotated ready_queue
            (priority s s.current_thread)
            (pop_from 16 0 (push (priority s s.current_thread) s.current_thread q))
            (after (suc n) irq s)
  turn zero s q irq run le =
      (0, omega arith, (tick-Rotated ready_queue s q (irq 0) run (omega arith)).0)
  turn (suc k) s q irq run le = elim (dec_le (quantum s s.current_thread) sched_tick_nsec) [
    | yes small ↦ (0, omega arith, (tick-Rotated ready_queue s q (irq 0) run small).0)
    | no big ↦
        let s1 = rr_tick_handler ready_queue (irq 0) s in
        let (same, left, saved, run1) = tick-kept ready_queue s q (irq 0) run (omega arith) in
        let left1 : quantum s1 s1.current_thread ≤ (k + 1) * sched_tick_nsec =
          subst (λ c. quantum s1 c ≤ (k + 1) * sched_tick_nsec) (sym same) (omega (arith, left)) in
        let level : priority s1 s1.current_thread ≡ priority s s.current_thread =
          ap (priority s1) same ∙ tick-priority ready_queue s (irq 0) s.current_thread in
        let (n, n_le, rotated) = turn k s1 q (later irq) run1 left1 in
        (
          suc n,
          omega arith,
          subst₂
              (λ p c.
                Rotated ready_queue p (pop_from 16 0 (push p c q)) (after (suc n) (later irq) s1))
              level same rotated,
        )
  ]

  after-quantum_le :
      (n : ℕ) (irq : Frames) (s : Rr) (t : ℕ) → quantum (after n irq s) t ≤ quantum s t
  after-quantum_le zero irq s t = omega arith
  after-quantum_le (suc n) irq s t = omega (
    arith,
    tick_le ready_queue s (irq 0) t,
    after-quantum_le n (later irq) (rr_tick_handler ready_queue (irq 0) s) t,
  )

  after-priority :
      (n : ℕ) (irq : Frames) (s : Rr) (t : ℕ) → priority (after n irq s) t ≡ priority s t
  after-priority zero irq s t = refl
  after-priority (suc n) irq s t =
      after-priority n (later irq) (rr_tick_handler ready_queue (irq 0) s) t
      ∙ tick-priority ready_queue s (irq 0) t

  after-add :
      (m n : ℕ) (irq : Frames) (s : Rr) → after (m + n) irq s ≡ after n (skip m irq) (after m irq s)
  after-add zero n irq s = ap (λ k. after k irq s) {x = 0 + n} {y = n} (omega arith)
  after-add (suc m) n irq s =
      ap (λ k. after k irq s) {x = suc m + n} {y = suc (m + n)} (omega arith)
      ∙ after-add m n (later irq) (rr_tick_handler ready_queue (irq 0) s)

  longest_le :
      (ts : List ℕ) (s s' : Rr)
      → ((t : ℕ) → quantum s' t ≤ quantum s t)
      → longest s' ts ≤ longest s ts
  longest_le [] s s' le = omega arith
  longest_le (t ∷ ts) s s' le = omega (arith, le t, longest_le ts s s' le)

  -- After its turn the current thread is behind the threads of its level, and the first of these
  -- runs.
  next-turn :
      (s : Rr) (q : Queues) (irq : Frames) (p x : ℕ) (rest : List ℕ)
      → IsRunning ready_queue s q
      → priority s s.current_thread ≡ p
      → ((j : ℕ) → j < p → q j ≡ [])
      → q p ≡ x ∷ rest
      → (n : ℕ) × (n ≤ quantum s s.current_thread / sched_tick_nsec)
        × ((after (suc n) irq s).current_thread ≡ x)
        × IsRunning ready_queue
            (after (suc n) irq s)
            (replace p (rest ++ (s.current_thread ∷ [])) (push p s.current_thread q))
  next-turn s q irq p x rest run level empty front =
      let c = s.current_thread in
      let (n, n_le, rotated) = turn (quantum s c / sched_tick_nsec) s q irq run (omega arith) in
      let before : (j : ℕ) → j < p → push p c q j ≡ [] = λ j lt. ground (arith, empty j lt) in
      let at : push p c q p ≡ (x ∷ rest) ++ (c ∷ []) = ground (arith, front) in
      let (first, run') =
        popped-front (push p c q) p x p (rest ++ (c ∷ [])) (after (suc n) irq s)
          (pop_from 16 0 (push p c q)) (subst (λ p. p < 16) level run.thread.level) before at
          (pop_from-IsPopped 16 0 (push p c q))
          (subst (λ p. Rotated ready_queue p (pop_from 16 0 (push p c q)) (after (suc n) irq s))
            level rotated) in
      (n, n_le, first, run')

  -- A thread that waits at the level of the one that runs, with no thread waiting at a level before
  -- it, runs after at most as many ticks as the current thread and those in front of it can use,
  -- whatever the frames of the interrupts.
  pub waiting-served :
      (front : List ℕ) (s : Rr) (q : Queues) (irq : Frames) (p t : ℕ) (back : List ℕ)
      → IsRunning ready_queue s q
      → priority s s.current_thread ≡ p
      → ((j : ℕ) → j < p → q j ≡ [])
      → q p ≡ front ++ (t ∷ back)
      → (n : ℕ) × (n ≤ longest s (s.current_thread ∷ front)) × ((after n irq s).current_thread ≡ t)
  waiting-served [] s q irq p t back run level empty place =
      let (n, n_le, first, run') = next-turn s q irq p t back run level empty place in
      (suc n, omega (arith, n_le), first)
  waiting-served (x ∷ front) s q irq p t back run level empty place =
      let c = s.current_thread in
      let (n, n_le, first, run') =
        next-turn s q irq p x (front ++ (t ∷ back)) run level empty place in
      let s1 = after (suc n) irq s in
      let q1 = replace p ((front ++ (t ∷ back)) ++ (c ∷ [])) (push p c q) in
      let level1 : priority s1 s1.current_thread ≡ p =
        let waits : has x (q p) ≡ true = rw place (ground arith) in
        let small : p < 16 = subst (λ p. p < 16) level run.thread.level in
        ap (priority s1) first
        ∙ after-priority (suc n) irq s x
        ∙ (run.ready.waiting p x small waits).priority in
      let empty1 : (j : ℕ) → j < p → q1 j ≡ [] = λ j lt. ground (arith, empty j lt) in
      let place1 : q1 p ≡ front ++ (t ∷ (back ++ (c ∷ []))) =
        let moved : q1 p ≡ (front ++ (t ∷ back)) ++ (c ∷ []) = ground arith in
        moved ∙ append_assoc front (t ∷ back) (c ∷ []) in
      let (n', n_le', got) =
        waiting-served front s1 q1 (skip (suc n) irq) p t (back ++ (c ∷ [])) run' level1 empty1
          place1 in
      (
        suc n + n',
        omega (
          arith,
          n_le,
          n_le',
          ap (λ x. longest s (x ∷ front)) first,
          longest_le (s1.current_thread ∷ front) s s1 (λ t. after-quantum_le (suc n) irq s t),
        ),
        ap (λ s. s.current_thread) (after-add (suc n) n' irq s) ∙ got,
      )
