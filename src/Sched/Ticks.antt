-- ===== src/Sched/Ticks.antt =====
-- `rr_tick_handler` of kern/sched_rr.c: what one tick of the clock does, and a run of ticks.
use mathlib.Core.Path.{subst}
use mugo.Base.{
  ap, ℕ, ◌*◌, ◌-◌, ◌<◌, ◌≤◌, ◌≡◌, ◌≢◌, refl, ◌∙◌, List, [], ◌∷◌, arith, inl, inr, ◌==◌, Bool-cases,
  length,
}
use mugo.Thread.{Machine, IrqContext, arch_update_exec_ctx}
use mugo.Thread.Context.{Runs, Saved, update-Saved, update-sched, update-Runs}
use mugo.Sched.{Rr, sched_tick_nsec, time_sub_nsec, write_sched, rr_schedule, rr_tick_handler}
use mugo.Sched.Queues.{Queues, push, pop_from}
use mugo.Sched.Threads.{IsReady-quantum}
use mugo.Sched.Schedule.{
  IsRunning, Rotated, quantum, priority, schedule-kept, schedule-keeps, schedule-Rotated,
}

-- The machine after the first statement of the handler, and the state after the second.
abbrev billed : Rr → Machine
billed s =
    let ctx = (s.machine.tcb s.current_thread).sched_ctx in
    write_sched s.current_thread
      (record ctx { quantum_nsec = time_sub_nsec ctx.quantum_nsec sched_tick_nsec }) s.machine

abbrev charged : IrqContext → Rr → Rr
charged irq s = record s { machine = arch_update_exec_ctx irq (billed s) }

charged-same :
    (s : Rr) (irq : IrqContext) (p : ℕ)
    → (((charged irq s).machine.tcb p).proc ≡ (s.machine.tcb p).proc)
      × (((charged irq s).machine.tcb p).sched_ctx.priority ≡ (s.machine.tcb p).sched_ctx.priority)
      × (((charged irq s).machine.tcb p).sched_ctx.state ≡ (s.machine.tcb p).sched_ctx.state)
charged-same s irq p = ground (arith, update-sched (billed s) irq p)

charged-quantum :
    (s : Rr) (irq : IrqContext)
    → quantum (charged irq s) s.current_thread
      ≡ time_sub_nsec (quantum s s.current_thread) sched_tick_nsec
charged-quantum s irq = ground (arith, update-sched (billed s) irq s.current_thread)

billed-Runs : (s : Rr) → Runs s.machine s.current_thread → Runs (billed s) s.current_thread
billed-Runs s r = ground (arith, r)

tick-charged :
    (ready_queue : ℕ) (s : Rr) (irq : IrqContext)
    → s.current_thread ≢ 0
    → rr_tick_handler ready_queue irq s ≡ rr_schedule ready_queue (charged irq s)
unfolding rr_tick_handler
tick-charged ready_queue s irq ne = ground arith

module _ (ready_queue : ℕ) where
  charged-IsRunning :
      (s : Rr) (q : Queues) (irq : IrqContext)
      → IsRunning ready_queue s q
      → IsRunning ready_queue (charged irq s) q
  charged-IsRunning s q irq run =
      let r =
        IsReady-quantum ready_queue (charged irq s).machine run.ready
          (λ p. (charged-same s irq p).0) (λ p. (charged-same s irq p).1)
          (λ p. (charged-same s irq p).2) in
      record {
        ready = record { queues = r.queues; waiting = r.waiting };
        thread = ground (arith, run.thread, charged-same s irq s.current_thread);
        unlinked = run.unlinked;
        runs = update-Runs s.current_thread irq (billed-Runs s run.runs) run.thread.fits;
      }

  charged-Saved :
      (s : Rr) (q : Queues) (irq : IrqContext)
      → IsRunning ready_queue s q
      → Saved irq
          (s.machine.tcb s.current_thread).exec_ctx
          ((charged irq s).machine.tcb s.current_thread).exec_ctx
  charged-Saved s q irq run =
      let saved = update-Saved s.current_thread irq (billed-Runs s run.runs) run.thread.fits in
      ground (arith, saved)

  -- A tick that leaves the current thread time charges one tick to it and saves its registers, and
  -- changes neither the thread that runs nor the queues.
  pub tick-kept :
      (s : Rr) (q : Queues) (irq : IrqContext)
      → IsRunning ready_queue s q
      → sched_tick_nsec < quantum s s.current_thread
      → let s' = rr_tick_handler ready_queue irq s in
        (s'.current_thread ≡ s.current_thread)
        × (quantum s' s.current_thread ≡ quantum s s.current_thread - sched_tick_nsec)
        × Saved irq
            (s.machine.tcb s.current_thread).exec_ctx
            (s'.machine.tcb s.current_thread).exec_ctx
        × IsRunning ready_queue s' q
  tick-kept s q irq run lt =
      rw
        (
          tick-charged ready_queue s irq run.thread.nonnull,
          schedule-kept ready_queue (charged irq s) time_left,
        )
        (
          refl,
          charged-quantum s irq ∙ left,
          charged-Saved s q irq run,
          charged-IsRunning s q irq run,
        )
    where
      left :
          time_sub_nsec (quantum s s.current_thread) sched_tick_nsec
          ≡ quantum s s.current_thread - sched_tick_nsec
      left = unfold time_sub_nsec in (ground arith)

      time_left : quantum (charged irq s) s.current_thread ≢ 0
      time_left = ground (arith, charged-quantum s irq, left)

  -- Under the scheduler's invariant, a tick that uses the current thread's time up saves nine of its
  -- registers and rotates: its eip, esp, eflags, eax, ebx, ecx, edx, edi and esi become those of the
  -- interrupt frame, ebp and the segment registers stay what they were, the thread goes to the end
  -- of its queue, and the first thread of the first queue that is not empty runs.
  pub tick-Rotated :
      (s : Rr) (q : Queues) (irq : IrqContext)
      → IsRunning ready_queue s q
      → quantum s s.current_thread ≤ sched_tick_nsec
      → let s' = rr_tick_handler ready_queue irq s in
        Rotated ready_queue
          (priority s s.current_thread)
          (pop_from 16 0 (push (priority s s.current_thread) s.current_thread q))
          s'
        × Saved irq
            (s.machine.tcb s.current_thread).exec_ctx
            (s'.machine.tcb s.current_thread).exec_ctx
  tick-Rotated s q irq run le = rw (tick-charged ready_queue s irq run.thread.nonnull) (
    (subst
        (λ p.
          Rotated ready_queue p (pop_from 16 0 (push p s.current_thread q))
            (rr_schedule ready_queue (charged irq s)))
        (charged-same s irq s.current_thread).1
        (schedule-Rotated ready_queue (charged irq s) q (charged-IsRunning s q irq run)
          (charged-quantum s irq ∙ used))),
    rw (schedule-keeps ready_queue (charged irq s) s.current_thread).0 (charged-Saved s q irq run),
  )
    where
      used : time_sub_nsec (quantum s s.current_thread) sched_tick_nsec ≡ 0
      used = unfold time_sub_nsec in (ground arith)

  -- A run of ticks, first to last.
  abbrev pub ticks : List IrqContext → Rr → Rr
  ticks [] s = s
  ticks (irq ∷ irqs) s = ticks irqs (rr_tick_handler ready_queue irq s)

  -- A thread keeps the processor for as many ticks as leave it time.
  pub ticks-kept :
      (irqs : List IrqContext) (s : Rr) (q : Queues)
      → IsRunning ready_queue s q
      → length irqs * sched_tick_nsec < quantum s s.current_thread
      → ((ticks irqs s).current_thread ≡ s.current_thread)
        × (quantum (ticks irqs s) s.current_thread
            ≡ quantum s s.current_thread - length irqs * sched_tick_nsec)
        × IsRunning ready_queue (ticks irqs s) q
  ticks-kept [] s q run lt = (refl, omega arith, run)
  ticks-kept (irq ∷ irqs) s q run lt =
      let (same, left, saved, run') = tick-kept s q irq run (omega arith) in
      let s' = rr_tick_handler ready_queue irq s in
      let left' : quantum s' s'.current_thread ≡ quantum s s.current_thread - sched_tick_nsec =
        rw same left in
      let (same', rest, run'') = ticks-kept irqs s' q run' (omega (arith, left')) in
      (
        same' ∙ same,
        subst (λ c. quantum (ticks irqs s') c ≡ quantum s' c - length irqs * sched_tick_nsec) same
              rest
            ∙ omega (arith, left),
        run'',
      )

  -- Before there is a current thread a tick does nothing.
  tick-idle :
      (s : Rr) (irq : IrqContext) → s.current_thread ≡ 0 → rr_tick_handler ready_queue irq s ≡ s
  unfolding rr_tick_handler
  tick-idle s irq e = ground arith

  charged_le : (s : Rr) (irq : IrqContext) (t : ℕ) → quantum (charged irq s) t ≤ quantum s t
  unfolding time_sub_nsec
  charged_le s irq t = ground (arith, update-sched (billed s) irq t)

  pub tick_le :
      (s : Rr) (irq : IrqContext) (t : ℕ)
      → quantum (rr_tick_handler ready_queue irq s) t ≤ quantum s t
  tick_le s irq t = elim (Bool-cases (s.current_thread == 0)) [
    | inl e ↦ omega (arith, ap (λ c. quantum c t) (tick-idle s irq (ground arith)))
    | inr e ↦ omega (
      arith,
      ap (λ c. quantum c t) (tick-charged ready_queue s irq (ground arith)),
      (schedule-keeps ready_queue (charged irq s) t).1,
      charged_le s irq t,
    )
  ]

  -- No tick changes a priority.
  pub tick-priority :
      (s : Rr) (irq : IrqContext) (t : ℕ)
      → priority (rr_tick_handler ready_queue irq s) t ≡ priority s t
  tick-priority s irq t = elim (Bool-cases (s.current_thread == 0)) [
    | inl e ↦ ap (λ c. priority c t) (tick-idle s irq (ground arith))
    | inr e ↦
        ap (λ c. priority c t) (tick-charged ready_queue s irq (ground arith))
        ∙ (schedule-keeps ready_queue (charged irq s) t).2
        ∙ (charged-same s irq t).1
  ]

  -- No tick ever gives a thread time back: a quantum that is used up stays used up.
  pub ticks-quantum_le :
      (irqs : List IrqContext) (s : Rr) (t : ℕ) → quantum (ticks irqs s) t ≤ quantum s t
  ticks-quantum_le [] s t = omega arith
  ticks-quantum_le (irq ∷ irqs) s t =
      omega (arith, tick_le s irq t, ticks-quantum_le irqs (rr_tick_handler ready_queue irq s) t)
