-- ===== src/Start/Interrupts.antt =====
-- The timer's interrupts drive the scheduler.
use mugo.Base.{ℕ, ◌≡◌, refl, Option, some, true, List, [], ◌∷◌, ==_iff, ◌==◌, arith}
use mugo.Thread.{IrqContext}
use mugo.Pic.{Io, Device, pic_check_spurious}
use mugo.Interrupt.{Sys, Callbacks, register_interrupt_callback, interrupt_handler}
use mugo.Interrupt.Dispatch.{checked, interrupt-registered}
use mugo.Timer.{Timer, irq0, hwclock_irq_handler, hwclock_init, hwclock_register_callback, advance}
use mugo.Sched.{Rr, rr_init, rr_tick_handler}
use mugo.Sched.Ticks.{ticks}
use mugo.Start.{World, irq0_callback, ktime_init, sched_init, start, interrupts}

-- Interrupts of the timer only.
abbrev pub AllTimer : List IrqContext → Type 0
AllTimer [] = Unit
AllTimer (ctx ∷ ctxs) = (ctx.int_no ≡ irq0) × AllTimer ctxs

module _ (ready_queue : ℕ) (read : Device) (callbacks : Callbacks (Option World)) where
  abbrev wired : Callbacks (Option World)
  wired = register_interrupt_callback irq0 irq0_callback callbacks

  -- The scheduler is in the state `rr` and gets the clock's callback.
  record IsDriven (rr : Rr) (s : Sys (Option World)) : Type 0 where
    clock : Timer Rr
    world_eq : s.world ≡ some record { clock = clock; rr = rr }
    callback_eq : clock.current_callback ≡ some (rr_tick_handler ready_queue)

  hwclock_lem :
      (ctx : IrqContext) (t : Timer Rr) (rr : Rr) (cb : IrqContext → Rr → Rr)
      → t.current_callback ≡ some cb
      → hwclock_irq_handler ctx t rr ≡ some (record t { current_clock = advance t }, cb ctx rr)
  unfolding hwclock_irq_handler
  hwclock_lem ctx t rr cb e = rw e

  irq-IsDriven :
      (ctx : IrqContext) (rr : Rr) (s : Sys (Option World))
      → IsDriven rr s
      → IsDriven (rr_tick_handler ready_queue ctx rr) (irq0_callback ctx s)
  unfolding irq0_callback
  irq-IsDriven ctx rr s driven = record {
    clock = record driven.clock { current_clock = advance driven.clock };
    world_eq =
        rw
          (
            driven.world_eq,
            hwclock_lem ctx driven.clock rr (rr_tick_handler ready_queue) driven.callback_eq,
          )
          refl;
    callback_eq = driven.callback_eq;
  }

  interrupt-IsDriven :
      (ctx : IrqContext) (rr : Rr) (s : Sys (Option World))
      → ((io : Io) → (pic_check_spurious read io).0 ≡ 0)
      → ctx.int_no ≡ irq0
      → IsDriven rr s
      → IsDriven (rr_tick_handler ready_queue ctx rr) (interrupt_handler read wired ctx s)
  interrupt-IsDriven ctx rr s real timer driven =
      let is_timer : (ctx.int_no == irq0) ≡ true = (==_iff _ _).1 timer in
      let s1 = checked read callbacks ctx s in
      let driven1 : IsDriven rr s1 = record {
        clock = driven.clock;
        world_eq = driven.world_eq;
        callback_eq = driven.callback_eq;
      } in
      let next = irq-IsDriven ctx rr s1 driven1 in
      rw
        (
          interrupt-registered read callbacks ctx s irq0 irq0_callback (omega arith) (real s.io),
          is_timer,
        )
        (record { clock = next.clock; world_eq = next.world_eq; callback_eq = next.callback_eq })

  interrupts-IsDriven :
      (ctxs : List IrqContext) (rr : Rr) (s : Sys (Option World))
      → ((io : Io) → (pic_check_spurious read io).0 ≡ 0)
      → AllTimer ctxs
      → IsDriven rr s
      → IsDriven (ticks ready_queue ctxs rr) (interrupts read wired ctxs s)
  interrupts-IsDriven [] rr s real timer driven = driven
  interrupts-IsDriven (ctx ∷ ctxs) rr s real (timer, later) driven =
      interrupts-IsDriven ctxs _ _ real later (interrupt-IsDriven ctx rr s real timer driven)

-- Once bootstrap has started the scheduler, interrupts of the timer that are not spurious bring the
-- scheduler from the state of rr_init through as many ticks, with the frames of the interrupts.
pub start-ticks :
    (ready_queue : ℕ) (read : Device) (tasks : List ℕ) (callbacks : Callbacks (Option World))
    (w : World) (io : Io) (ctxs : List IrqContext)
    → ((io : Io) → (pic_check_spurious read io).0 ≡ 0)
    → AllTimer ctxs
    → let (callbacks', s) = start ready_queue read tasks callbacks w io in
      (w' : World) × ((interrupts read callbacks' ctxs s).world ≡ some w')
      × (w'.rr ≡ ticks ready_queue ctxs (rr_init ready_queue tasks w.rr))
unfolding start sched_init ktime_init hwclock_init hwclock_register_callback
start-ticks ready_queue read tasks callbacks w io ctxs real timer =
    let s = (start ready_queue read tasks callbacks w io).1 in
    let driven =
      interrupts-IsDriven ready_queue read callbacks ctxs (rr_init ready_queue tasks w.rr) s real
        timer (record { clock = _; world_eq = refl; callback_eq = refl }) in
    (
      record { clock = driven.clock; rr = ticks ready_queue ctxs (rr_init ready_queue tasks w.rr) },
      driven.world_eq,
      refl,
    )
