-- ===== src/Start.antt =====
-- The end of bootstrap in kern/main.c, which starts the scheduler and its clock: sched_init of
-- kern/sched.c and ktime_init of kern/time.c, and the interrupts that then come from the timer.
pub mod Tests
pub mod Interrupts
use mugo.Base.{ℕ, Option, none, some, List, [], ◌∷◌}
use mugo.Thread.{IrqContext}
use mugo.Pic.{Io, Device}
use mugo.Interrupt.{Sys, Callback, Callbacks, register_interrupt_callback, interrupt_handler}
use mugo.Timer.{Timer, irq0, hwclock_irq_handler, hwclock_register_callback, hwclock_init}
use mugo.Sched.{Rr, rr_init, rr_tick_handler}

-- What the timer's callback changes: the driver's variables and the scheduler.
pub record World : Type 0 where
  pub clock : Timer Rr
  pub rr : Rr

-- CONF_SCHED_TICK_FREQ_HZ
abbrev pub sched_tick_freq_hz : ℕ
sched_tick_freq_hz = 100

-- hwclock_irq_handler as interrupt.c calls it; none after a call through NULL.
unfoldable pub irq0_callback : Callback (Option World)
irq0_callback ctx s = record s {
  world = elim s.world [
    | none ↦ none
    | some w ↦ elim (hwclock_irq_handler ctx w.clock w.rr) [
      | none ↦ none
      | some (clock, rr) ↦ some record { clock = clock; rr = rr }
    ]
  ];
}

-- The registration with interrupt.c is the first line of hwclock_init.
unfoldable pub ktime_init :
    Device
    → (timer_callback : IrqContext → Rr → Rr) → Callbacks (Option World)
    → Timer Rr
    → Io
    → Callbacks (Option World) × (Timer Rr × Io)
ktime_init read timer_callback callbacks t io = (
  register_interrupt_callback irq0 irq0_callback callbacks,
  hwclock_init read sched_tick_freq_hz (hwclock_register_callback timer_callback t) io,
)

module _ (ready_queue : ℕ) where
  -- With sched_rr, whose functions `scheduler` holds from then on.
  unfoldable pub sched_init : (initial_tasks : List ℕ) → Rr → Rr
  sched_init initial_tasks s = rr_init ready_queue initial_tasks s

  -- The two calls in bootstrap.
  unfoldable pub start :
      Device
      → (boot_processes : List ℕ) → Callbacks (Option World)
      → World
      → Io
      → Callbacks (Option World) × Sys (Option World)
  start read boot_processes callbacks w io =
      let rr = sched_init boot_processes w.rr in
      let (callbacks, (clock, io)) =
        ktime_init read (rr_tick_handler ready_queue) callbacks w.clock io in
      (callbacks, record { io = io; world = some record { clock = clock; rr = rr } })

-- Interrupts one after the other.
abbrev pub interrupts :
    Device → Callbacks (Option World) → List IrqContext → Sys (Option World) → Sys (Option World)
interrupts read callbacks [] s = s
interrupts read callbacks (ctx ∷ ctxs) s =
    interrupts read callbacks ctxs (interrupt_handler read callbacks ctx s)
