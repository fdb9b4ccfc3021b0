-- ===== src/Start/Tests.antt =====
-- Two interrupts of the timer after the start with two processes, and the theorem of the kernel's
-- start at them.
use mugo.Base.{◌≡◌, refl, Option, none, some, List, [], ◌∷◌}
use mugo.Thread.{IrqContext}
use mugo.Pic.{Io, Device, pic_check_spurious, pic_read_irr_reg, pic_read_register}
use mugo.Interrupt.{Callbacks}
use mugo.Sched.{rr_init}
use mugo.Sched.Ticks.{ticks}
use mugo.Sched.Tests.{ready_queue, cold, tasks}
use mugo.Thread.Tests.{irq}
use mugo.Start.{World, start, interrupts}
use mugo.Start.Interrupts.{start-ticks}

abbrev pub quiet : Device
quiet io port = 0

pub quiet-real : (io : Io) → (pic_check_spurious quiet io).0 ≡ 0
unfolding pic_check_spurious pic_read_irr_reg pic_read_register
quiet-real io = refl

abbrev pub world : World
world = record {
  clock = record {
    current_callback = none;
    current_freq_hz = 0;
    current_ctr_val = 0;
    current_clock = record { tv_sec = 0; tv_nsec = 0 };
  };
  rr = cold;
}

abbrev pub no_callbacks : Callbacks (Option World)
no_callbacks num = none

abbrev timer_irq : IrqContext
timer_irq = record irq { int_no = 32 }

abbrev two_irqs : List IrqContext
two_irqs = timer_irq ∷ timer_irq ∷ []

start-ticks_example :
    let (callbacks', s) = start ready_queue quiet tasks no_callbacks world [] in
    (w' : World) × ((interrupts quiet callbacks' two_irqs s).world ≡ some w')
    × (w'.rr ≡ ticks ready_queue two_irqs (rr_init ready_queue tasks cold))
start-ticks_example =
    start-ticks ready_queue quiet tasks no_callbacks world [] two_irqs quiet-real (refl, (refl, tt))
