-- ===== src/Timer/Tests.antt =====
-- A clock at 100 Hz, and the theorems of arch/i686/drivers/timer.c at it.
use mugo.Base.{ℕ, suc, ◌≡◌, ◌≤◌, ◌*◌, ◌+◌, refl, some, arith}
use mugo.Thread.{IrqContext}
use mugo.Thread.Tests.{irq}
use mugo.Pic.{Device}
use mugo.Timer.{Timer, advance, hwclock_irq_handler, second}
use mugo.Timer.Clock.{total, IsNormal, irq-total}

abbrev count : IrqContext → ℕ → ℕ
count ctx w = suc w

abbrev clock : Timer ℕ
clock = record {
  current_callback = some count;
  current_freq_hz = 100;
  current_ctr_val = 11931;
  current_clock = record { tv_sec = 5; tv_nsec = 999000000 };
}

normal : IsNormal clock.current_clock
normal = record { nsec_le = omega arith; sec_lt = omega arith }

abbrev zeros : Device
zeros io port = 7

irq-total_example :
    (hwclock_irq_handler irq clock 3 ≡ some (record clock { current_clock = advance clock }, 4))
    × (total (advance clock) ≡ 5 * second + 999000000 + 11931 * 838)
    × ((advance clock).tv_nsec ≤ second)
irq-total_example = irq-total irq clock 3 count refl normal (omega arith)
