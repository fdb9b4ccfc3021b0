-- ===== src/Timer.antt =====
-- arch/i686/drivers/timer.c, the clock on channel 0 of the interval timer. `W` is what the timer
-- callback may change. The driver's variables are of 32 bits but for the seconds, of 64.
pub mod Clock
mod Tests
use mugo.Base.{ℕ, ◌+◌, ◌-◌, ◌*◌, ◌/◌, ◌%◌, ◌^◌, Option, none, some, ltb, if◌then◌else◌}
use mugo.Thread.{IrqContext}
use mugo.Pic.{Io, Device, outb, inb, pic_unmask_irq}

-- timespec_t
pub record Timespec : Type 0 where
  pub tv_sec : ℕ
  pub tv_nsec : ℕ

-- The static variables; the callback is none for NULL.
pub record Timer (W : Type 0) : Type 0 where
  pub current_callback : Option (IrqContext → W → W)
  pub current_freq_hz : ℕ
  pub current_ctr_val : ℕ
  pub current_clock : Timespec

abbrev pub pit_cmd : ℕ
pit_cmd = 0x43

abbrev pub pit_data_channel0 : ℕ
pit_data_channel0 = 0x40

abbrev pub pit_repeat_mode : ℕ
pit_repeat_mode = 0x36

abbrev pub pit_freq : ℕ
pit_freq = 1193180

abbrev pub pit_nsec_per_tick : ℕ
pit_nsec_per_tick = 838

abbrev pub irq0 : ℕ
irq0 = 32

abbrev pub second : ℕ
second = 1000000000

-- `if (tmp_nsec > 1000000000) { tmp_nsec -= 1000000000; tv_sec++; }` and the store to `tv_nsec`.
unfoldable pub carry : (tv_sec tmp_nsec : ℕ) → Timespec
carry tv_sec tmp_nsec =
    if ltb second tmp_nsec
    then record { tv_sec = (tv_sec + 1) % 2 ^ 64; tv_nsec = tmp_nsec - second }
    else record { tv_sec = tv_sec; tv_nsec = tmp_nsec }

-- `read2` is what the second read of the data port gives.
unfoldable pub hwclock_get_tick_remaining : (read read2 : Device) → Io → ℕ × Io
hwclock_get_tick_remaining read read2 io =
    let io = outb pit_cmd pit_repeat_mode io in
    let low = inb read pit_data_channel0 io in
    let hi = inb read2 pit_data_channel0 io in ((low + hi * 2 ^ 8) * pit_nsec_per_tick, io)

module _ {W : Type 0} where
  -- The clock after an interrupt. The sum is of 32-bit words.
  unfoldable pub advance : Timer W → Timespec
  unfolding carry
  advance t =
      carry t.current_clock.tv_sec
        ((t.current_clock.tv_nsec + t.current_ctr_val * pit_nsec_per_tick) % 2 ^ 32)

  -- none is a call through NULL.
  unfoldable pub hwclock_irq_handler : IrqContext → Timer W → W → Option (Timer W × W)
  unfolding advance
  hwclock_irq_handler ctx t w = elim t.current_callback [
    | none ↦ none
    | some cb ↦ some (record t { current_clock = advance t }, cb ctx w)
  ]

  unfoldable pub hwclock_register_callback : (IrqContext → W → W) → Timer W → Timer W
  hwclock_register_callback cb t = record t { current_callback = some cb }

  unfoldable pub hwclock_set_time : Timespec → Timer W → Timer W
  hwclock_set_time tv t = record t { current_clock = tv }

  module _ (read : Device) where
    -- A frequency of 0 is a division by zero in C; here the quotient is 0. The registration of
    -- the handler with interrupt.c is the caller's.
    unfoldable pub hwclock_init : (frequency : ℕ) → Timer W → Io → Timer W × Io
    hwclock_init frequency t io =
        let d = pit_freq / frequency in
        let io = outb pit_cmd pit_repeat_mode io in
        let io = outb pit_data_channel0 (d % 2 ^ 8) io in
        let io = outb pit_data_channel0 (d / 2 ^ 8 % 2 ^ 8) io in
        (record t { current_freq_hz = frequency; current_ctr_val = d }, pic_unmask_irq read irq0 io)

    unfoldable pub hwclock_get_time : (read2 : Device) → Timer W → Io → Timespec × Io
    unfolding carry hwclock_get_tick_remaining
    hwclock_get_time read2 t io =
        let (remainder, io) = hwclock_get_tick_remaining read read2 io in
        (carry t.current_clock.tv_sec (t.current_clock.tv_nsec + remainder), io)
