-- ===== src/Timer/Clock.antt =====
-- What the clock of arch/i686/drivers/timer.c shows.
use mugo.Base.{ℕ, ◌+◌, ◌*◌, ◌/◌, ◌%◌, ◌^◌, ◌<◌, ◌≤◌, ◌≡◌, refl, ◌∷◌, some, arith}
use mugo.Thread.{IrqContext}
use mugo.Pic.{Io, Device, outb, pic_unmask_irq}
use mugo.Timer.{
  Timespec, Timer, second, pit_nsec_per_tick, pit_freq, pit_data_channel0, pit_cmd, pit_repeat_mode,
  irq0, carry, advance, hwclock_irq_handler, hwclock_init, hwclock_get_tick_remaining,
  hwclock_get_time,
}

-- Nanoseconds since the clock's start.
abbrev pub total : Timespec → ℕ
total t = t.tv_sec * second + t.tv_nsec

-- At most one second of nanoseconds, and seconds that can still be counted.
pub record IsNormal (t : Timespec) : Type 0 where
  pub nsec_le : t.tv_nsec ≤ second
  pub sec_lt : t.tv_sec + 1 < 2 ^ 64

carry_lem :
    (s n : ℕ)
    → s + 1 < 2 ^ 64
    → n ≤ 2 * second
    → (total (carry s n) ≡ s * second + n) × ((carry s n).tv_nsec ≤ second)
unfolding carry
carry_lem s n hs hn = ground arith

remaining_le :
    (read read2 : Device) (io : Io)
    → read (outb pit_cmd pit_repeat_mode io) pit_data_channel0 < 256
    → read2 (outb pit_cmd pit_repeat_mode io) pit_data_channel0 < 256
    → (hwclock_get_tick_remaining read read2 io).0 ≤ second
unfolding hwclock_get_tick_remaining
remaining_le read read2 io h1 h2 = omega arith

-- The two bytes of a count go to the data port after the mode, before the timer's line is
-- unmasked.
abbrev pub Programs : ℕ → Device → Io → Io → Type 0
Programs count read io io' =
    (low hi : ℕ) × (io'
      ≡ pic_unmask_irq read irq0
          ((pit_data_channel0, hi) ∷ (pit_data_channel0, low) ∷ (pit_cmd, pit_repeat_mode) ∷ io))
    × (low + hi * 2 ^ 8 ≡ count)

module _ {W : Type 0} where
  -- An interrupt moves a normal clock on by the programmed count of ticks, if that is at
  -- most a second, leaves at most a second of nanoseconds, and calls the callback once.
  pub irq-total :
      (ctx : IrqContext) (t : Timer W) (w : W) (cb : IrqContext → W → W)
      → t.current_callback ≡ some cb
      → IsNormal t.current_clock
      → t.current_ctr_val * pit_nsec_per_tick ≤ second
      → (hwclock_irq_handler ctx t w ≡ some (record t { current_clock = advance t }, cb ctx w))
        × (total (advance t) ≡ total t.current_clock + t.current_ctr_val * pit_nsec_per_tick)
        × ((advance t).tv_nsec ≤ second)
  unfolding hwclock_irq_handler
  irq-total ctx t w cb e normal small =
      let sum : (t.current_clock.tv_nsec + t.current_ctr_val * pit_nsec_per_tick) % 2 ^ 32
          ≡ t.current_clock.tv_nsec + t.current_ctr_val * pit_nsec_per_tick =
        omega (arith, normal.nsec_le) in
      let (tot, le) =
        carry_lem t.current_clock.tv_sec
          (t.current_clock.tv_nsec + t.current_ctr_val * pit_nsec_per_tick) normal.sec_lt
          (omega (arith, normal.nsec_le)) in
      (rw e, rw sum (omega (arith, tot)), rw sum le)

  -- hwclock_init programs the count that it keeps, low byte first, and then unmasks the timer's
  -- interrupt. The count is the whole number of ticks in a period of the frequency; from 19 Hz on
  -- it fits the sixteen bits of the timer.
  init-count :
      (read : Device) (frequency : ℕ) (t : Timer W) (io : Io)
      → 19 ≤ frequency
      → let (t', io') = hwclock_init read frequency t io in
        Programs t'.current_ctr_val read io io'
        × (t'.current_ctr_val < 2 ^ 16)
        × (t'.current_ctr_val * frequency ≤ pit_freq)
        × (pit_freq < (t'.current_ctr_val + 1) * frequency)
  unfolding hwclock_init
  init-count read frequency t io h =
      let small : pit_freq / frequency < 2 ^ 16 = grind arith in
      ((_, _, refl, omega (arith, small)), small, grind arith, grind arith)

  -- For a normal clock and ports that give bytes, hwclock_get_time reports the clock plus the count
  -- that it reads, with at most a second of nanoseconds.
  get_time-total :
      (read read2 : Device) (t : Timer W) (io : Io)
      → IsNormal t.current_clock
      → ((io : Io) (port : ℕ) → read io port < 256)
      → ((io : Io) (port : ℕ) → read2 io port < 256)
      → let (remaining, io1) = hwclock_get_tick_remaining read read2 io in
        let (tv, io2) = hwclock_get_time read read2 t io in
        (total tv ≡ total t.current_clock + remaining) × (tv.tv_nsec ≤ second)
  unfolding hwclock_get_time
  get_time-total read read2 t io normal r1 r2 =
      let (remaining, io1) = hwclock_get_tick_remaining read read2 io in
      let small : remaining ≤ second =
        remaining_le read read2 io (r1 _ pit_data_channel0) (r2 _ pit_data_channel0) in
      let (tot, le) =
        carry_lem t.current_clock.tv_sec (t.current_clock.tv_nsec + remaining) normal.sec_lt
          (omega (arith, normal.nsec_le)) in
      (omega (arith, tot), le)
