-- ===== src/Interrupt.antt =====
-- arch/i686/interrupt.c: the table of callbacks and the two entry points from the stubs of
-- arch/i686/boot/interrupt.asm. `W` is what the callbacks may change beside the ports. The kernel
-- log is left out.
pub mod Dispatch
mod Tests
use mugo.Base.{ℕ, Option, none, some, ltb, ◌==◌, if◌then◌else◌}
use mugo.Thread.{IrqContext}
use mugo.Pic.{Io, Device, pic_send_eoi, pic_check_spurious}

pub record Sys (W : Type 0) : Type 0 where
  pub io : Io
  pub world : W

abbrev pub Callback : Type 0 → Type 0
Callback W = IrqContext → Sys W → Sys W

-- The array `callback`, none for NULL.
abbrev pub Callbacks : Type 0 → Type 0
Callbacks W = ℕ → Option (Callback W)

abbrev pub no_interrupts : ℕ
no_interrupts = 256

module _ {W : Type 0} where
  unfoldable pub register_interrupt_callback : ℕ → Callback W → Callbacks W → Callbacks W
  register_interrupt_callback num cb callback n = if n == num then some cb else callback n

  -- `if (interrupt_num < NO_INTERRUPTS && callback[interrupt_num]) callback[...](context)`
  abbrev pub dispatch : Callbacks W → IrqContext → Sys W → Sys W
  dispatch callback ctx s =
      if ltb ctx.int_no no_interrupts
      then elim (callback ctx.int_no) [ none ↦ s | some cb ↦ cb ctx s ]
      else s

  unfoldable pub exception_handler : Device → Callbacks W → IrqContext → Sys W → Sys W
  exception_handler read callback ctx s =
      let (spurious, io) = pic_check_spurious read s.io in
      let s1 = record s { io = io } in
      if spurious == 0
      then (let s2 = dispatch callback ctx s1 in record s2 { io = pic_send_eoi ctx.int_no s2.io })
      else s1

  -- The same calls; only the log line differs.
  unfoldable pub interrupt_handler : Device → Callbacks W → IrqContext → Sys W → Sys W
  interrupt_handler read callback ctx s =
      let (spurious, io) = pic_check_spurious read s.io in
      let s1 = record s { io = io } in
      if spurious == 0
      then (let s2 = dispatch callback ctx s1 in record s2 { io = pic_send_eoi ctx.int_no s2.io })
      else s1
