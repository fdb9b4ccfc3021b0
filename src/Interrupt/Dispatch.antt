-- ===== src/Interrupt/Dispatch.antt =====
-- The two handlers of arch/i686/interrupt.c.
use mugo.Base.{Bool-cases, inl, inr, ℕ, ◌<◌, ◌≡◌, refl, ◌==◌, if◌then◌else◌, arith}
use mugo.Thread.{IrqContext}
use mugo.Pic.{Device, pic_send_eoi, pic_check_spurious}
use mugo.Interrupt.{Sys, Callback, Callbacks, register_interrupt_callback, interrupt_handler}

module _ {W : Type 0} (read : Device) (callback : Callbacks W) (ctx : IrqContext) (s : Sys W) where
  -- The state after the check for a spurious interrupt.
  abbrev pub checked : Sys W
  checked = record s { io = (pic_check_spurious read s.io).1 }

  -- After a registration, an interrupt of that number that is not spurious runs the callback once
  -- and then sends the end of interrupt; one of another number does what it did before.
  pub interrupt-registered :
      (num : ℕ) (cb : Callback W)
      → num < 256
      → (pic_check_spurious read s.io).0 ≡ 0
      → interrupt_handler read (register_interrupt_callback num cb callback) ctx s ≡ (
          if ctx.int_no == num
          then (let s2 = cb ctx checked in record s2 { io = pic_send_eoi num s2.io })
          else interrupt_handler read callback ctx s)
  unfolding interrupt_handler register_interrupt_callback
  interrupt-registered num cb small real = elim (Bool-cases (ctx.int_no == num)) [
    | inl e ↦ rw (real, e) (ground arith)
    | inr e ↦ rw (real, e) refl
  ]
