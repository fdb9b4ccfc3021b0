-- ===== src/Interrupt/Tests.antt =====
-- A callback that counts its calls, and the theorems of arch/i686/interrupt.c at it.
use mugo.Base.{ℕ, suc, ◌≡◌, ◌≢◌, refl, [], none, arith}
use mugo.Thread.Tests.{irq}
use mugo.Pic.{Device, pic_send_eoi, pic_check_spurious, pic_read_irr_reg, pic_read_register}
use mugo.Pic.Tests.{device}
use mugo.Interrupt.{Sys, Callback, interrupt_handler, register_interrupt_callback}
use mugo.Interrupt.Dispatch.{checked, interrupt-registered}

abbrev count : Callback ℕ
count ctx s = record s { world = suc s.world }

abbrev start : Sys ℕ
start = record { io = []; world = 0 }

abbrev quiet : Device
quiet io port = 0

not_spurious : (pic_check_spurious quiet []).0 ≡ 0
unfolding pic_check_spurious pic_read_irr_reg pic_read_register
not_spurious = refl

one : (pic_check_spurious device []).0 ≡ 1
unfolding pic_check_spurious pic_read_irr_reg pic_read_register
one = refl

spurious : (pic_check_spurious device []).0 ≢ 0
spurious e = absurd (omega (arith, e, one))

interrupt-registered_example :
    interrupt_handler quiet (register_interrupt_callback irq.int_no count (λ n. none)) irq start ≡ (
      let s2 = count irq (checked quiet (λ n. none) irq start) in
      record s2 { io = pic_send_eoi irq.int_no s2.io })
interrupt-registered_example =
    interrupt-registered quiet (λ n. none) irq start irq.int_no count (omega arith) not_spurious
