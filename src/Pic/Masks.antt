-- ===== src/Pic/Masks.antt =====
-- Which lines `PIC_mask_irq` and `PIC_unmask_irq` of arch/i686/drivers/pic.c change.
use mugo.Base.{ℕ, ◌<◌, ◌≤◌, ◌≡◌, refl, ◌∷◌, ◌==◌, if◌then◌else◌, arith}
use mugo.Base.Bits.{bit, bit-set, bit-clear}
use mugo.Pic.{Io, Device, line, pic_mask_irq, pic_unmask_irq}

-- The only write of `io'` after `io` is `v` to the data port of the line's controller.
abbrev pub Wrote : ℕ → (ℕ → Type 0) → Io → Io → Type 0
Wrote port P io io' = (v : ℕ) × (io' ≡ (port, v) ∷ io) × P v

module _ (read : Device) (io : Io) (irqnum : ℕ) where
  abbrev pub port : ℕ
  port = (line irqnum).0

  abbrev pub place : ℕ
  place = (line irqnum).1

  place-lt : 32 ≤ irqnum → irqnum < 48 → place < 8
  place-lt lo hi = ground arith

  -- For an interrupt of the sixteen lines, if the controller's mask register reads as a byte,
  -- PIC_mask_irq writes it back with the line's bit set and the other bits as they were.
  mask-bit :
      32 ≤ irqnum
      → irqnum < 48
      → read io port < 256
      → (j : ℕ) → j < 8
      → Wrote port
          (λ v. bit v j ≡ (if j == place then 1 else bit (read io port) j))
          io
          (pic_mask_irq read irqnum io)
  unfolding pic_mask_irq
  mask-bit lo hi byte j hj = (_, refl, bit-set (read io port) j place byte hj (place-lt lo hi))

  -- PIC_unmask_irq does so with the line's bit clear.
  unmask-bit :
      32 ≤ irqnum
      → irqnum < 48
      → read io port < 256
      → (j : ℕ) → j < 8
      → Wrote port
          (λ v. bit v j ≡ (if j == place then 0 else bit (read io port) j))
          io
          (pic_unmask_irq read irqnum io)
  unfolding pic_unmask_irq
  unmask-bit lo hi byte j hj = (_, refl, bit-clear (read io port) j place byte hj (place-lt lo hi))
