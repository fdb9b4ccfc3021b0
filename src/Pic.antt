-- ===== src/Pic.antt =====
-- arch/i686/drivers/pic.c, the two interrupt controllers behind their ports.
-- The state is the list of the port writes made so far, latest first. What a port reads is the
-- devices' business: `read` gives it from the port and the writes so far.
pub mod Masks
pub mod Spurious
pub mod Tests
use Prim.Native.Nat.{bit_and, bit_or, bit_xor}
use mugo.Base.{ℕ, ◌+◌, ◌-◌, ◌%◌, ◌^◌, ◌≡◌, Bool, List, ◌∷◌, [], leb, ◌==◌, if◌then◌else◌}
use mugo.Base.Bits.{shl}

abbrev pub Io : Type 0
Io = List (ℕ × ℕ)

abbrev pub Device : Type 0
Device = Io → ℕ → ℕ

abbrev pub outb : ℕ → ℕ → Io → Io
outb port val io = (port, val) ∷ io

abbrev pub master_pic_command : ℕ
master_pic_command = 0x20

abbrev pub master_pic_data : ℕ
master_pic_data = 0x21

abbrev pub slave_pic_command : ℕ
slave_pic_command = 0xA0

abbrev pub slave_pic_data : ℕ
slave_pic_data = 0xA1

abbrev pub pic_eoi : ℕ
pic_eoi = 0x20

abbrev pub pic_read_irr : ℕ
pic_read_irr = 0x0A

abbrev pub pic_read_isr : ℕ
pic_read_isr = 0x0B

abbrev pub slave_irqnum_begin : ℕ
slave_irqnum_begin = 40

abbrev pub irq_offset : ℕ
irq_offset = 32

unfoldable pub pic_send_eoi : ℕ → Io → Io
pic_send_eoi irqnum io =
    outb master_pic_command pic_eoi
      (if leb slave_irqnum_begin (irqnum % 2 ^ 16) then outb slave_pic_command pic_eoi io else io)

unfoldable pub pic_init : Io → Io
pic_init io =
    let init_seq_flags : ℕ = bit_or 0x10 0x01 in
    let master_mask : ℕ = bit_xor 0xFF (shl 1 2) in
    let slave_mask : ℕ = 0xFF in
    let io = outb slave_pic_command init_seq_flags (outb master_pic_command init_seq_flags io) in
    let io = outb slave_pic_data 0x28 (outb master_pic_data 0x20 io) in
    let io = outb slave_pic_data 0x2 (outb master_pic_data (shl 1 2) io) in
    let io = outb slave_pic_data 0x01 (outb master_pic_data 0x01 io) in
    outb slave_pic_data slave_mask (outb master_pic_data master_mask io)

-- The port and the bit that PIC_mask_irq and PIC_unmask_irq find for an interrupt number; the
-- subtraction is of 16-bit words.
abbrev pub line : ℕ → ℕ × ℕ
line irqnum =
    let n = (irqnum + 65536 - irq_offset) % 65536 in
    if leb 8 n then (slave_pic_data, n - 8) else (master_pic_data, n)

module _ (read : Device) where
  abbrev pub inb : ℕ → Io → ℕ
  inb port io = read io port

  unfoldable pub pic_mask_irq : ℕ → Io → Io
  pic_mask_irq irqnum io =
      let (port, n) = line irqnum in outb port (bit_or (inb port io) (shl 1 n) % 256) io

  -- `~(1 << n)` on a byte.
  unfoldable pub pic_unmask_irq : ℕ → Io → Io
  pic_unmask_irq irqnum io =
      let (port, n) = line irqnum in outb port (bit_and (inb port io) (255 - shl 1 n % 256)) io

  -- The two reads are not ordered by C; the model reads the slave first, as written.
  unfoldable pub pic_read_register : ℕ → Io → ℕ × Io
  pic_read_register cmd io =
      let io = outb slave_pic_command cmd (outb master_pic_command cmd io) in
      (bit_or (shl (inb slave_pic_command io) 8) (inb master_pic_command io), io)

  unfoldable pub pic_read_isr_reg : Io → ℕ × Io
  pic_read_isr_reg = pic_read_register pic_read_isr

  unfoldable pub pic_read_irr_reg : Io → ℕ × Io
  pic_read_irr_reg = pic_read_register pic_read_irr

  unfoldable pub pic_check_spurious : Io → ℕ × Io
  pic_check_spurious io =
      let (irq_requests, io) = pic_read_irr_reg io in
      if bit_and irq_requests (shl 1 7) == 0
      then (if bit_and irq_requests (shl 1 15) == 0
          then (0, io)
          else (1, outb master_pic_command pic_eoi io))
      else (1, io)
