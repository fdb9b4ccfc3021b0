-- ===== src/Pic/Spurious.antt =====
-- When `PIC_check_spurious` of arch/i686/drivers/pic.c takes an interrupt for a spurious one.
use Prim.Native.Nat.{bit_and, bit_or}
use mugo.Base.{ℕ, ◌*◌, ◌<◌, ◌≡◌, refl, Bool, true, ◌&&◌, ◌==◌, if◌then◌else◌, arith}
use mugo.Base.Bits.{bit, shl, every, every_pair, every_pair-at}
use mugo.Pic.{
  Io, Device, outb, master_pic_command, slave_pic_command, pic_read_irr, pic_eoi,
  pic_check_spurious, pic_read_irr_reg, pic_read_register,
}

abbrev tests_ok : ℕ → ℕ → Bool
tests_ok s m =
    (bit_and (bit_or (shl s 8) m) (shl 1 7) == bit m 7 * 128)
    && (bit_and (bit_or (shl s 8) m) (shl 1 15) == bit s 7 * 32768)

tests_table : every_pair 256 256 tests_ok ≡ true
unfolding every
tests_table = refl

tests_lem :
    (s m : ℕ)
    → s < 256
    → m < 256
    → (bit_and (bit_or (shl s 8) m) (shl 1 7) ≡ bit m 7 * 128)
      × (bit_and (bit_or (shl s 8) m) (shl 1 15) ≡ bit s 7 * 32768)
tests_lem s m hs hm = ground (arith, every_pair-at 256 256 s m hs hm tests_ok tests_table)

-- The ports after the request registers were asked for.
abbrev pub asked : Io → Io
asked io = outb slave_pic_command pic_read_irr (outb master_pic_command pic_read_irr io)

-- If both controllers answer with bytes, an interrupt counts as spurious exactly when a request is
-- pending on the last line of the master or the slave, and only the second case, without the
-- first, sends an end of interrupt, to the master.
pub check_spurious_lem :
    (read : Device) (io : Io)
    → read (asked io) master_pic_command < 256
    → read (asked io) slave_pic_command < 256
    → pic_check_spurious read io ≡ (
        if bit (read (asked io) master_pic_command) 7 == 1
        then (1, asked io)
        else (if bit (read (asked io) slave_pic_command) 7 == 1
            then (1, outb master_pic_command pic_eoi (asked io))
            else (0, asked io)))
unfolding pic_check_spurious pic_read_irr_reg pic_read_register
check_spurious_lem read io hm hs = ground (
  arith,
  tests_lem (read (asked io) slave_pic_command) (read (asked io) master_pic_command) hs hm,
)
