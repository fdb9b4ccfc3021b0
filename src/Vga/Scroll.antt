-- ===== src/Vga/Scroll.antt =====
-- What console_scroll of arch/i686/drivers/vga.c leaves on the screen.
use mugo.Base.{ℕ, zero, suc, ◌+◌, ◌≡◌, ◌∙◌, ◌&&◌, leb, ltb, if◌then◌else◌, arith}
use mugo.Vga.{
  Buffer, Console, clr, put, vga_width, vga_total, clear_from, shift_from, console_scroll,
}

clear_from_lem :
    (n i : ℕ) (b : Buffer) (k : ℕ)
    → clear_from n i b k ≡ (if leb i k && ltb k (i + n) then clr else b k)
unfolding clear_from
clear_from_lem zero i b k = ground arith
clear_from_lem (suc n) i b k = ground (arith, clear_from_lem n (i + 1) (put i clr b) k)

shift_from_lem :
    (n i : ℕ) (b : Buffer) (k : ℕ)
    → shift_from n i b k ≡ (if leb i k && ltb k (i + n) then b (k + vga_width) else b k)
unfolding shift_from
shift_from_lem zero i b k = ground arith
shift_from_lem (suc n) i b k =
    ground (arith, shift_from_lem n (i + 1) (put i (b (i + vga_width)) b) k)

-- console_scroll moves every line up by one and clears the last one; no cell after the screen
-- changes.
pub console_scroll_lem :
    (c : Console) (k : ℕ)
    → (console_scroll c).term_buff k ≡ (
        if ltb (k + vga_width) vga_total
        then c.term_buff (k + vga_width)
        else (if ltb k vga_total then clr else c.term_buff k))
unfolding console_scroll
console_scroll_lem c k =
    clear_from_lem 80 1920 (shift_from 1920 0 c.term_buff) k
    ∙ ground (arith, shift_from_lem 1920 0 c.term_buff k)
