-- ===== src/Vga.antt =====
-- arch/i686/drivers/vga.c, the text console. The buffer is a function from the index, which C does
-- not check, and the port a list of the writes made, latest first.
pub mod Scroll
pub mod Text
mod Tests
use Prim.Native.Nat.{bit_or}
use mugo.Base.{ℕ, zero, suc, ◌+◌, ◌-◌, ◌*◌, ◌/◌, ◌%◌, ◌^◌, List, [], ◌∷◌, leb, ◌==◌, if◌then◌else◌}
use mugo.Base.Bits.{shl}

-- vga_char_t
pub record VgaChar : Type 0 where
  pub character : ℕ
  pub color_attrib : ℕ

abbrev pub Buffer : Type 0
Buffer = ℕ → VgaChar

-- The static variables, with what term_buff points at and what was written at vga_cmd_port.
pub record Console : Type 0 where
  pub term_buff : Buffer
  pub vga_cmd_port : List (ℕ × ℕ)
  pub x : ℕ
  pub y : ℕ
  pub cursor_x : ℕ
  pub cursor_y : ℕ
  pub color_attrib : ℕ

abbrev pub vga_width : ℕ
vga_width = 80

abbrev pub vga_height : ℕ
vga_height = 25

abbrev pub vga_total : ℕ
vga_total = vga_height * vga_width

-- `{ ' ', 0 }`
abbrev pub clr : VgaChar
clr = record { character = 32; color_attrib = 0 }

abbrev pub put : ℕ → VgaChar → Buffer → Buffer
put i c b k = if k == i then c else b k

-- `for (i = ...; ...; i++) term_buff[i] = clr`, for `n` cells from `i` on.
unfoldable pub clear_from : (n i : ℕ) → Buffer → Buffer
clear_from zero i b = b
clear_from (suc n) i b = clear_from n (i + 1) (put i clr b)

-- The first loop of console_scroll.
unfoldable pub shift_from : (n i : ℕ) → Buffer → Buffer
shift_from zero i b = b
shift_from (suc n) i b = shift_from n (i + 1) (put i (b (i + vga_width)) b)

unfoldable pub console_clear_screen : Console → Console
console_clear_screen c = record c { term_buff = clear_from vga_total 0 c.term_buff }

-- Where `term_buff` and `vga_cmd_port` point.
pub record Pointers : Type 0 where
  pub term_buff : ℕ
  pub vga_cmd_port : ℕ

unfoldable pub console_set_ports : (term cmd : ℕ) → Pointers → Pointers
console_set_ports term cmd p = record p { term_buff = term; vga_cmd_port = cmd }

-- `console_debug` is the address of the symbol `__console_debug`, where the buffer is.
unfoldable pub console_init : (console_debug : ℕ) → Pointers × Console → Pointers × Console
console_init console_debug (p, c) = (
  record p { term_buff = console_debug; vga_cmd_port = (console_debug + 0x3D4) % 2 ^ 32 },
  console_clear_screen c,
)

-- The coordinates are of 16 bits.
unfoldable pub console_move_cursor : (x y : ℕ) → Console → Console
console_move_cursor x y c =
    let new_location = (x * 80 + y) % 2 ^ 16 in
    record c {
      cursor_x = x;
      cursor_y = y;
      vga_cmd_port =
          (1, new_location % 2 ^ 8)
          ∷ (0, 15)
          ∷ (1, new_location / 2 ^ 8)
          ∷ (0, 14)
          ∷ c.vga_cmd_port;
    }

unfoldable pub console_set_color : (forecolor backcolor : ℕ) → Console → Console
console_set_color forecolor backcolor c = record c {
  color_attrib = bit_or (shl backcolor 4 % 2 ^ 8) forecolor;
}

unfoldable pub console_scroll : Console → Console
console_scroll c =
    let kept = vga_width * (vga_height - 1) in
    record c { term_buff = clear_from (vga_total - kept) kept (shift_from kept 0 c.term_buff) }

-- `if (x >= VGA_WIDTH) { x = 0; y++; }`, with `y` of 16 bits.
unfoldable pub wrap : Console → Console
wrap c = if leb vga_width c.x then record c { x = 0; y = (c.y + 1) % 2 ^ 16 } else c

-- `if (y >= VGA_HEIGHT) { console_scroll(); y--; }`
unfoldable pub scroll_if_full : Console → Console
scroll_if_full c =
    if leb vga_height c.y then (let s = console_scroll c in record s { y = s.y - 1 }) else c

-- The body of console_write_string's loop.
unfoldable pub write_char : ℕ → Console → Console
write_char ch c =
    let c1 = scroll_if_full (wrap c) in
    if ch == 10
    then record c { y = (c.y + 1) % 2 ^ 16; x = 0 }
    else (if ch == 13 then record c { x = 0 } else record c1 {
      x = c1.x + 1;
      term_buff =
          put (c1.y * vga_width + (c1.x + 1))
            record { character = ch; color_attrib = c1.color_attrib } c1.term_buff;
    })

-- Over the characters of the string, which strlen counts.
unfoldable pub console_write_string : List ℕ → Console → Console
console_write_string [] c = c
console_write_string (ch ∷ str) c = console_write_string str (write_char ch c)
