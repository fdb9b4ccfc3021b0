-- ===== src/Vga/Tests.antt =====
-- A console, and the theorems of arch/i686/drivers/vga.c at it.
use mugo.Base.{ℕ, ◌≡◌, List, [], ◌∷◌, arith}
use mugo.Vga.{Console, console_write_string}
use mugo.Vga.Text.{IsPlace, IsLine, write_string-IsPlace}

-- Each cell holds its index; the next character goes past the end of the last line.
abbrev console : Console
console = record {
  term_buff = λ k. record { character = k; color_attrib = 15 };
  vga_cmd_port = [];
  x = 80;
  y = 24;
  cursor_x = 0;
  cursor_y = 0;
  color_attrib = 15;
}

abbrev str : List ℕ
str = 104 ∷ 105 ∷ 13 ∷ 33 ∷ []

line : IsLine str
line = (
  λ e. absurd (omega (arith, e)),
  (
    λ e. absurd (omega (arith, e)),
    (λ e. absurd (omega (arith, e)), (λ e. absurd (omega (arith, e)), tt)),
  ),
)

write_string-IsPlace_example :
    ((console_write_string str console).term_buff 2001
      ≡ record { character = 2001; color_attrib = 15 })
    × IsPlace (console_write_string str console)
write_string-IsPlace_example =
    write_string-IsPlace str console 2001 line record { x_le = omega arith; y_lt = omega arith }
      (omega arith)
