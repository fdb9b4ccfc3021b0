-- ===== src/Printf/Tests.antt =====
-- The theorems of lib/stdlib/stdlib.c's vsprintf_s and of its callers in kern at formats of the
-- kernel, and what it does at the end of its buffer.
use mugo.Base.{ℕ, ◌+◌, ◌≡◌, refl, none, some, List, [], ◌∷◌, ◌++◌, arith}
use mugo.Printf.{
  word, text, vsprintf_s, hex_chars, chars_at, print_string, print_hex, convert, split_digits,
  count_digits, read_padding, print_from,
}
use mugo.Printf.Bounds.{ReturnsLe, vsprintf_s-ReturnsLe}
use mugo.Printf.Pieces.{
  Piece, literal, percent, string, character, signed, padded, format, arguments, rendered,
}
use mugo.Printf.Text.{vsprintf_s-pieces}
use mugo.Printf.Log.{log_text, log-log_text}
use mugo.Printf.Hex.{hex8, IsHex8, hex8-IsHex8}
use mugo.Printf.Panic.{panic_text, panic-panic_text}
use mugo.Printf.Kernel.{Registers, log, panic}
use mugo.Vga.{Console, console_write_string}

-- "a%s%%%c%d%08x" with a string, a character and two numbers.
abbrev pieces : List Piece
pieces =
    literal b'a'
    ∷ string (b'h' ∷ b'i' ∷ [])
    ∷ percent
    ∷ character 65
    ∷ signed 7
    ∷ padded b'0' (b'8' ∷ []) 255
    ∷ []

vsprintf_s-pieces_example :
    vsprintf_s 16 (format pieces) (arguments pieces [])
    ≡ some (4, rendered pieces record { pad = b' '; count = 0 } ++ (0 ∷ []))
vsprintf_s-pieces_example =
    vsprintf_s-pieces 16 pieces []
      (omega arith, (tt, (tt, (tt, (tt, ((refl, ((refl, tt), (omega arith, omega arith))), tt))))))
      (omega arith) (omega arith)

vsprintf_s-ReturnsLe_example :
    ReturnsLe 4
      (vsprintf_s 4 (b'%' ∷ b's' ∷ []) (text (b'h' ∷ b'e' ∷ b'l' ∷ b'l' ∷ b'o' ∷ []) ∷ []))
vsprintf_s-ReturnsLe_example =
    vsprintf_s-ReturnsLe 4 (b'%' ∷ b's' ∷ []) (text (b'h' ∷ b'e' ∷ b'l' ∷ b'l' ∷ b'o' ∷ []) ∷ [])
      (omega arith) (omega arith)

-- A string that does not fit is cut to the whole buffer, and the NUL is written behind it.
cut :
    vsprintf_s 4 (b'%' ∷ b's' ∷ []) (text (b'h' ∷ b'e' ∷ b'l' ∷ b'l' ∷ b'o' ∷ []) ∷ [])
    ≡ some (4, b'h' ∷ b'e' ∷ b'l' ∷ b'l' ∷ 0 ∷ [])
unfolding vsprintf_s print_from read_padding convert print_string
cut = refl

-- A '%' at the end of the format makes the loop read behind its NUL.
behind_end : vsprintf_s 4 (b'%' ∷ []) [] ≡ none
unfolding vsprintf_s print_from read_padding convert
behind_end = refl

-- Without a zero in front, the first digit of a width is the padding character.
width_lost : vsprintf_s 16 (b'%' ∷ b'8' ∷ b'x' ∷ []) (word 10 ∷ []) ≡ some (0, b'a' ∷ 0 ∷ [])
unfolding vsprintf_s print_from read_padding convert print_hex hex_chars mugo.Stdlib.xtoa chars_at
    count_digits split_digits mugo.Stdlib.to_digits
width_lost = refl

abbrev console : Console
console = record {
  term_buff = λ k. record { character = 32; color_attrib = 15 };
  vga_cmd_port = [];
  x = 0;
  y = 0;
  cursor_x = 0;
  cursor_y = 0;
  color_attrib = 15;
}

abbrev level : List ℕ
level = b'I' ∷ b'N' ∷ b'F' ∷ b'O' ∷ []

abbrev file : List ℕ
file = b'a' ∷ b'.' ∷ b'c' ∷ []

abbrev fmt : List ℕ
fmt = b'%' ∷ b'd' ∷ []

log-log_text_example :
    log level file 60 fmt (word 5 ∷ []) console
    ≡ some (15, console_write_string (log_text level file 60 fmt) console)
log-log_text_example =
    log-log_text level file 60 fmt (word 5 ∷ []) console refl
      (omega arith, (omega arith, (omega arith, tt))) (omega arith) (omega arith, (omega arith, tt))
      (omega arith)

hex8-IsHex8_example : IsHex8 4096 (hex8 4096)
hex8-IsHex8_example = hex8-IsHex8 4096 (omega arith)

abbrev registers : Registers
registers = record { cr0 = 1; cr2 = 4096; cr3 = 8192; cr4 = 0 }

panic-panic_text_example :
    panic file registers 2 (λ i. i + 4096) console
    ≡ some (console_write_string (panic_text file registers 2 (λ i. i + 4096)) console)
panic-panic_text_example =
    panic-panic_text file registers 2 (λ i. i + 4096) console
      (omega arith, (omega arith, (omega arith, tt))) (omega arith)
      record {
        cr0_lt = omega arith;
        cr2_lt = omega arith;
        cr3_lt = omega arith;
        cr4_lt = omega arith;
      }
      (λ i lt. omega arith)
