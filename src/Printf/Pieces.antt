-- ===== src/Printf/Pieces.antt =====
-- The formats of vsprintf_s of lib/stdlib/stdlib.c as lists of directives, and what they print.
use mugo.Base.{
  ℕ, ◌+◌, ◌-◌, ◌%◌, ◌^◌, ◌<◌, ◌≤◌, ◌≡◌, true, List, [], ◌∷◌, ◌++◌, length, replicate, ◌≢◌,
}
use mathlib.Core.List.{reverse}
use mugo.Printf.{Arg, word, text, null, decimal_chars, hex_chars, count_digits, is_digit}

-- A piece of a format: a character that is printed, the conversions that print their argument, and
-- %x behind a padding character and the digits of a width.
pub data Piece : Type 0 where
  literal : ℕ → Piece
  percent : Piece
  string : List ℕ → Piece
  missing : Piece
  character : ℕ → Piece
  signed : ℕ → Piece
  unsigned : ℕ → Piece
  hex : ℕ → Piece
  padded : (pad : ℕ) (digits : List ℕ) → ℕ → Piece

-- How it is written in the format, and what it takes from the arguments.
abbrev pub encode : Piece → List ℕ
encode (literal c) = c ∷ []
encode percent = b'%' ∷ b'%' ∷ []
encode (string s) = b'%' ∷ b's' ∷ []
encode missing = b'%' ∷ b's' ∷ []
encode (character n) = b'%' ∷ b'c' ∷ []
encode (signed n) = b'%' ∷ b'd' ∷ []
encode (unsigned n) = b'%' ∷ b'u' ∷ []
encode (hex n) = b'%' ∷ b'x' ∷ []
encode (padded pad digits n) = b'%' ∷ pad ∷ (digits ++ (b'x' ∷ []))

abbrev pub argument : Piece → List Arg
argument (literal c) = []
argument percent = []
argument (string s) = text s ∷ []
argument missing = null ∷ []
argument (character n) = word n ∷ []
argument (signed n) = word n ∷ []
argument (unsigned n) = word n ∷ []
argument (hex n) = word n ∷ []
argument (padded pad digits n) = word n ∷ []

-- The padding character and the width that hold behind it: those of the last directive with one.
pub record Padding : Type 0 where
  pub pad : ℕ
  pub count : ℕ

abbrev pub padding_after : Piece → Padding → Padding
padding_after (padded pad digits n) now = record {
  pad = pad;
  count = count_digits (reverse digits) 1 0;
}
padding_after (literal c) now = now
padding_after percent now = now
padding_after (string s) now = now
padding_after missing now = now
padding_after (character n) now = now
padding_after (signed n) now = now
padding_after (unsigned n) now = now
padding_after (hex n) now = now

-- A hexadecimal numeral, with the padding in front of it that fills it up to the width.
abbrev pub padded_hex : ℕ → Padding → List ℕ
padded_hex n now = replicate (now.count - length ((hex_chars n).1)) now.pad ++ (hex_chars n).1

abbrev pub printed : Piece → Padding → List ℕ
printed (literal c) now = c ∷ []
printed percent now = []
printed (string s) now = s
printed missing now = b'n' ∷ b'u' ∷ b'l' ∷ b'l' ∷ []
printed (character n) now = n % 256 ∷ []
printed (signed n) now = decimal_chars n
printed (unsigned n) now = decimal_chars n
printed (hex n) now = padded_hex n now
printed (padded pad digits n) now = padded_hex n (padding_after (padded pad digits n) now)

-- What a piece adds to `written`: the numerals do not count.
abbrev pub counted_in : Piece → ℕ
counted_in (literal c) = 1
counted_in percent = 0
counted_in (string s) = length s
counted_in missing = 4
counted_in (character n) = 1
counted_in (signed n) = 0
counted_in (unsigned n) = 0
counted_in (hex n) = 0
counted_in (padded pad digits n) = 0

abbrev pub format : List Piece → List ℕ
format [] = []
format (d ∷ ds) = encode d ++ format ds

abbrev pub arguments : List Piece → (more : List Arg) → List Arg
arguments [] more = more
arguments (d ∷ ds) more = argument d ++ arguments ds more

abbrev pub padding_at_end : List Piece → Padding → Padding
padding_at_end [] now = now
padding_at_end (d ∷ ds) now = padding_at_end ds (padding_after d now)

abbrev pub rendered : List Piece → Padding → List ℕ
rendered [] now = []
rendered (d ∷ ds) now = printed d now ++ rendered ds (padding_after d now)

abbrev pub counted : List Piece → ℕ
counted [] = 0
counted (d ∷ ds) = counted_in d + counted ds

-- What a piece asks of its parts: the words are of 32 bits, and the padding and its width are digits
-- that fit in `num_buf`.
abbrev pub AllDigits : List ℕ → Type 0
AllDigits [] = Unit
AllDigits (c ∷ cs) = (is_digit c ≡ true) × AllDigits cs

abbrev pub IsPiece : Piece → Type 0
IsPiece (literal c) = c ≢ b'%'
IsPiece percent = Unit
IsPiece (string s) = Unit
IsPiece missing = Unit
IsPiece (character n) = Unit
IsPiece (signed n) = Unit
IsPiece (unsigned n) = Unit
IsPiece (hex n) = n < 2 ^ 32
IsPiece (padded pad digits n) =
    (is_digit pad ≡ true) × ((AllDigits digits) × ((length digits ≤ 50) × (n < 2 ^ 32)))

abbrev pub ArePieces : List Piece → Type 0
ArePieces [] = Unit
ArePieces (d ∷ ds) = IsPiece d × ArePieces ds
