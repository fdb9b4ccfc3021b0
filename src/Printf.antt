-- ===== src/Printf.antt =====
-- vsprintf_s of lib/stdlib/stdlib.c, with kern/kprint.c, kern/log.h and kern/util.c, which print by it.
-- A string is the list of its characters before the NUL. What is written from `dstbuf` on is a list
-- too, as the pointer only moves forward; it overlaps neither the format nor the strings. none is a
-- read behind the format's NUL, an argument that is missing or of the other type, or a write outside
-- `num_buf`.
mod Value
mod Bounds
mod Directive
mod Text
mod Pieces
mod Shown
mod Log
mod Hex
mod Panic
mod Fault
pub mod Kernel
mod Tests
use mathlib.Core.List.{reverse}
use mugo.Base.{
  ℕ, zero, suc, ◌+◌, ◌-◌, ◌*◌, ◌/◌, ◌%◌, ◌^◌, Bool, ◌&&◌, ◌||◌, Option, none, some, List, [], ◌∷◌,
  ◌++◌, length, take, replicate, ltb, leb, ◌==◌, if◌then◌else◌,
}
use mugo.Stdlib.{Bytes, itoa, xtoa}
use mugo.Paging.{sub32}

abbrev pub num_buf_max : ℕ
num_buf_max = 50

-- What `va_arg` takes: a word, or a pointer to a string, which may be NULL.
pub data Arg : Type 0 where
  word : ℕ → Arg
  text : List ℕ → Arg
  null : Arg

-- The variables of vsprintf_s, with what was written from `dstbuf` on.
pub record Printer : Type 0 where
  pub out : List ℕ
  pub written : ℕ
  pub padding : ℕ
  pub padding_count : ℕ
  pub args : List Arg

-- `va_arg(args, char*)`, with "null" for NULL, and `va_arg(args, unsigned int)`.
abbrev pub next_text : List Arg → Option (List ℕ × List Arg)
next_text [] = none
next_text (text s ∷ args) = some (s, args)
next_text (null ∷ args) = some (b'n' ∷ b'u' ∷ b'l' ∷ b'l' ∷ [], args)
next_text (word n ∷ args) = none

abbrev pub next_word : List Arg → Option (ℕ × List Arg)
next_word [] = none
next_word (word n ∷ args) = some (n, args)
next_word (text s ∷ args) = none
next_word (null ∷ args) = none

-- `while (*tmp)`, over a string of fewer characters than `fuel`.
unfoldable pub chars_at : (fuel tmp : ℕ) → Bytes → List ℕ
chars_at zero tmp m = []
chars_at (suc fuel) tmp m =
    let rest = m tmp ∷ chars_at fuel (tmp + 1) m in if m tmp == 0 then [] else rest

-- `num_buf`, which stands at 0 here and is written before it is read.
abbrev pub num_buf : Bytes
num_buf k = 0

-- What itoa and xtoa leave there.
unfoldable pub decimal_chars : ℕ → List ℕ
decimal_chars num = chars_at num_buf_max 0 (itoa num 0 num_buf_max num_buf)

unfoldable pub hex_chars : ℕ → ℕ × List ℕ
hex_chars num =
    let (num_len, m) = xtoa num 0 num_buf_max num_buf in (num_len, chars_at num_buf_max 0 m)

-- case 's'. `len` is a signed word.
unfoldable pub print_string : (size : ℕ) → List ℕ → Printer → Printer
print_string size s p =
    let len =
      if ltb size ((length s + p.written) % 2 ^ 32) then sub32 size p.written else length s in
    let copied = if ltb len (2 ^ 31) then len else 0 in
    if length s == 0
    then p
    else record p { out = p.out ++ take copied s; written = (p.written + len) % 2 ^ 32 }

-- case 'x'
unfoldable pub print_hex : ℕ → Printer → Printer
print_hex num p =
    let (num_len, digits) = hex_chars num in
    let pad =
      if ltb num_len p.padding_count then replicate (p.padding_count - num_len) p.padding else [] in
    record p { out = p.out ++ (pad ++ digits) }

-- The switch, at the character `c`.
unfoldable pub convert : (size c : ℕ) → Printer → Option Printer
convert size c p =
    if c == b's'
    then elim (next_text p.args) [
      | none ↦ none
      | some (s, args) ↦ some (print_string size s (record p { args = args }))
    ]
    else (if c == b'c'
        then elim (next_word p.args) [
          | none ↦ none
          | some (n, args) ↦
              some
                (record p { out = p.out ++ (n % 256 ∷ []); written = p.written + 1; args = args })
        ]
        else (if c == b'd' || (c == b'u')
            then elim (next_word p.args) [
              | none ↦ none
              | some (n, args) ↦ some (record p { out = p.out ++ decimal_chars n; args = args })
            ]
            else (if c == b'x'
                then elim (next_word p.args) [
                  | none ↦ none
                  | some (n, args) ↦ some (print_hex n (record p { args = args }))
                ]
                else some (
                    if c == b'%'
                    then p
                    else record p { out = p.out ++ (b'%' ∷ []); written = p.written + 1 }))))

abbrev pub is_digit : ℕ → Bool
is_digit c = leb b'0' c && leb c b'9'

-- The first loop over the digits of a width: the digits, and the rest of the format.
unfoldable pub split_digits : List ℕ → List ℕ × List ℕ
split_digits [] = ([], [])
split_digits (c ∷ cs) =
    let (digits, rest) = split_digits cs in if is_digit c then (c ∷ digits, rest) else ([], c ∷ cs)

-- The second one, from the last digit to the first.
unfoldable pub count_digits : List ℕ → (i padding_count : ℕ) → ℕ
count_digits [] i padding_count = padding_count
count_digits (d ∷ ds) i padding_count =
    count_digits ds (i * 10 % 2 ^ 32) ((padding_count + i * (d - b'0')) % 2 ^ 32)

-- The padding at the start of a directive, if there is one.
unfoldable pub read_padding : List ℕ → Printer → Option (List ℕ × Printer)
read_padding [] p = some ([], p)
read_padding (c ∷ cs) p =
    let (digits, rest) = split_digits cs in
    if is_digit c
    then (if ltb num_buf_max (length digits)
        then none
        else some
            (rest, record p { padding = c; padding_count = count_digits (reverse digits) 1 0 }))
    else some (c ∷ cs, p)

-- What follows a '%': the rest of the format behind the directive. At the NUL the switch prints a
-- '%', and the loop goes on behind it.
abbrev pub convert_next : (size : ℕ) → Option (List ℕ × Printer) → Option (List ℕ × Printer)
convert_next size none = none
convert_next size (some ([], p)) = none
convert_next size (some (c ∷ rest, p)) = elim (convert size c p) [
  | none ↦ none
  | some p1 ↦ some (rest, p1)
]

abbrev pub directive : (size : ℕ) → List ℕ → Printer → Option (List ℕ × Printer)
directive size cs p = convert_next size (read_padding cs p)

-- The loop, with fuel for each round and the end.
unfoldable pub print_from : (fuel size : ℕ) → List ℕ → Printer → Option Printer
print_from zero size fmt p = none
print_from (suc fuel) size [] p = some p
print_from (suc fuel) size (c ∷ cs) p =
    let plain =
      print_from fuel size cs (record p { out = p.out ++ (c ∷ []); written = p.written + 1 }) in
    let converted : Option Printer = elim (directive size cs p) [
      | none ↦ none
      | some (rest, p1) ↦ print_from fuel size rest p1
    ] in
    if ltb p.written (sub32 size 1) then (if c == b'%' then converted else plain) else some p

-- `flush:`: the result, with the bytes that are written.
abbrev pub flush : Option Printer → Option (ℕ × List ℕ)
flush none = none
flush (some p) = some (p.written, p.out ++ (0 ∷ []))

abbrev pub start_of : List Arg → Printer
start_of args = record { out = []; written = 0; padding = b' '; padding_count = 0; args = args }

unfoldable pub vsprintf_s : (size : ℕ) (fmt : List ℕ) (args : List Arg) → Option (ℕ × List ℕ)
vsprintf_s size fmt args = flush (print_from (length fmt + 1) size fmt (start_of args))
