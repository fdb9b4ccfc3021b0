-- ===== src/Printf/Log.antt =====
-- The line that the macro of kern/log.h prints.
use mugo.Base.{
  ℕ, ◌+◌, ◌^◌, ◌≤◌, ◌<◌, ◌≡◌, ◌≢◌, refl, ap, Bool, true, false, some, List, [], ◌∷◌, ◌++◌, length,
  length-append, ◌==◌, if◌then◌else◌, arith,
}
use mugo.Printf.{Arg, decimal_chars}
use mugo.Printf.Value.{AllNonzero, append-AllNonzero, decimal_chars-IsNumeralOf}
use mugo.Printf.Pieces.{
  Piece, literal, string, signed, Padding, format, arguments, rendered, counted, ArePieces,
}
use mugo.Printf.Shown.{first_padding, kprintf-shows}
use mugo.Printf.Kernel.{log}
use mugo.Vga.{Console, console_write_string}

-- A text that stands in a format as it is: no '%' and no NUL.
abbrev pub plain_ok : List ℕ → Bool
plain_ok [] = true
plain_ok (c ∷ cs) = if c == b'%' then false else (if c == 0 then false else plain_ok cs)

-- It is a literal for each character.
abbrev pub plain : List ℕ → List Piece → List Piece
plain [] ds = ds
plain (c ∷ cs) ds = literal c ∷ plain cs ds

pub format-plain : (cs : List ℕ) (ds : List Piece) → format (plain cs ds) ≡ cs ++ format ds
format-plain [] ds = refl
format-plain (c ∷ cs) ds = ap (λ l. c ∷ l) (format-plain cs ds)

pub arguments-plain :
    (cs : List ℕ) (ds : List Piece) (more : List Arg)
    → arguments (plain cs ds) more ≡ arguments ds more
arguments-plain [] ds more = refl
arguments-plain (c ∷ cs) ds more = arguments-plain cs ds more

pub rendered-plain :
    (cs : List ℕ) (ds : List Piece) (now : Padding)
    → rendered (plain cs ds) now ≡ cs ++ rendered ds now
rendered-plain [] ds now = refl
rendered-plain (c ∷ cs) ds now = ap (λ l. c ∷ l) (rendered-plain cs ds now)

pub counted-plain : (cs : List ℕ) (ds : List Piece) → counted (plain cs ds) ≡ length cs + counted ds
counted-plain [] ds = omega arith
counted-plain (c ∷ cs) ds = omega (arith, counted-plain cs ds)

pub plain_ok-cons :
    (c : ℕ) (cs : List ℕ) → plain_ok (c ∷ cs) ≡ true → (c ≢ b'%') × ((c ≢ 0) × (plain_ok cs ≡ true))
plain_ok-cons c cs ok = (ground (arith, ok), (ground (arith, ok), ground (arith, ok)))

pub plain-ArePieces :
    (cs : List ℕ) (ds : List Piece) → plain_ok cs ≡ true → ArePieces ds → ArePieces (plain cs ds)
plain-ArePieces [] ds ok good = good
plain-ArePieces (c ∷ cs) ds ok good =
    let (no_percent, (nul, rest)) = plain_ok-cons c cs ok in
    (no_percent, plain-ArePieces cs ds rest good)

pub plain_ok-AllNonzero : (cs : List ℕ) → plain_ok cs ≡ true → AllNonzero cs
plain_ok-AllNonzero [] ok = tt
plain_ok-AllNonzero (c ∷ cs) ok =
    let (no_percent, (nul, rest)) = plain_ok-cons c cs ok in (nul, plain_ok-AllNonzero cs rest)

-- `[LEVEL:file:line] format`, and a line feed.
abbrev pub log_text : (level file : List ℕ) (line : ℕ) (format : List ℕ) → List ℕ
log_text level file line format =
    b'['
    ∷ (level
        ++ (b':'
            ∷ (file ++ (b':' ∷ (decimal_chars line ++ (b']' ∷ b' ' ∷ (format ++ (10 ∷ []))))))))

-- The pieces of the macro's format behind the level.
abbrev log_pieces : (file : List ℕ) (line : ℕ) (fmt : List ℕ) → List Piece
log_pieces file line fmt =
    literal b':'
    ∷ string file
    ∷ literal b':'
    ∷ signed line
    ∷ literal b']'
    ∷ literal b' '
    ∷ string fmt
    ∷ literal 10
    ∷ []

log_text-AllNonzero :
    (level file : List ℕ) (line : ℕ) (fmt : List ℕ)
    → AllNonzero level
    → AllNonzero file
    → AllNonzero (decimal_chars line)
    → AllNonzero fmt
    → AllNonzero (log_text level file line fmt)
log_text-AllNonzero level file line fmt level_ok file_ok line_ok fmt_ok =
    let end = append-AllNonzero fmt (10 ∷ []) fmt_ok (omega arith, tt) in
    let number =
      append-AllNonzero (decimal_chars line) (b']' ∷ b' ' ∷ (fmt ++ (10 ∷ []))) line_ok
        (omega arith, (omega arith, end)) in
    let place =
      append-AllNonzero file (b':' ∷ (decimal_chars line ++ (b']' ∷ b' ' ∷ (fmt ++ (10 ∷ [])))))
        file_ok (omega arith, number) in
    (omega arith, append-AllNonzero level _ level_ok (omega arith, place))

length-log_text :
    (level file : List ℕ) (line : ℕ) (fmt : List ℕ)
    → length (log_text level file line fmt)
      ≡ length level + length file + length (decimal_chars line) + length fmt + 6
length-log_text level file line fmt = omega (
  arith,
  length-append fmt (10 ∷ []),
  length-append (decimal_chars line) (b']' ∷ b' ' ∷ (fmt ++ (10 ∷ []))),
  length-append file (b':' ∷ (decimal_chars line ++ (b']' ∷ b' ' ∷ (fmt ++ (10 ∷ []))))),
  length-append level
      (b':' ∷ (file ++ (b':' ∷ (decimal_chars line ++ (b']' ∷ b' ' ∷ (fmt ++ (10 ∷ []))))))),
)

-- If the level has no '%', none of the texts has a NUL, and they have at most 1000 characters
-- together, log prints its level, file, line and format, the format as it is, whatever arguments
-- follow.
pub log-log_text :
    (level file : List ℕ) (line : ℕ) (fmt : List ℕ) (args : List Arg) (c : Console)
    → plain_ok level ≡ true
    → AllNonzero file
    → line < 2 ^ 32
    → AllNonzero fmt
    → length level + length file + length fmt ≤ 1000
    → log level file line fmt args c
      ≡ some (
        length level + length file + length fmt + 6,
        console_write_string (log_text level file line fmt) c,
      )
unfolding log
log-log_text level file line fmt args c ok file_ok line_ok fmt_ok short =
    let rest = log_pieces file line fmt in
    let N = decimal_chars-IsNumeralOf line line_ok in
    kprintf-shows (literal b'[' ∷ plain level rest) args c
      (ap (λ l. b'[' ∷ l) (format-plain level rest)) (arguments-plain level rest args)
      (ap (λ l. b'[' ∷ l) (rendered-plain level rest first_padding))
      (omega (arith, counted-plain level rest))
      (
        omega arith,
        plain-ArePieces level rest ok (
          omega arith,
          (tt, (omega arith, (tt, (omega arith, (omega arith, (tt, (omega arith, tt))))))),
        ),
      )
      (omega arith) (omega (arith, length-log_text level file line fmt, N.length_le))
      (log_text-AllNonzero level file line fmt (plain_ok-AllNonzero level ok) file_ok N.nonzero
        fmt_ok)
