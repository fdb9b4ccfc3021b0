-- ===== src/Printf/Text.antt =====
-- vsprintf_s of lib/stdlib/stdlib.c piece by piece, where the buffer is long enough.
use mugo.Base.{
  ℕ, suc, ◌+◌, ◌-◌, ◌^◌, ◌<◌, ◌≤◌, ◌≡◌, refl, sym, ap, ◌∙◌, List, [], ◌∷◌, ◌++◌, length, some,
  arith, length-append,
}
use mathlib.Core.List.{append-nil, append_assoc}
use mugo.Printf.{Arg, word, text, null, Printer, print_from, flush, start_of, vsprintf_s}
use mugo.Printf.Pieces.{
  Piece, literal, percent, string, missing, character, signed, unsigned, hex, padded, encode,
  argument, Padding, padding_after, printed, counted_in, format, padding_at_end, arguments,
  rendered, counted, IsPiece, ArePieces,
}
use mugo.Printf.Directive.{
  printer, printer-eq, round-literal, round-directive, directive-percent, directive-character,
  directive-signed, directive-unsigned, directive-string, directive-missing, directive-hex,
  directive-padded,
}

-- One round of the loop at a piece.
module _ (fuel size : ℕ) (rest : List ℕ) (out : List ℕ) (w : ℕ) (now : Padding)
    (args : List Arg) where
  round-piece :
      (d : Piece)
      → IsPiece d
      → size ≤ 2 ^ 31
      → w + counted_in d + 1 < size
      → print_from (suc fuel) size (encode d ++ rest) (printer out w now (argument d ++ args))
        ≡ print_from fuel size rest
            (printer (out ++ printed d now) (w + counted_in d) (padding_after d now) args)
  round-piece (literal c) good le fits =
      round-literal fuel size c rest (printer out w now args) le (omega (arith, fits)) good
  round-piece percent good le fits =
      round-directive fuel size (b'%' ∷ rest) (printer out w now args) le (omega (arith, fits))
        (directive-percent size rest out w now args)
  round-piece (string s) good le fits =
      round-directive fuel size (b's' ∷ rest) (printer out w now (text s ∷ args)) le
        (omega (arith, fits)) (directive-string size rest out w now args s le (omega (arith, fits)))
  round-piece missing good le fits =
      round-directive fuel size (b's' ∷ rest) (printer out w now (null ∷ args)) le
        (omega (arith, fits)) (directive-missing size rest out w now args le (omega (arith, fits)))
  round-piece (character n) good le fits =
      round-directive fuel size (b'c' ∷ rest) (printer out w now (word n ∷ args)) le
        (omega (arith, fits)) (directive-character size rest out w now args n)
  round-piece (signed n) good le fits =
      round-directive fuel size (b'd' ∷ rest) (printer out w now (word n ∷ args)) le
        (omega (arith, fits)) (directive-signed size rest out w now args n)
  round-piece (unsigned n) good le fits =
      round-directive fuel size (b'u' ∷ rest) (printer out w now (word n ∷ args)) le
        (omega (arith, fits)) (directive-unsigned size rest out w now args n)
  round-piece (hex n) good le fits =
      round-directive fuel size (b'x' ∷ rest) (printer out w now (word n ∷ args)) le
        (omega (arith, fits)) (directive-hex size rest out w now args n good)
  round-piece (padded pad digits n) good le fits =
      let shape : encode (padded pad digits n) ++ rest ≡ b'%' ∷ (pad ∷ (digits ++ (b'x' ∷ rest))) =
        ap (λ l. b'%' ∷ (pad ∷ l)) (append_assoc digits (b'x' ∷ []) rest) in
      rw shape (
        round-directive fuel size (pad ∷ (digits ++ (b'x' ∷ rest)))
          (printer out w now (word n ∷ args)) le (omega (arith, fits))
          (directive-padded size pad digits rest out w now args n good))

print_from-end : (fuel size : ℕ) (p : Printer) → print_from (suc fuel) size [] p ≡ some p
unfolding print_from
print_from-end fuel size p = refl

print_from-pieces :
    (k size : ℕ) (ds : List Piece) (out : List ℕ) (w : ℕ) (now : Padding) (more : List Arg)
    → ArePieces ds
    → size ≤ 2 ^ 31
    → w + counted ds + 1 < size
    → print_from (length ds + suc k) size (format ds) (printer out w now (arguments ds more))
      ≡ some (printer (out ++ rendered ds now) (w + counted ds) (padding_at_end ds now) more)
print_from-pieces k size [] out w now more good le fits =
    let fuel : 0 + suc k ≡ suc k = omega arith in
    rw fuel (
      print_from-end k size (printer out w now more)
      ∙ ap some (printer-eq now more (sym (append-nil out)) (omega arith)))
print_from-pieces k size (d ∷ ds) out w now more (good, goods) le fits =
    let turn =
      round-piece (length ds + suc k) size (format ds) out w now (arguments ds more) d good le
        (omega (arith, fits)) in
    let rest =
      print_from-pieces k size ds (out ++ printed d now) (w + counted_in d) (padding_after d now)
        more goods le (omega (arith, fits)) in
    let fuel : suc (length ds) + suc k ≡ suc (length ds + suc k) = omega arith in
    rw fuel (
      turn
      ∙ rest
      ∙ ap some (
          printer-eq (padding_at_end ds (padding_after d now)) more
            (append_assoc out (printed d now) (rendered ds (padding_after d now))) (omega arith)))

-- Every piece has a character in the format, so that the length of the format is fuel enough.
piece_le : (d : Piece) → 1 ≤ length (encode d)
piece_le (literal c) = omega arith
piece_le percent = omega arith
piece_le (string s) = omega arith
piece_le missing = omega arith
piece_le (character n) = omega arith
piece_le (signed n) = omega arith
piece_le (unsigned n) = omega arith
piece_le (hex n) = omega arith
piece_le (padded pad digits n) = omega arith

pieces_le : (ds : List Piece) → length ds ≤ length (format ds)
pieces_le [] = omega arith
pieces_le (d ∷ ds) = omega (arith, piece_le d, pieces_le ds, length-append (encode d) (format ds))

-- A format that is made of well-formed pieces, with their arguments and more, into a buffer of at
-- most 2^31 bytes and at least two more than are counted: the call returns what is counted, and writes the
-- rendered pieces and a NUL.
pub vsprintf_s-pieces :
    (size : ℕ) (ds : List Piece) (more : List Arg)
    → ArePieces ds
    → size ≤ 2 ^ 31
    → counted ds + 1 < size
    → vsprintf_s size (format ds) (arguments ds more)
      ≡ some (counted ds, rendered ds record { pad = b' '; count = 0 } ++ (0 ∷ []))
unfolding vsprintf_s
vsprintf_s-pieces size ds more good le fits =
    let now : Padding = record { pad = b' '; count = 0 } in
    let spare = length (format ds) - length ds in
    let fuel : length (format ds) + 1 ≡ length ds + suc spare = omega (arith, pieces_le ds) in
    let run = print_from-pieces spare size ds [] 0 now more good le (omega (arith, fits)) in
    let all : 0 + counted ds ≡ counted ds = omega arith in
    ap flush (ap (λ f. print_from f size (format ds) (start_of (arguments ds more))) fuel ∙ run)
    ∙ ap (λ w. some (w, rendered ds now ++ (0 ∷ []))) all
