-- ===== src/Printf/Hex.antt =====
-- The lines that panic prints: a label, a word in hexadecimal and a line feed.
use mugo.Base.{
  ℕ, zero, suc, ◌+◌, ◌-◌, ◌^◌, ◌<◌, ◌≡◌, ◌≢◌, refl, ap, ◌∙◌, true, List, [], ◌∷◌, ◌++◌, length,
  replicate, length-append, length-replicate, arith,
}
use mathlib.Core.List.{append_assoc}
use mugo.Stdlib.Digits.{unhex}
use mugo.Printf.{hex_chars, count_digits}
use mugo.Printf.Value.{AllNonzero, append-AllNonzero, value_of, hex_chars-IsNumeralOf}
use mugo.Printf.Pieces.{Piece, literal, padded, padded_hex, ArePieces}
use mugo.Printf.Log.{plain, plain_ok, plain_ok-AllNonzero, plain-ArePieces}

-- A word as eight hexadecimal digits.
abbrev pub hex8 : ℕ → List ℕ
hex8 n = padded_hex n record { pad = b'0'; count = 8 }

-- Eight digits, none of them NUL, that give the number back.
pub record IsHex8 (n : ℕ) (cs : List ℕ) : Type 0 where
  pub length_eq : length cs ≡ 8
  pub nonzero : AllNonzero cs
  pub value_eq : value_of unhex 16 cs ≡ n

replicate-AllNonzero : (k c : ℕ) → c ≢ 0 → AllNonzero (replicate k c)
replicate-AllNonzero zero c ne = tt
replicate-AllNonzero (suc k) c ne = (ne, replicate-AllNonzero k c ne)

-- Zeros in front do not change the number.
value_of-zeros :
    (k : ℕ) (cs : List ℕ) → value_of unhex 16 (replicate k b'0' ++ cs) ≡ value_of unhex 16 cs
value_of-zeros zero cs = refl
value_of-zeros (suc k) cs = value_of-zeros k cs

-- The numeral of a word of 32 bits, filled up with zeros, has eight digits, and they give the word
-- back.
pub hex8-IsHex8 : (n : ℕ) → n < 2 ^ 32 → IsHex8 n (hex8 n)
hex8-IsHex8 n small =
    let N = hex_chars-IsNumeralOf n small in
    let digits = (hex_chars n).1 in
    let zeros = 8 - length digits in
    record {
      length_eq = omega (
        arith,
        length-append (replicate zeros b'0') digits,
        length-replicate {A = ℕ} zeros b'0',
        N.length_eq,
        N.length_le,
      );
      nonzero =
          append-AllNonzero (replicate zeros b'0') digits
            (replicate-AllNonzero zeros b'0' (omega arith)) N.nonzero;
      value_eq = value_of-zeros zeros digits ∙ N.value_eq;
    }

pub width8 : count_digits (b'8' ∷ []) 1 0 ≡ 8
unfolding count_digits
width8 = refl

-- A label, the word and a line feed, and what follows.
abbrev pub hex_line : (label : List ℕ) → ℕ → List ℕ → List ℕ
hex_line label n rest = label ++ (hex8 n ++ (10 ∷ rest))

pub hex_line-append :
    (label : List ℕ) (n : ℕ) (rest : List ℕ) → hex_line label n [] ++ rest ≡ hex_line label n rest
hex_line-append label n rest =
    append_assoc label (hex8 n ++ (10 ∷ [])) rest
    ∙ ap (λ l. label ++ l) (append_assoc (hex8 n) (10 ∷ []) rest)

pub hex_line-AllNonzero :
    (label : List ℕ) (n : ℕ) (rest : List ℕ)
    → plain_ok label ≡ true
    → n < 2 ^ 32
    → AllNonzero rest
    → AllNonzero (hex_line label n rest)
hex_line-AllNonzero label n rest ok small more =
    append-AllNonzero label (hex8 n ++ (10 ∷ rest)) (plain_ok-AllNonzero label ok)
      (append-AllNonzero (hex8 n) (10 ∷ rest) ((hex8-IsHex8 n small).nonzero) (omega arith, more))

pub length-hex_line :
    (label : List ℕ) (n : ℕ) (rest : List ℕ)
    → n < 2 ^ 32
    → length (hex_line label n rest) ≡ length label + 9 + length rest
length-hex_line label n rest small = omega (
  arith,
  length-append label (hex8 n ++ (10 ∷ rest)),
  length-append (hex8 n) (10 ∷ rest),
  (hex8-IsHex8 n small).length_eq,
)

abbrev pub word_line : (label : List ℕ) (n : ℕ) → List Piece → List Piece
word_line label n ds = plain label (padded b'0' (b'8' ∷ []) n ∷ literal 10 ∷ ds)

-- Such a line can be printed.
pub word_line-ArePieces :
    (label : List ℕ) (n : ℕ) (ds : List Piece)
    → plain_ok label ≡ true
    → n < 2 ^ 32
    → ArePieces ds
    → ArePieces (word_line label n ds)
word_line-ArePieces label n ds ok small good =
    plain-ArePieces label (padded b'0' (b'8' ∷ []) n ∷ literal 10 ∷ ds) ok
      ((refl, ((refl, tt), (omega arith, small))), (omega arith, good))
