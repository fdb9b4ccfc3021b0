-- ===== src/Printf/Directive.antt =====
-- One round of the loop of vsprintf_s of lib/stdlib/stdlib.c, for each kind of directive.
use mugo.Base.{
  ℕ, suc, ◌+◌, ◌-◌, ◌%◌, ◌^◌, ◌<◌, ◌≤◌, ◌≡◌, refl, sym, ap, ◌∙◌, true, false, List, [], ◌∷◌, ◌++◌,
  length, replicate, ltb, ◌==◌, if◌then◌else◌, Option, some, none, arith, ◌≢◌, Bool-cases, inl, inr,
  take-length,
}
use mathlib.Core.List.{reverse, append-nil}
use mugo.Paging.{sub32}
use mugo.Printf.{
  Arg, word, Printer, hex_chars, print_string, print_hex, convert, is_digit, split_digits,
  count_digits, read_padding, convert_next, directive, print_from,
}
use mugo.Printf.Pieces.{
  Piece, percent, string, missing, character, signed, unsigned, hex, padded, argument, Padding,
  padding_after, padded_hex, printed, counted_in, AllDigits, IsPiece,
}
use mugo.Printf.Value.{hex_chars-IsNumeralOf}

abbrev pub printer : (out : List ℕ) (written : ℕ) (now : Padding) (args : List Arg) → Printer
printer out written now args = record {
  out = out;
  written = written;
  padding = now.pad;
  padding_count = now.count;
  args = args;
}

pub printer-eq :
    {out out1 : List ℕ} {w w1 : ℕ} (now : Padding) (args : List Arg)
    → out ≡ out1
    → w ≡ w1
    → printer out w now args ≡ printer out1 w1 now args
printer-eq now args eo ew = rw (eo, ew) refl

goes_on : (size w : ℕ) → size ≤ 2 ^ 31 → w + 1 < size → ltb w (sub32 size 1) ≡ true
goes_on size w le lt = ground arith

-- A round at a '%'.
abbrev after : (fuel size : ℕ) → Option (List ℕ × Printer) → Option Printer
after fuel size none = none
after fuel size (some (rest, p)) = print_from fuel size rest p

pub round-literal :
    (fuel size c : ℕ) (cs : List ℕ) (p : Printer)
    → size ≤ 2 ^ 31
    → p.written + 1 < size
    → c ≢ b'%'
    → print_from (suc fuel) size (c ∷ cs) p
      ≡ print_from fuel size cs (record p { out = p.out ++ (c ∷ []); written = p.written + 1 })
unfolding print_from
round-literal fuel size c cs p le lt ne =
    let plain : (c == b'%') ≡ false = ground (arith, ne) in
    rw (goes_on size p.written le lt, plain) refl

pub round-directive :
    (fuel size : ℕ) (cs : List ℕ) (p : Printer)
    → size ≤ 2 ^ 31
    → p.written + 1 < size
    → {r : Option (List ℕ × Printer)} → directive size cs p ≡ r
    → print_from (suc fuel) size (b'%' ∷ cs) p ≡ after fuel size r
unfolding print_from
round-directive fuel size cs p le lt {r} e =
    rw (goes_on size p.written le lt, e) (elim r [ none ↦ refl | some q ↦ refl ])

-- What the switch does for each directive.
print_string-fits :
    (size : ℕ) (s : List ℕ) (now : Padding) (out : List ℕ) (w : ℕ) (args : List Arg)
    → size ≤ 2 ^ 31
    → length s + w < size
    → print_string size s (printer out w now args) ≡ printer (out ++ s) (w + length s) now args
unfolding print_string
print_string-fits size [] now out w args le fits =
    sym (printer-eq now args (append-nil out) (omega arith))
print_string-fits size (c ∷ s) now out w args le fits =
    let whole : ltb size ((length (c ∷ s) + w) % 2 ^ 32) ≡ false = ground (arith, fits) in
    let positive : ltb (length (c ∷ s)) (2 ^ 31) ≡ true = ground (arith, fits) in
    let sum : (w + length (c ∷ s)) % 2 ^ 32 ≡ w + length (c ∷ s) = omega (arith, fits) in
    let some_text : (length (c ∷ s) == 0) ≡ false = ground arith in
    rw (some_text, whole, positive, sum, take-length s) refl

fill :
    (width len c : ℕ)
    → (if ltb len width then replicate (width - len) c else []) ≡ replicate (width - len) c
fill width len c = elim (Bool-cases (ltb len width)) [
  | inl e ↦ rw e refl
  | inr e ↦ let none_left : width - len ≡ 0 = ground (arith, e) in rw (e, none_left) refl
]

print_hex-padded_hex :
    (n : ℕ) (now : Padding) (out : List ℕ) (w : ℕ) (args : List Arg)
    → n < 2 ^ 32
    → print_hex n (printer out w now args) ≡ printer (out ++ padded_hex n now) w now args
unfolding print_hex
print_hex-padded_hex n now out w args small =
    let N = hex_chars-IsNumeralOf n small in
    rw (fill now.count ((hex_chars n).0) now.pad, sym N.length_eq) refl

-- The digits of a width, up to the letter of the conversion.
split_digits-append :
    (digits rest : List ℕ)
    → AllDigits digits
    → split_digits (digits ++ (b'x' ∷ rest)) ≡ (digits, b'x' ∷ rest)
unfolding split_digits
split_digits-append [] rest all = refl
split_digits-append (c ∷ cs) rest (here, all) = rw (split_digits-append cs rest all, here) refl

read_padding-padded :
    (pad : ℕ) (digits rest : List ℕ) (p : Printer)
    → is_digit pad ≡ true
    → AllDigits digits
    → length digits ≤ 50
    → read_padding (pad ∷ (digits ++ (b'x' ∷ rest))) p
      ≡ some (
        b'x' ∷ rest,
        record p { padding = pad; padding_count = count_digits (reverse digits) 1 0 },
      )
unfolding read_padding
read_padding-padded pad digits rest p good all fits =
    let short : ltb 50 (length digits) ≡ false = ground (arith, fits) in
    rw (good, split_digits-append digits rest all, short) refl

-- A directive leads from one state of the loop to the next.
abbrev Does :
    (size : ℕ) (cs rest : List ℕ) (d : Piece) (out : List ℕ) (w : ℕ) (now : Padding)
    (args : List Arg)
    → Type 0
Does size cs rest d out w now args =
    directive size cs (printer out w now (argument d ++ args))
    ≡ some (rest, printer (out ++ printed d now) (w + counted_in d) (padding_after d now) args)

module _ (size : ℕ) (rest : List ℕ) (out : List ℕ) (w : ℕ) (now : Padding) (args : List Arg) where
  pub directive-percent : Does size (b'%' ∷ rest) rest percent out w now args
  unfolding read_padding convert
  directive-percent =
      ap (λ p. some (rest, p)) (printer-eq now args (sym (append-nil out)) (omega arith))

  pub directive-character : (n : ℕ) → Does size (b'c' ∷ rest) rest (character n) out w now args
  unfolding read_padding convert
  directive-character n = refl

  pub directive-signed : (n : ℕ) → Does size (b'd' ∷ rest) rest (signed n) out w now args
  unfolding read_padding convert
  directive-signed n = ap (λ p. some (rest, p)) (printer-eq now args refl (omega arith))

  pub directive-unsigned : (n : ℕ) → Does size (b'u' ∷ rest) rest (unsigned n) out w now args
  unfolding read_padding convert
  directive-unsigned n = ap (λ p. some (rest, p)) (printer-eq now args refl (omega arith))

  pub directive-string :
      (s : List ℕ)
      → size ≤ 2 ^ 31
      → length s + w < size
      → Does size (b's' ∷ rest) rest (string s) out w now args
  unfolding read_padding convert
  directive-string s le fits =
      ap (λ p. some (rest, p)) (print_string-fits size s now out w args le fits)

  pub directive-missing :
      size ≤ 2 ^ 31 → 4 + w < size → Does size (b's' ∷ rest) rest missing out w now args
  unfolding read_padding convert
  directive-missing le fits =
      ap (λ p. some (rest, p))
        (print_string-fits size (b'n' ∷ b'u' ∷ b'l' ∷ b'l' ∷ []) now out w args le fits)

  pub directive-hex : (n : ℕ) → n < 2 ^ 32 → Does size (b'x' ∷ rest) rest (hex n) out w now args
  unfolding read_padding convert
  directive-hex n small =
      ap (λ p. some (rest, p))
        (print_hex-padded_hex n now out w args small ∙ printer-eq now args refl (omega arith))

  convert-x :
      (n : ℕ)
      → n < 2 ^ 32
      → convert size b'x' (printer out w now (word n ∷ args))
        ≡ some (printer (out ++ padded_hex n now) (w + 0) now args)
  unfolding convert
  convert-x n small =
      ap some (print_hex-padded_hex n now out w args small ∙ printer-eq now args refl (omega arith))

directive-steps :
    (size c : ℕ) (cs rest : List ℕ) (p p1 p2 : Printer)
    → read_padding cs p ≡ some (c ∷ rest, p1)
    → convert size c p1 ≡ some p2
    → directive size cs p ≡ some (rest, p2)
directive-steps size c cs rest p p1 p2 read done =
    let next : convert_next size (some (c ∷ rest, p1)) ≡ some (rest, p2) =
      rw (done, convert_next) refl in
    ap (convert_next size) read ∙ next

pub directive-padded :
    (size pad : ℕ) (digits : List ℕ) (rest : List ℕ) (out : List ℕ) (w : ℕ) (now : Padding)
    (args : List Arg) (n : ℕ)
    → IsPiece (padded pad digits n)
    → Does size (pad ∷ (digits ++ (b'x' ∷ rest))) rest (padded pad digits n) out w now args
directive-padded size pad digits rest out w now args n (good, (all, (fits, small))) =
    let start = printer out w now (word n ∷ args) in
    let ready = printer out w (padding_after (padded pad digits n) now) (word n ∷ args) in
    directive-steps size b'x' (pad ∷ (digits ++ (b'x' ∷ rest))) rest start ready _
      (read_padding-padded pad digits rest start good all fits)
      (convert-x size rest out w (padding_after (padded pad digits n) now) args n small)
