-- ===== src/Printf/Bounds.antt =====
-- The count that vsprintf_s of lib/stdlib/stdlib.c returns.
use mugo.Base.{
  ℕ, zero, suc, ◌+◌, ◌%◌, ◌^◌, ◌≤◌, ◌<◌, ◌≡◌, refl, Bool, true, false, ◌||◌, List, [], ◌∷◌, ◌++◌,
  length, ltb, ◌==◌, if◌then◌else◌, Option, some, none, arith,
}
use mugo.Paging.{sub32}
use mugo.Printf.{
  Arg, Printer, next_text, next_word, decimal_chars, print_string, print_hex, convert, split_digits,
  is_digit, read_padding, convert_next, directive, print_from, start_of, flush, vsprintf_s,
}

if_both {ℓ} :
    {A : Type ℓ} (P : A → Type 0) (b : Bool) {x y : A}
    → (b ≡ true → P x)
    → P y
    → P (if b then x else y)
if_both P true p q = p refl
if_both P false p q = q

-- What holds of a state if there is one.
abbrev CountLe : (size : ℕ) → Option Printer → Type 0
CountLe size none = Unit
CountLe size (some p) = p.written ≤ size

abbrev NextLe : (size : ℕ) → Option (List ℕ × Printer) → Type 0
NextLe size none = Unit
NextLe size (some (rest, p)) = p.written ≤ size

print_string-written_le :
    (size : ℕ) (s : List ℕ) (p : Printer)
    → size < 2 ^ 31
    → p.written ≤ size
    → (print_string size s p).written ≤ size
unfolding print_string
print_string-written_le size s p small le = ground arith

string-CountLe :
    (size : ℕ) (p : Printer) (r : Option (List ℕ × List Arg))
    → size < 2 ^ 31
    → p.written ≤ size
    → CountLe size (elim r [
      | none ↦ none
      | some (s, args) ↦ some (print_string size s (record p { args = args }))
    ])
string-CountLe size p none small le = tt
string-CountLe size p (some (s, args)) small le =
    print_string-written_le size s (record p { args = args }) small le

-- The conversions that take a word.
word-CountLe :
    (size : ℕ) (r : Option (ℕ × List Arg)) (f : ℕ → List Arg → Printer)
    → ((n : ℕ) (args : List Arg) → (f n args).written ≤ size)
    → CountLe size (elim r [ none ↦ none | some (n, args) ↦ some (f n args) ])
word-CountLe size none f le = tt
word-CountLe size (some (n, args)) f le = le n args

convert-CountLe :
    (size c : ℕ) (p : Printer) → size < 2 ^ 31 → p.written < size → CountLe size (convert size c p)
unfolding convert print_hex
convert-CountLe size c p small lt =
    if_both (CountLe size) (c == b's')
      (λ is. string-CountLe size p (next_text p.args) small (omega arith))
      (if_both (CountLe size) (c == b'c')
        (λ is.
          word-CountLe size (next_word p.args)
            (λ n args. record p {
              out = p.out ++ (n % 256 ∷ []);
              written = p.written + 1;
              args = args;
            })
            (λ n args. omega arith))
        (if_both (CountLe size) (c == b'd' || (c == b'u'))
          (λ is.
            word-CountLe size (next_word p.args)
              (λ n args. record p { out = p.out ++ decimal_chars n; args = args })
              (λ n args. omega arith))
          (if_both (CountLe size) (c == b'x')
            (λ is.
              word-CountLe size (next_word p.args)
                (λ n args. print_hex n (record p { args = args })) (λ n args. omega arith))
            (if_both (λ p. p.written ≤ size) (c == b'%') {x = p}
              {y = record p { out = p.out ++ (b'%' ∷ []); written = p.written + 1 }}
              (λ is. omega arith) (omega arith)))))

SameCount : Printer → Option (List ℕ × Printer) → Type 0
SameCount p none = Unit
SameCount p (some (rest, q)) = q.written ≡ p.written

read_padding-SameCount : (cs : List ℕ) (p : Printer) → SameCount p (read_padding cs p)
unfolding read_padding SameCount
read_padding-SameCount [] p = refl
read_padding-SameCount (c ∷ cs) p =
    if_both (SameCount p) (is_digit c)
      (λ is. if_both (SameCount p) (ltb 50 (length (split_digits cs).0)) (λ is. tt) refl) refl

convert_next-NextLe :
    (size : ℕ) (p : Printer) (r : Option (List ℕ × Printer))
    → size < 2 ^ 31
    → p.written < size
    → SameCount p r
    → NextLe size (convert_next size r)
unfolding SameCount
convert_next-NextLe size p none small lt same = tt
convert_next-NextLe size p (some ([], q)) small lt same = tt
convert_next-NextLe size p (some (c ∷ rest, q)) small lt same =
    next (convert size c q) (convert-CountLe size c q small (omega (arith, same)))
  where
    next :
        (r : Option Printer)
        → CountLe size r
        → NextLe size (elim r [ none ↦ none | some p1 ↦ some (rest, p1) ])
    next none le = tt
    next (some p1) le = le

rest-CountLe :
    (size : ℕ) (r : Option (List ℕ × Printer)) (f : List ℕ → Printer → Option Printer)
    → ((rest : List ℕ) (p1 : Printer) → p1.written ≤ size → CountLe size (f rest p1))
    → NextLe size r
    → CountLe size (elim r [ none ↦ none | some (rest, p1) ↦ f rest p1 ])
rest-CountLe size none f go le = tt
rest-CountLe size (some (rest, p1)) f go le = go rest p1 le

print_from-CountLe :
    (fuel size : ℕ) (fmt : List ℕ) (p : Printer)
    → 1 ≤ size
    → size < 2 ^ 31
    → p.written ≤ size
    → CountLe size (print_from fuel size fmt p)
unfolding print_from
print_from-CountLe zero size fmt p some_size small le = tt
print_from-CountLe (suc fuel) size [] p some_size small le = le
print_from-CountLe (suc fuel) size (c ∷ cs) p some_size small le =
    if_both (CountLe size) (ltb p.written (sub32 size 1))
      (λ before.
        if_both (CountLe size) (c == b'%')
          (λ is.
            rest-CountLe size (directive size cs p) (print_from fuel size)
              (λ rest p1 le. print_from-CountLe fuel size rest p1 some_size small le)
              (convert_next-NextLe size p (read_padding cs p) small (ground (arith, before))
                (read_padding-SameCount cs p)))
          (print_from-CountLe fuel size cs
            (record p { out = p.out ++ (c ∷ []); written = p.written + 1 }) some_size small
            (ground (arith, before))))
      le

-- What the call returns, if it returns, for every format and every arguments is at most the size.
abbrev pub ReturnsLe : (size : ℕ) → Option (ℕ × List ℕ) → Type 0
ReturnsLe size none = Unit
ReturnsLe size (some (n, bytes)) = n ≤ size

-- vsprintf_s never returns more than the size of its buffer, from 1 to below 2^31, whatever the
-- format and the arguments.
pub vsprintf_s-ReturnsLe :
    (size : ℕ) (fmt : List ℕ) (args : List Arg)
    → 1 ≤ size
    → size < 2 ^ 31
    → ReturnsLe size (vsprintf_s size fmt args)
unfolding vsprintf_s
vsprintf_s-ReturnsLe size fmt args some_size small =
    flushed (print_from (length fmt + 1) size fmt (start_of args))
      (print_from-CountLe (length fmt + 1) size fmt (start_of args) some_size small (omega arith))
  where
    flushed : (r : Option Printer) → CountLe size r → ReturnsLe size (flush r)
    flushed none le = tt
    flushed (some p) le = le
