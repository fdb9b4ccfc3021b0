-- ===== src/Printf/Value.antt =====
-- The numerals that vsprintf_s of lib/stdlib/stdlib.c takes from `num_buf`.
use mugo.Base.{
  ℕ, zero, suc, ◌+◌, ◌-◌, ◌*◌, ◌^◌, ◌≤◌, ◌<◌, ◌≡◌, ◌≢◌, refl, ap, ◌∙◌, false, true, List, [], ◌∷◌,
  ◌++◌, length, ◌==◌, arith,
}
use mugo.Stdlib.{Bytes, to_digits, itoa, xtoa, decimal, hexchars}
use mugo.Stdlib.Digits.{
  IsNumeral, spelled, unhex, to_digits-IsNumeral, decimal-IsNotation, hexchars-IsNotation,
}
use mugo.Printf.{chars_at, num_buf, decimal_chars, hex_chars}

-- The number that a list of digits stands for, behind the digits that were read.
abbrev pub value_from : (decode : ℕ → ℕ) (base acc : ℕ) → List ℕ → ℕ
value_from decode base acc [] = acc
value_from decode base acc (c ∷ cs) = value_from decode base (acc * base + decode c) cs

abbrev pub value_of : (decode : ℕ → ℕ) (base : ℕ) → List ℕ → ℕ
value_of decode base cs = value_from decode base 0 cs

-- The `n` bytes from `p` on.
abbrev bytes : (n p : ℕ) → Bytes → List ℕ
bytes zero p m = []
bytes (suc n) p m = m p ∷ bytes n (p + 1) m

chars_at-bytes :
    (n k p : ℕ) (m : Bytes)
    → ((q : ℕ) → p ≤ q → q < p + n → m q ≢ 0)
    → m (p + n) ≡ 0
    → chars_at (n + suc k) p m ≡ bytes n p m
unfolding chars_at
chars_at-bytes zero k p m text end =
    let fuel : 0 + suc k ≡ suc k = omega arith in
    let here : m p ≡ 0 = ap m (omega arith) ∙ end in
    let stop : (m p == 0) ≡ true = ground (arith, here) in rw (fuel, stop) refl
chars_at-bytes (suc n) k p m text end =
    let fuel : suc n + suc k ≡ suc (n + suc k) = omega arith in
    let on : (m p == 0) ≡ false = ground (arith, text p (omega arith) (omega arith)) in
    let rest =
      chars_at-bytes n k (p + 1) m (λ q le lt. text q (omega arith) (omega arith))
        (ap m (omega arith) ∙ end) in
    rw (fuel, on, rest) refl

abbrev pub AllNonzero : List ℕ → Type 0
AllNonzero [] = Unit
AllNonzero (c ∷ cs) = (c ≢ 0) × AllNonzero cs

pub append-AllNonzero : (xs ys : List ℕ) → AllNonzero xs → AllNonzero ys → AllNonzero (xs ++ ys)
append-AllNonzero [] ys all more = more
append-AllNonzero (x ∷ xs) ys (here, all) more = (here, append-AllNonzero xs ys all more)

bytes-AllNonzero :
    (n p : ℕ) (m : Bytes) → ((q : ℕ) → p ≤ q → q < p + n → m q ≢ 0) → AllNonzero (bytes n p m)
bytes-AllNonzero zero p m text = tt
bytes-AllNonzero (suc n) p m text = (
  text p (omega arith) (omega arith),
  bytes-AllNonzero n (p + 1) m (λ q le lt. text q (omega arith) (omega arith)),
)

length-bytes : (n p : ℕ) (m : Bytes) → length (bytes n p m) ≡ n
length-bytes zero p m = refl
length-bytes (suc n) p m = ap suc (length-bytes n (p + 1) m)

bytes-last : (n p : ℕ) (m : Bytes) → bytes (suc n) p m ≡ bytes n p m ++ (m (p + n) ∷ [])
bytes-last zero p m = ap (λ q. m q ∷ []) (omega arith)
bytes-last (suc n) p m =
    ap (λ l. m p ∷ l)
      (bytes-last n (p + 1) m ∙ ap (λ q. bytes n (p + 1) m ++ (m q ∷ [])) (omega arith))

module _ (decode : ℕ → ℕ) (base : ℕ) where
  value_from-snoc :
      (cs : List ℕ) (acc c : ℕ)
      → value_from decode base acc (cs ++ (c ∷ []))
        ≡ value_from decode base acc cs * base + decode c
  value_from-snoc [] acc c = refl
  value_from-snoc (d ∷ cs) acc c = value_from-snoc cs (acc * base + decode d) c

  value_of-bytes :
      (n p : ℕ) (m : Bytes) → value_of decode base (bytes n p m) ≡ spelled decode base m p n
  value_of-bytes zero p m = refl
  value_of-bytes (suc n) p m =
      ap (value_of decode base) (bytes-last n p m)
      ∙ value_from-snoc (bytes n p m) 0 (m (p + n))
      ∙ ap (λ v. v * base + decode (m (p + n))) (value_of-bytes n p m)

-- A numeral as a list: it has `len` digits, none of them NUL, and read back they give the number.
pub record IsNumeralOf (decode : ℕ → ℕ) (base num len max : ℕ) (cs : List ℕ) : Type 0 where
  pub length_eq : length cs ≡ len
  pub length_le : len ≤ max
  pub value_eq : value_of decode base cs ≡ num
  pub nonzero : AllNonzero cs

chars_at-IsNumeralOf :
    (decode : ℕ → ℕ) (base num k fuel : ℕ) (r : ℕ × Bytes)
    → suc k < fuel
    → IsNumeral decode base num 0 k r
    → IsNumeralOf decode base num r.0 (suc k) (chars_at fuel 0 r.1)
chars_at-IsNumeralOf decode base num k fuel (len, m) enough N =
    let rounds : fuel ≡ len + suc (fuel - 1 - len) = omega (arith, N.len_le) in
    let here : chars_at fuel 0 m ≡ bytes len 0 m =
      ap (λ f. chars_at f 0 m) rounds ∙ chars_at-bytes len (fuel - 1 - len) 0 m N.text N.end in
    rw here (record {
      length_eq = length-bytes len 0 m;
      length_le = N.len_le;
      value_eq = value_of-bytes decode base len 0 m ∙ N.value;
      nonzero = bytes-AllNonzero len 0 m N.text;
    })

decimal_chars-to_digits :
    (num : ℕ) → decimal_chars num ≡ chars_at 50 0 (to_digits decimal 10 num 0 50 num_buf).1
unfolding decimal_chars itoa
decimal_chars-to_digits num = refl

hex_chars-to_digits :
    (num : ℕ)
    → hex_chars num ≡ (
      (to_digits hexchars 16 num 0 50 num_buf).0,
      chars_at 50 0 (to_digits hexchars 16 num 0 50 num_buf).1,
    )
unfolding hex_chars xtoa
hex_chars-to_digits num = refl

pub decimal_chars-IsNumeralOf :
    (num : ℕ)
    → num < 2 ^ 32
    → IsNumeralOf (λ c. c - 48) 10 num (length (decimal_chars num)) 10 (decimal_chars num)
decimal_chars-IsNumeralOf num small =
    let N = to_digits-IsNumeral decimal-IsNotation num 0 50 9 num_buf (omega arith) (omega arith) in
    let r =
      chars_at-IsNumeralOf (λ c. c - 48) 10 num 9 50 (to_digits decimal 10 num 0 50 num_buf)
        (omega arith) N in
    rw (decimal_chars-to_digits num) (record {
      length_eq = refl;
      length_le = omega (arith, r.length_le, r.length_eq);
      value_eq = r.value_eq;
      nonzero = r.nonzero;
    })

pub hex_chars-IsNumeralOf :
    (num : ℕ) → num < 2 ^ 32 → IsNumeralOf unhex 16 num (hex_chars num).0 8 (hex_chars num).1
hex_chars-IsNumeralOf num small =
    let N =
      to_digits-IsNumeral hexchars-IsNotation num 0 50 7 num_buf (omega arith) (omega arith) in
    rw (hex_chars-to_digits num) (
      chars_at-IsNumeralOf unhex 16 num 7 50 (to_digits hexchars 16 num 0 50 num_buf) (omega arith)
        N)
