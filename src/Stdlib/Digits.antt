-- ===== src/Stdlib/Digits.antt =====
-- The numerals of itoa and xtoa of lib/stdlib/stdlib.c.
use native.Mathlib.Decide.{ℕ_discrete}
use mugo.Base.{
  ◌∙◌, ap, sym, Bool-cases, inl, inr, ℕ, zero, suc, ◌+◌, ◌-◌, ◌*◌, ◌/◌, ◌%◌, ◌≤◌, ◌<◌, ◌≡◌, ◌≢◌,
  refl, ◌&&◌, leb, ltb, if◌then◌else◌, arith,
}
use mugo.Stdlib.{Bytes, store, put_digits, swap_ends, to_digits, decimal, hexchars}

-- Between the two ends the bytes are in the opposite order, and elsewhere as before.
pub swap_ends_lem :
    (fuel p1 p2 : ℕ) (m : Bytes) (p : ℕ)
    → p1 ≤ p2 + fuel
    → swap_ends fuel p1 p2 m p ≡ (if leb p2 p && leb p p1 then m (p1 + p2 - p) else m p)
unfolding swap_ends
swap_ends_lem zero p1 p2 m p enough = ground arith
swap_ends_lem (suc fuel) p1 p2 m p enough =
    ground (arith, swap_ends_lem fuel (p1 - 1) (p2 + 1) (store p1 (m p2) (store p2 (m p1) m)) p)

-- A way to write digits in a base, with the reader that undoes it.
pub record IsNotation (char decode : ℕ → ℕ) (base : ℕ) : Type 0 where
  pub nonzero : (d : ℕ) → char d ≢ 0
  pub decoded : (d : ℕ) → d < base → decode (char d) ≡ d
  pub split : (n : ℕ) → (n % base < base) × (n ≡ n / base * base + n % base)
  pub quotient : (n x : ℕ) → n < x * base → n / base < x

pub decimal-IsNotation : IsNotation decimal (λ c. c - 48) 10
decimal-IsNotation = record {
  nonzero = λ d. ground arith;
  decoded = λ d lt. omega arith;
  split = λ n. (omega arith, omega arith);
  quotient = λ n x lt. omega arith;
}

abbrev pub unhex : ℕ → ℕ
unhex c = if ltb c 58 then c - 48 else c - 87

pub hexchars-IsNotation : IsNotation hexchars unhex 16
hexchars-IsNotation = record {
  nonzero = λ d. ground arith;
  decoded = λ d lt. ground arith;
  split = λ n. (omega arith, omega arith);
  quotient = λ n x lt. omega arith;
}

-- The number that `n` characters from `p` on spell, least digit first, and the usual way round.
abbrev pub power : ℕ → ℕ → ℕ
power base zero = 1
power base (suc n) = power base n * base

module _ (decode : ℕ → ℕ) (base : ℕ) (m : Bytes) where
  abbrev pub backwards : ℕ → ℕ → ℕ
  backwards p zero = 0
  backwards p (suc n) = backwards (p + 1) n * base + decode (m p)

  abbrev pub spelled : ℕ → ℕ → ℕ
  spelled p zero = 0
  spelled p (suc n) = spelled p n * base + decode (m (p + n))

-- What the first loop leaves from `tmp` on: `n + 1` characters that spell `num` backwards.
record Spells (decode : ℕ → ℕ) (base num tmp k : ℕ) (m : Bytes) (r : ℕ × Bytes) : Type 0 where
  n : ℕ
  n_le : n ≤ k
  end : r.0 ≡ tmp + suc n
  value : backwards decode base r.1 tmp (suc n) ≡ num
  text : (p : ℕ) → tmp ≤ p → p < tmp + suc n → r.1 p ≢ 0
  before : (p : ℕ) → p < tmp → r.1 p ≡ m p
  after : (p : ℕ) → tmp + suc n ≤ p → r.1 p ≡ m p

-- The result of to_digits: the count of the characters, at most `k + 1`, that stand from `buf` on,
-- spell `num` and end with a zero.
pub record IsNumeral (decode : ℕ → ℕ) (base num buf k : ℕ) (r : ℕ × Bytes) : Type 0 where
  pub len_le : r.0 ≤ suc k
  pub value : spelled decode base r.1 buf r.0 ≡ num
  pub text : (p : ℕ) → buf ≤ p → p < buf + r.0 → r.1 p ≢ 0
  pub end : r.1 (buf + r.0) ≡ 0

module _ {char decode : ℕ → ℕ} {base : ℕ} (good : IsNotation char decode base) where
  last-Spells :
      (num tmp k : ℕ) (m : Bytes)
      → num / base ≡ 0
      → Spells decode base num tmp k m (tmp + 1, store tmp (char (num % base)) m)
  last-Spells num tmp k m done =
      let (small, split) = good.split num in
      let read : decode (store tmp (char (num % base)) m tmp) ≡ num % base =
        ground (arith, good.decoded (num % base) small) in
      let whole : num ≡ 0 * base + num % base = split ∙ rw done refl in
      record {
        n = 0;
        n_le = omega arith;
        end = omega arith;
        value = rw read (sym whole);
        text = λ p ge lt. ground (arith, good.nonzero (num % base));
        before = λ p lt. ground arith;
        after = λ p ge. ground arith;
      }

  more-Spells :
      (num tmp k : ℕ) (m : Bytes) {r : ℕ × Bytes}
      → Spells decode base (num / base) (tmp + 1) k (store tmp (char (num % base)) m) r
      → Spells decode base num tmp (suc k) m r
  more-Spells num tmp k m {r} rest =
      let (small, split) = good.split num in
      let first : r.1 tmp ≡ char (num % base) = ground (arith, rest.before tmp (omega arith)) in
      let read : decode (r.1 tmp) ≡ num % base = rw first (good.decoded (num % base) small) in
      record {
        n = suc rest.n;
        n_le = omega (arith, rest.n_le);
        end = omega (arith, rest.end);
        value = ap (λ v. v * base + decode (r.1 tmp)) rest.value ∙ rw read (sym split);
        text = λ p ge lt. elim (ℕ_discrete p tmp) [
          | yes here ↦ rw (here, first) (good.nonzero (num % base))
          | no ne ↦ rest.text p (omega arith) (omega (arith, rest.n_le))
        ];
        before = λ p lt. rest.before p (omega arith) ∙ ground arith;
        after = λ p ge. rest.after p (omega arith) ∙ ground arith;
      }

  put_digits-Spells :
      (left k num tmp : ℕ) (m : Bytes)
      → num < power base (suc k)
      → k ≤ left
      → Spells decode base num tmp k m (put_digits char base left num tmp m)
  unfolding put_digits
  put_digits-Spells zero zero num tmp m small fits =
      last-Spells num tmp zero m (omega (arith, good.quotient num 1 small))
  put_digits-Spells zero (suc k) num tmp m small fits = absurd (omega arith)
  put_digits-Spells (suc left) zero num tmp m small fits =
      let done : num / base ≡ 0 = omega (arith, good.quotient num 1 small) in
      rw done (last-Spells num tmp zero m done)
  put_digits-Spells (suc left) (suc k) num tmp m small fits =
      elim (Bool-cases (ltb 0 (num / base))) [
        | inl more ↦ rw more (
            more-Spells num tmp k m (
              put_digits-Spells left k (num / base) (tmp + 1) _
                (good.quotient num (power base (suc k)) small) (omega arith)))
        | inr done ↦ rw done (last-Spells num tmp (suc k) m (ground arith))
      ]

  -- Turned round, the characters spell the same number the usual way.
  turned_value :
      (n p q : ℕ) (m m' : Bytes)
      → ((k : ℕ) → k < n → m' (q + k) ≡ m (p + n - 1 - k))
      → spelled decode base m' q n ≡ backwards decode base m p n
  turned_value zero p q m m' turned = refl
  turned_value (suc n) p q m m' turned =
      let before =
        turned_value n (p + 1) q m m' (λ k lt. turned k (omega arith) ∙ ap m (omega arith)) in
      let last : m' (q + n) ≡ m p = turned n (omega arith) ∙ ap m (omega arith) in
      rw (before, last) refl

  -- After the second loop.
  turn-Spells :
      (num buf k : ℕ) (m : Bytes) {r : ℕ × Bytes}
      → Spells decode base num buf k m r
      → let len = r.0 - buf in
        IsNumeral decode base num buf k (len, swap_ends len (r.0 - 1) buf (store r.0 0 r.1))
  turn-Spells num buf k m {r} spells =
      let len_eq : r.0 - buf ≡ suc spells.n = omega (arith, spells.end) in
      let final : Bytes = swap_ends (r.0 - buf) (r.0 - 1) buf (store r.0 0 r.1) in
      let reads : (p : ℕ)
          → swap_ends (r.0 - buf) (r.0 - 1) buf (store r.0 0 r.1) p ≡ (
              if leb buf p && leb p (r.0 - 1)
              then store r.0 0 r.1 (r.0 - 1 + buf - p)
              else store r.0 0 r.1 p) =
        λ p. swap_ends_lem (r.0 - buf) (r.0 - 1) buf (store r.0 0 r.1) p (omega arith) in
      let turned : (p : ℕ)
          → buf ≤ p
          → p < r.0
          → swap_ends (r.0 - buf) (r.0 - 1) buf (store r.0 0 r.1) p ≡ r.1 (r.0 - 1 + buf - p) =
        λ p ge lt. reads p ∙ ground arith in
      record {
        len_le = omega (arith, spells.n_le);
        value =
            ap (λ n. spelled decode base final buf n) len_eq
            ∙ turned_value (suc spells.n) buf buf r.1 final (λ k lt.
              turned (buf + k) (omega arith) (omega (arith, spells.end))
              ∙ ap r.1 (omega (arith, spells.end)))
            ∙ spells.value;
        text =
            λ p ge lt. rw (turned p ge (omega arith)) (spells.text _ (omega arith) (omega arith));
        end =
            ap final {y = r.0} (omega (arith, spells.end)) ∙ reads r.0 ∙ ground (arith, spells.end);
      }

  -- A number of at most `k + 1` digits, if the buffer is longer than `k`, becomes its numeral.
  pub to_digits-IsNumeral :
      (num buf size k : ℕ) (m : Bytes)
      → num < power base (suc k)
      → k < size
      → IsNumeral decode base num buf k (to_digits char base num buf size m)
  unfolding to_digits
  to_digits-IsNumeral num buf size k m small fits =
      turn-Spells num buf k m (put_digits-Spells (size - 1) k num buf m small (omega arith))
