-- ===== src/Stdlib/Numerals.antt =====
-- What itoa and xtoa of lib/stdlib/stdlib.c write.
use mugo.Base.{ℕ, ◌-◌, ◌^◌, ◌≤◌, ◌<◌, ◌≡◌, some, arith}
use mugo.Stdlib.{Bytes, to_digits, itoa, xtoa, strlen, decimal}
use mugo.Stdlib.Copy.{strlen_lem}
use mugo.Stdlib.Digits.{
  spelled, unhex, to_digits-IsNumeral, decimal-IsNotation, hexchars-IsNotation,
}

-- itoa writes a 32-bit number into a buffer of NUM_BUF_MAX bytes as its decimal numeral, of at
-- most ten digits, which strlen then measures, given fuel for more than ten characters.
pub itoa-strlen :
    (num buf fuel : ℕ) (m : Bytes)
    → num < 2 ^ 32
    → 10 < fuel
    → let m' = itoa num buf 50 m in
      (len : ℕ) × (strlen fuel buf m' ≡ some len)
      × (len ≤ 10)
      × (spelled (λ c. c - 48) 10 m' buf len ≡ num)
unfolding itoa
itoa-strlen num buf fuel m small enough =
    let N = to_digits-IsNumeral decimal-IsNotation num buf 50 9 m (omega arith) (omega arith) in
    (
      (to_digits decimal 10 num buf 50 m).0,
      strlen_lem _ fuel buf _ (omega (arith, N.len_le)) N.text N.end,
      N.len_le,
      N.value,
    )

-- xtoa writes a 32-bit number into a buffer of NUM_BUF_MAX bytes as its hexadecimal numeral, of at
-- most eight digits, and returns the length that strlen measures, given fuel for more than eight
-- characters.
xtoa-strlen :
    (num buf fuel : ℕ) (m : Bytes)
    → num < 2 ^ 32
    → 8 < fuel
    → let (len, m') = xtoa num buf 50 m in
      (strlen fuel buf m' ≡ some len) × (len ≤ 8) × (spelled unhex 16 m' buf len ≡ num)
unfolding xtoa
xtoa-strlen num buf fuel m small enough =
    let N = to_digits-IsNumeral hexchars-IsNotation num buf 50 7 m (omega arith) (omega arith) in
    (strlen_lem _ fuel buf _ (omega (arith, N.len_le)) N.text N.end, N.len_le, N.value)
