-- ===== src/Stdlib/Tests.antt =====
-- Strings in a memory of zeros, and the theorems of lib/stdlib/stdlib.c at them.
use mugo.Base.{ℕ, ◌-◌, ◌+◌, ◌≤◌, ◌<◌, ◌≡◌, ◌≢◌, some, if◌then◌else◌, ltb, arith}
use mugo.Stdlib.{Bytes, itoa, strlen}
use mugo.Stdlib.Digits.{spelled}
use mugo.Stdlib.Numerals.{itoa-strlen}

-- Letters below address 20 and zeros after.
abbrev letters : Bytes
letters p = if ltb p 20 then 97 + p else 0

text : (p : ℕ) → 15 ≤ p → p < 20 → letters p ≢ 0
text p ge lt = ground arith

itoa-strlen_example :
    let m' = itoa 90210 64 50 letters in
    (len : ℕ) × (strlen 11 64 m' ≡ some len)
    × (len ≤ 10)
    × (spelled (λ c. c - 48) 10 m' 64 len ≡ 90210)
itoa-strlen_example = itoa-strlen 90210 64 11 letters (omega arith) (omega arith)
