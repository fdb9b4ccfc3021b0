-- ===== src/Base/Bits.antt =====
-- Bits of bytes, checked over all values, and shifts.
use Prim.Native.Nat.{ℕ, zero, suc, ◌+◌, ◌-◌, ◌*◌, ◌/◌, ◌%◌, ◌^◌, ◌<◌, bit_and, bit_or}
use mathlib.Core.Path.{◌≡◌, refl}
use mathlib.Core.Bool.{Bool, true, ◌&&◌}
use native.Mathlib.Omega.{arith}
use mugo.Base.Tests.{◌==◌, ==_iff, if◌then◌else◌}

-- The `k`-th bit of a word.
abbrev pub bit : ℕ → ℕ → ℕ
bit x k = x / 2 ^ k % 2

abbrev pub shl : ℕ → ℕ → ℕ
shl x k = x * 2 ^ k

abbrev pub shr : ℕ → ℕ → ℕ
shr x k = x / 2 ^ k

-- A test that passes at each number less than `bound`.
unfoldable pub every : ℕ → (ℕ → Bool) → Bool
every zero test = true
every (suc bound) test = every bound test && test bound

pub every-at : (bound k : ℕ) (test : ℕ → Bool) → k < bound → every bound test ≡ true → test k ≡ true
unfolding every
every-at zero k test small all = absurd (omega arith)
every-at (suc bound) k test small all = ground (arith, every-at bound k test)

-- The same over pairs.
abbrev pub every_pair : ℕ → ℕ → (ℕ → ℕ → Bool) → Bool
every_pair m n test = every m (λ j. every n (test j))

pub every_pair-at :
    (m n j k : ℕ)
    → j < m
    → k < n
    → (test : ℕ → ℕ → Bool) → every_pair m n test ≡ true
    → test j k ≡ true
every_pair-at m n j k hj hk test all =
    every-at n k (test j) hk (every-at m j (λ j. every n (test j)) hj all)

-- What setting and clearing bit `k` of a byte does to its bit `j`.
abbrev set_ok : ℕ → ℕ → ℕ → Bool
set_ok v j k = bit (bit_or v (shl 1 k) % 256) j == (if j == k then 1 else bit v j)

abbrev clear_ok : ℕ → ℕ → ℕ → Bool
clear_ok v j k = bit (bit_and v (255 - shl 1 k % 256)) j == (if j == k then 0 else bit v j)

set_table : every 256 (λ v. every_pair 8 8 (set_ok v)) ≡ true
unfolding every
set_table = refl

clear_table : every 256 (λ v. every_pair 8 8 (clear_ok v)) ≡ true
unfolding every
clear_table = refl

pub bit-set :
    (v j k : ℕ)
    → v < 256
    → j < 8
    → k < 8
    → bit (bit_or v (shl 1 k) % 256) j ≡ (if j == k then 1 else bit v j)
bit-set v j k hv hj hk =
    let row = every-at 256 v (λ v. every_pair 8 8 (set_ok v)) hv set_table in
    (==_iff _ _).0 (every_pair-at 8 8 j k hj hk (set_ok v) row)

pub bit-clear :
    (v j k : ℕ)
    → v < 256
    → j < 8
    → k < 8
    → bit (bit_and v (255 - shl 1 k % 256)) j ≡ (if j == k then 0 else bit v j)
bit-clear v j k hv hj hk =
    let row = every-at 256 v (λ v. every_pair 8 8 (clear_ok v)) hv clear_table in
    (==_iff _ _).0 (every_pair-at 8 8 j k hj hk (clear_ok v) row)

-- A byte whose low four bits are 0 joins a number below 16 by addition.
abbrev join_ok : ℕ → ℕ → Bool
join_ok x h = bit_or x (h * 16) == x + h * 16

join_table : every_pair 16 16 join_ok ≡ true
unfolding every
join_table = refl

pub bit_or_nibble : (x h : ℕ) → x < 16 → h < 16 → bit_or x (h * 16) ≡ x + h * 16
bit_or_nibble x h hx hh = (==_iff _ _).0 (every_pair-at 16 16 x h hx hh join_ok join_table)
