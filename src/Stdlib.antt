-- ===== src/Stdlib.antt =====
-- lib/stdlib/stdlib.c over a memory of bytes by address. The pointers of one call do not wrap.
pub mod Copy
pub mod Digits
pub mod Numerals
mod Tests
use mugo.Base.{ℕ, zero, suc, ◌+◌, ◌-◌, ◌/◌, ◌%◌, Option, none, some, ltb, ◌==◌, if◌then◌else◌}

abbrev pub Bytes : Type 0
Bytes = ℕ → ℕ

abbrev pub store : ℕ → ℕ → Bytes → Bytes
store p v m k = if k == p then v else m k

-- The characters of digits: `d + '0'`, and the array `hexchars`.
abbrev pub decimal : ℕ → ℕ
decimal d = d + 48

abbrev pub hexchars : ℕ → ℕ
hexchars d = if ltb d 10 then d + 48 else d - 10 + 97

-- The first loop of itoa and xtoa; `left` is how often it may still go round, `size - 1` at its
-- start. It gives `tmp` beside the memory.
unfoldable pub put_digits : (char : ℕ → ℕ) (base left num tmp : ℕ) → Bytes → ℕ × Bytes
put_digits char base zero num tmp m = (tmp + 1, store tmp (char (num % base)) m)
put_digits char base (suc left) num tmp m =
    let m1 = store tmp (char (num % base)) m in
    let rest = put_digits char base left (num / base) (tmp + 1) m1 in
    if ltb 0 (num / base) then rest else (tmp + 1, m1)

-- The second loop, with fuel for each round.
unfoldable pub swap_ends : (fuel p1 p2 : ℕ) → Bytes → Bytes
swap_ends zero p1 p2 m = m
swap_ends (suc fuel) p1 p2 m =
    let rest = swap_ends fuel (p1 - 1) (p2 + 1) (store p1 (m p2) (store p2 (m p1) m)) in
    if ltb p2 p1 then rest else m

-- The body that itoa and xtoa share. The fuel is the number of digits.
unfoldable pub to_digits : (char : ℕ → ℕ) (base num buf size : ℕ) → Bytes → ℕ × Bytes
unfolding put_digits swap_ends
to_digits char base num buf size m =
    let (tmp, m1) = put_digits char base (size - 1) num buf m in
    (tmp - buf, swap_ends (tmp - buf) (tmp - 1) buf (store tmp 0 m1))

unfoldable pub itoa : (num buf size : ℕ) → Bytes → Bytes
unfolding to_digits
itoa num buf size m = (to_digits decimal 10 num buf size m).1

unfoldable pub xtoa : (num buf bufsize : ℕ) → Bytes → ℕ × Bytes
unfolding to_digits
xtoa num buf bufsize m = to_digits hexchars 16 num buf bufsize m

-- none when the fuel ends before the string.
unfoldable pub strlen : (fuel str : ℕ) → Bytes → Option ℕ
strlen zero str m = none
strlen (suc fuel) str m =
    let rest = strlen fuel (str + 1) m in
    if m str == 0 then some 0 else elim rest [ none ↦ none | some len ↦ some (suc len) ]

-- `(char)c` keeps eight bits.
unfoldable pub memset : (s c n : ℕ) → Bytes → Bytes
memset s c zero m = m
memset s c (suc n) m = memset (s + 1) c n (store s (c % 256) m)

unfoldable pub memcpy : (dest src n : ℕ) → Bytes → Bytes
memcpy dest src zero m = m
memcpy dest src (suc n) m = memcpy (dest + 1) (src + 1) n (store dest (m src) m)
