-- ===== src/Stdlib/Copy.antt =====
-- What memset, memcpy and strlen of lib/stdlib/stdlib.c do.
use mathlib.Core.Path.{subst}
use native.Mathlib.Decide.{ℕ_discrete}
use mugo.Base.{
  ◌∙◌, ap, ℕ, zero, suc, ◌+◌, ◌%◌, ◌≤◌, ◌<◌, ◌≡◌, ◌≢◌, refl, ◌⊎◌, inl, ◌&&◌, some, leb, ltb,
  if◌then◌else◌, arith,
}
use mugo.Stdlib.{Bytes, store, memset, memcpy, strlen}

-- memset writes the low byte of the value to each of the `n` bytes and to no other.
memset_lem :
    (s c n : ℕ) (m : Bytes) (p : ℕ)
    → memset s c n m p ≡ (if leb s p && ltb p (s + n) then c % 256 else m p)
unfolding memset
memset_lem s c zero m p = ground arith
memset_lem s c (suc n) m p = ground (arith, memset_lem (s + 1) c n (store s (c % 256) m) p)

pub memcpy_outside :
    (dest src n : ℕ) (m : Bytes) (p : ℕ) → (p < dest) ⊎ (dest + n ≤ p) → memcpy dest src n m p ≡ m p
unfolding memcpy
memcpy_outside dest src zero m p out = refl
memcpy_outside dest src (suc n) m p out =
    let later : (p < dest + 1) ⊎ (dest + 1 + n ≤ p) = ground arith in
    memcpy_outside (dest + 1) (src + 1) n (store dest (m src) m) p later ∙ ground arith

memcpy_inside :
    (dest src n : ℕ) (m : Bytes) (p q : ℕ)
    → (dest ≤ src) ⊎ (src + n ≤ dest)
    → dest ≤ p
    → p < dest + n
    → q + dest ≡ p + src
    → memcpy dest src n m p ≡ m q
unfolding memcpy
memcpy_inside dest src zero m p q apart ge lt e = absurd (omega arith)
memcpy_inside dest src (suc n) m p q apart ge lt e = elim (ℕ_discrete p dest) [
  | yes here ↦
      memcpy_outside (dest + 1) (src + 1) n (store dest (m src) m) p (inl (omega arith))
      ∙ (let where_from : src ≡ q = omega (arith, e, here) in ground (arith, ap m where_from))
  | no ne ↦
      let later : (dest + 1 ≤ src + 1) ⊎ (src + 1 + n ≤ dest + 1) = ground arith in
      memcpy_inside (dest + 1) (src + 1) n (store dest (m src) m) p q later (omega arith)
        (omega arith) (omega arith)
      ∙ ground arith
]

-- memcpy copies each of the `n` bytes to its place in the destination, and changes no other, if
-- the destination does not begin inside the source.
pub memcpy_lem :
    (dest src n : ℕ) (m : Bytes) (i p : ℕ)
    → (dest ≤ src) ⊎ (src + n ≤ dest)
    → i < n
    → (p < dest) ⊎ (dest + n ≤ p)
    → (memcpy dest src n m (dest + i) ≡ m (src + i)) × (memcpy dest src n m p ≡ m p)
memcpy_lem dest src n m i p apart lt out = (
  memcpy_inside dest src n m (dest + i) (src + i) apart (omega arith) (omega arith) (omega arith),
  memcpy_outside dest src n m p out,
)

-- With fuel for `n` characters and the zero, strlen finds the first zero.
pub strlen_lem :
    (n fuel str : ℕ) (m : Bytes)
    → n < fuel
    → ((p : ℕ) → str ≤ p → p < str + n → m p ≢ 0)
    → m (str + n) ≡ 0
    → strlen fuel str m ≡ some n
unfolding strlen
strlen_lem n zero str m enough text end = absurd (omega arith)
strlen_lem zero (suc fuel) str m enough text end =
    let end' : m str ≡ 0 = subst (λ q. m q ≡ 0) (omega arith) end in ground (arith, end')
strlen_lem (suc n) (suc fuel) str m enough text end =
    let first : m str ≢ 0 = text str (omega arith) (omega arith) in
    let end' : m (str + 1 + n) ≡ 0 = subst (λ q. m q ≡ 0) (omega arith) end in
    let rest : strlen fuel (str + 1) m ≡ some n =
      strlen_lem n fuel (str + 1) m (omega arith) (λ p ge lt. text p (omega arith) (omega arith))
        end' in
    ground (arith, first, rest)
