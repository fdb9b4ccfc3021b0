-- ===== src/Links/Ring.antt =====
-- The representation of kern/list.h: which headers a list head stands for.
pub mod Add
pub mod Remove
mod Tests
use mathlib.Core.Bool.{or_assoc}
use mugo.Base.{
  ℕ, zero, suc, ◌≡◌, refl, ap, ◌≢◌, Bool, true, false, ◌||◌, List, [], ◌∷◌, ◌++◌, arith, ◌==◌,
}
use mugo.Links.{Links}

abbrev pub has : ℕ → List ℕ → Bool
has a [] = false
has a (x ∷ xs) = (a == x) || has a xs

abbrev pub Distinct : List ℕ → Type 0
Distinct [] = Unit
Distinct (x ∷ xs) = (has x xs ≡ false) × Distinct xs

-- From `a` the links lead through `xs` to `b`, and back.
abbrev pub Chain : Links → ℕ → List ℕ → ℕ → Type 0
Chain h a [] b = (h.next a ≡ b) × (h.prev b ≡ a)
Chain h a (x ∷ xs) b = (h.next a ≡ x) × (h.prev x ≡ a) × Chain h x xs b

-- The head is linked through the distinct headers `xs` back to itself.
pub record IsRing (h : Links) (head : ℕ) (xs : List ℕ) : Type 0 where
  pub chain : Chain h head xs head
  pub distinct : Distinct (head ∷ xs)

-- Two states agree on every header that is not in `xs`.
pub record SameOutside (xs : List ℕ) (h g : Links) : Type 0 where
  pub next_same : (p : ℕ) → has p xs ≡ false → g.next p ≡ h.next p
  pub prev_same : (p : ℕ) → has p xs ≡ false → g.prev p ≡ h.prev p

-- The last header of `a ∷ xs`, and the first of `xs ++ b ∷ []`.
abbrev pub last : ℕ → List ℕ → ℕ
last a [] = a
last a (x ∷ xs) = last x xs

abbrev pub first : List ℕ → ℕ → ℕ
first [] b = b
first (x ∷ xs) b = x

pub has-append : (a : ℕ) (xs ys : List ℕ) → has a (xs ++ ys) ≡ (has a xs || has a ys)
has-append a [] ys = refl
has-append a (x ∷ xs) ys = rw (has-append a xs ys, or_assoc)

pub has-last : (a : ℕ) (xs : List ℕ) → has (last a xs) (a ∷ xs) ≡ true
has-last a [] = ground arith
has-last a (x ∷ xs) = ground (arith, has-last x xs)

pub has-last_append : (a : ℕ) (xs ys : List ℕ) → has (last a xs) (a ∷ xs ++ ys) ≡ true
has-last_append a xs ys = rw (has-append (last a xs) (a ∷ xs) ys, has-last a xs)

pub ne-first : (a b : ℕ) (xs ys : List ℕ) → has a (xs ++ ys) ≡ false → a ≢ b → a ≢ first ys b
ne-first a b xs [] out ne = ne
ne-first a b xs (y ∷ ys) out ne = ground (arith, has-append a xs (y ∷ ys))

pub ne_of_has : (a b : ℕ) (xs : List ℕ) → has a xs ≡ false → has b xs ≡ true → a ≢ b
ne_of_has a b xs out i e = ground arith

pub prev-Chain : (h : Links) (a : ℕ) (xs : List ℕ) (b : ℕ) → Chain h a xs b → h.prev b ≡ last a xs
prev-Chain h a [] b c = c.1
prev-Chain h a (x ∷ xs) b c = prev-Chain h x xs b c.2

pub next-last :
    (h : Links) (a : ℕ) (xs ys : List ℕ) (b : ℕ)
    → Chain h a (xs ++ ys) b
    → h.next (last a xs) ≡ first ys b
next-last h a [] [] b c = c.0
next-last h a [] (y ∷ ys) b c = c.0
next-last h a (x ∷ xs) ys b c = next-last h x xs ys b c.2

-- A chain survives changes away from its headers.
pub Chain-frame :
    (h g : Links) (a : ℕ) (xs : List ℕ) (b : ℕ)
    → ((p : ℕ) → has p (a ∷ xs) ≡ true → g.next p ≡ h.next p)
    → ((p : ℕ) → (has p xs || (p == b)) ≡ true → g.prev p ≡ h.prev p)
    → Chain h a xs b
    → Chain g a xs b
Chain-frame h g a [] b n p c = ground (arith, n a, p b)
Chain-frame h g a (x ∷ xs) b n p (next_a, prev_x, c) = (
  ground (arith, n a),
  ground (arith, p x),
  Chain-frame h g x xs b (λ q i. n q (ground arith)) (λ q i. p q (ground arith)) c,
)

pub IsRing-frame :
    {h g : Links} {head : ℕ} {xs : List ℕ}
    → IsRing h head xs
    → ((p : ℕ) → has p (head ∷ xs) ≡ true → (g.next p ≡ h.next p) × (g.prev p ≡ h.prev p))
    → IsRing g head xs
IsRing-frame {h} {g} {head} {xs} r same = record {
  chain =
      Chain-frame h g head xs head (λ p i. (same p i).0) (λ p i. (same p (ground arith)).1) r.chain;
  distinct = r.distinct;
}
