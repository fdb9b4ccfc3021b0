-- ===== src/Links/Ring/Remove.antt =====
-- `list_remove`, `list_is_empty` and `list_next` of kern/list.h on a ring.
use mugo.Base.{◌∙◌, ℕ, ◌≡◌, ◌≢◌, Bool, true, false, List, [], ◌∷◌, ◌++◌, arith, ◌==◌}
use mugo.Links.{Links, list_remove, list_is_empty, list_next}
use mugo.Links.Ring.{
  has, Distinct, Chain, IsRing, SameOutside, last, first, has-append, has-last_append, ne-first,
  ne_of_has, Chain-frame,
}

-- A header that is not linked to itself.
module _ (h : Links) (x : ℕ) (apart : x ≢ h.next x) where
  next-remove : (q : ℕ) → (q == h.prev x) ≡ false → (list_remove x h).next q ≡ h.next q
  unfolding list_remove
  next-remove q ne = ground arith

  prev-remove : (q : ℕ) → (q == h.next x) ≡ false → (list_remove x h).prev q ≡ h.prev q
  unfolding list_remove
  prev-remove q ne = ground arith

  next-remove_prev : (list_remove x h).next (h.prev x) ≡ h.next x
  unfolding list_remove
  next-remove_prev = ground arith

  prev-remove_next : (list_remove x h).prev (h.next x) ≡ h.prev x
  unfolding list_remove
  prev-remove_next = ground arith

remove-Chain_front :
    (h : Links) (x a : ℕ) (ys : List ℕ) (b : ℕ)
    → Distinct (a ∷ x ∷ ys)
    → has b (x ∷ ys) ≡ false
    → Chain h a (x ∷ ys) b
    → Chain (list_remove x h) a ys b
unfolding list_remove
remove-Chain_front h x a [] b d ob c = ground arith
remove-Chain_front h x a (y ∷ ys) b d ob (na, px, (nx, py, c)) = (
  ground arith,
  ground arith,
  Chain-frame h (list_remove x h) y ys b (λ p i. ground (arith, ne_of_has a p (y ∷ ys)))
      (λ p i. ground (arith, ne_of_has y p ys)) c,
)

around :
    (h : Links) (x a : ℕ) (xs ys : List ℕ) (b : ℕ)
    → Chain h a (xs ++ (x ∷ ys)) b
    → (h.next x ≡ first ys b) × (h.prev x ≡ last a xs)
around h x a [] [] b c = (c.2.0, c.1)
around h x a [] (y ∷ ys) b c = (c.2.0, c.1)
around h x a (z ∷ xs) ys b c = around h x z xs ys b c.2

remove-Chain :
    (h : Links) (x a : ℕ) (xs ys : List ℕ) (b : ℕ)
    → Distinct (a ∷ xs ++ (x ∷ ys))
    → has b (xs ++ (x ∷ ys)) ≡ false
    → x ≢ h.next x
    → Chain h a (xs ++ (x ∷ ys)) b
    → Chain (list_remove x h) a (xs ++ ys) b
remove-Chain h x a [] ys b d ob n c = remove-Chain_front h x a ys b d ob c
remove-Chain h x a (z ∷ xs) ys b d ob n (na, pz, c) = (
  next-remove h x n a (
        ground (
          arith,
          around h x z xs ys b c,
          ne_of_has a (last z xs) (z ∷ xs ++ (x ∷ ys)) d.0 (has-last_append z xs (x ∷ ys)),
        ))
      ∙ na,
  prev-remove h x n z (
        ground (
          arith,
          around h x z xs ys b c,
          has-append z xs (x ∷ ys),
          ne-first z b [] ys (ground (arith, has-append z xs (x ∷ ys))) (ground arith),
        ))
      ∙ pz,
  remove-Chain h x z xs ys b d.1 (ground arith) n c,
)

Distinct-remove :
    (x : ℕ) (xs ys : List ℕ) → Distinct (xs ++ (x ∷ ys)) → Distinct (xs ++ ys) × (has x ys ≡ false)
Distinct-remove x [] ys d = (d.1, d.0)
Distinct-remove x (z ∷ xs) ys d = (
  (ground (arith, has-append z xs (x ∷ ys), has-append z xs ys), (Distinct-remove x xs ys d.1).0),
  (Distinct-remove x xs ys d.1).1,
)

-- `list_remove` of a member takes it out of the ring, and leaves the others in order.
pub remove-IsRing :
    {h : Links} {head : ℕ} (x : ℕ) (xs ys : List ℕ)
    → IsRing h head (xs ++ (x ∷ ys))
    → IsRing (list_remove x h) head (xs ++ ys)
remove-IsRing {h} {head} x xs ys r = record {
  chain = remove-Chain h x head xs ys head r.distinct r.distinct.0 apart r.chain;
  distinct = (Distinct-remove x (head ∷ xs) ys r.distinct).0;
}
  where
    apart : x ≢ h.next x
    apart = ground (
      arith,
      around h x head xs ys head r.chain,
      has-append head xs (x ∷ ys),
      ne-first x head [] ys (Distinct-remove x (head ∷ xs) ys r.distinct).1
          (ground (arith, has-append head xs (x ∷ ys))),
    )

abbrev pub is_nil : List ℕ → Bool
is_nil [] = true
is_nil (x ∷ xs) = false

-- `list_is_empty` tells whether the ring has a member.
pub is_empty-IsRing :
    {h : Links} {head : ℕ} (xs : List ℕ) → IsRing h head xs → list_is_empty head h ≡ is_nil xs
unfolding list_is_empty
is_empty-IsRing [] r = ground arith
is_empty-IsRing (x ∷ xs) r = ground arith

-- `list_next` of a ring with a first member returns that member and takes it out.
pub list_next-IsRing :
    {h : Links} {head : ℕ} (x : ℕ) (xs : List ℕ)
    → IsRing h head (x ∷ xs)
    → ((list_next head h).0 ≡ x) × IsRing (list_next head h).1 head xs
unfolding list_next
list_next-IsRing x xs r = (r.chain.0, rw r.chain.0 (remove-IsRing x [] xs r))

-- `list_next` writes only to the ring.
pub list_next-SameOutside :
    {h : Links} {head : ℕ} (x : ℕ) (xs : List ℕ)
    → IsRing h head (x ∷ xs)
    → SameOutside (head ∷ x ∷ xs) h (list_next head h).1
unfolding list_next list_remove
list_next-SameOutside {h} {head} x [] r = record {
  next_same = λ p o. ground arith;
  prev_same = λ p o. ground arith;
}
list_next-SameOutside {h} {head} x (y ∷ xs) r = record {
  next_same = λ p o. ground arith;
  prev_same = λ p o. ground arith;
}
