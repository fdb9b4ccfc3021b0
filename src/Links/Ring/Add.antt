-- ===== src/Links/Ring/Add.antt =====
-- `list_add` of kern/list.h links a header in behind any member of a ring.
use mugo.Base.{◌∙◌, ℕ, ◌≡◌, ◌≢◌, false, List, [], ◌∷◌, ◌++◌, arith, ◌==◌}
use mathlib.Core.List.{append-nil}
use mugo.Links.{Links, list_add}
use mugo.Links.Ring.{
  has, Distinct, Chain, IsRing, SameOutside, last, has-append, has-last, has-last_append, ne-first,
  ne_of_has, prev-Chain, next-last, Chain-frame,
}

next-add :
    (h : Links) (new p q : ℕ)
    → (q == p) ≡ false
    → (q == new) ≡ false
    → (list_add new p h).next q ≡ h.next q
unfolding list_add
next-add h new p q np nn = ground arith

prev-add :
    (h : Links) (new p q : ℕ)
    → (q == h.next p) ≡ false
    → (q == new) ≡ false
    → (list_add new p h).prev q ≡ h.prev q
unfolding list_add
prev-add h new p q np nn = ground arith

-- Directly behind `a`.
add-Chain_front :
    (h : Links) (new a : ℕ) (ys : List ℕ) (b : ℕ)
    → Distinct (a ∷ ys)
    → has b ys ≡ false
    → has new (a ∷ ys) ≡ false
    → new ≢ b
    → Chain h a ys b
    → Chain (list_add new a h) a (new ∷ ys) b
unfolding list_add
add-Chain_front h new a [] b d ob o ne c = ground arith
add-Chain_front h new a (y ∷ ys) b d ob o ne (na, py, c) = (
  ground arith,
  ground arith,
  (
    ground arith,
    ground arith,
    Chain-frame h (list_add new a h) y ys b
        (λ p i. ground (arith, ne_of_has a p (y ∷ ys), ne_of_has new p (y ∷ ys)))
        (λ p i. ground (arith, ne_of_has y p ys, ne_of_has new p ys)) c,
  ),
)

add-Chain :
    (h : Links) (new a : ℕ) (xs ys : List ℕ) (b : ℕ)
    → Distinct (a ∷ xs ++ ys)
    → has b (xs ++ ys) ≡ false
    → has new (a ∷ xs ++ ys) ≡ false
    → new ≢ b
    → Chain h a (xs ++ ys) b
    → Chain (list_add new (last a xs) h) a (xs ++ (new ∷ ys)) b
add-Chain h new a [] ys b d ob o ne c = add-Chain_front h new a ys b d ob o ne c
add-Chain h new a (x ∷ xs) ys b d ob o ne (na, px, c) = (
  next-add h new (last x xs) a
        (ground (arith, ne_of_has a (last x xs) (x ∷ xs ++ ys) d.0 (has-last_append x xs ys)))
        (ground arith)
      ∙ na,
  prev-add h new (last x xs) x
        (ground (arith, next-last h x xs ys b c, ne-first x b xs ys d.1.0 (ground arith)))
        (ground arith)
      ∙ px,
  add-Chain h new x xs ys b d.1 (ground arith) (ground arith) ne c,
)

Distinct-insert :
    (new : ℕ) (xs ys : List ℕ)
    → Distinct (xs ++ ys)
    → has new (xs ++ ys) ≡ false
    → Distinct (xs ++ (new ∷ ys))
Distinct-insert new [] ys d o = (o, d)
Distinct-insert new (x ∷ xs) ys d o = (
  ground (arith, has-append x xs ys, has-append x xs (new ∷ ys)),
  Distinct-insert new xs ys d.1 (ground arith),
)

-- `list_add` behind the last of `xs` puts a fresh header between `xs` and `ys`.
pub add-IsRing :
    {h : Links} {head : ℕ} (new : ℕ) (xs ys : List ℕ)
    → IsRing h head (xs ++ ys)
    → has new (head ∷ xs ++ ys) ≡ false
    → IsRing (list_add new (last head xs) h) head (xs ++ (new ∷ ys))
add-IsRing {h} {head} new xs ys r o = record {
  chain = add-Chain h new head xs ys head r.distinct r.distinct.0 o (λ e. ground arith) r.chain;
  distinct = Distinct-insert new (head ∷ xs) ys r.distinct o;
}

-- In particular behind `head->prev`, at the end.
pub add_last-IsRing :
    {h : Links} {head : ℕ} (new : ℕ) (xs : List ℕ)
    → IsRing h head xs
    → has new (head ∷ xs) ≡ false
    → IsRing (list_add new (h.prev head) h) head (xs ++ (new ∷ []))
add_last-IsRing {h} {head} new xs r o =
    rw (prev-Chain h head xs head r.chain)
      (add-IsRing new xs [] (rw append-nil r) (rw append-nil o))

-- `list_add` at the end writes only to the ring and to the new header.
pub add_last-SameOutside :
    {h : Links} {head : ℕ} (new : ℕ) (xs : List ℕ)
    → IsRing h head xs
    → SameOutside (new ∷ head ∷ xs) h (list_add new (h.prev head) h)
add_last-SameOutside {h} {head} new xs r = record {
  next_same = λ p o.
      next-add h new (h.prev head) p
        (ground (arith, ends, ne_of_has p (last head xs) (head ∷ xs), has-last head xs))
        (ground arith);
  prev_same = λ p o. prev-add h new (h.prev head) p (ground (arith, ends)) (ground arith);
}
  where
    ends : (h.prev head ≡ last head xs) × (h.next (last head xs) ≡ head)
    ends = (prev-Chain h head xs head r.chain, next-last h head xs [] head (rw append-nil r.chain))
