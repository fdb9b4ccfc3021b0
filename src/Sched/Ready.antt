-- ===== src/Sched/Ready.antt =====
-- The ready queues of kern/sched_rr.c as rings, and what `rr_move_to_ready` does to them.
use mugo.Base.{
  ℕ, ◌<◌, ◌≡◌, ◌≢◌, refl, Bool, true, false, ◌||◌, ◌&&◌, List, [], ◌∷◌, ◌++◌, map, arith, inl, inr,
  ◌==◌, Bool-cases,
}
use mugo.Links.{Links, list_add}
use mugo.Links.Ring.{has, IsRing, IsRing-frame, SameOutside}
use mugo.Links.Ring.Add.{add_last-IsRing, add_last-SameOutside}
use mugo.Sched.{queue_head, list_of}
use mugo.Sched.Queues.{Queues, push}

map-snoc : (t : ℕ) (ts : List ℕ) → map list_of (ts ++ (t ∷ [])) ≡ map list_of ts ++ (list_of t ∷ [])
map-snoc t [] = refl
map-snoc t (s ∷ ts) = rw (map-snoc t ts)

has-map_snoc :
    (x t : ℕ) (ts : List ℕ)
    → has x (map list_of (ts ++ (t ∷ []))) ≡ (has x (map list_of ts) || (x == list_of t))
has-map_snoc x t [] = ground arith
has-map_snoc x t (s ∷ ts) = ground (arith, has-map_snoc x t ts)

or_shift : (a b c d : Bool) → b ≡ (c || d) → (a || b) ≡ ((a || c) || (true && d))
or_shift true b c d e = refl
or_shift false b c d e = e

or_same : (a b d : Bool) → (a || b) ≡ ((a || b) || (false && d))
or_same true b d = refl
or_same false true d = refl
or_same false false d = refl

module _ (ready_queue : ℕ) where
  -- The headers of the `i`-th queue, its head first.
  abbrev pub headers : Queues → ℕ → List ℕ
  headers q i = queue_head ready_queue i ∷ map list_of (q i)

  -- Each of the sixteen queues is a ring of its threads' headers, and no two share a header.
  pub record AreQueues (h : Links) (q : Queues) : Type 0 where
    pub ring : (i : ℕ) → i < 16 → IsRing h (queue_head ready_queue i) (map list_of (q i))
    pub apart :
        (i j x : ℕ)
        → i < 16
        → j < 16
        → has x (headers q i) ≡ true
        → has x (headers q j) ≡ true
        → i ≡ j

  -- The thread's header is in no queue.
  abbrev pub IsUnlinked : Queues → ℕ → Type 0
  IsUnlinked q t = (i : ℕ) → i < 16 → has (list_of t) (headers q i) ≡ false

  pub has-headers-push :
      (q : Queues) (p t i x : ℕ)
      → has x (headers (push p t q) i) ≡ (has x (headers q i) || ((i == p) && (x == list_of t)))
  has-headers-push q p t i x = elim (Bool-cases (i == p)) [
    | inl e ↦ rw e (or_shift (x == queue_head ready_queue i) _ _ _ (has-map_snoc x t (q i)))
    | inr e ↦ rw e (or_same (x == queue_head ready_queue i) _ (x == list_of t))
  ]

  -- Linking a fresh thread in behind the last header of queue `p` appends it to that queue.
  pub add-AreQueues :
      {h : Links} {q : Queues} (p t : ℕ)
      → AreQueues h q
      → p < 16
      → IsUnlinked q t
      → AreQueues (list_add (list_of t) (h.prev (queue_head ready_queue p)) h) (push p t q)
  add-AreQueues {h} {q} p t a small fresh = record {
    ring = λ i lt. elim (Bool-cases (i == p)) [
      | inl e ↦ rw e (hit i (ground arith))
      | inr e ↦ rw e (miss i lt (ground arith))
    ];
    apart = λ i j x li lj hi hj. ground (
      arith,
      a.apart i j x,
      fresh i,
      fresh j,
      has-headers-push q p t i x,
      has-headers-push q p t j x,
    );
  }
    where
      same :
          SameOutside
            (list_of t ∷ headers q p)
            h
            (list_add (list_of t) (h.prev (queue_head ready_queue p)) h)
      same = add_last-SameOutside (list_of t) (map list_of (q p)) (a.ring p small)

      hit :
          (i : ℕ)
          → i ≡ p
          → IsRing
              (list_add (list_of t) (h.prev (queue_head ready_queue p)) h)
              (queue_head ready_queue i)
              (map list_of (q i ++ (t ∷ [])))
      hit i e =
          rw (e, map-snoc t (q p))
            (add_last-IsRing (list_of t) (map list_of (q p)) (a.ring p small) (fresh p small))

      miss :
          (i : ℕ)
          → i < 16
          → i ≢ p
          → IsRing
              (list_add (list_of t) (h.prev (queue_head ready_queue p)) h)
              (queue_head ready_queue i)
              (map list_of (q i))
      miss i lt ne = IsRing-frame (a.ring i lt) λ x hx.
          let out : has x (list_of t ∷ headers q p) ≡ false =
            ground (arith, a.apart i p x, fresh i) in
          (same.next_same x out, same.prev_same x out)
