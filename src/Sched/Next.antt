-- ===== src/Sched/Next.antt =====
-- `rr_get_next_ready` of kern/sched_rr.c takes the first thread of the first queue that has one.
use mugo.Base.{
  ap, ℕ, zero, suc, ◌+◌, ◌<◌, ◌≤◌, ◌^◌, ◌≡◌, ◌≢◌, refl, Bool, true, false, ◌||◌, Option, none, some,
  List, [], ◌∷◌, map, arith, inl, inr, ◌==◌, Bool-cases,
}
use mugo.Links.{Links, list_next}
use mugo.Links.Ring.{has, IsRing, IsRing-frame, SameOutside}
use mugo.Links.Ring.Remove.{is_empty-IsRing, list_next-IsRing, list_next-SameOutside}
use mugo.Sched.{queue_head, list_of, list_data, get_next_from}
use mugo.Sched.Queues.{Queues, replace, pop_from}
use mugo.Sched.Ready.{AreQueues, headers}

pub list_data-list_of : (t : ℕ) → t < 2 ^ 32 → list_data (list_of t) ≡ t
list_data-list_of t h = omega arith

or_mono : (a b c : Bool) → (a || b) ≡ true → (a || (c || b)) ≡ true
or_mono true b c h = refl
or_mono false b true h = refl
or_mono false b false h = h

module _ (ready_queue : ℕ) where
  has-headers-replace :
      (q : Queues) (p t : ℕ) (ts : List ℕ) (i x : ℕ)
      → q p ≡ t ∷ ts
      → has x (headers ready_queue (replace p ts q) i) ≡ true
      → has x (headers ready_queue q i) ≡ true
  has-headers-replace q p t ts i x e = elim (Bool-cases (i == p)) [
    | inl hit ↦
        let e' : q i ≡ t ∷ ts = rw (eq i hit) e in
        rw (hit, e') (or_mono (x == queue_head ready_queue i) _ _)
    | inr miss ↦ rw miss (λ hx. hx)
  ]
    where
      eq : (i : ℕ) → (i == p) ≡ true → i ≡ p
      eq i h = ground arith

  -- Taking the first header out of ring `p` takes its thread out of that queue.
  next-AreQueues :
      {h : Links} {q : Queues} (p t : ℕ) (ts : List ℕ)
      → AreQueues ready_queue h q
      → p < 16
      → q p ≡ t ∷ ts
      → AreQueues ready_queue (list_next (queue_head ready_queue p) h).1 (replace p ts q)
  next-AreQueues {h} {q} p t ts a small e = record {
    ring = λ i lt. elim (Bool-cases (i == p)) [
      | inl hit ↦ rw hit (ring_hit i (ground arith))
      | inr miss ↦ rw miss (ring_miss i lt (ground arith))
    ];
    apart = λ i j x li lj hi hj.
        a.apart i j x li lj (has-headers-replace q p t ts i x e hi)
          (has-headers-replace q p t ts j x e hj);
  }
    where
      h' : Links
      h' = (list_next (queue_head ready_queue p) h).1

      r : IsRing h (queue_head ready_queue p) (list_of t ∷ map list_of ts)
      r = rw e at (a.ring p small)

      same : SameOutside (headers ready_queue q p) h h'
      same = rw e (list_next-SameOutside (list_of t) (map list_of ts) r)

      ring_hit : (i : ℕ) → i ≡ p → IsRing h' (queue_head ready_queue i) (map list_of ts)
      ring_hit i e = rw e (list_next-IsRing (list_of t) (map list_of ts) r).1

      ring_miss :
          (i : ℕ) → i < 16 → i ≢ p → IsRing h' (queue_head ready_queue i) (map list_of (q i))
      ring_miss i lt ne = IsRing-frame (a.ring i lt) λ x hx.
          let out : has x (headers ready_queue q p) ≡ false = ground (arith, a.apart i p x) in
          (same.next_same x out, same.prev_same x out)

  -- The loop of `rr_get_next_ready` against `pop_from`: NULL and no change where every queue is
  -- empty, and else the first thread, whose header has left its ring.
  abbrev pub IsNext : Links → Option (ℕ × ℕ × Queues) → ℕ × Links → Type 0
  IsNext h none r = (r.0 ≡ 0) × (r.1 ≡ h)
  IsNext h (some (l, t, q')) r = (r.0 ≡ list_data (list_of t)) × AreQueues ready_queue r.1 q'

  pub get_next_from-IsNext :
      {h : Links} {q : Queues} (n i : ℕ)
      → AreQueues ready_queue h q
      → i + n ≤ 16
      → IsNext h (pop_from n i q) (get_next_from ready_queue n i h)
  unfolding pop_from get_next_from
  get_next_from-IsNext zero i a le = (refl, refl)
  get_next_from-IsNext {h} {q} (suc n) i a le =
      go (get_next_from-IsNext n (i + 1) a (omega arith)) (q i) refl
    where
      go :
          IsNext h (pop_from n (i + 1) q) (get_next_from ready_queue n (i + 1) h)
          → (ts : List ℕ) → q i ≡ ts
          → IsNext h (pop_from (suc n) i q) (get_next_from ready_queue (suc n) i h)
      go later [] e = rw (e, pop_from, is_empty-IsRing [] (rw e at (a.ring i (omega arith)))) later
      go later (t ∷ ts) e =
          let r : IsRing h (queue_head ready_queue i) (list_of t ∷ map list_of ts) =
            rw e at (a.ring i (omega arith)) in
          rw (e, pop_from, is_empty-IsRing (list_of t ∷ map list_of ts) r)
            (
              ap list_data (list_next-IsRing (list_of t) (map list_of ts) r).0,
              next-AreQueues i t ts a (omega arith) e,
            )
