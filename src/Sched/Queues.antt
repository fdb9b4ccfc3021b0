-- ===== src/Sched/Queues.antt =====
-- What kern/sched_rr.c promises of its ready queues: one FIFO of threads for each priority, and
-- the head of the first that is not empty runs next.
use mugo.Base.{
  ℕ, zero, suc, ◌+◌, ◌<◌, ◌≤◌, ◌≡◌, refl, Option, none, some, List, [], ◌∷◌, ◌++◌, arith, ◌==◌,
  if◌then◌else◌,
}
use native.Mathlib.Decide.{ℕ_discrete}

-- The threads of each priority, longest waiting first.
abbrev pub Queues : Type 0
Queues = ℕ → List ℕ

abbrev pub push : ℕ → ℕ → Queues → Queues
push p t q i = if i == p then q i ++ (t ∷ []) else q i

abbrev pub replace : ℕ → List ℕ → Queues → Queues
replace p ts q i = if i == p then ts else q i

-- The first thread of the first queue that is not empty, of `n` queues from the `i`-th on, with
-- the number of its queue and what is left.
unfoldable pub pop_from : ℕ → ℕ → Queues → Option (ℕ × ℕ × Queues)
pop_from zero i q = none
pop_from (suc n) i q = elim (q i) [
  | [] ↦ pop_from n (i + 1) q
  | t ∷ ts ↦ some (i, t, replace i ts q)
]

-- What a pop takes: the first thread of queue `l`, and the queues before it are empty.
pub record Taken (i n : ℕ) (q : Queues) (l t : ℕ) (q' : Queues) : Type 0 where
  pub above : i ≤ l
  pub below : l < i + n
  pub rest : List ℕ
  pub front : q l ≡ t ∷ rest
  pub replaced : q' ≡ replace l rest q
  pub before : (j : ℕ) → i ≤ j → j < l → q j ≡ []

-- A pop takes nothing where the queues are all empty.
abbrev pub IsPopped : (i n : ℕ) → Queues → Option (ℕ × ℕ × Queues) → Type 0
IsPopped i n q none = (j : ℕ) → i ≤ j → j < i + n → q j ≡ []
IsPopped i n q (some (l, t, q')) = Taken i n q l t q'

IsPopped-suc :
    (i n : ℕ) (q : Queues) (o : Option (ℕ × ℕ × Queues))
    → q i ≡ []
    → IsPopped (i + 1) n q o
    → IsPopped i (suc n) q o
IsPopped-suc i n q none e p = λ j le lt. elim (ℕ_discrete i j) [
  | yes same ↦ rw (← same) e
  | no other ↦ p j (omega arith) (omega arith)
]
IsPopped-suc i n q (some (l, t, q')) e p = record {
  above = omega arith;
  below = omega arith;
  rest = p.rest;
  front = p.front;
  replaced = p.replaced;
  before = λ j le lt. elim (ℕ_discrete i j) [
    | yes same ↦ rw (← same) e
    | no other ↦ p.before j (omega arith) (omega arith)
  ];
}

pub pop_from-IsPopped : (n i : ℕ) (q : Queues) → IsPopped i n q (pop_from n i q)
unfolding pop_from
pop_from-IsPopped zero i q = λ j le lt. absurd (omega arith)
pop_from-IsPopped (suc n) i q = go (pop_from-IsPopped n (i + 1) q) (q i) refl
  where
    go :
        IsPopped (i + 1) n q (pop_from n (i + 1) q)
        → (ts : List ℕ) → q i ≡ ts
        → IsPopped i (suc n) q (pop_from (suc n) i q)
    go later [] e = rw (e, pop_from) (IsPopped-suc i n q _ e later)
    go later (t ∷ ts) e =
        rw (e, pop_from)
          (record {
            above = omega arith;
            below = omega arith;
            rest = ts;
            front = e;
            replaced = refl;
            before = λ j le lt. absurd (omega arith);
          })
