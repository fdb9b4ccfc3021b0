-- ===== src/Frames/Stack.antt =====
-- kern/mem/stack_alloc.c as a stack of frames.
use mugo.Base.{ℕ, zero, suc, ◌+◌, ◌-◌, ◌^◌, ◌<◌, ◌≤◌, ◌≡◌, refl, false, List, [], ◌∷◌, ◌==◌, arith}
use mugo.Frames.{Frames, put, stack_alloc_frame, stack_free_frame}

-- The free frames, the next one first.
abbrev pub first_frames : ℕ → (ℕ → ℕ) → List ℕ
first_frames zero f = []
first_frames (suc n) f = f n ∷ first_frames n f

abbrev pub contents : Frames → List ℕ
contents s = first_frames s.depth s.stack

-- The specification: a list.
abbrev pub pop : List ℕ → ℕ × List ℕ
pop [] = (0, [])
pop (a ∷ rest) = (a, rest)

first_frames-put : (n i v : ℕ) (f : ℕ → ℕ) → n ≤ i → first_frames n (put i v f) ≡ first_frames n f
first_frames-put zero i v f le = refl
first_frames-put (suc n) i v f le = rw (first_frames-put n i v f (omega arith)) (ground arith)

-- The counters tell the stack's depth, and the frames that they add up to.
pub record IsCounted (total : ℕ) (s : Frames) : Type 0 where
  pub available : s.region.no_frames_available ≡ s.depth
  pub sum : s.region.no_frames_in_use + s.depth ≡ total

-- stack_alloc_frame takes the first of the free frames, or gives 0 when there is none, and
-- keeps the counters right, for less than 2^32 frames in all.
pub stack_alloc_frame-pop :
    (total : ℕ) (s : Frames)
    → total < 2 ^ 32
    → IsCounted total s
    → let (a, s') = stack_alloc_frame s in
      ((a, contents s') ≡ pop (contents s)) × IsCounted total s'
unfolding stack_alloc_frame
stack_alloc_frame-pop total s small counted = go s.depth refl
  where
    go :
        (d : ℕ)
        → s.depth ≡ d
        → let (a, s') = stack_alloc_frame s in
          ((a, contents s') ≡ pop (contents s)) × IsCounted total s'
    go zero e =
        let available = counted.available in
        let sum = counted.sum in rw e (refl, record { available = omega arith; sum = omega arith })
    go (suc d) e =
        let off : (suc d == 0) ≡ false = ground arith in
        let pred : suc d - 1 ≡ d = omega arith in
        let available = counted.available in
        let sum = counted.sum in
        rw (e, off, pred) (refl, record { available = omega arith; sum = omega arith })

-- stack_free_frame puts a frame in front of the free ones, and keeps the counters right, if a frame
-- is in use and there are less than 2^32 in all.
pub stack_free_frame-contents :
    (total a : ℕ) (s : Frames)
    → total < 2 ^ 32
    → 0 < s.region.no_frames_in_use
    → IsCounted total s
    → (contents (stack_free_frame a s) ≡ a ∷ contents s) × IsCounted total (stack_free_frame a s)
unfolding stack_free_frame
stack_free_frame-contents total a s small used counted = (
  rw (first_frames-put s.depth s.depth a s.stack (omega arith)) (ground arith),
  record {
    available = omega (arith, counted.available, counted.sum);
    sum = omega (arith, counted.sum);
  },
)
