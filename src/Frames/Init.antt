-- ===== src/Frames/Init.antt =====
-- stack_alloc_init of kern/mem/stack_alloc.c.
use mugo.Base.{
  ◌∙◌, ℕ, zero, suc, ◌+◌, ◌*◌, ◌%◌, ◌^◌, ◌≤◌, ◌<◌, ◌≡◌, refl, inl, inr, true, false, Bool-cases,
  some, ◌&&◌, ◌||◌, ltb, leb, ◌==◌, arith,
}
use mugo.Frames.{
  MmapEntry, Region, Frames, MetadataRegion, plus, Started, ready, panicked, push_frames,
  scan_entry, skipped, scan, frames_required, finish_init, reserve_metadata_space, stack_alloc_init,
}

-- The memory map from `curr` on has `n` entries up to `end`, and no step to the next one wraps.
abbrev pub Advances : (read : ℕ → MmapEntry) (end n curr : ℕ) → Type 0
Advances read end zero curr = end ≤ curr
Advances read end (suc n) curr =
    let next = curr + ((read curr).size + 4) in (next < 2 ^ 32) × Advances read end n next

-- The frames on the stack and those still to acquire add up, the frames that were on the stack are
-- still there, and none is in use.
record Balanced (total depth : ℕ) (stack : ℕ → ℕ) (left : ℕ) (s : Frames) : Type 0 where
  sum : s.depth + left ≡ total
  grown : depth ≤ s.depth
  kept : (i : ℕ) → i < depth → s.stack i ≡ stack i
  in_use : s.region.no_frames_in_use ≡ 0

scan_step :
    (read : ℕ → MmapEntry) (n mmap_addr curr end left : ℕ) (s : Frames)
    → (ltb curr end && ltb 0 left) ≡ true
    → curr + ((read curr).size + 4) < 2 ^ 32
    → scan read (suc n) mmap_addr curr end left s ≡ (
        let (left1, s1) = scan_entry mmap_addr left (read curr) s in
        scan read n mmap_addr (curr + ((read curr).size + 4)) end left1 s1)
unfolding scan
scan_step read n mmap_addr curr end left s on fits =
    let step : plus curr (plus (read curr).size 4) ≡ curr + ((read curr).size + 4) = omega arith in
    rw (on, step) refl

module _ (total depth : ℕ) (stack : ℕ → ℕ) where
  push_frames-Balanced :
      (left addr end : ℕ) (s : Frames)
      → Balanced total depth stack left s
      → let (left', s') = push_frames left addr end s in Balanced total depth stack left' s'
  unfolding push_frames
  push_frames-Balanced zero addr end s b = b
  push_frames-Balanced (suc left) addr end s b = elim (Bool-cases (ltb addr end)) [
    | inl on ↦ rw on (
        push_frames-Balanced left _ end _ record {
          sum = omega (arith, b.sum);
          grown = omega (arith, b.grown);
          kept = λ i lt.
              (let other : (i == s.depth) ≡ false = ground (arith, b.grown) in
                rw other (b.kept i lt));
          in_use = b.in_use;
        })
    | inr off ↦ rw off b
  ]

  scan_entry-Balanced :
      (mmap_addr left : ℕ) (e : MmapEntry) (s : Frames)
      → Balanced total depth stack left s
      → let (left', s') = scan_entry mmap_addr left e s in Balanced total depth stack left' s'
  unfolding scan_entry
  scan_entry-Balanced mmap_addr left e s b = elim (Bool-cases (skipped mmap_addr e)) [
    | inl out ↦ rw out b
    | inr kept ↦
        elim (Bool-cases (
          leb (e.addr % 2 ^ 32) s.region.start || ltb s.region.start ((e.addr + e.len) % 2 ^ 32))) [
            | inl inside ↦ rw (kept, inside) (push_frames-Balanced left _ _ s b)
            | inr outside ↦ rw (kept, outside) b
          ]
  ]

  scan-Balanced :
      (read : ℕ → MmapEntry) (n k mmap_addr curr end left : ℕ) (s : Frames)
      → end ≤ curr + n
      → Advances read end k curr
      → Balanced total depth stack left s
      → (r : ℕ × Frames) × (scan read (suc n) mmap_addr curr end left s ≡ some r)
        × Balanced total depth stack r.0 r.1
  unfolding scan
  scan-Balanced read n zero mmap_addr curr end left s le done b =
      let over : ltb curr end ≡ false = ground (arith, done) in ((left, s), rw over refl, b)
  scan-Balanced read zero (suc k) mmap_addr curr end left s le advances b =
      let over : ltb curr end ≡ false = ground arith in ((left, s), rw over refl, b)
  scan-Balanced read (suc n) (suc k) mmap_addr curr end left s le (fits, later) b =
      elim (Bool-cases (ltb curr end && ltb 0 left)) [
        | inl on ↦
            let next = curr + ((read curr).size + 4) in
            let r1 = scan_entry mmap_addr left (read curr) s in
            let (r, run, b') =
              scan-Balanced read n k mmap_addr next end r1.0 r1.1 (omega arith) later
                (scan_entry-Balanced mmap_addr left (read curr) s b) in
            (r, scan_step read (suc n) mmap_addr curr end left s on fits ∙ run, b')
        | inr off ↦ ((left, s), rw off refl, b)
      ]

-- What stack_alloc_init promises: the frames that it asks for are on the stack above those that it
-- finds there, none is in use, and the counter tells those that it added; or it panics.
pub data IsStarted (required depth : ℕ) (stack : ℕ → ℕ) : Started → Type 0 where
  is_ready :
      {s : Frames} {m : MetadataRegion}
      → s.depth ≡ depth + required
      → ((i : ℕ) → i < depth → s.stack i ≡ stack i)
      → s.region.no_frames_available ≡ required
      → s.region.no_frames_in_use ≡ 0
      → IsStarted required depth stack (ready s m)
  is_panic : IsStarted required depth stack panicked

finish_init-IsStarted :
    (required depth : ℕ) (stack : ℕ → ℕ) (m : MetadataRegion) (r : ℕ × Frames)
    → Balanced (depth + required) depth stack r.0 r.1
    → IsStarted required depth stack (finish_init required m (some r))
unfolding finish_init
finish_init-IsStarted required depth stack m (left, s) b = elim (Bool-cases (left == 0)) [
  | inl done ↦
      (let all : s.depth ≡ depth + required = ground (arith, done, b.sum) in
        rw done (is_ready all b.kept refl b.in_use))
  | inr short ↦ rw short is_panic
]

-- If the memory map ends below 2^32 and no step from one entry of it to the next wraps,
-- stack_alloc_init ends, and either panics or leaves on the stack, above the frames that it finds
-- there, as many as it asks for, with the counters of the region set to these.
pub stack_alloc_init-IsStarted :
    (read : ℕ → MmapEntry) (n mmap_addr mmap_length depth : ℕ) (stack : ℕ → ℕ) (region : Region)
    (m : MetadataRegion)
    → mmap_addr + mmap_length < 2 ^ 32
    → Advances read (mmap_addr + mmap_length) n mmap_addr
    → IsStarted
        (frames_required region.size)
        depth
        stack
        (stack_alloc_init read mmap_addr mmap_length depth stack region m)
unfolding stack_alloc_init
stack_alloc_init-IsStarted read n mmap_addr mmap_length depth stack region m small advances =
    let required = frames_required region.size in
    let (at, m1) = reserve_metadata_space (required * 4) m in
    let s : Frames = record {
      depth = depth;
      stack = stack;
      region = record region { no_frames_in_use = 0; no_frames_available = 0 };
    } in
    let fuel : mmap_length + 1 ≡ suc mmap_length = omega arith in
    let end : plus mmap_addr mmap_length ≡ mmap_addr + mmap_length = omega arith in
    let (r, run, b) =
      scan-Balanced (depth + required) depth stack read mmap_length n mmap_addr mmap_addr
        (mmap_addr + mmap_length) required s (omega arith) advances
        record { sum = refl; grown = omega arith; kept = λ i lt. refl; in_use = refl } in
    elim (Bool-cases (at == 0)) [
      | inl full ↦ rw full is_panic
      | inr room ↦ rw (room, fuel, end, run) (finish_init-IsStarted required depth stack m1 r b)
    ]
