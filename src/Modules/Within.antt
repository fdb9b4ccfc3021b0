-- ===== src/Modules/Within.antt =====
-- The addresses that bootstrap_mmap of arch/i686/paging_utils.c puts into the tables, for new frames.
use mugo.Base.{
  ℕ, zero, suc, ◌+◌, ◌-◌, ◌*◌, ◌/◌, ◌%◌, ◌^◌, ◌≤◌, ◌<◌, ◌≡◌, refl, true, Bool-cases, inl, inr,
  Option, none, some, ◌==◌, ◌&&◌, ltb, leb, arith,
}
use mugo.Paging.{KernelInfo, page, page_size, present_rw, pd_offset, bootstrap_fetch_page}
use mugo.Paging.Map.{
  Words, Space, entry, set_word, zero_page, frame_for, page_flags, no_page_tables, alloc_table,
  alloc_tables, map_page, map_pages, bootstrap_mmap,
}
use mugo.Modules.{new_reached, filled_reached}
use mugo.Modules.Room.{Room, FramesLeft, frames_for, fetch-FramesLeft, frame_for-FramesLeft}

page_flags_le : (flags : ℕ) → page_flags flags ≤ 7
unfolding page_flags
page_flags_le flags = ground arith

module _ (limit : ℕ) where
  -- All entries hold addresses below `limit`.
  abbrev pub Within : Words → Type 0
  Within w = (a : ℕ) → page (w a) < limit

  pub set_word-Within : (a v : ℕ) (w : Words) → page v < limit → Within w → Within (set_word a v w)
  set_word-Within a v w lt within k = elim (Bool-cases (k == a)) [
    | inl e ↦ rw e lt
    | inr e ↦ rw e (within k)
  ]

  pub zero_page-Within : (pt : ℕ) (w : Words) → 0 < limit → Within w → Within (zero_page pt w)
  zero_page-Within pt w pos within k = elim (Bool-cases (leb pt k && ltb k (pt + page_size))) [
    | inl e ↦ rw e (omega arith)
    | inr e ↦ rw e (within k)
  ]

  -- There is a memory with room for `k` frames and such entries.
  abbrev Fits : ℕ → Space → Type 0
  Fits k s = Room limit k s × Within s.words

  abbrev pub IfFits : ℕ → Option Space → Type 0
  IfFits k none = Unit
  IfFits k (some s) = Fits k s

  then_IfFits :
      (j k : ℕ) (r : Option Space) (f : Space → Option Space)
      → IfFits j r
      → ((s : Space) → Fits j s → IfFits k (f s))
      → IfFits k (elim r [ none ↦ none | some s ↦ f s ])
  then_IfFits j k none f fits go = tt
  then_IfFits j k (some s) f fits go = go s fits

  entry_lt : (f flags : ℕ) → flags ≤ 7 → f < limit → page (page f + flags) < limit
  entry_lt f flags le lt = omega arith

  fetch_lt :
      (k : ℕ) (kinfo : KernelInfo)
      → FramesLeft limit (suc k) kinfo
      → (bootstrap_fetch_page kinfo).0 < limit
  unfolding bootstrap_fetch_page
  fetch_lt k kinfo ((pos, fits), small) = omega arith

  alloc_table-IfFits : (pd i k : ℕ) (s : Space) → Fits (suc k) s → IfFits k (alloc_table 4 pd i s)
  unfolding alloc_table
  alloc_table-IfFits pd i k s (room, within) =
      let pt = (bootstrap_fetch_page s.kinfo).0 in
      let lt : pt < limit = fetch_lt k s.kinfo room in
      let same : page (page pt + present_rw + 4) < limit = omega arith in
      elim (Bool-cases (s.words (entry pd i) == 0)) [
        | inl e ↦ elim (Bool-cases (pt == 0)) [
          | inl z ↦ rw (e, z) tt
          | inr z ↦
              rw (e, z)
                (
                  (fetch-FramesLeft limit k s.kinfo room).1,
                  set_word-Within _ _ _ same (zero_page-Within _ _ (omega arith) within),
                )
        ]
        | inr e ↦ rw e ((room.0, omega arith), within)
      ]

  alloc_tables-IfFits :
      (pd n i k : ℕ) (s : Space) → Fits (n + k) s → IfFits k (alloc_tables 4 pd n i s)
  unfolding alloc_tables
  alloc_tables-IfFits pd zero i k s ((pos, small), within) = ((pos, omega arith), within)
  alloc_tables-IfFits pd (suc n) i k s ((pos, small), within) =
      then_IfFits (n + k) k (alloc_table 4 pd i s) (alloc_tables 4 pd n (i + 1))
        (alloc_table-IfFits pd i (n + k) s ((pos, omega arith), within))
        (λ s1 fits. alloc_tables-IfFits pd n (i + 1) k s1 fits)

  frame_for_lt :
      (old offset k : ℕ) (kinfo : KernelInfo)
      → FramesLeft limit (suc k) kinfo
      → page old < limit
      → (frame_for old 0 offset kinfo).0 < limit
  frame_for_lt old offset k kinfo room lt = elim (Bool-cases (old == 0)) [
    | inl e ↦ rw e (fetch_lt k kinfo room)
    | inr e ↦ rw e lt
  ]

  map_page-Fits :
      (pg_flags pd vaddr offset pd_off current_pt k : ℕ) (s : Space)
      → pg_flags ≤ 7
      → Fits (suc k) s
      → Fits k (map_page pg_flags pd 0 vaddr offset pd_off current_pt s).1
  unfolding map_page
  map_page-Fits pg_flags pd vaddr offset pd_off current_pt k s le (room, within) = (
    frame_for-FramesLeft limit _ 0 offset k s.kinfo room,
    set_word-Within _ _ _ (entry_lt _ pg_flags le (frame_for_lt _ offset k s.kinfo room (within _)))
        within,
  )

  map_pages-Fits :
      (pg_flags pd vaddr n offset pd_off current_pt k : ℕ) (s : Space)
      → pg_flags ≤ 7
      → Fits (n + k) s
      → Fits k (map_pages pg_flags pd 0 vaddr n offset pd_off current_pt s)
  unfolding map_pages
  map_pages-Fits pg_flags pd vaddr zero offset pd_off current_pt k s le ((pos, small), within) =
      ((pos, omega arith), within)
  map_pages-Fits pg_flags pd vaddr (suc n) offset pd_off current_pt k s le ((pos, small), within) =
      map_pages-Fits pg_flags pd vaddr n (offset + page_size) _ _ k _ le (
        map_page-Fits pg_flags pd vaddr offset pd_off current_pt (n + k) s le
          ((pos, omega arith), within))

  -- The entries stay below `limit` when new frames are mapped for a process.
  pub mmap-IfFits :
      (pd vaddr size flags k : ℕ) (s : Space)
      → Fits (frames_for size + k) s
      → IfFits k (bootstrap_mmap 4 pd 0 vaddr size flags s)
  unfolding bootstrap_mmap no_page_tables
  mmap-IfFits pd vaddr size flags k s ((pos, small), within) =
      let no = no_page_tables vaddr size (page (s.words (entry pd (pd_offset vaddr)))) in
      let pages = (size + (page_size - 1)) / page_size in
      let few : no ≤ size / (1024 * 4096) + 2 = ground arith in
      let at = pd_offset vaddr in
      then_IfFits (pages + k) k (alloc_tables 4 pd no at s)
        (λ s1.
          some
            (map_pages (page_flags flags) pd 0 vaddr pages 0 at (page (s1.words (entry pd at))) s1))
        (alloc_tables-IfFits pd no at (pages + k) s ((pos, omega (arith, few)), within))
        (λ s1 fits.
          map_pages-Fits (page_flags flags) pd vaddr pages 0 at (page (s1.words (entry pd at))) k s1
            (page_flags_le flags) fits)

  -- If all addresses below `limit` are reached, so are the tables.
  pub new_reached-Within :
      (pd left i : ℕ) (old w : Words)
      → Within w
      → new_reached (λ p. ltb p limit) pd left i old w ≡ true
  unfolding new_reached
  new_reached-Within pd zero i old w within = refl
  new_reached-Within pd (suc left) i old w within =
      let here : ltb (page (w (entry pd i))) limit ≡ true = ground (arith, within (entry pd i)) in
      rw (here, new_reached-Within pd left (i + 1) old w within) (ground arith)

  pub filled_reached-Within :
      (pd vaddr left offset : ℕ) (w : Words)
      → Within w
      → filled_reached (λ p. ltb p limit) pd vaddr left offset w ≡ true
  unfolding filled_reached
  filled_reached-Within pd vaddr zero offset w within = refl
  filled_reached-Within pd vaddr (suc left) offset w within =
      let at = entry pd (pd_offset ((vaddr + offset) % 2 ^ 32)) in
      let here : ltb (page (w at)) limit ≡ true = ground (arith, within at) in
      rw (here, filled_reached-Within pd vaddr left (offset + page_size) w within) refl
