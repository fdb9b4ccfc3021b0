-- ===== src/Modules/Room.antt =====
-- The frames that bootstrap_mmap of arch/i686/paging_utils.c takes.
use mugo.Base.{
  ℕ, zero, suc, ◌+◌, ◌-◌, ◌*◌, ◌/◌, ◌^◌, ◌≤◌, ◌<◌, ◌≡◌, ◌≢◌, false, Bool-cases, inl, inr, Option,
  none, some, ◌==◌, arith,
}
use mugo.Paging.{KernelInfo, page, page_size, pd_offset, bootstrap_fetch_page}
use mugo.Paging.Map.{
  Space, entry, frame_for, page_flags, no_page_tables, alloc_table, alloc_tables, map_page,
  map_pages, bootstrap_mmap,
}

-- The most frames that a mapping takes: for its tables and for its pages.
abbrev pub frames_for : ℕ → ℕ
frames_for size = size / (1024 * 4096) + 2 + (size + 4095) / 4096

module _ (limit : ℕ) where
  -- The next `k` frames lie below `limit`, an address, and none of them is the frame 0.
  abbrev pub FramesLeft : ℕ → KernelInfo → Type 0
  FramesLeft k kinfo =
      ((0 < kinfo.memmap_addr) × (limit ≤ 2 ^ 32)) × (kinfo.memmap_addr + page_size * k < limit)

  abbrev pub Room : ℕ → Space → Type 0
  Room k s = FramesLeft k s.kinfo

  -- There is a memory, with room for `k` frames.
  abbrev pub HasRoom : ℕ → Option Space → Type 0
  HasRoom k none = ⊥
  HasRoom k (some s) = Room k s

  pub fetch-FramesLeft :
      (k : ℕ) (kinfo : KernelInfo)
      → FramesLeft (suc k) kinfo
      → ((bootstrap_fetch_page kinfo).0 ≢ 0) × FramesLeft k (bootstrap_fetch_page kinfo).1
  unfolding bootstrap_fetch_page
  fetch-FramesLeft k kinfo ((pos, fits), small) =
      (λ e. absurd (omega arith), ((omega arith, fits), omega arith))

  pub then_HasRoom :
      (j k : ℕ) (r : Option Space) (f : Space → Option Space)
      → HasRoom j r
      → ((s : Space) → Room j s → HasRoom k (f s))
      → HasRoom k (elim r [ none ↦ none | some s ↦ f s ])
  then_HasRoom j k none f room go = absurd room
  then_HasRoom j k (some s) f room go = go s room

  alloc_table-HasRoom :
      (user pd i k : ℕ) (s : Space) → Room (suc k) s → HasRoom k (alloc_table user pd i s)
  unfolding alloc_table
  alloc_table-HasRoom user pd i k s (pos, small) =
      let (ne, rest) = fetch-FramesLeft k s.kinfo (pos, small) in
      elim (Bool-cases (s.words (entry pd i) == 0)) [
        | inl e ↦
            let some_page : ((bootstrap_fetch_page s.kinfo).0 == 0) ≡ false = ground (arith, ne) in
            rw (e, some_page) rest
        | inr e ↦ rw e (pos, omega arith)
      ]

  alloc_tables-HasRoom :
      (user pd n i k : ℕ) (s : Space) → Room (n + k) s → HasRoom k (alloc_tables user pd n i s)
  unfolding alloc_tables
  alloc_tables-HasRoom user pd zero i k s (pos, small) = (pos, omega arith)
  alloc_tables-HasRoom user pd (suc n) i k s (pos, small) =
      then_HasRoom (n + k) k (alloc_table user pd i s) (alloc_tables user pd n (i + 1))
        (alloc_table-HasRoom user pd i (n + k) s (pos, omega arith))
        (λ s1 room. alloc_tables-HasRoom user pd n (i + 1) k s1 room)

  pub frame_for-FramesLeft :
      (old paddr offset k : ℕ) (kinfo : KernelInfo)
      → FramesLeft (suc k) kinfo
      → FramesLeft k (frame_for old paddr offset kinfo).1
  frame_for-FramesLeft old paddr offset k kinfo (pos, small) =
      let rest = (fetch-FramesLeft k kinfo (pos, small)).1 in
      elim (Bool-cases (old == 0)) [
        | inl e ↦ elim (Bool-cases (paddr == 0)) [
          | inl z ↦ rw (e, z) rest
          | inr z ↦ rw (e, z) (pos, omega arith)
        ]
        | inr e ↦ rw e (pos, omega arith)
      ]

  map_page-Room :
      (pg_flags pd paddr vaddr offset pd_off current_pt k : ℕ) (s : Space)
      → Room (suc k) s
      → Room k (map_page pg_flags pd paddr vaddr offset pd_off current_pt s).1
  unfolding map_page
  map_page-Room pg_flags pd paddr vaddr offset pd_off current_pt k s room =
      frame_for-FramesLeft _ paddr offset k s.kinfo room

  map_pages-Room :
      (pg_flags pd paddr vaddr n offset pd_off current_pt k : ℕ) (s : Space)
      → Room (n + k) s
      → Room k (map_pages pg_flags pd paddr vaddr n offset pd_off current_pt s)
  unfolding map_pages
  map_pages-Room pg_flags pd paddr vaddr zero offset pd_off current_pt k s (pos, small) =
      (pos, omega arith)
  map_pages-Room pg_flags pd paddr vaddr (suc n) offset pd_off current_pt k s (pos, small) =
      map_pages-Room pg_flags pd paddr vaddr n (offset + page_size) _ _ k _ (
        map_page-Room pg_flags pd paddr vaddr offset pd_off current_pt (n + k) s (pos, omega arith))

  -- With room for the frames that it takes bootstrap_mmap does not panic, and leaves the rest.
  pub mmap-HasRoom :
      (user pd paddr vaddr size flags k : ℕ) (s : Space)
      → Room (frames_for size + k) s
      → HasRoom k (bootstrap_mmap user pd paddr vaddr size flags s)
  unfolding bootstrap_mmap no_page_tables
  mmap-HasRoom user pd paddr vaddr size flags k s (pos, small) =
      let no = no_page_tables vaddr size (page (s.words (entry pd (pd_offset vaddr)))) in
      let pages = (size + (page_size - 1)) / page_size in
      let few : no ≤ size / (1024 * 4096) + 2 = ground arith in
      let at = pd_offset vaddr in
      then_HasRoom (pages + k) k (alloc_tables user pd no at s)
        (λ s1. some (
          map_pages (page_flags flags) pd paddr vaddr pages 0 at (page (s1.words (entry pd at)))
            s1))
        (alloc_tables-HasRoom user pd no at (pages + k) s (pos, omega (arith, few)))
        (λ s1 room.
          map_pages-Room (page_flags flags) pd paddr vaddr pages 0 at
            (page (s1.words (entry pd at))) k s1 room)
