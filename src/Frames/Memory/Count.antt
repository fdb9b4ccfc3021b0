-- ===== src/Frames/Memory/Count.antt =====
-- The count of init_free_memory of kern/mem/phys_alloc.c.
use mugo.Base.{ℕ, ◌+◌, ◌/◌, ◌≤◌, ◌<◌, ◌≡◌, List, [], ◌∷◌, if◌then◌else◌}
use mugo.Paging.{page_size}
use mugo.Frames.{MmapEntry, skipped}

-- The entries of the memory map from `curr` on, up to `end`.
abbrev pub Entries : (read : ℕ → MmapEntry) (curr end : ℕ) → List MmapEntry → Type 0
Entries read curr end [] = end ≤ curr
Entries read curr end (e ∷ es) =
    (curr < end) × ((read curr ≡ e) × Entries read (curr + (e.size + 4)) end es)

-- The whole frames of the maps that are available and do not hold the memory map itself.
abbrev pub frames_in : (mmap_addr : ℕ) → List MmapEntry → ℕ
frames_in mmap_addr [] = 0
frames_in mmap_addr (e ∷ es) =
    (if skipped mmap_addr e then 0 else e.len / page_size) + frames_in mmap_addr es
