-- ===== src/Kmalloc/Free.antt =====
-- kfree of kern/kmalloc.c, with `ffs`, which is the compiler's. none is an access through NULL or
-- the end of the fuel.
mod Lists
mod Tests
use mugo.Base.{ℕ, zero, suc, ◌-◌, ◌*◌, ◌/◌, ◌||◌, Option, none, some, ◌==◌, if◌then◌else◌}
use mugo.Kmalloc.{
  Pool, Words, set_word, page_size, from_field, bag_freelist_sentinel, freelist_enqueue,
}

-- The loop that looks for the page in front of `hdr`.
unfoldable pub find_before : (fuel current_hdr hdr : ℕ) → Words → Option ℕ
find_before zero current_hdr hdr w = none
find_before (suc fuel) current_hdr hdr w =
    let rest = find_before fuel (w current_hdr) hdr w in
    if w current_hdr == 0 || (w current_hdr == hdr) then some current_hdr else rest

-- Takes the page behind `current_hdr` out of the list, and puts `hdr` in front of `bag->free`.
abbrev pub unlink : (idx current_hdr hdr : ℕ) → Pool → Pool
unlink idx current_hdr hdr s = record s {
  words = set_word hdr (s.free idx) (set_word current_hdr (s.words (s.words current_hdr)) s.words);
  free = λ i. if i == idx then hdr else s.free i;
}

-- The same for the first page of `bag->full`.
abbrev pub unlink_first : (idx hdr : ℕ) → Pool → Pool
unlink_first idx hdr s = record s {
  words = set_word hdr (s.free idx) s.words;
  full = λ i. if i == idx then s.words hdr else s.full i;
  free = λ i. if i == idx then hdr else s.free i;
}

-- What is done for a page that was full.
unfoldable pub reopen : (fuel idx hdr : ℕ) → Pool → Option Pool
reopen fuel idx hdr s =
    if s.full idx == hdr
    then some (unlink_first idx hdr s)
    else (if s.full idx == 0 then none else elim (find_before fuel (s.full idx) hdr s.words) [
      | none ↦ none
      | some current_hdr ↦
          if s.words current_hdr == 0 then none else some (unlink idx current_hdr hdr s)
    ])

unfoldable pub kfree : (ffs : ℕ → ℕ) (fuel ptr : ℕ) → Pool → Option Pool
kfree ffs fuel ptr s =
    let hdr = ptr / page_size * page_size in
    if from_field (s.freelist_head_offset hdr) == bag_freelist_sentinel
    then elim (reopen fuel (ffs (s.object_size hdr) - 1) hdr s) [
      | none ↦ none
      | some s1 ↦ some (freelist_enqueue hdr ptr s1)
    ]
    else some (freelist_enqueue hdr ptr s)
