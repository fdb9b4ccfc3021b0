-- ===== src/Paging/Map/Flags.antt =====
-- The flags of pages in arch/i686/paging_utils.c.
use mugo.Base.{ℕ, ◌+◌, ◌*◌, ◌<◌, ◌≡◌, refl, Bool, true, ◌||◌, ==_iff, ◌==◌, if◌then◌else◌}
use mugo.Base.Bits.{bit, every, every-at}
use mugo.Paging.Map.{page_flags, elf_flags}

-- The bits of the flags for a page of a segment with the flags `f`.
abbrev flags_ok : ℕ → Bool
flags_ok f =
    let e = page_flags (elf_flags f) in
    let readable = bit f 2 == 1 in
    let writable = bit f 1 == 1 in (e == (if readable || writable then 5 + 2 * bit f 1 else 0))

flags_table : every 8 flags_ok ≡ true
unfolding every page_flags elf_flags
flags_table = refl

-- bootstrap_elf_mmap makes the pages of a segment that is readable or writable present for user
-- code, and writable exactly when the segment is; it makes those of any other segment not present.
pub elf_flags-page_flags :
    (f : ℕ)
    → f < 8
    → page_flags (elf_flags f) ≡ (if bit f 2 == 1 || (bit f 1 == 1) then 1 + 4 + 2 * bit f 1 else 0)
elf_flags-page_flags f small = (==_iff _ _).0 (every-at 8 f flags_ok small flags_table)
