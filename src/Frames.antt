-- ===== src/Frames.antt =====
-- kern/mem/stack_alloc.c and kern/mem/phys_alloc.c, the allocator of frames, which the build leaves
-- out. The words of kern/mem are of 32 bits. An entry of the memory map has the fields that this
-- code reads, of which the headers have no `size`; how it is read is a parameter.
mod Stack
mod Init
pub mod Memory
mod Tests
use mugo.Base.{
  ℕ, zero, suc, ◌+◌, ◌-◌, ◌*◌, ◌/◌, ◌%◌, ◌^◌, Bool, ◌&&◌, ◌||◌, true, false, Option, none, some,
  ltb, leb, ◌==◌, if◌then◌else◌,
}
use mugo.Paging.{page_size}

pub record MmapEntry : Type 0 where
  pub size : ℕ
  pub addr : ℕ
  pub len : ℕ
  pub kind : ℕ

-- phys_mem_region_t, less `end`, which stack_alloc.c does not use.
pub record Region : Type 0 where
  pub start : ℕ
  pub no_frames_available : ℕ
  pub no_frames_in_use : ℕ
  pub size : ℕ

-- The static variables of stack_alloc.c. `depth` is `free_frames_stack_top + 1`, the frames on the
-- stack, which is by index.
pub record Frames : Type 0 where
  pub depth : ℕ
  pub stack : ℕ → ℕ
  pub region : Region

abbrev pub plus : ℕ → ℕ → ℕ
plus a b = (a + b) % 2 ^ 32

abbrev pub less : ℕ → ℕ → ℕ
less a b = (a + 2 ^ 32 - b) % 2 ^ 32

abbrev pub put : ℕ → ℕ → (ℕ → ℕ) → ℕ → ℕ
put i v f k = if k == i then v else f k

unfoldable pub stack_alloc_frame : Frames → ℕ × Frames
stack_alloc_frame s = if s.depth == 0 then (0, s) else (
  s.stack (s.depth - 1),
  record s {
    depth = s.depth - 1;
    region = record s.region {
      no_frames_in_use = plus s.region.no_frames_in_use 1;
      no_frames_available = less s.region.no_frames_available 1;
    };
  },
)

unfoldable pub stack_free_frame : ℕ → Frames → Frames
stack_free_frame addr s = record s {
  depth = suc s.depth;
  stack = put s.depth addr s.stack;
  region = record s.region {
    no_frames_in_use = less s.region.no_frames_in_use 1;
    no_frames_available = plus s.region.no_frames_available 1;
  };
}

-- metadata_region_info_t
pub record MetadataRegion : Type 0 where
  pub start : ℕ
  pub end : ℕ
  pub current_offset : ℕ

unfoldable pub reserve_metadata_space : ℕ → MetadataRegion → ℕ × MetadataRegion
reserve_metadata_space size m =
    if ltb m.end (plus m.current_offset size)
    then (0, m)
    else (m.current_offset, record m { current_offset = plus m.current_offset size })

-- The loop that pushes the pages of a map, with `left` frames still to acquire.
unfoldable pub push_frames : (left addr end : ℕ) → Frames → ℕ × Frames
push_frames zero addr end s = (zero, s)
push_frames (suc left) addr end s =
    let rest =
      push_frames left (plus addr page_size) end
        record s { depth = suc s.depth; stack = put s.depth addr s.stack } in
    if ltb addr end then rest else (suc left, s)

-- A map that is not available, or holds the memory map itself, is left out.
abbrev pub skipped : (mmap_addr : ℕ) → MmapEntry → Bool
skipped mmap_addr e =
    if e.kind == 1
    then leb (e.addr % 2 ^ 32) mmap_addr && leb mmap_addr (plus e.addr e.len)
    else true

-- The body of the loop over the memory map, with the frames still to acquire.
unfoldable pub scan_entry : (mmap_addr left : ℕ) → MmapEntry → Frames → ℕ × Frames
scan_entry mmap_addr left e s =
    let first = e.addr % 2 ^ 32 in
    let end = plus e.addr e.len in
    if skipped mmap_addr e
    then (left, s)
    else (if leb first s.region.start || ltb s.region.start end
        then push_frames left (if ltb s.region.start first then first else s.region.start) end s
        else (left, s))

-- The loop, with fuel for each round and the last test.
unfoldable pub scan :
    (read : ℕ → MmapEntry) (fuel mmap_addr curr_addr mmap_end_addr left : ℕ)
    → Frames
    → Option (ℕ × Frames)
scan read zero mmap_addr curr_addr mmap_end_addr left s = none
scan read (suc fuel) mmap_addr curr_addr mmap_end_addr left s =
    let (left1, s1) = scan_entry mmap_addr left (read curr_addr) s in
    let rest =
      scan read fuel mmap_addr (plus curr_addr (plus (read curr_addr).size 4)) mmap_end_addr left1
        s1 in
    if ltb curr_addr mmap_end_addr && ltb 0 left then rest else some (left, s)

-- How stack_alloc_init ends.
pub data Started : Type 0 where
  ready : Frames → MetadataRegion → Started
  panicked : Started
  no_fuel : Started

abbrev pub frames_required : ℕ → ℕ
frames_required size = let n = size / page_size * 4 / page_size in if n == 0 then 1 else n

-- What follows the loop.
unfoldable pub finish_init : (required : ℕ) → MetadataRegion → Option (ℕ × Frames) → Started
finish_init required m none = no_fuel
finish_init required m (some (left, s)) =
    if left == 0
    then ready (record s { region = record s.region { no_frames_available = required } }) m
    else panicked

-- `depth` is what `free_frames_stack_top` holds, which is not set here, and `stack` the words of the
-- metadata space, where the new stack is.
unfoldable pub stack_alloc_init :
    (read : ℕ → MmapEntry) (mmap_addr mmap_length depth : ℕ) (stack : ℕ → ℕ)
    → Region
    → MetadataRegion
    → Started
stack_alloc_init read mmap_addr mmap_length depth stack region m =
    let required = frames_required region.size in
    let (at, m1) = reserve_metadata_space (required * 4) m in
    let s : Frames = record {
      depth = depth;
      stack = stack;
      region = record region { no_frames_in_use = 0; no_frames_available = 0 };
    } in
    let end =
      finish_init required m1
        (scan read (mmap_length + 1) mmap_addr mmap_addr (plus mmap_addr mmap_length) required s) in
    if at == 0 then panicked else end
