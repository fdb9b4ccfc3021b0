-- ===== src/Kmalloc.antt =====
-- kern/kmalloc.c, the allocator of small kernel objects. The memory is of 32-bit words by address,
-- but for the two 16-bit fields of a page_hdr_t, which stand by the page's address. Negative
-- numbers are in two's complement: -1 is `2 ^ 32 - 1` in a word and `2 ^ 16 - 1` in the field.
-- Addresses do not wrap within the pool. none is a panic or an access through NULL.
pub mod Free
pub mod Freelist
pub mod Pages
pub mod Slots
pub mod Tests
use Prim.Native.Nat.{bit_and}
use mugo.Base.{
  ℕ, zero, suc, ◌+◌, ◌-◌, ◌*◌, ◌/◌, ◌%◌, ◌^◌, Bool, ◌&&◌, ◌||◌, Option, none, some, ltb, ◌==◌,
  if◌then◌else◌,
}

abbrev pub Words : Type 0
Words = ℕ → ℕ

abbrev pub set_word : ℕ → ℕ → Words → Words
set_word a v w k = if k == a then v else w k

-- The memory, with `next` of a page_hdr_t as its first word, and the static variables.
pub record Pool : Type 0 where
  pub words : Words
  pub object_size : ℕ → ℕ
  pub freelist_head_offset : ℕ → ℕ
  pub page_freelist_head : ℕ
  pub free : ℕ → ℕ
  pub full : ℕ → ℕ

abbrev pub no_classes : ℕ
no_classes = 9

abbrev pub min_block_size : ℕ
min_block_size = 4

abbrev pub bag_freelist_sentinel : ℕ
bag_freelist_sentinel = 2 ^ 32 - 1

abbrev pub sizeof_page_hdr : ℕ
sizeof_page_hdr = 8

abbrev pub page_size : ℕ
page_size = 4096

-- A word stored to the 16-bit field, and the field read as a word.
abbrev pub to_field : ℕ → ℕ
to_field v = v % 2 ^ 16

abbrev pub from_field : ℕ → ℕ
from_field o = if ltb o (2 ^ 15) then o else o + (2 ^ 32 - 2 ^ 16)

unfoldable pub fetch_page : Pool → Option (ℕ × Pool)
fetch_page s =
    if s.page_freelist_head == 0
    then none
    else some (s.page_freelist_head, record s { page_freelist_head = s.words s.page_freelist_head })

-- The loop of init_page, for `n` objects from the `i`-th on, at `addr`.
unfoldable pub init_from : (n i addr obj_size : ℕ) → Words → Words
init_from zero i addr obj_size w = w
init_from (suc n) i addr obj_size w =
    init_from n (i + 1) (addr + obj_size) obj_size (set_word addr (i + 1) w)

-- How often it goes round.
abbrev pub no_objects : ℕ → ℕ
no_objects obj_size = (page_size - sizeof_page_hdr + (obj_size - 1)) / obj_size

unfoldable pub init_page : (page obj_size : ℕ) → Words → Words
init_page page obj_size w =
    let n = no_objects obj_size in
    let addr = page + sizeof_page_hdr + n * obj_size in
    set_word (addr - obj_size) bag_freelist_sentinel
      (init_from n 0 (page + sizeof_page_hdr) obj_size w)

abbrev pub set_head : (hdr offset : ℕ) → Pool → Pool
set_head hdr offset s = record s {
  freelist_head_offset = λ h. if h == hdr then offset else s.freelist_head_offset h;
}

unfoldable pub freelist_dequeue : (hdr obj_size : ℕ) → Pool → ℕ × Pool
freelist_dequeue hdr obj_size s =
    let ret =
      (hdr + sizeof_page_hdr + from_field (s.freelist_head_offset hdr) * obj_size) % 2 ^ 32 in
    (ret, set_head hdr (to_field (s.words ret)) s)

unfoldable pub freelist_enqueue : (hdr ptr : ℕ) → Pool → Pool
freelist_enqueue hdr ptr s =
    let offset = (ptr - (hdr + sizeof_page_hdr)) / s.object_size hdr in
    set_head hdr (to_field offset)
      record s { words = set_word ptr (from_field (s.freelist_head_offset hdr)) s.words }

-- The stores to a page's header and init_page, as initialize_bag and fetch_object do them.
abbrev pub init_hdr : (hdr obj_size : ℕ) → Pool → Pool
init_hdr hdr obj_size s = record s {
  words = init_page hdr obj_size (set_word hdr 0 s.words);
  object_size = λ h. if h == hdr then to_field obj_size else s.object_size h;
  freelist_head_offset = λ h. if h == hdr then 0 else s.freelist_head_offset h;
}

unfoldable pub initialize_bag : ℕ → Pool → Option Pool
initialize_bag idx s = elim (fetch_page s) [
  | none ↦ none
  | some (bag_page, s1) ↦
      let s2 = init_hdr bag_page (2 ^ idx) s1 in
      some (record s2 {
        free = λ i. if i == idx then bag_page else s2.free i;
        full = λ i. if i == idx then 0 else s2.full i;
      })
]

-- `bag->free` goes to the head of `bag->full`.
abbrev pub retire : (idx hdr : ℕ) → Pool → Pool
retire idx hdr s = record s {
  words = set_word hdr (s.full idx) s.words;
  free = λ i. if i == idx then s.words hdr else s.free i;
  full = λ i. if i == idx then hdr else s.full i;
}

unfoldable pub fetch_object : ℕ → Pool → Option (ℕ × Pool)
fetch_object idx s =
    let object_size = 2 ^ idx in
    if s.free idx == 0
    then (if s.full idx == 0
        then elim (initialize_bag idx s) [
          | none ↦ none
          | some s1 ↦ some (freelist_dequeue (s1.free idx) object_size s1)
        ]
        else none)
    else (let (ret, s1) = freelist_dequeue (s.free idx) object_size s in
        let hdr = s1.free idx in
        if from_field (s1.freelist_head_offset hdr) == bag_freelist_sentinel
        then (let s2 = retire idx hdr s1 in
            if s2.free idx == 0
            then elim (fetch_page s2) [
              | none ↦ none
              | some (new_page, s3) ↦ some (ret, init_hdr new_page object_size s3)
            ]
            else some (ret, s2))
        else some (ret, s1))

-- The loop of kmalloc_init, for `n` pages from `addr` on.
unfoldable pub link_pages : (n addr : ℕ) → Words → Words
link_pages zero addr w = w
link_pages (suc n) addr w = link_pages n (addr + page_size) (set_word addr (addr + page_size) w)

unfoldable pub kmalloc_init : (pool_vaddr size : ℕ) → Pool → Pool
kmalloc_init pool_vaddr size s = record s {
  words =
      set_word (pool_vaddr + size - page_size) 0
        (link_pages ((size + (page_size - 1)) / page_size) pool_vaddr s.words);
  page_freelist_head = pool_vaddr;
}

-- `clz` and `ffs` are the compiler's; the pointer is 0 for NULL.
unfoldable pub kmalloc : (clz ffs : ℕ → ℕ) → (size : ℕ) → Pool → Option (ℕ × Pool)
kmalloc clz ffs size s =
    if ltb size min_block_size || ltb (2 ^ no_classes) size
    then some (0, s)
    else fetch_object (if bit_and size (size - 1) == 0 then ffs size - 1 else clz size + 1) s
