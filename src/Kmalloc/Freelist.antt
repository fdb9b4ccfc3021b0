-- ===== src/Kmalloc/Freelist.antt =====
-- The free objects and the free pages of kern/kmalloc.c as stacks.
use native.Mathlib.Nat.{mul-div_cancel}
use mugo.Base.{ℕ, ◌+◌, ◌-◌, ◌*◌, ◌/◌, ◌%◌, ◌^◌, ◌<◌, ◌≡◌, ap, ◌∙◌, arith}
use mugo.Kmalloc.{Pool, sizeof_page_hdr, to_field, from_field, freelist_dequeue, freelist_enqueue}

field_back : (o : ℕ) → o < 2 ^ 16 → to_field (from_field o) ≡ o
field_back o small = ground arith

index_back : (start i size : ℕ) → 0 < size → (start + i * size - start) / size ≡ i
index_back start i size pos =
    let product : start + i * size - start ≡ i * size = omega arith in
    rw product (mul-div_cancel i pos)

dequeue_at :
    (hdr i obj_size ptr : ℕ) (s : Pool)
    → s.freelist_head_offset hdr ≡ i
    → i < 2 ^ 15
    → ptr ≡ hdr + sizeof_page_hdr + i * obj_size
    → ptr < 2 ^ 32
    → let (ret, s') = freelist_dequeue hdr obj_size s in
      (ret ≡ ptr) × (s'.freelist_head_offset hdr ≡ to_field (s.words ptr))
unfolding freelist_dequeue
dequeue_at hdr i obj_size ptr s head small at fits =
    let offset : from_field (s.freelist_head_offset hdr) ≡ i = ground (arith, head) in
    let ret : (hdr + sizeof_page_hdr + from_field (s.freelist_head_offset hdr) * obj_size) % 2 ^ 32
        ≡ ptr =
      ap (λ o. (hdr + sizeof_page_hdr + o * obj_size) % 2 ^ 32) offset ∙ omega (arith, at) in
    (ret, ground (arith, ap s.words ret))

-- An object that is given back is the next that its page hands out, and the page's list is then as
-- it was, if the object stands at an index below 2^15 of a page with objects of positive size and
-- lies in the address space, and the list's head fits its field.
pub dequeue-enqueue :
    (hdr i ptr : ℕ) (s : Pool)
    → ptr ≡ hdr + sizeof_page_hdr + i * s.object_size hdr
    → 0 < s.object_size hdr
    → i < 2 ^ 15
    → ptr < 2 ^ 32
    → s.freelist_head_offset hdr < 2 ^ 16
    → let (ret, s') = freelist_dequeue hdr (s.object_size hdr) (freelist_enqueue hdr ptr s) in
      (ret ≡ ptr) × (s'.freelist_head_offset hdr ≡ s.freelist_head_offset hdr)
unfolding freelist_enqueue
dequeue-enqueue hdr i ptr s at pos small fits field =
    let index : (ptr - (hdr + sizeof_page_hdr)) / s.object_size hdr ≡ i =
      rw at (index_back (hdr + sizeof_page_hdr) i (s.object_size hdr) pos) in
    let head : (freelist_enqueue hdr ptr s).freelist_head_offset hdr ≡ i = ground (arith, index) in
    let word : (freelist_enqueue hdr ptr s).words ptr ≡ from_field (s.freelist_head_offset hdr) =
      ground arith in
    let (ret, rest) =
      dequeue_at hdr i (s.object_size hdr) ptr (freelist_enqueue hdr ptr s) head small at fits in
    (ret, rest ∙ ap to_field word ∙ field_back (s.freelist_head_offset hdr) field)
