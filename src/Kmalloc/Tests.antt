-- ===== src/Kmalloc/Tests.antt =====
-- A pool of two pages, and the theorems of kern/kmalloc.c at it.
use mugo.Base.{◌≡◌, refl, arith}
use mugo.Kmalloc.{Pool, freelist_dequeue, freelist_enqueue}
use mugo.Kmalloc.Freelist.{dequeue-enqueue}

abbrev pub blank : Pool
blank = record {
  words = λ a. 0;
  object_size = λ h. 32;
  freelist_head_offset = λ h. 5;
  page_freelist_head = 0;
  free = λ i. 0;
  full = λ i. 0;
}

dequeue-enqueue_example :
    let (ret, s') = freelist_dequeue 0x4000 32 (freelist_enqueue 0x4000 0x4068 blank) in
    (ret ≡ 0x4068) × (s'.freelist_head_offset 0x4000 ≡ 5)
dequeue-enqueue_example =
    dequeue-enqueue 0x4000 3 0x4068 blank refl (omega arith) (omega arith) (omega arith)
      (omega arith)
