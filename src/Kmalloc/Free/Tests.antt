-- ===== src/Kmalloc/Free/Tests.antt =====
-- A bag of three full pages and one with free objects, and the theorem of kfree at it.
use mugo.Base.{◌≡◌, refl, some, [], ◌∷◌, ◌==◌, if◌then◌else◌, arith}
use mugo.Kmalloc.{Pool}
use mugo.Kmalloc.Free.{kfree}
use mugo.Kmalloc.Free.Lists.{HasLists, IsSeparate, kfree-HasLists}

-- The pages at 0x6000, 0x5000 and 0x7000 are full; that at 0x8000 is not.
abbrev pool : Pool
pool = record {
  words = λ k. if k == 0x6000 then 0x5000 else (if k == 0x5000 then 0x7000 else 0);
  object_size = λ h. 16;
  freelist_head_offset = λ h. 0xFFFF;
  page_freelist_head = 0;
  free = λ i. 0x8000;
  full = λ i. 0x6000;
}

pool-IsSeparate : IsSeparate 0x5018 0x5000 (0x6000 ∷ []) (0x7000 ∷ []) (0x8000 ∷ [])
pool-IsSeparate = record {
  distinct = ((omega arith, (omega arith, tt)), ((omega arith, tt), (tt, tt)));
  hdr_full = (omega arith, (omega arith, tt));
  hdr_free = (omega arith, tt);
  apart = ((omega arith, tt), tt);
  ptr_full = (omega arith, (omega arith, tt));
  ptr_hdr = omega arith;
  ptr_free = (omega arith, tt);
}

pool-HasLists : HasLists 4 (0x6000 ∷ 0x5000 ∷ 0x7000 ∷ []) (0x8000 ∷ []) pool
pool-HasLists = record {
  on_full = (refl, omega arith, (refl, omega arith, (refl, omega arith, refl)));
  on_free = (refl, omega arith, refl);
}

kfree-HasLists_example :
    (s' : Pool) × (kfree (λ x. 5) 2 0x5018 pool ≡ some s')
    × HasLists 4 (0x6000 ∷ 0x7000 ∷ []) (0x5000 ∷ 0x8000 ∷ []) s'
kfree-HasLists_example =
    kfree-HasLists (λ x. 5) 0x5018 (0x6000 ∷ []) (0x7000 ∷ []) (0x8000 ∷ []) pool refl
      pool-IsSeparate pool-HasLists
