-- ===== src/Kmalloc/Pages.antt =====
-- The pool of pages that kmalloc_init of kern/kmalloc.c leaves to fetch_page.
use mugo.Base.{
  false, ℕ, zero, suc, ◌+◌, ◌-◌, ◌*◌, ◌/◌, ◌<◌, ◌≡◌, refl, ◌∙◌, some, ◌==◌, if◌then◌else◌, arith,
}
use mugo.Kmalloc.{Pool, Words, page_size, fetch_page, link_pages, kmalloc_init}

link_before : (n addr : ℕ) (w : Words) (a : ℕ) → a < addr → link_pages n addr w a ≡ w a
unfolding link_pages
link_before zero addr w a lt = refl
link_before (suc n) addr w a lt = link_before n (addr + page_size) _ a (omega arith) ∙ ground arith

link_page :
    (n addr : ℕ) (w : Words) (k a : ℕ)
    → k < n
    → a ≡ addr + k * page_size
    → link_pages n addr w a ≡ a + page_size
unfolding link_pages
link_page zero addr w k a lt e = absurd (omega arith)
link_page (suc n) addr w zero a lt e =
    link_before n (addr + page_size) _ a (omega arith) ∙ ground arith
link_page (suc n) addr w (suc k) a lt e =
    link_page n (addr + page_size) _ k a (omega arith) (omega arith)

linked :
    (start n k : ℕ) (s : Pool)
    → k < n
    → (kmalloc_init start (n * page_size) s).words (start + k * page_size)
      ≡ (if k + 1 == n then 0 else start + (k + 1) * page_size)
unfolding kmalloc_init
linked start n k s lt =
    let count : (n * page_size + (page_size - 1)) / page_size ≡ n = omega arith in
    rw count (ground (arith, link_page n start s.words k (start + k * page_size) lt refl))

-- After kmalloc_init of `n` pages at a positive address, the first page is at the head of the pool,
-- and taking a page that is at the head gives that page and puts the next one there, or 0, which means no page, after the
-- last.
fetch_page-init :
    (start n k : ℕ) (s : Pool)
    → 0 < start
    → k < n
    → let pool = kmalloc_init start (n * page_size) s in
      (pool.page_freelist_head ≡ start)
      × (fetch_page (record pool { page_freelist_head = start + k * page_size })
          ≡ some (
            start + k * page_size,
            record pool {
              page_freelist_head = if k + 1 == n then 0 else start + (k + 1) * page_size;
            },
          ))
unfolding fetch_page kmalloc_init
fetch_page-init start n k s pos lt =
    let some_page : (start + k * page_size == 0) ≡ false = ground arith in
    (refl, rw (some_page, linked start n k s lt) refl)
