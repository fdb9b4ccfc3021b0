-- ===== src/Kmalloc/Slots.antt =====
-- The list of free objects that init_page of kern/kmalloc.c builds in a page.
use native.Mathlib.Decide.{ℕ_discrete}
use native.Mathlib.Nat.{mul-le-mul_right}
use mugo.Base.{
  ℕ, zero, suc, ◌+◌, ◌-◌, ◌*◌, ◌≤◌, ◌<◌, ◌≡◌, refl, ap, ◌∙◌, ◌==◌, if◌then◌else◌, arith,
}
use mugo.Kmalloc.{Words, init_from, init_page, no_objects, sizeof_page_hdr, bag_freelist_sentinel}

init_before :
    (n i addr obj_size : ℕ) (w : Words) (a : ℕ) → a < addr → init_from n i addr obj_size w a ≡ w a
unfolding init_from
init_before zero i addr obj_size w a lt = refl
init_before (suc n) i addr obj_size w a lt =
    init_before n (i + 1) (addr + obj_size) obj_size _ a (omega arith) ∙ ground arith

init_slot :
    (n i addr obj_size : ℕ) (w : Words) (k a : ℕ)
    → 0 < obj_size
    → k < n
    → a ≡ addr + k * obj_size
    → init_from n i addr obj_size w a ≡ i + k + 1
unfolding init_from
init_slot zero i addr obj_size w k a pos lt e = absurd (omega arith)
init_slot (suc n) i addr obj_size w zero a pos lt e =
    init_before n (i + 1) (addr + obj_size) obj_size _ a (omega arith) ∙ ground arith
init_slot (suc n) i addr obj_size w (suc k) a pos lt e =
    init_slot n (i + 1) (addr + obj_size) obj_size _ k a pos (omega arith) (omega arith)
    ∙ omega arith

-- For objects of positive size, init_page links each object of the page to the next, by index, and ends the list at the last.
init_page-slot :
    (page obj_size k : ℕ) (w : Words)
    → 0 < obj_size
    → k < no_objects obj_size
    → init_page page obj_size w (page + sizeof_page_hdr + k * obj_size)
      ≡ (if k + 1 == no_objects obj_size then bag_freelist_sentinel else k + 1)
unfolding init_page
init_page-slot page obj_size k w pos lt = elim (ℕ_discrete (k + 1) (no_objects obj_size)) [
  | yes last ↦
      let end = ap (λ n. n * obj_size) last in
      let here : page + sizeof_page_hdr + k * obj_size
          ≡ page + sizeof_page_hdr + no_objects obj_size * obj_size - obj_size =
        omega (arith, end) in
      ground (arith, here, last)
  | no ne ↦
      let before : (k + 2) * obj_size ≤ no_objects obj_size * obj_size =
        mul-le-mul_right obj_size (omega (arith, ne)) in
      ground (
        arith,
        before,
        ne,
        init_slot (no_objects obj_size) 0 (page + sizeof_page_hdr) obj_size w k
            (page + sizeof_page_hdr + k * obj_size) pos lt refl,
      )
]
