-- ===== src/Kmalloc/Free/Lists.antt =====
-- The lists of a bag's pages, and what kfree of kern/kmalloc.c does to them.
use mathlib.Core.Path.{subst}
use mugo.Base.{
  ℕ, suc, ◌+◌, ◌-◌, ◌*◌, ◌/◌, ◌<◌, ◌≡◌, ◌≢◌, refl, sym, ap, ◌∙◌, true, false, some, List, [], ◌∷◌,
  ◌++◌, length, ◌||◌, ==_iff, ◌==◌, arith,
}
use mugo.Kmalloc.{
  Pool, Words, set_word, page_size, from_field, bag_freelist_sentinel, freelist_enqueue,
}
use mugo.Kmalloc.Free.{find_before, unlink, unlink_first, reopen, kfree}

-- From `p` the pages `xs` are linked, up to NULL.
abbrev pub IsChain : Words → ℕ → List ℕ → Type 0
IsChain w p [] = p ≡ 0
IsChain w p (x ∷ xs) = (p ≡ x) × (0 < x) × IsChain w (w x) xs

abbrev pub NotIn : ℕ → List ℕ → Type 0
NotIn a [] = Unit
NotIn a (x ∷ xs) = (a ≢ x) × NotIn a xs

abbrev pub AllDistinct : List ℕ → Type 0
AllDistinct [] = Unit
AllDistinct (x ∷ xs) = NotIn x xs × AllDistinct xs

set_word-IsChain :
    (a v p : ℕ) (w : Words) (xs : List ℕ)
    → NotIn a xs
    → IsChain w p xs
    → IsChain (set_word a v w) p xs
set_word-IsChain a v p w [] out chain = chain
set_word-IsChain a v p w (x ∷ xs) (ne, out) (here, pos, rest) =
    let same : set_word a v w x ≡ w x = ground (arith, ne) in
    (here, pos, rw same (set_word-IsChain a v (w x) w xs out rest))

NotIn-left : (a : ℕ) (xs ys : List ℕ) → NotIn a (xs ++ ys) → NotIn a xs
NotIn-left a [] ys out = tt
NotIn-left a (x ∷ xs) ys (ne, out) = (ne, NotIn-left a xs ys out)

NotIn-mid : (a h : ℕ) (xs ys : List ℕ) → NotIn a (xs ++ (h ∷ ys)) → a ≢ h
NotIn-mid a h [] ys (ne, out) = ne
NotIn-mid a h (x ∷ xs) ys (ne, out) = NotIn-mid a h xs ys out

IsChain-mid : (w : Words) (p h : ℕ) (xs ys : List ℕ) → IsChain w p (xs ++ (h ∷ ys)) → 0 < h
IsChain-mid w p h [] ys (here, pos, rest) = pos
IsChain-mid w p h (x ∷ xs) ys (here, pos, rest) = IsChain-mid w (w x) h xs ys rest

module _ (hdr : ℕ) (bs : List ℕ) (w : Words) where
  -- The page that the loop finds.
  record Found (fuel a : ℕ) (xs : List ℕ) : Type 0 where
    page : ℕ
    found : find_before fuel a hdr w ≡ some page
    points : w page ≡ hdr
    apart : (x : ℕ) → NotIn x (a ∷ xs) → page ≢ x
    chain : IsChain (set_word page (w hdr) w) a (a ∷ (xs ++ bs))

  find_before-Found :
      (k a : ℕ) (xs : List ℕ)
      → IsChain w a (a ∷ (xs ++ (hdr ∷ bs)))
      → AllDistinct (a ∷ (xs ++ (hdr ∷ bs)))
      → Found (suc (length xs + k)) a xs
  unfolding find_before
  find_before-Found k a [] (here, pos, (next, hpos, rest)) ((ne, out), distinct) =
      let stop : (w a == 0 || (w a == hdr)) ≡ true = ground (arith, next) in
      let now : set_word a (w hdr) w a ≡ w hdr = ground arith in
      record {
        page = a;
        found = rw stop refl;
        points = next;
        apart = λ x out e. out.0 (sym e);
        chain = (refl, pos, rw now (set_word-IsChain a (w hdr) (w hdr) w bs out rest));
      }
  find_before-Found k a (b ∷ xs) (here, pos, (next, bpos, rest)) ((ne, out), (b_out, distinct)) =
      let b_ne : b ≢ hdr = NotIn-mid b hdr xs bs b_out in
      let on : (w a == 0 || (w a == hdr)) ≡ false = ground (arith, next, b_ne, bpos) in
      let rec = find_before-Found k b xs (refl, bpos, rest) (b_out, distinct) in
      let fuel : length (b ∷ xs) + k ≡ suc (length xs + k) = omega arith in
      let a_out : NotIn a (b ∷ xs) = (ne, NotIn-left a xs (hdr ∷ bs) out) in
      let same : set_word rec.page (w hdr) w a ≡ w a = ground (arith, rec.apart a a_out) in
      record {
        page = rec.page;
        found =
            rw (fuel, on) (ap (λ p. find_before (suc (length xs + k)) p hdr w) next ∙ rec.found);
        points = rec.points;
        apart = λ x x_out. rec.apart x x_out.1;
        chain = (refl, pos, (same ∙ next, bpos, rec.chain.2));
      }

-- Each of `ys` is apart from `xs`.
abbrev pub Apart : List ℕ → List ℕ → Type 0
Apart xs [] = Unit
Apart xs (y ∷ ys) = NotIn y xs × Apart xs ys

page-NotIn :
    (page : ℕ) (xs ys : List ℕ) → ((x : ℕ) → NotIn x xs → page ≢ x) → Apart xs ys → NotIn page ys
page-NotIn page xs [] apart out = tt
page-NotIn page xs (y ∷ ys) apart (y_out, out) = (apart y y_out, page-NotIn page xs ys apart out)

-- The pages of the bag are different, and the object is no page's header.
pub record IsSeparate (ptr hdr : ℕ) (xs bs fs : List ℕ) : Type 0 where
  pub distinct : AllDistinct (xs ++ (hdr ∷ bs))
  pub hdr_full : NotIn hdr (xs ++ bs)
  pub hdr_free : NotIn hdr fs
  pub apart : Apart xs fs
  pub ptr_full : NotIn ptr (xs ++ bs)
  pub ptr_hdr : ptr ≢ hdr
  pub ptr_free : NotIn ptr fs

-- The bag `idx` with the pages `full` and `free` on its lists.
pub record HasLists (idx : ℕ) (full free : List ℕ) (s : Pool) : Type 0 where
  pub on_full : IsChain s.words (s.full idx) full
  pub on_free : IsChain s.words (s.free idx) free

reopen-HasLists :
    (k idx ptr hdr : ℕ) (xs bs fs : List ℕ) (s : Pool)
    → IsSeparate ptr hdr xs bs fs
    → HasLists idx (xs ++ (hdr ∷ bs)) fs s
    → (s' : Pool) × (reopen (suc (length xs + k)) idx hdr s ≡ some s')
      × HasLists idx (xs ++ bs) (hdr ∷ fs) s'
unfolding reopen
reopen-HasLists k idx ptr hdr [] bs fs s sep lists =
    let (first, hpos, rest) = lists.on_full in
    let is_first : (s.full idx == hdr) ≡ true = ground (arith, first) in
    let at_idx : (idx == idx) ≡ true = ground arith in
    let now : set_word hdr (s.free idx) s.words hdr ≡ s.free idx = ground arith in
    (
      unlink_first idx hdr s,
      rw is_first refl,
      record {
        on_full =
            rw at_idx
              (set_word-IsChain hdr (s.free idx) (s.words hdr) s.words bs sep.hdr_full rest);
        on_free = rw at_idx (
          refl,
          hpos,
          rw now (
              set_word-IsChain hdr (s.free idx) (s.free idx) s.words fs sep.hdr_free lists.on_free),
        );
      },
    )
reopen-HasLists k idx ptr hdr (a ∷ xs) bs fs s sep lists =
    let (first, pos, rest) = lists.on_full in
    let hpos : 0 < hdr = IsChain-mid s.words (s.words a) hdr xs bs rest in
    let found = find_before-Found hdr bs s.words (suc k) a xs (refl, pos, rest) sep.distinct in
    let page = found.page in
    let points : s.words page ≡ hdr = found.points in
    let not_first : (s.full idx == hdr) ≡ false =
      ground (arith, first, NotIn-mid a hdr xs bs sep.distinct.0) in
    let not_null : (s.full idx == 0) ≡ false = ground (arith, first, pos) in
    let linked : (s.words page == 0) ≡ false = ground (arith, points, hpos) in
    let fuel : suc (length (a ∷ xs) + k) ≡ suc (length xs + suc k) = omega arith in
    let run : find_before (suc (length (a ∷ xs) + k)) (s.full idx) hdr s.words ≡ some page =
      ap (λ f. find_before f (s.full idx) hdr s.words) fuel
      ∙ ap (λ p. find_before (suc (length xs + suc k)) p hdr s.words) first
      ∙ found.found in
    let at_idx : (idx == idx) ≡ true = ground arith in
    let w1 = set_word page (s.words (s.words page)) s.words in
    let now : set_word hdr (s.free idx) w1 hdr ≡ s.free idx = ground arith in
    (
      unlink idx page hdr s,
      rw (not_first, not_null, run, linked) refl,
      record {
        on_full = set_word-IsChain hdr (s.free idx) (s.full idx) w1 (a ∷ (xs ++ bs)) sep.hdr_full (
            subst (λ h. IsChain (set_word page (s.words h) s.words) (s.full idx) (a ∷ (xs ++ bs)))
              (sym points) (first, pos, found.chain.2));
        on_free = rw at_idx (
          refl,
          hpos,
          rw now (
              set_word-IsChain hdr (s.free idx) (s.free idx) w1 fs sep.hdr_free (
                set_word-IsChain page (s.words (s.words page)) (s.free idx) s.words fs
                  (page-NotIn page (a ∷ xs) fs found.apart sep.apart) lists.on_free)),
        );
      },
    )

-- Freeing an object of a full page takes the page out of the list of full pages, keeps the order of
-- the others, and puts it in front of the pages with free objects, with fuel for the pages in front
-- of it. The page must be on the list of its bag, the pages of the bag must be different and the
-- object must not be the header of one.
pub kfree-HasLists :
    (ffs : ℕ → ℕ) (ptr : ℕ) (xs bs fs : List ℕ) (s : Pool)
    → let hdr = ptr / page_size * page_size in
      let idx = ffs (s.object_size hdr) - 1 in
      from_field (s.freelist_head_offset hdr) ≡ bag_freelist_sentinel
      → IsSeparate ptr hdr xs bs fs
      → HasLists idx (xs ++ (hdr ∷ bs)) fs s
      → (s' : Pool) × (kfree ffs (length xs + 1) ptr s ≡ some s')
        × HasLists idx (xs ++ bs) (hdr ∷ fs) s'
unfolding kfree freelist_enqueue
kfree-HasLists ffs ptr xs bs fs s is_full sep lists =
    let hdr = ptr / page_size * page_size in
    let idx = ffs (s.object_size hdr) - 1 in
    let is_sentinel : (from_field (s.freelist_head_offset hdr) == bag_freelist_sentinel) ≡ true =
      (==_iff _ _).1 is_full in
    let fuel : length xs + 1 ≡ suc (length xs + 0) = omega arith in
    let (s1, run, lists1) = reopen-HasLists 0 idx ptr hdr xs bs fs s sep lists in
    let v = from_field (s1.freelist_head_offset hdr) in
    (
      freelist_enqueue hdr ptr s1,
      rw (is_sentinel, fuel, run) refl,
      record {
        on_full =
            set_word-IsChain ptr v (s1.full idx) s1.words (xs ++ bs) sep.ptr_full lists1.on_full;
        on_free =
            set_word-IsChain ptr v (s1.free idx) s1.words (hdr ∷ fs) (sep.ptr_hdr, sep.ptr_free)
              lists1.on_free;
      },
    )
