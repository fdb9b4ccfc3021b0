-- ===== src/Paging/Map/Walk.antt =====
-- What the loop of bootstrap_mmap in arch/i686/paging_utils.c writes, as the processor reads it.
use native.Mathlib.Decide.{ℕ_discrete}
use mugo.Base.{
  some, ◌-◌, ==_iff, false, ap, ℕ, zero, suc, ◌+◌, ◌*◌, ◌/◌, ◌%◌, ◌^◌, ◌<◌, ◌≤◌, ◌≡◌, ◌≢◌, refl,
  sym, ◌∙◌, Bool-cases, inl, inr, ◌==◌, if◌then◌else◌, arith,
}
use mugo.Paging.{page, page_size, pt_offset, pd_offset}
use mugo.Paging.Map.{
  Words, Space, set_word, entry, map_page, map_pages, alloc_table, alloc_tables, page_flags,
  no_page_tables, bootstrap_mmap,
}

-- The entries of the directory and of a table that the processor reads for an address.
abbrev pub dir_slot : (pd v : ℕ) → ℕ
dir_slot pd v = entry pd (pd_offset v)

abbrev pub slot : (pd v : ℕ) → Words → ℕ
slot pd v w = entry (page (w (dir_slot pd v))) (pt_offset v)

-- The entry that the processor comes to.
abbrev pub walk : (pd v : ℕ) → Words → ℕ
walk pd v w = w (slot pd v w)

module _ (pg_flags pd paddr vaddr : ℕ) where
  -- The address of the `j`-th page, and what its entry becomes.
  abbrev pub nth : ℕ → ℕ
  nth j = vaddr + j * page_size

  abbrev pub mapped : ℕ → ℕ
  mapped j = page ((paddr + j * page_size) % 2 ^ 32) + pg_flags

  -- The tables for the first `n` pages are there, and their entries free; no entry lies in the
  -- directory or serves two pages.
  pub record IsFree (n : ℕ) (w : Words) : Type 0 where
    pub free : (j : ℕ) → j < n → walk pd (nth j) w ≡ 0
    pub apart : (i j : ℕ) → i < n → j < n → dir_slot pd (nth i) ≢ slot pd (nth j) w
    pub distinct : (i j : ℕ) → i < n → j < n → slot pd (nth i) w ≡ slot pd (nth j) w → i ≡ j

  map_page_lem :
      (k pd_off current_pt : ℕ) (s : Space)
      → nth k < 2 ^ 32
      → 0 < paddr
      → current_pt ≡ page (s.words (entry pd pd_off))
      → walk pd (nth k) s.words ≡ 0
      → map_page pg_flags pd paddr vaddr (k * page_size) pd_off current_pt s ≡ (
        page (s.words (dir_slot pd (nth k))),
        record s { words = set_word (slot pd (nth k) s.words) (mapped k) s.words },
      )
  unfolding map_page
  map_page_lem k pd_off current_pt s small fixed cached free =
      let v_eq : (vaddr + k * page_size) % 2 ^ 32 ≡ nth k = omega arith in
      let table_eq : (if pd_off == pd_offset (nth k)
            then current_pt
            else page (s.words (dir_slot pd (nth k))))
          ≡ page (s.words (dir_slot pd (nth k))) =
        elim (Bool-cases (pd_off == pd_offset (nth k))) [
          | inl e ↦ rw e (cached ∙ ap (λ o. page (s.words (entry pd o))) ((==_iff _ _).0 e))
          | inr e ↦ rw e refl
        ] in
      let nonzero : (paddr == 0) ≡ false = ground arith in rw (v_eq, table_eq, free, nonzero) refl

  module _ (n : ℕ) (w : Words) (good : IsFree n w) (small : vaddr + n * page_size ≤ 2 ^ 32)
      (fixed : 0 < paddr) where
    -- The directory as at the start, and the entries from the `k`-th on free.
    record IsUpTo (k : ℕ) (s : Space) : Type 0 where
      dirs : (j : ℕ) → j < n → s.words (dir_slot pd (nth j)) ≡ w (dir_slot pd (nth j))
      free : (j : ℕ) → k ≤ j → j < n → s.words (slot pd (nth j) w) ≡ 0

    slot_same :
        (j : ℕ) (s : Space)
        → s.words (dir_slot pd (nth j)) ≡ w (dir_slot pd (nth j))
        → slot pd (nth j) s.words ≡ slot pd (nth j) w
    slot_same j s e = ap (λ e. entry (page e) (pt_offset (nth j))) e

    abbrev written : ℕ → Space → Space
    written k s = record s { words = set_word (slot pd (nth k) w) (mapped k) s.words }

    written-IsUpTo : (k : ℕ) (s : Space) → k < n → IsUpTo k s → IsUpTo (suc k) (written k s)
    written-IsUpTo k s lt up = record {
      dirs = λ j lt'. ground (arith, up.dirs j lt', good.apart j k lt' lt);
      free = λ j le lt'. ground (arith, up.free j (omega arith) lt', good.distinct j k lt' lt);
    }

    -- What the rest of the loop does.
    record Mapped (k : ℕ) (s s' : Space) : Type 0 where
      done : (j : ℕ) → k ≤ j → j < n → s'.words (slot pd (nth j) w) ≡ mapped j
      past : (j : ℕ) → j < k → j < n → s'.words (slot pd (nth j) w) ≡ s.words (slot pd (nth j) w)
      kept : (a : ℕ) → ((j : ℕ) → j < n → a ≢ slot pd (nth j) w) → s'.words a ≡ s.words a

    loop-Mapped :
        (left k offset pd_off current_pt : ℕ) (s : Space)
        → k + left ≡ n
        → offset ≡ k * page_size
        → IsUpTo k s
        → current_pt ≡ page (s.words (entry pd pd_off))
        → Mapped k s (map_pages pg_flags pd paddr vaddr left offset pd_off current_pt s)
    unfolding map_pages
    loop-Mapped zero k offset pd_off current_pt s total at up cached = record {
      done = λ j le lt. absurd (omega arith);
      past = λ j lt lt'. refl;
      kept = λ a out. refl;
    }
    loop-Mapped (suc left) k offset pd_off current_pt s total at up cached =
        let lt : k < n = omega arith in
        let here = slot_same k s (up.dirs k lt) in
        let step : map_page pg_flags pd paddr vaddr offset pd_off current_pt s
            ≡ (page (s.words (dir_slot pd (nth k))), written k s) =
          ap (λ o. map_page pg_flags pd paddr vaddr o pd_off current_pt s) at
          ∙ map_page_lem k pd_off current_pt s (omega arith) fixed cached
              (ap s.words here ∙ up.free k (omega arith) lt)
          ∙ ap
              (λ a. (
                page (s.words (dir_slot pd (nth k))),
                record s { words = set_word a (mapped k) s.words },
              ))
              here in
        let v_eq : (vaddr + offset) % 2 ^ 32 ≡ nth k = omega arith in
        let up1 = written-IsUpTo k s lt up in
        let rest =
          loop-Mapped left (suc k) (offset + page_size) (pd_offset (nth k))
            (page (s.words (dir_slot pd (nth k)))) (written k s) (omega arith) (omega arith) up1
            (ap page (up.dirs k lt ∙ sym (up1.dirs k lt))) in
        rw (v_eq, step)
          (record {
            done = λ j le lt'. elim (ℕ_discrete j k) [
              | yes e ↦ rw e (rest.past k (omega arith) lt ∙ ground arith)
              | no ne ↦ rest.done j (omega arith) lt'
            ];
            past = λ j before lt'.
                rest.past j (omega arith) lt' ∙ ground (arith, good.distinct j k lt' lt);
            kept = λ a out. rest.kept a out ∙ ground (arith, out k lt);
          })

    pub map_pages-walk :
        (s : Space) (j a : ℕ)
        → s.words ≡ w
        → j < n
        → ((i : ℕ) → i < n → a ≢ slot pd (nth i) w)
        → let s' =
            map_pages pg_flags pd paddr vaddr n 0
              (pd_offset vaddr)
              (page (s.words (entry pd (pd_offset vaddr))))
              s in
          (walk pd (nth j) s'.words ≡ mapped j) × (s'.words a ≡ w a)
    map_pages-walk s j a start lt out =
        let up : IsUpTo 0 s = record {
          dirs = λ j lt. ap (λ w. w (dir_slot pd (nth j))) start;
          free = λ j le lt. ap (λ v. v (slot pd (nth j) w)) start ∙ good.free j lt;
        } in
        let s' =
          map_pages pg_flags pd paddr vaddr n 0 (pd_offset vaddr)
            (page (s.words (entry pd (pd_offset vaddr)))) s in
        let all : Mapped 0 s s' =
          loop-Mapped n 0 0 (pd_offset vaddr) (page (s.words (entry pd (pd_offset vaddr)))) s
            (omega arith) (omega arith) up refl in
        let dir : s'.words (dir_slot pd (nth j)) ≡ w (dir_slot pd (nth j)) =
          all.kept (dir_slot pd (nth j)) (λ i lt'. good.apart j i lt lt') ∙ up.dirs j lt in
        (
          ap s'.words (slot_same j s' dir) ∙ all.done j (omega arith) lt,
          all.kept a out ∙ ap (λ w. w a) start,
        )

alloc_table_present :
    (user pd i : ℕ) (s : Space) → s.words (entry pd i) ≢ 0 → alloc_table user pd i s ≡ some s
unfolding alloc_table
alloc_table_present user pd i s there =
    let here : (s.words (entry pd i) == 0) ≡ false = ground (arith, there) in rw here refl

alloc_tables_present :
    (user pd left i : ℕ) (s : Space)
    → ((k : ℕ) → i ≤ k → k < i + left → s.words (entry pd k) ≢ 0)
    → alloc_tables user pd left i s ≡ some s
unfolding alloc_tables
alloc_tables_present user pd zero i s there = refl
alloc_tables_present user pd (suc left) i s there =
    rw (alloc_table_present user pd i s (there i (omega arith) (omega arith)), alloc_tables)
      (alloc_tables_present user pd left (i + 1) s (λ k le lt. there k (omega arith) (omega arith)))

-- If the page tables are there, bootstrap_mmap of `n` pages to frames from `paddr` on succeeds, the
-- processor comes from each page's address to an entry with its frame and flags, and no word but
-- those entries changes. The entries must be free and apart from each other and the directory, the
-- pages must lie in the address space, and `paddr` must not be 0, which asks for new frames.
pub bootstrap_mmap-walk :
    (user pd paddr vaddr n flags j a : ℕ) (s : Space)
    → 0 < paddr
    → vaddr + n * page_size ≤ 2 ^ 32
    → IsFree flags pd paddr vaddr n s.words
    → ((k : ℕ)
        → pd_offset vaddr ≤ k
        → k
          < pd_offset vaddr
            + no_page_tables vaddr (n * page_size) (page (s.words (entry pd (pd_offset vaddr))))
        → s.words (entry pd k) ≢ 0)
    → j < n
    → ((i : ℕ) → i < n → a ≢ slot pd (vaddr + i * page_size) s.words)
    → (s' : Space) × (bootstrap_mmap user pd paddr vaddr (n * page_size) flags s ≡ some s')
      × (walk pd (vaddr + j * page_size) s'.words
          ≡ page ((paddr + j * page_size) % 2 ^ 32) + page_flags flags)
      × (s'.words a ≡ s.words a)
unfolding bootstrap_mmap
bootstrap_mmap-walk user pd paddr vaddr n flags j a s fixed small good there lt out =
    let count : (n * page_size + (page_size - 1)) / page_size ≡ n = omega arith in
    let good' : IsFree (page_flags flags) pd paddr vaddr n s.words = record {
      free = good.free;
      apart = good.apart;
      distinct = good.distinct;
    } in
    let (walks, kept) =
      map_pages-walk (page_flags flags) pd paddr vaddr n s.words good' small fixed s j a refl lt
        out in
    let s' =
      map_pages (page_flags flags) pd paddr vaddr n 0 (pd_offset vaddr)
        (page (s.words (entry pd (pd_offset vaddr)))) s in
    (
      s',
      rw
          (
            alloc_tables_present user pd
                (no_page_tables vaddr (n * page_size) (page (s.words (entry pd (pd_offset vaddr)))))
                (pd_offset vaddr) s there,
            bootstrap_mmap,
            count,
          )
          refl,
      walks,
      kept,
    )
