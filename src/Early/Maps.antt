-- ===== src/Early/Maps.antt =====
-- The memory maps that early_main of arch/i686/early.c saves.
use mathlib.Core.List.{append-nil, append_assoc}
use native.Mathlib.Decide.{dec_lt}
use mugo.Base.{
  ℕ, zero, suc, ◌+◌, ◌-◌, ◌<◌, ◌≤◌, ◌≡◌, refl, sym, ◌∙◌, inl, inr, true, false, Bool-cases, some,
  List, [], ◌∷◌, ◌++◌, take, ltb, ◌==◌, if◌then◌else◌, arith,
}
use mugo.Stdlib.{Bytes}
use mugo.Early.{
  BootInfo, MemoryMap, word, at, available, read_map, save_map, save_maps, no_memmaps, tag_size,
  tag_type, read_tag,
}

-- The entries from `curr` on that begin before `end`, `n` at most.
abbrev pub entries : (n curr end entry_size : ℕ) → Bytes → List MemoryMap
entries zero curr end entry_size m = []
entries (suc n) curr end entry_size m =
    if ltb curr end then read_map curr m ∷ entries n (curr + entry_size) end entry_size m else []

-- The first `n` of an array.
abbrev pub first : ℕ → (ℕ → MemoryMap) → List MemoryMap
first zero f = []
first (suc n) f = first n f ++ (f n ∷ [])

abbrev pub saved : BootInfo → List MemoryMap
saved s = first s.saved_mmap_index s.memmaps

first-at : (n i : ℕ) (e : MemoryMap) (f : ℕ → MemoryMap) → n ≤ i → first n (at i e f) ≡ first n f
first-at zero i e f le = refl
first-at (suc n) i e f le = rw (first-at n i e f (omega arith)) (ground arith)

at_self : (i : ℕ) (e : MemoryMap) (f : ℕ → MemoryMap) → at i e f i ≡ e
at_self i e f = ground arith

-- Those of a list that are kept.
abbrev pub usable : List MemoryMap → List MemoryMap
usable [] = []
usable (e ∷ es) = if available e then e ∷ usable es else usable es

-- What one round leaves, as the rest of the loop sees it.
round-saved :
    (e : MemoryMap) (s : BootInfo) (es : List MemoryMap)
    → s.saved_mmap_index < 19
    → saved (save_map e s) ++ take (19 - (save_map e s).saved_mmap_index) (usable es)
      ≡ saved s ++ take (19 - s.saved_mmap_index) (usable (e ∷ es))
unfolding save_map
round-saved e s es lt = elim (Bool-cases (available e)) [
  | inl on ↦
      let more : 19 - s.saved_mmap_index ≡ suc (19 - suc s.saved_mmap_index) = omega arith in
      rw
        (
          on,
          more,
          first-at s.saved_mmap_index s.saved_mmap_index e s.memmaps (omega arith),
          at_self s.saved_mmap_index e s.memmaps,
        )
        (append_assoc (saved s) (e ∷ []) _)
  | inr off ↦ rw off refl
]

-- What the maps leave alone.
pub record Kept (s s' : BootInfo) : Type 0 where
  pub mem_eq : s'.mem ≡ s.mem
  pub modules_eq : s'.modules ≡ s.modules
  pub index_eq : s'.module_index ≡ s.module_index
  pub last_eq : s'.last_module_end_addr ≡ s.last_module_end_addr
  pub total_eq : s'.total_module_size ≡ s.total_module_size

save_map-Kept : (e : MemoryMap) (s : BootInfo) → Kept s (save_map e s)
unfolding save_map
save_map-Kept e s = elim (Bool-cases (available e)) [
  | inl on ↦ rw on (record {
    mem_eq = refl;
    modules_eq = refl;
    index_eq = refl;
    last_eq = refl;
    total_eq = refl;
  })
  | inr off ↦ rw off (record {
    mem_eq = refl;
    modules_eq = refl;
    index_eq = refl;
    last_eq = refl;
    total_eq = refl;
  })
]

Kept-trans : {s1 s2 s3 : BootInfo} → Kept s1 s2 → Kept s2 s3 → Kept s1 s3
Kept-trans k l = record {
  mem_eq = l.mem_eq ∙ k.mem_eq;
  modules_eq = l.modules_eq ∙ k.modules_eq;
  index_eq = l.index_eq ∙ k.index_eq;
  last_eq = l.last_eq ∙ k.last_eq;
  total_eq = l.total_eq ∙ k.total_eq;
}

pub Kept-refl : (s : BootInfo) → Kept s s
Kept-refl s = record {
  mem_eq = refl;
  modules_eq = refl;
  index_eq = refl;
  last_eq = refl;
  total_eq = refl;
}

take_nil : (k : ℕ) → take {A = MemoryMap} k [] ≡ []
take_nil zero = refl
take_nil (suc k) = refl

save_map-index :
    (e : MemoryMap) (s : BootInfo) → s.saved_mmap_index < 19 → (save_map e s).saved_mmap_index ≤ 19
unfolding save_map
save_map-index e s lt = elim (Bool-cases (available e)) [
  | inl on ↦ rw on (omega arith)
  | inr off ↦ rw off (omega arith)
]

pub save_maps-saved :
    (n curr end entry_size : ℕ) (s : BootInfo)
    → 0 < entry_size
    → end ≤ curr + n
    → s.saved_mmap_index ≤ 19
    → (s' : BootInfo) × (save_maps (suc n) curr end entry_size s ≡ some s')
      × (s'.saved_mmap_index ≤ 19)
      × Kept s s'
      × (saved s'
          ≡ saved s
            ++ take (19 - s.saved_mmap_index) (usable (entries n curr end entry_size s.mem)))
unfolding save_maps
save_maps-saved zero curr end entry_size s pos bound le =
    let over : ltb curr end ≡ false = ground arith in
    let nothing : saved s ≡ saved s ++ take (19 - s.saved_mmap_index) [] =
      rw (take_nil (19 - s.saved_mmap_index)) (sym (append-nil (saved s))) in
    (s, rw over refl, le, Kept-refl s, nothing)
save_maps-saved (suc n) curr end entry_size s pos bound le = elim (Bool-cases (ltb curr end)) [
  | inr over ↦
      let nothing : saved s ≡ saved s ++ take (19 - s.saved_mmap_index) [] =
        rw (take_nil (19 - s.saved_mmap_index)) (sym (append-nil (saved s))) in
      (s, rw over refl, le, Kept-refl s, rw over nothing)
  | inl more ↦ elim (dec_lt s.saved_mmap_index 19) [
    | no full ↦
        let stop : ltb (suc s.saved_mmap_index) no_memmaps ≡ false = ground arith in
        let none_left : 19 - s.saved_mmap_index ≡ 0 = omega arith in
        (s, rw (more, stop) refl, le, Kept-refl s, rw none_left (sym (append-nil (saved s))))
    | yes lt ↦
        let go : ltb (suc s.saved_mmap_index) no_memmaps ≡ true = ground arith in
        let e = read_map curr s.mem in
        let (s', run, max, kept, new) =
          save_maps-saved n (curr + entry_size) end entry_size (save_map e s) pos (omega arith)
            (save_map-index e s lt) in
        (
          s',
          rw (more, go) run,
          max,
          Kept-trans (save_map-Kept e s) kept,
          new
              ∙ rw ((save_map-Kept e s).mem_eq, more)
                  (round-saved e s (entries n (curr + entry_size) end entry_size s.mem) lt),
        )
  ]
]

pub read_tag-saved :
    (tag : ℕ) (s : BootInfo)
    → tag_type tag s.mem ≡ 6
    → 0 < word (tag + 8) s.mem
    → s.saved_mmap_index ≤ 19
    → (s' : BootInfo) × (read_tag tag s ≡ some s')
      × (s'.saved_mmap_index ≤ 19)
      × Kept s s'
      × (saved s'
          ≡ saved s
            ++ take (19 - s.saved_mmap_index) (
                usable (
                  entries
                    (tag_size tag s.mem)
                    (tag + 16)
                    (tag + tag_size tag s.mem)
                    (word (tag + 8) s.mem)
                    s.mem)))
unfolding read_tag
read_tag-saved tag s kind pos le =
    let is_map : (tag_type tag s.mem == 6) ≡ true = ground (arith, kind) in
    let fuel : tag_size tag s.mem + 1 ≡ suc (tag_size tag s.mem) = omega arith in
    rw (is_map, fuel)
      (save_maps-saved (tag_size tag s.mem) (tag + 16) (tag + tag_size tag s.mem)
        (word (tag + 8) s.mem) s pos (omega arith) le)
