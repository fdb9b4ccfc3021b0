-- ===== src/Early/Walk.antt =====
-- That early_main of arch/i686/early.c comes to the end of the tags, and what it has then.
use mathlib.Core.Path.{subst}
use mugo.Base.{
  ℕ, zero, suc, ◌+◌, ◌<◌, ◌≤◌, ◌≡◌, refl, ◌∙◌, ap, inl, inr, true, false, Bool-cases, some, ==_iff,
  ◌==◌, arith,
}
use mugo.Early.{BootInfo, word, tag_type, tag_size, next_tag, load_module, read_tag, read_tags}
use mugo.Early.Maps.{Kept, Kept-refl, read_tag-saved}
use mugo.Early.Modules.{IsPlaced, load_module-IsPlaced, load_module-below, Kept-IsPlaced}
use mugo.Early.Tags.{
  is_module, end_after, index_after, IsTag, IsName, Ends, Agrees, word-Agrees, Ends-Agrees,
}

module _ (hi start : ℕ) where
  -- What holds between the tags.
  record IsWalking (s : BootInfo) : Type 0 where
    above : hi ≤ s.last_module_end_addr
    placed : IsPlaced start s
    maps_le : s.saved_mmap_index ≤ 19

  record Step (tag : ℕ) (s s1 : BootInfo) : Type 0 where
    ran : read_tag tag s ≡ some s1
    same : Agrees hi (tag + tag_size tag s.mem) s.mem s1.mem
    size_eq : tag_size tag s1.mem ≡ tag_size tag s.mem
    index_eq : s1.module_index ≡ index_after tag s.module_index s.mem
    last_eq : s1.last_module_end_addr ≡ end_after tag s.module_index s.last_module_end_addr s.mem
    walking : IsWalking s1

  -- A tag that leaves the memory and the modules alone.
  quiet-Step :
      (tag : ℕ) (s s1 : BootInfo)
      → hi ≤ s.last_module_end_addr
      → IsPlaced start s
      → read_tag tag s ≡ some s1
      → is_module tag s.module_index s.mem ≡ false
      → Kept s s1
      → s1.saved_mmap_index ≤ 19
      → Step tag s s1
  quiet-Step tag s s1 above placed ran off kept le = record {
    ran = ran;
    same = λ p lo lt. ap (λ m. m p) kept.mem_eq;
    size_eq = ap (λ m. tag_size tag m) kept.mem_eq;
    index_eq = rw off kept.index_eq;
    last_eq = rw off kept.last_eq;
    walking = record {
      above = rw kept.last_eq above;
      placed = Kept-IsPlaced start kept placed;
      maps_le = le;
    };
  }

  module-Step :
      (tag : ℕ) (s : BootInfo)
      → IsTag hi tag s.module_index s.last_module_end_addr s.mem
      → IsWalking s
      → IsName tag s.mem
      → is_module tag s.module_index s.mem ≡ true
      → read_tag tag s ≡ some (load_module tag s)
      → Step tag s (load_module tag s)
  unfolding load_module
  module-Step tag s good w name on ran =
      let few : s.module_index < 5 = ground (arith, on) in
      let inside : tag + 16 + name.len < hi = omega (arith, good.below, name.inside) in
      record {
        ran = ran;
        same = λ p lo lt.
            load_module-below tag p name.len hi s w.above lt inside name.end
              (inr (omega (arith, name.inside)));
        size_eq =
            word-Agrees (tag + 8) tag (tag + 4) s.mem (load_module tag s).mem
              (λ p lo lt.
                load_module-below tag p name.len hi s w.above
                  (omega (arith, good.below, good.header)) inside name.end (inl (omega arith)))
              (omega arith) (omega arith);
        index_eq = rw on refl;
        last_eq = rw on refl;
        walking = record {
          above = subst (λ e. hi ≤ e) (rw on refl) good.above;
          placed = load_module-IsPlaced start tag s few w.placed;
          maps_le = w.maps_le;
        };
      }

  read_tag-Step :
      (tag : ℕ) (s : BootInfo)
      → IsTag hi tag s.module_index s.last_module_end_addr s.mem
      → IsWalking s
      → (s1 : BootInfo) × Step tag s s1
  unfolding read_tag
  read_tag-Step tag s good w = elim (Bool-cases (tag_type tag s.mem == 6)) [
    | inl is_map ↦
        let off : is_module tag s.module_index s.mem ≡ false = ground (arith, is_map) in
        elim good.map [
          | inl other ↦ absurd (other ((==_iff _ _).0 is_map))
          | inr (room, pos) ↦
              let (s1, ran, max, kept, new) =
                read_tag-saved tag s ((==_iff _ _).0 is_map) pos w.maps_le in
              (s1, quiet-Step tag s s1 w.above w.placed ran off kept max)
        ]
    | inr no_map ↦ elim (Bool-cases (tag_type tag s.mem == 4)) [
      | inl is_info ↦
          let off : is_module tag s.module_index s.mem ≡ false = ground (arith, is_info) in
          let s1 = record s { mem_upper = word (tag + 12) s.mem } in
          (
            s1,
            quiet-Step tag s s1 w.above w.placed (rw (no_map, is_info) refl) off
                (record {
                  mem_eq = refl;
                  modules_eq = refl;
                  index_eq = refl;
                  last_eq = refl;
                  total_eq = refl;
                })
                w.maps_le,
          )
      | inr no_info ↦ elim (Bool-cases (is_module tag s.module_index s.mem)) [
        | inl on ↦ elim good.name [
          | inl other ↦ absurd (ground (arith, on, other))
          | inr name ↦
              (load_module tag s, module-Step tag s good w name on (rw (no_map, no_info, on) refl))
        ]
        | inr off ↦ (
          s,
          quiet-Step tag s s w.above w.placed (rw (no_map, no_info, off) refl) off (Kept-refl s)
              w.maps_le,
        )
      ]
    ]
  ]

  walk_lem :
      (n tag : ℕ) (s : BootInfo)
      → Ends hi n tag s.module_index s.last_module_end_addr s.mem
      → IsWalking s
      → (s' : BootInfo) × (read_tags (suc n) tag s ≡ some s') × IsWalking s'
  unfolding read_tags
  walk_lem zero tag s (room, end) w =
      let stop : (tag_type tag s.mem == 0) ≡ true = ground (arith, end) in (s, rw stop refl, w)
  walk_lem (suc n) tag s (good, rest) w =
      let on : (tag_type tag s.mem == 0) ≡ false = ground (arith, good.more) in
      let (s1, step) = read_tag-Step tag s good w in
      let later =
        Ends-Agrees hi n (next_tag tag s.mem) (index_after tag s.module_index s.mem)
          (end_after tag s.module_index s.last_module_end_addr s.mem) s.mem s1.mem
          (λ p lo lt. step.same p (omega arith) lt) rest in
      let (s', run, w') =
        walk_lem n (next_tag tag s1.mem) s1 (rw (step.size_eq, step.index_eq, step.last_eq) later)
          step.walking in
      (s', rw (on, step.ran) run, w')

-- If `n` well-formed tags and the end tag lie below the end of the modules, the walk over them ends
-- with a result after `n + 1` rounds. The modules then stand back to back and on pages from where
-- the walk began to put them, at most five of them, and at most 19 memory maps are saved.
pub read_tags-IsPlaced :
    (hi start n tag : ℕ) (s : BootInfo)
    → Ends hi n tag s.module_index s.last_module_end_addr s.mem
    → hi ≤ s.last_module_end_addr
    → IsPlaced start s
    → s.saved_mmap_index ≤ 19
    → (s' : BootInfo) × (read_tags (n + 1) tag s ≡ some s')
      × IsPlaced start s'
      × (s'.saved_mmap_index ≤ 19)
read_tags-IsPlaced hi start n tag s ends above placed le =
    let (s', run, w) =
      walk_lem hi start n tag s ends (record { above = above; placed = placed; maps_le = le }) in
    (s', ap (λ fuel. read_tags fuel tag s) (omega arith) ∙ run, w.placed, w.maps_le)
