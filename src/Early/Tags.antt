-- ===== src/Early/Tags.antt =====
-- The walk of early_main in arch/i686/early.c over the tags.
use mugo.Base.{
  ℕ, zero, suc, ◌+◌, ◌<◌, ◌≤◌, ◌≡◌, ◌≢◌, refl, ◌∙◌, ◌⊎◌, inl, inr, Bool, false, ◌&&◌, leb, ◌==◌,
  if◌then◌else◌, arith,
}
use mugo.Stdlib.{Bytes}
use mugo.Early.{word, tag_type, tag_size, next_tag, end_from, no_modules_max}

-- The tag is loaded as a module when the index is `i`.
abbrev pub is_module : (tag i : ℕ) → Bytes → Bool
is_module tag i m = tag_type tag m == 3 && leb (suc i) no_modules_max

-- The end of the modules behind the tag.
abbrev pub end_after : (tag i last : ℕ) → Bytes → ℕ
end_after tag i last m = if is_module tag i m then end_from last tag m else last

abbrev pub index_after : (tag i : ℕ) → Bytes → ℕ
index_after tag i m = if is_module tag i m then suc i else i

-- A name that ends inside its tag, after `len` characters.
pub record IsName (tag : ℕ) (m : Bytes) : Type 0 where
  pub len : ℕ
  pub inside : 16 + len < tag_size tag m
  pub end : m (tag + 16 + len) ≡ 0

-- A tag that lies below `hi`. A memory map has entries of positive size; a module has a name, and a
-- size that keeps the end of the modules from `hi` on.
pub record IsTag (hi tag i last : ℕ) (m : Bytes) : Type 0 where
  pub more : tag_type tag m ≢ 0
  pub header : 8 ≤ tag_size tag m
  pub below : tag + tag_size tag m ≤ hi
  pub map : (tag_type tag m ≢ 6) ⊎ ((16 ≤ tag_size tag m) × (0 < word (tag + 8) m))
  pub name : (tag_type tag m ≢ 3) ⊎ IsName tag m
  pub above : hi ≤ end_after tag i last m

-- `n` such tags from `tag` on and the end tag, when `i` modules are loaded up to `last`.
abbrev pub Ends : (hi n tag i last : ℕ) → Bytes → Type 0
Ends hi zero tag i last m = (tag + 8 ≤ hi) × (tag_type tag m ≡ 0)
Ends hi (suc n) tag i last m =
    IsTag hi tag i last m
    × Ends hi n (next_tag tag m) (index_after tag i m) (end_after tag i last m) m

module _ (hi : ℕ) where
  -- The same bytes from `lo` to `hi`.
  abbrev pub Agrees : (lo : ℕ) → Bytes → Bytes → Type 0
  Agrees lo m m' = (p : ℕ) → lo ≤ p → p < hi → m' p ≡ m p

  pub word-Agrees :
      (lo p : ℕ) (m m' : Bytes) → Agrees lo m m' → lo ≤ p → p + 4 ≤ hi → word p m' ≡ word p m
  word-Agrees lo p m m' same le lt =
      rw
        (
          same p (omega arith) (omega arith),
          same (p + 1) (omega arith) (omega arith),
          same (p + 2) (omega arith) (omega arith),
          same (p + 2 + 1) (omega arith) (omega arith),
        )
        refl

  type-Agrees :
      (tag : ℕ) (m m' : Bytes)
      → Agrees tag m m'
      → tag + 8 ≤ hi
      → (tag_type tag m' ≡ tag_type tag m) × (tag_size tag m' ≡ tag_size tag m)
  type-Agrees tag m m' same le = (
    word-Agrees tag tag m m' same (omega arith) (omega arith),
    word-Agrees tag (tag + 4) m m' same (omega arith) (omega arith),
  )

  -- What the walk reads of a tag is the same in memories that agree on it.
  record Read (tag i last : ℕ) (m m' : Bytes) : Type 0 where
    index : index_after tag i m' ≡ index_after tag i m
    end : end_after tag i last m' ≡ end_after tag i last m

  IsTag-Read :
      (tag i last : ℕ) (m m' : Bytes)
      → Agrees tag m m'
      → IsTag hi tag i last m
      → Read tag i last m m'
  IsTag-Read tag i last m m' same good =
      let (kind, size) = type-Agrees tag m m' same (omega (arith, good.header, good.below)) in
      elim good.name [
        | inl other ↦
            let off : (tag_type tag m == 3) ≡ false = ground (arith, other) in
            record { index = rw (kind, off) refl; end = rw (kind, off) refl }
        | inr name ↦
            let lo =
              word-Agrees tag (tag + 8) m m' same (omega arith)
                (omega (arith, good.below, name.inside)) in
            let hi =
              word-Agrees tag (tag + 12) m m' same (omega arith)
                (omega (arith, good.below, name.inside)) in
            record { index = rw kind refl; end = rw (kind, lo, hi) refl }
      ]

  IsTag-Agrees :
      (tag i last : ℕ) (m m' : Bytes)
      → Agrees tag m m'
      → IsTag hi tag i last m
      → IsTag hi tag i last m'
  IsTag-Agrees tag i last m m' same good =
      let (kind, size) = type-Agrees tag m m' same (omega (arith, good.header, good.below)) in
      let read = IsTag-Read tag i last m m' same good in
      record {
        more = rw kind good.more;
        header = rw size good.header;
        below = rw size good.below;
        map = elim good.map [
          | inl other ↦ inl (rw kind other)
          | inr (room, pos) ↦ inr (
            rw size room,
            rw (word-Agrees tag (tag + 8) m m' same (omega arith) (omega (arith, good.below))) pos,
          )
        ];
        name = elim good.name [
          | inl other ↦ inl (rw kind other)
          | inr name ↦ inr (record {
            len = name.len;
            inside = rw size name.inside;
            end =
                same (tag + 16 + name.len) (omega arith) (omega (arith, good.below, name.inside))
                ∙ name.end;
          })
        ];
        above = rw read.end good.above;
      }

  pub Ends-Agrees :
      (n tag i last : ℕ) (m m' : Bytes)
      → Agrees tag m m'
      → Ends hi n tag i last m
      → Ends hi n tag i last m'
  Ends-Agrees zero tag i last m m' same (room, end) =
      (room, (type-Agrees tag m m' same room).0 ∙ end)
  Ends-Agrees (suc n) tag i last m m' same (good, rest) =
      let (kind, size) = type-Agrees tag m m' same (omega (arith, good.header, good.below)) in
      let read = IsTag-Read tag i last m m' same good in
      let later =
        Ends-Agrees n (next_tag tag m) (index_after tag i m) (end_after tag i last m) m m'
          (λ p le lt. same p (omega arith) lt) rest in
      (IsTag-Agrees tag i last m m' same good, rw (size, read.index, read.end) later)
