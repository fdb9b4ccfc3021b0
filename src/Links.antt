-- ===== src/Links.antt =====
-- kern/list.h: circular doubly linked lists through headers embedded in the kernel's objects.
pub mod Ring
use mugo.Base.{ℕ, Bool, ◌-◌, ◌+◌, ◌&&◌, ◌==◌, if◌then◌else◌}

-- The headers of the flat address space, as two arrays indexed by the address of a header.
pub record Links : Type 0 where
  pub next : ℕ → ℕ
  pub prev : ℕ → ℕ

abbrev pub update : (ℕ → ℕ) → ℕ → ℕ → ℕ → ℕ
update f p v q = if q == p then v else f q

abbrev pub set_next : ℕ → ℕ → Links → Links
set_next p v h = record h { next = update h.next p v }

abbrev pub set_prev : ℕ → ℕ → Links → Links
set_prev p v h = record h { prev = update h.prev p v }

-- LIST_HEAD_INIT
unfoldable pub list_head_init : ℕ → Links → Links
list_head_init var h = set_next var var (set_prev var var h)

unfoldable pub list_add : ℕ → ℕ → Links → Links
list_add new head h =
    let head_next = h.next head in
    set_prev new head (set_next new head_next (set_next head new (set_prev head_next new h)))

-- The second write reads `hdr->prev` and `hdr->next` after the first.
unfoldable pub list_remove : ℕ → Links → Links
list_remove hdr h =
    let h1 = set_prev (h.next hdr) (h.prev hdr) h in set_next (h1.prev hdr) (h1.next hdr) h1

unfoldable pub list_is_empty : ℕ → Links → Bool
list_is_empty hdr h = (h.next hdr == hdr) && (h.prev hdr == hdr)

unfoldable pub list_next : ℕ → Links → ℕ × Links
list_next hdr h = let ret = h.next hdr in (ret, list_remove ret h)
