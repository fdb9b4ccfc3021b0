-- ===== src/Vga/Text.antt =====
-- Which cells console_write_string of arch/i686/drivers/vga.c reaches.
use mugo.Base.{◌^◌, ◌%◌, ℕ, ◌+◌, ◌≤◌, ◌<◌, ◌≡◌, ◌≢◌, refl, ◌∙◌, List, [], ◌∷◌, arith}
use mugo.Vga.{
  Console, vga_width, vga_height, vga_total, wrap, scroll_if_full, write_char, console_scroll,
  console_write_string,
}
use mugo.Vga.Scroll.{console_scroll_lem}

-- A place that console_write_string leaves without line feeds.
pub record IsPlace (c : Console) : Type 0 where
  pub x_le : c.x ≤ vga_width
  pub y_lt : c.y < vga_height

-- No line feed among the characters.
abbrev pub IsLine : List ℕ → Type 0
IsLine [] = Unit
IsLine (ch ∷ str) = (ch ≢ 10) × IsLine str

scroll-x : (c : Console) → (console_scroll c).x ≡ c.x
unfolding console_scroll
scroll-x c = refl

scroll-y : (c : Console) → (console_scroll c).y ≡ c.y
unfolding console_scroll
scroll-y c = refl

-- Where the next character goes: the column before it, the line, and the cells past the screen.
record Ready (c c1 : Console) : Type 0 where
  x_lt : c1.x < vga_width
  y_lt : c1.y < vga_height
  past : (k : ℕ) → vga_total ≤ k → c1.term_buff k ≡ c.term_buff k

next-Ready : (c : Console) → IsPlace c → Ready c (scroll_if_full (wrap c))
unfolding wrap scroll_if_full
next-Ready c place = record {
  x_lt = ground (
    arith,
    place.x_le,
    place.y_lt,
    scroll-x (record c { x = 0; y = (c.y + 1) % 2 ^ 16 }),
    scroll-x c,
  );
  y_lt = ground (
    arith,
    place.x_le,
    place.y_lt,
    scroll-y (record c { x = 0; y = (c.y + 1) % 2 ^ 16 }),
    scroll-y c,
  );
  past = λ k out. ground (
    arith,
    place.x_le,
    place.y_lt,
    console_scroll_lem (record c { x = 0; y = (c.y + 1) % 2 ^ 16 }) k,
    console_scroll_lem c k,
  );
}

char-IsPlace : (ch : ℕ) (c : Console) → ch ≢ 10 → IsPlace c → IsPlace (write_char ch c)
unfolding write_char
char-IsPlace ch c no_feed place =
    let ready = next-Ready c place in
    record {
      x_le = ground (arith, ready.x_lt, place.x_le);
      y_lt = ground (arith, ready.y_lt, place.y_lt);
    }

char_outside :
    (ch : ℕ) (c : Console) (k : ℕ)
    → ch ≢ 10
    → IsPlace c
    → vga_total < k
    → (write_char ch c).term_buff k ≡ c.term_buff k
unfolding write_char
char_outside ch c k no_feed place out =
    let ready = next-Ready c place in
    ground (arith, ready.x_lt, ready.y_lt, ready.past k (omega arith))

-- Text without line feeds, from a place on the screen, changes no cell but those of the screen and
-- the one after, and ends at such a place.
pub write_string-IsPlace :
    (str : List ℕ) (c : Console) (k : ℕ)
    → IsLine str
    → IsPlace c
    → vga_total < k
    → ((console_write_string str c).term_buff k ≡ c.term_buff k)
      × IsPlace (console_write_string str c)
unfolding console_write_string
write_string-IsPlace [] c k line place out = (refl, place)
write_string-IsPlace (ch ∷ str) c k line place out =
    let (same, after) =
      write_string-IsPlace str (write_char ch c) k line.1 (char-IsPlace ch c line.0 place) out in
    (same ∙ char_outside ch c k line.0 place out, after)
