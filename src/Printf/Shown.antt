-- ===== src/Printf/Shown.antt =====
-- What kprintf of kern/kprint.c and its callers leave on the console.
use mugo.Base.{
  ℕ, ◌+◌, ◌<◌, ◌≡◌, refl, sym, ap, ◌∙◌, false, some, List, [], ◌∷◌, ◌++◌, length, length-append,
  ltb, ◌==◌, arith,
}
use mathlib.Core.Path.{subst}
use mugo.Printf.{Arg}
use mugo.Printf.Value.{AllNonzero}
use mugo.Printf.Pieces.{Piece, Padding, format, arguments, rendered, counted, ArePieces}
use mugo.Printf.Text.{vsprintf_s-pieces}
use mugo.Printf.Kernel.{kprint_buff_len, before_nul, show, kprintf}
use mugo.Vga.{Console, console_write_string}

abbrev pub first_padding : Padding
first_padding = record { pad = b' '; count = 0 }

before_nul-AllNonzero : (cs : List ℕ) → AllNonzero cs → before_nul (cs ++ (0 ∷ [])) ≡ cs
before_nul-AllNonzero [] all = refl
before_nul-AllNonzero (c ∷ cs) (here, all) =
    let go : (c == 0) ≡ false = ground (arith, here) in rw (go, before_nul-AllNonzero cs all) refl

-- kprintf of a format made of pieces, whose text fits in the buffer and has no NUL, writes that text
-- to the console and returns what is counted, whatever further arguments there are.
pub kprintf-pieces :
    (ds : List Piece) (more : List Arg) (c : Console)
    → ArePieces ds
    → counted ds + 1 < kprint_buff_len
    → length (rendered ds first_padding) < kprint_buff_len
    → AllNonzero (rendered ds first_padding)
    → kprintf (format ds) (arguments ds more) c
      ≡ some (counted ds, console_write_string (rendered ds first_padding) c)
unfolding kprintf
kprintf-pieces ds more c good fits short nonzero =
    let out = rendered ds first_padding in
    let run = vsprintf_s-pieces kprint_buff_len ds more good (omega arith) fits in
    let held : ltb kprint_buff_len (length (out ++ (0 ∷ []))) ≡ false =
      ground (arith, length-append out (0 ∷ []), short) in
    let seen : show (some (counted ds, out ++ (0 ∷ []))) c
        ≡ some (counted ds, console_write_string out c) =
      rw (held, before_nul-AllNonzero out nonzero) refl in
    ap (λ r. show r c) run ∙ seen

-- The same with the format, the arguments, the text and the count as they are written elsewhere.
pub kprintf-shows :
    (ds : List Piece) (more : List Arg) (c : Console) {fmt : List ℕ} {args : List Arg}
    {out : List ℕ} {n : ℕ}
    → format ds ≡ fmt
    → arguments ds more ≡ args
    → rendered ds first_padding ≡ out
    → counted ds ≡ n
    → ArePieces ds
    → n + 1 < kprint_buff_len
    → length out < kprint_buff_len
    → AllNonzero out
    → kprintf fmt args c ≡ some (n, console_write_string out c)
kprintf-shows ds more c ef ea eo en good fits short nonzero =
    rw (sym ef, sym ea, sym eo, sym en)
      (kprintf-pieces ds more c good (omega (arith, en, fits)) (omega (arith, ap length eo, short))
        (subst AllNonzero (sym eo) nonzero))
