-- ===== src/Printf/Panic.antt =====
-- What panic of kern/util.c and arch_panic_hook of arch/i686/panic.c show.
use mugo.Base.{
  ℕ, zero, suc, ◌+◌, ◌^◌, ◌≤◌, ◌<◌, ◌≡◌, refl, sym, ap, ◌∙◌, some, List, [], ◌∷◌, ◌++◌, length,
  length-append, arith,
}
use mugo.Printf.{word, text}
use mugo.Printf.Value.{AllNonzero, append-AllNonzero}
use mugo.Printf.Pieces.{Piece, literal, string}
use mugo.Printf.Shown.{kprintf-shows}
use mugo.Printf.Log.{plain, plain_ok-AllNonzero, plain-ArePieces}
use mugo.Printf.Kernel.{
  kprintf, print_callers, stack_trace, Registers, fmt_string, arch_panic_hook, panic,
}
use mugo.Vga.{Console, console_write_string}
use mugo.Printf.Hex.{
  width8, hex_line, hex_line-append, hex_line-AllNonzero, length-hex_line, word_line,
  word_line-ArePieces,
}

abbrev pub banner : List ℕ
banner = b'!' ∷ b'!' ∷ b'!' ∷ b'P' ∷ b'A' ∷ b'N' ∷ b'I' ∷ b'C' ∷ b'!' ∷ b'!' ∷ b'!' ∷ 10 ∷ []

abbrev pub trace : List ℕ
trace = b'S' ∷ b't' ∷ b'a' ∷ b'c' ∷ b'k' ∷ b' ' ∷ b't' ∷ b'r' ∷ b'a' ∷ b'c' ∷ b'e' ∷ b':' ∷ 10 ∷ []

console_write_string-nil : (c : Console) → console_write_string [] c ≡ c
unfolding console_write_string
console_write_string-nil c = refl

console_write_string-append :
    (xs ys : List ℕ) (c : Console)
    → console_write_string (xs ++ ys) c ≡ console_write_string ys (console_write_string xs c)
unfolding console_write_string
console_write_string-append [] ys c = refl
console_write_string-append (x ∷ xs) ys c = console_write_string-append xs ys _

-- The lines of the callers, the outermost first.
abbrev pub callers_text : (no_callers : ℕ) (saved_eips : ℕ → ℕ) → List ℕ
callers_text zero saved_eips = []
callers_text (suc i) saved_eips =
    hex_line (b'0' ∷ b'x' ∷ []) (saved_eips i) (callers_text i saved_eips)

-- A word that is printed: eight digits behind "0x".
hex_word :
    (n : ℕ) (c : Console)
    → n < 2 ^ 32
    → kprintf (b'0' ∷ b'x' ∷ b'%' ∷ b'0' ∷ b'8' ∷ b'x' ∷ 10 ∷ []) (word n ∷ []) c
      ≡ some (3, console_write_string (hex_line (b'0' ∷ b'x' ∷ []) n []) c)
hex_word n c small =
    let label : List ℕ = b'0' ∷ b'x' ∷ [] in
    kprintf-shows (word_line label n []) [] c refl refl (rw width8 refl) (omega arith)
      (word_line-ArePieces label n [] refl small tt) (omega arith)
      (omega (arith, length-hex_line label n [] small))
      (hex_line-AllNonzero label n [] refl small tt)

callers-print :
    (k : ℕ) (saved_eips : ℕ → ℕ) (c : Console)
    → ((i : ℕ) → i < k → saved_eips i < 2 ^ 32)
    → print_callers k saved_eips c ≡ some (console_write_string (callers_text k saved_eips) c)
unfolding print_callers
callers-print zero saved_eips c small = ap some (sym (console_write_string-nil c))
callers-print (suc k) saved_eips c small =
    let line = hex_line (b'0' ∷ b'x' ∷ []) (saved_eips k) [] in
    let more = callers_text k saved_eips in
    let rest =
      callers-print k saved_eips (console_write_string line c) (λ i lt. small i (omega arith)) in
    let both : console_write_string more (console_write_string line c)
        ≡ console_write_string (hex_line (b'0' ∷ b'x' ∷ []) (saved_eips k) more) c =
      sym (console_write_string-append line more c)
      ∙ ap (λ l. console_write_string l c)
          (hex_line-append (b'0' ∷ b'x' ∷ []) (saved_eips k) more) in
    rw (hex_word (saved_eips k) c (small k (omega arith)), print_callers) (rest ∙ ap some both)

abbrev pub registers_text : Registers → List ℕ
registers_text r = hex_line (b'c' ∷ b'r' ∷ b'0' ∷ b':' ∷ b' ' ∷ b'0' ∷ b'x' ∷ []) r.cr0 (
    hex_line (b'c' ∷ b'r' ∷ b'2' ∷ b':' ∷ b' ' ∷ b'0' ∷ b'x' ∷ []) r.cr2 (
      hex_line (b'c' ∷ b'r' ∷ b'3' ∷ b':' ∷ b' ' ∷ b'0' ∷ b'x' ∷ []) r.cr3
        (hex_line (b'c' ∷ b'r' ∷ b'4' ∷ b':' ∷ b' ' ∷ b'0' ∷ b'x' ∷ []) r.cr4 [])))

-- What stands on the screen behind a panic.
abbrev pub panic_text : (msg : List ℕ) → Registers → (no_callers : ℕ) (saved_eips : ℕ → ℕ) → List ℕ
panic_text msg r no_callers saved_eips =
    (banner ++ (msg ++ (10 ∷ [])))
    ++ (registers_text r ++ (trace ++ callers_text no_callers saved_eips))

pub record AreWords (r : Registers) : Type 0 where
  pub cr0_lt : r.cr0 < 2 ^ 32
  pub cr2_lt : r.cr2 < 2 ^ 32
  pub cr3_lt : r.cr3 < 2 ^ 32
  pub cr4_lt : r.cr4 < 2 ^ 32

msg_shown :
    (msg : List ℕ) (c : Console)
    → AllNonzero msg
    → length msg ≤ 1000
    → kprintf
        (b'!' ∷ b'!' ∷ b'!' ∷ b'P' ∷ b'A' ∷ b'N' ∷ b'I' ∷ b'C' ∷ b'!' ∷ b'!' ∷ b'!' ∷ 10 ∷ b'%'
          ∷ b's' ∷ 10 ∷ [])
        (text msg ∷ [])
        c
      ≡ some (length msg + 13, console_write_string (banner ++ (msg ++ (10 ∷ []))) c)
msg_shown msg c nonzero short =
    let ds : List Piece = string msg ∷ literal 10 ∷ [] in
    kprintf-shows (plain banner ds) [] c refl refl refl (omega arith)
      (plain-ArePieces banner ds refl (tt, (omega arith, tt))) (omega arith)
      (omega (arith, length-append msg (10 ∷ [])))
      (append-AllNonzero banner (msg ++ (10 ∷ [])) (plain_ok-AllNonzero banner refl)
        (append-AllNonzero msg (10 ∷ []) nonzero (omega arith, tt)))

registers_shown :
    (r : Registers) (c : Console)
    → AreWords r
    → kprintf fmt_string (word r.cr0 ∷ word r.cr2 ∷ word r.cr3 ∷ word r.cr4 ∷ []) c
      ≡ some (32, console_write_string (registers_text r) c)
registers_shown r c words =
    let l0 : List ℕ = (b'c' ∷ b'r' ∷ b'0' ∷ b':' ∷ b' ' ∷ b'0' ∷ b'x' ∷ []) in
    let l2 : List ℕ = (b'c' ∷ b'r' ∷ b'2' ∷ b':' ∷ b' ' ∷ b'0' ∷ b'x' ∷ []) in
    let l3 : List ℕ = (b'c' ∷ b'r' ∷ b'3' ∷ b':' ∷ b' ' ∷ b'0' ∷ b'x' ∷ []) in
    let l4 : List ℕ = (b'c' ∷ b'r' ∷ b'4' ∷ b':' ∷ b' ' ∷ b'0' ∷ b'x' ∷ []) in
    let d4 = word_line l4 r.cr4 [] in
    let d3 = word_line l3 r.cr3 d4 in
    let d2 = word_line l2 r.cr2 d3 in
    let t4 = hex_line l4 r.cr4 [] in
    let t3 = hex_line l3 r.cr3 t4 in
    let t2 = hex_line l2 r.cr2 t3 in
    kprintf-shows (word_line l0 r.cr0 d2) [] c refl refl (rw width8 refl) (omega arith)
      (word_line-ArePieces l0 r.cr0 d2 refl words.cr0_lt (
        word_line-ArePieces l2 r.cr2 d3 refl words.cr2_lt (
          word_line-ArePieces l3 r.cr3 d4 refl words.cr3_lt
            (word_line-ArePieces l4 r.cr4 [] refl words.cr4_lt tt))))
      (omega arith)
      (omega (
        arith,
        length-hex_line l0 r.cr0 t2 words.cr0_lt,
        length-hex_line l2 r.cr2 t3 words.cr2_lt,
        length-hex_line l3 r.cr3 t4 words.cr3_lt,
        length-hex_line l4 r.cr4 [] words.cr4_lt,
      ))
      (hex_line-AllNonzero l0 r.cr0 t2 refl words.cr0_lt (
        hex_line-AllNonzero l2 r.cr2 t3 refl words.cr2_lt (
          hex_line-AllNonzero l3 r.cr3 t4 refl words.cr3_lt
            (hex_line-AllNonzero l4 r.cr4 [] refl words.cr4_lt tt))))

trace_shown : (c : Console) → kprintf trace [] c ≡ some (13, console_write_string trace c)
trace_shown c =
    kprintf-shows (plain trace []) [] c refl refl refl (omega arith)
      (plain-ArePieces trace [] refl tt) (omega arith) (omega arith)
      (plain_ok-AllNonzero trace refl)

stack_trace-print :
    (k : ℕ) (saved_eips : ℕ → ℕ) (c : Console)
    → ((i : ℕ) → i < k → saved_eips i < 2 ^ 32)
    → stack_trace k saved_eips c
      ≡ some (console_write_string (trace ++ callers_text k saved_eips) c)
unfolding stack_trace
stack_trace-print k saved_eips c small =
    rw (trace_shown c, stack_trace)
      (callers-print k saved_eips (console_write_string trace c) small
        ∙ ap some (sym (console_write_string-append trace (callers_text k saved_eips) c)))

arch_panic_hook-print :
    (r : Registers) (k : ℕ) (saved_eips : ℕ → ℕ) (c : Console)
    → AreWords r
    → ((i : ℕ) → i < k → saved_eips i < 2 ^ 32)
    → arch_panic_hook r k saved_eips c
      ≡ some (console_write_string (registers_text r ++ (trace ++ callers_text k saved_eips)) c)
unfolding arch_panic_hook
arch_panic_hook-print r k saved_eips c words small =
    let regs = registers_text r in
    rw (registers_shown r c words, arch_panic_hook)
      (stack_trace-print k saved_eips (console_write_string regs c) small
        ∙ ap some (sym (console_write_string-append regs (trace ++ callers_text k saved_eips) c)))

-- panic shows its message, the control registers and the callers, the outermost first, each word as
-- eight hexadecimal digits, where the message has no NUL and at most 1000 characters and the words
-- are of 32 bits.
pub panic-panic_text :
    (msg : List ℕ) (r : Registers) (k : ℕ) (saved_eips : ℕ → ℕ) (c : Console)
    → AllNonzero msg
    → length msg ≤ 1000
    → AreWords r
    → ((i : ℕ) → i < k → saved_eips i < 2 ^ 32)
    → panic msg r k saved_eips c ≡ some (console_write_string (panic_text msg r k saved_eips) c)
unfolding panic
panic-panic_text msg r k saved_eips c nonzero short words small =
    let shown : List ℕ = banner ++ (msg ++ (10 ∷ [])) in
    let rest = registers_text r ++ (trace ++ callers_text k saved_eips) in
    rw (msg_shown msg c nonzero short, panic)
      (arch_panic_hook-print r k saved_eips (console_write_string shown c) words small
        ∙ ap some (sym (console_write_string-append shown rest c)))
