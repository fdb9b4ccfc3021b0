-- ===== src/Printf/Kernel.antt =====
-- kprintf of kern/kprint.c, the macro of kern/log.h, panic of kern/util.c and what it calls of
-- arch/i686/panic.c. What arch_stack_walk of arch/i686/trace.asm leaves is an argument. none is a
-- write behind the buffer of kprintf, or as in vsprintf_s.
use Prim.Native.Nat.{bit_and}
use mugo.Base.{
  ℕ, zero, suc, Option, none, some, List, [], ◌∷◌, ◌++◌, length, ltb, ◌==◌, if◌then◌else◌,
}
use mugo.Printf.{Arg, word, text, vsprintf_s}
use mugo.Vga.{Console, console_write_string}

abbrev pub kprint_buff_len : ℕ
kprint_buff_len = 1024

-- What console_write_string reads of the buffer.
abbrev pub before_nul : List ℕ → List ℕ
before_nul [] = []
before_nul (c ∷ cs) = if c == 0 then [] else c ∷ before_nul cs

abbrev pub show : Option (ℕ × List ℕ) → Console → Option (ℕ × Console)
show none c = none
show (some (print_size, buff)) c =
    if ltb kprint_buff_len (length buff)
    then none
    else some (print_size, console_write_string (before_nul buff) c)

unfoldable pub kprintf : (fmt : List ℕ) (args : List Arg) → Console → Option (ℕ × Console)
kprintf fmt args c = show (vsprintf_s kprint_buff_len fmt args) c

-- The macro: the format is itself the argument of the last `%s`, and the other arguments follow it.
unfoldable pub log :
    (level file : List ℕ) (line : ℕ) (format : List ℕ) (args : List Arg)
    → Console
    → Option (ℕ × Console)
log level file line format args c =
    kprintf
      (b'['
        ∷ (level
            ++ (b':' ∷ b'%' ∷ b's' ∷ b':' ∷ b'%' ∷ b'd' ∷ b']' ∷ b' ' ∷ b'%' ∷ b's' ∷ 10 ∷ [])))
      (text file ∷ word line ∷ text format ∷ args) c

-- `for (i = no_callers; i > 0; i--)`
unfoldable pub print_callers : (no_callers : ℕ) (saved_eips : ℕ → ℕ) → Console → Option Console
print_callers zero saved_eips c = some c
print_callers (suc i) saved_eips c =
    elim (kprintf (b'0' ∷ b'x' ∷ b'%' ∷ b'0' ∷ b'8' ∷ b'x' ∷ 10 ∷ []) (word (saved_eips i) ∷ [])
      c) [ none ↦ none | some (n, c1) ↦ print_callers i saved_eips c1 ]

unfoldable pub stack_trace : (no_callers : ℕ) (saved_eips : ℕ → ℕ) → Console → Option Console
stack_trace no_callers saved_eips c =
    elim (kprintf
      (b'S' ∷ b't' ∷ b'a' ∷ b'c' ∷ b'k' ∷ b' ' ∷ b't' ∷ b'r' ∷ b'a' ∷ b'c' ∷ b'e' ∷ b':' ∷ 10 ∷ [])
      [] c) [ none ↦ none | some (n, c1) ↦ print_callers no_callers saved_eips c1 ]

-- The control registers that are shown.
pub record Registers : Type 0 where
  pub cr0 : ℕ
  pub cr2 : ℕ
  pub cr3 : ℕ
  pub cr4 : ℕ

abbrev pub fmt_string : List ℕ
fmt_string =
    b'c' ∷ b'r' ∷ b'0' ∷ b':' ∷ b' ' ∷ b'0' ∷ b'x' ∷ b'%' ∷ b'0' ∷ b'8' ∷ b'x' ∷ 10 ∷ b'c' ∷ b'r'
    ∷ b'2' ∷ b':' ∷ b' ' ∷ b'0' ∷ b'x' ∷ b'%' ∷ b'0' ∷ b'8' ∷ b'x' ∷ 10 ∷ b'c' ∷ b'r' ∷ b'3' ∷ b':'
    ∷ b' ' ∷ b'0' ∷ b'x' ∷ b'%' ∷ b'0' ∷ b'8' ∷ b'x' ∷ 10 ∷ b'c' ∷ b'r' ∷ b'4' ∷ b':' ∷ b' ' ∷ b'0'
    ∷ b'x' ∷ b'%' ∷ b'0' ∷ b'8' ∷ b'x' ∷ 10 ∷ []

unfoldable pub arch_panic_hook :
    Registers → (no_callers : ℕ) (saved_eips : ℕ → ℕ) → Console → Option Console
arch_panic_hook r no_callers saved_eips c =
    elim (kprintf fmt_string (word r.cr0 ∷ word r.cr2 ∷ word r.cr3 ∷ word r.cr4 ∷ []) c) [
      | none ↦ none
      | some (n, c1) ↦ stack_trace no_callers saved_eips c1
    ]

-- What the screen shows when the machine halts.
unfoldable pub panic :
    (msg : List ℕ) → Registers → (no_callers : ℕ) (saved_eips : ℕ → ℕ) → Console → Option Console
panic msg r no_callers saved_eips c =
    elim (kprintf
      (b'!' ∷ b'!' ∷ b'!' ∷ b'P' ∷ b'A' ∷ b'N' ∷ b'I' ∷ b'C' ∷ b'!' ∷ b'!' ∷ b'!' ∷ 10 ∷ b'%' ∷ b's'
        ∷ 10 ∷ [])
      (text msg ∷ []) c) [ none ↦ none | some (n, c1) ↦ arch_panic_hook r no_callers saved_eips c1 ]

-- What page_fault_handler of kern/kmem.c logs; `faulting_address` is the register CR2 and `file` is
-- __FILE__.
abbrev pub fault_fmt : List ℕ
fault_fmt =
    b'P' ∷ b'a' ∷ b'g' ∷ b'e' ∷ b' ' ∷ b'f' ∷ b'a' ∷ b'u' ∷ b'l' ∷ b't' ∷ b' ' ∷ b'a' ∷ b't' ∷ b' '
    ∷ b'0' ∷ b'x' ∷ b'%' ∷ b'0' ∷ b'8' ∷ b'x' ∷ b'!' ∷ []

abbrev pub cause_fmt : List ℕ
cause_fmt =
    b'P' ∷ b'a' ∷ b'g' ∷ b'e' ∷ b' ' ∷ b'n' ∷ b'o' ∷ b't' ∷ b' ' ∷ b'p' ∷ b'r' ∷ b'e' ∷ b's' ∷ b'e'
    ∷ b'n' ∷ b't' ∷ b':' ∷ b' ' ∷ b'%' ∷ b'd' ∷ 10 ∷ b'R' ∷ b'O' ∷ b':' ∷ b' ' ∷ b'%' ∷ b'd' ∷ 10
    ∷ b'U' ∷ b's' ∷ b'e' ∷ b'r' ∷ b'-' ∷ b'm' ∷ b'o' ∷ b'd' ∷ b'e' ∷ b':' ∷ b' ' ∷ b'%' ∷ b'd' ∷ 10
    ∷ b'C' ∷ b'a' ∷ b'u' ∷ b's' ∷ b'e' ∷ b':' ∷ b' ' ∷ b'%' ∷ b's' ∷ []

abbrev pub error_level : List ℕ
error_level = b'E' ∷ b'R' ∷ b'R' ∷ b'O' ∷ b'R' ∷ []

abbrev pub cause : ℕ → Arg
cause id =
    if id == 0
    then text (
        b'D' ∷ b'i' ∷ b'r' ∷ b'e' ∷ b'c' ∷ b't' ∷ b' ' ∷ b'a' ∷ b'c' ∷ b'c' ∷ b'e' ∷ b's' ∷ b's'
        ∷ [])
    else text (
        b'I' ∷ b'n' ∷ b's' ∷ b't' ∷ b'r' ∷ b'u' ∷ b'c' ∷ b't' ∷ b'i' ∷ b'o' ∷ b'n' ∷ b' ' ∷ b'f'
        ∷ b'e' ∷ b't' ∷ b'c' ∷ b'h' ∷ [])

unfoldable pub report_cause : (file : List ℕ) (err_code : ℕ) → Console → Option Console
report_cause file err_code c =
    let present = if bit_and err_code 0x1 == 0 then 1 else 0 in
    let args =
      word present
      ∷ word (bit_and err_code 0x2)
      ∷ word (bit_and err_code 0x4)
      ∷ cause (bit_and err_code 0x10)
      ∷ [] in
    elim (log error_level file 44 cause_fmt args c) [ none ↦ none | some (n, c1) ↦ some c1 ]

unfoldable pub report_page_fault :
    (file : List ℕ) (faulting_address err_code : ℕ) → Console → Option Console
report_page_fault file faulting_address err_code c =
    elim (log error_level file 43 fault_fmt (word faulting_address ∷ []) c) [
      | none ↦ none
      | some (n, c1) ↦ report_cause file err_code c1
    ]
