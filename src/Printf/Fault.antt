-- ===== src/Printf/Fault.antt =====
-- The report of a page fault in kern/kmem.c.
use mugo.Base.{
  ℕ, ◌≤◌, ◌≡◌, ◌≢◌, refl, some, List, [], ◌∷◌, length, Bool, true, false, arith, ◌==◌,
  if◌then◌else◌,
}
use mugo.Printf.{word}
use mugo.Printf.Value.{AllNonzero}
use mugo.Printf.Log.{log_text, log-log_text}
use mugo.Printf.Kernel.{fault_fmt, cause_fmt, error_level, report_cause, report_page_fault}
use mugo.Vga.{Console, console_write_string}

abbrev nonzero_ok : List ℕ → Bool
nonzero_ok [] = true
nonzero_ok (c ∷ cs) = if c == 0 then false else nonzero_ok cs

nonzero_ok-AllNonzero : (cs : List ℕ) → nonzero_ok cs ≡ true → AllNonzero cs
nonzero_ok-AllNonzero [] ok = tt
nonzero_ok-AllNonzero (c ∷ cs) ok =
    let here : c ≢ 0 = ground (arith, ok) in
    let rest : nonzero_ok cs ≡ true = ground (arith, ok) in (here, nonzero_ok-AllNonzero cs rest)

report_cause-log_text :
    (file : List ℕ) (err_code : ℕ) (c : Console)
    → AllNonzero file
    → length file ≤ 900
    → report_cause file err_code c
      ≡ some (console_write_string (log_text error_level file 44 cause_fmt) c)
unfolding report_cause
report_cause-log_text file err_code c nonzero short =
    rw
      (
        log-log_text error_level file 44 cause_fmt _ c refl nonzero (omega arith)
            (nonzero_ok-AllNonzero cause_fmt refl) (omega (arith, short)),
        report_cause,
      )
      refl

-- It shows its two formats as they are, whatever the address and the error code are.
report_page_fault-log_text :
    (file : List ℕ) (faulting_address err_code : ℕ) (c : Console)
    → AllNonzero file
    → length file ≤ 900
    → report_page_fault file faulting_address err_code c
      ≡ some (
          console_write_string
            (log_text error_level file 44 cause_fmt)
            (console_write_string (log_text error_level file 43 fault_fmt) c))
unfolding report_page_fault
report_page_fault-log_text file faulting_address err_code c nonzero short =
    rw
      (
        log-log_text error_level file 43 fault_fmt (word faulting_address ∷ []) c refl nonzero
            (omega arith) (nonzero_ok-AllNonzero fault_fmt refl) (omega (arith, short)),
        report_page_fault,
      )
      (report_cause-log_text file err_code
        (console_write_string (log_text error_level file 43 fault_fmt) c) nonzero short)
