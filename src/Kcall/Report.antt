-- ===== src/Kcall/Report.antt =====
-- What the call meminfo of kern/kcall.c reports, and to whom.
use mugo.Base.{
  ℕ, ◌+◌, ◌*◌, ◌%◌, ◌^◌, ◌≤◌, ◌<◌, ◌≡◌, ◌≢◌, refl, ◌∙◌, ◌⊎◌, inl, inr, List, [], ◌∷◌, length, true,
  ltb, arith,
}
use mugo.Kcall.{
  Words, proc_mman_pid, no_mem_regions, KcallFrame, Memmap, report, meminfo, kcall_handler,
}

-- The regions that stand in memory from `region` on.
abbrev pub Reported : List Memmap → ℕ → Words → Type 0
Reported [] region w = Unit
Reported (m ∷ ms) region w =
    (w region ≡ m.addr % 2 ^ 32) × (w (region + 4) ≡ m.len % 2 ^ 32) × Reported ms (region + 8) w

report_outside :
    (ms : List Memmap) (region : ℕ) (w : Words) (a : ℕ)
    → (a < region) ⊎ (region + length ms * 8 ≤ a)
    → report ms region w a ≡ w a
unfolding report
report_outside [] region w a out = refl
report_outside (m ∷ ms) region w a out =
    let later : (a < region + 8) ⊎ (region + 8 + length ms * 8 ≤ a) = ground arith in
    report_outside ms (region + 8) _ a later ∙ ground arith

report-Reported :
    (ms : List Memmap) (region : ℕ) (w : Words) → Reported ms region (report ms region w)
unfolding report
report-Reported [] region w = tt
report-Reported (m ∷ ms) region w = (
  report_outside ms (region + 8) _ region (inl (omega arith)) ∙ ground arith,
  report_outside ms (region + 8) _ (region + 4) (inl (omega arith)) ∙ ground arith,
  report-Reported ms (region + 8) _,
)

-- The call of number 1 by a thread of the memory server, with a pointer below the kernel, returns 0
-- and leaves the memory maps, of at most NO_MEM_REGIONS, and their count there.
pub handler-Reported :
    (log : ℕ → ℕ) (k_high_vma : ℕ) (memmaps : List Memmap) (frame : KcallFrame) (w : Words)
    → frame.kcall_number ≡ 1
    → frame.arg < k_high_vma
    → length memmaps ≤ no_mem_regions
    → let (ret, w') = kcall_handler log k_high_vma proc_mman_pid memmaps frame w in
      (ret ≡ 0)
      × Reported memmaps frame.arg w'
      × (w' (frame.arg + no_mem_regions * 8) ≡ length memmaps)
unfolding kcall_handler meminfo
handler-Reported log k_high_vma memmaps frame w number below few =
    let user : ltb frame.arg k_high_vma ≡ true = ground arith in
    rw (number, user)
      (
        refl,
        report-Reported memmaps frame.arg _,
        report_outside memmaps frame.arg _ (frame.arg + no_mem_regions * 8) (inr (omega arith))
            ∙ ground arith,
      )

-- Any call by another process, and any with a pointer into the kernel, leaves the memory alone.
pub handler-refused :
    (log : ℕ → ℕ) (k_high_vma proc_id : ℕ) (memmaps : List Memmap) (frame : KcallFrame) (w : Words)
    → (proc_id ≢ proc_mman_pid) ⊎ (k_high_vma ≤ frame.arg)
    → (kcall_handler log k_high_vma proc_id memmaps frame w).1 ≡ w
unfolding kcall_handler meminfo
handler-refused log k_high_vma proc_id memmaps frame w refused = ground arith
