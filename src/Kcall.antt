-- ===== src/Kcall.antt =====
-- kern/kcall.c, the calls that user code makes of the kernel, over the memory of 32-bit words that
-- it reports to. -1 is `2 ^ 32 - 1`.
pub mod Report
mod Tests
use mugo.Base.{
  ℕ, zero, suc, ◌+◌, ◌-◌, ◌*◌, ◌%◌, ◌^◌, List, [], ◌∷◌, Option, none, some, length, ltb, ◌==◌,
  if◌then◌else◌,
}

abbrev pub Words : Type 0
Words = ℕ → ℕ

abbrev pub set_word : ℕ → ℕ → Words → Words
set_word a v w k = if k == a then v else w k

abbrev pub minus_one : ℕ
minus_one = 2 ^ 32 - 1

abbrev pub no_kcalls : ℕ
no_kcalls = 1

abbrev pub proc_mman_pid : ℕ
proc_mman_pid = 1

-- The first word of `args`; both calls have one argument, a pointer.
pub record KcallFrame : Type 0 where
  pub kcall_number : ℕ
  pub arg : ℕ

-- An entry of `kinfo.memmaps`, of 64-bit fields.
pub record Memmap : Type 0 where
  pub addr : ℕ
  pub len : ℕ

-- struct sys_meminfo: NO_MEM_REGIONS regions of two words, then the count.
abbrev pub no_mem_regions : ℕ
no_mem_regions = 20

abbrev pub validate : (k_high_vma usr_ptr : ℕ) → ℕ
validate k_high_vma usr_ptr = if ltb usr_ptr k_high_vma then 1 else 0

-- The loop of meminfo over the rest of the maps.
unfoldable pub report : List Memmap → (region : ℕ) → Words → Words
report [] region w = w
report (m ∷ ms) region w =
    report ms (region + 8)
      (set_word (region + 4) (m.len % 2 ^ 32) (set_word region (m.addr % 2 ^ 32) w))

-- `proc_id` is `td->proc->id`.
unfoldable pub meminfo : (k_high_vma proc_id : ℕ) → List Memmap → (ptr : ℕ) → Words → ℕ × Words
meminfo k_high_vma proc_id memmaps ptr w =
    if validate k_high_vma ptr == 0
    then (minus_one, w)
    else (if proc_id == proc_mman_pid
        then (0, report memmaps ptr (set_word (ptr + no_mem_regions * 8) (length memmaps) w))
        else (minus_one, w))

-- `log` is what the kernel log returns for a message.
unfoldable pub debug : (log : ℕ → ℕ) → (k_high_vma msg : ℕ) → ℕ
debug log k_high_vma msg = if validate k_high_vma msg == 0 then minus_one else log msg

-- `kcall_table` has debug and meminfo.
unfoldable pub kcall_handler :
    (log : ℕ → ℕ) → (k_high_vma proc_id : ℕ) → List Memmap → KcallFrame → Words → ℕ × Words
kcall_handler log k_high_vma proc_id memmaps frame w =
    if ltb no_kcalls frame.kcall_number
    then (minus_one, w)
    else (if frame.kcall_number == 0
        then (debug log k_high_vma frame.arg, w)
        else meminfo k_high_vma proc_id memmaps frame.arg w)
