-- ===== src/Paging/Map/Count.antt =====
-- How many page tables bootstrap_mmap of arch/i686/paging_utils.c makes sure of.
use native.Mathlib.Decide.{ℕ_discrete, dec_le}
use mugo.Base.{
  inl, inr, ◌↔◌, ℕ, ◌+◌, ◌-◌, ◌*◌, ◌/◌, ◌%◌, ◌<◌, ◌≤◌, ◌≡◌, ◌⊎◌, ◌==◌, if◌then◌else◌, arith,
}
use mugo.Paging.{page_size, pt_offset}
use mugo.Paging.Map.{no_page_tables, pages_per_table}

-- The tables that `n` pages from `vaddr` on lie in.
abbrev pub tables_needed : (vaddr n : ℕ) → ℕ
tables_needed vaddr n = (pt_offset vaddr + n + (pages_per_table - 1)) / pages_per_table

-- The tables that are there after the preallocation: the first was, or is among the new ones.
abbrev pub tables_ready : (vaddr n current_pt : ℕ) → ℕ
tables_ready vaddr n current_pt =
    let no = no_page_tables vaddr (n * page_size) current_pt in
    if current_pt == 0 then no else (if no == 0 then 1 else no)

-- The preallocation reaches every table that a mapping of `n` pages needs exactly when the first
-- table is missing, or the pages past the last whole table fit into the first table behind the
-- first page.
pub no_page_tables_iff :
    (vaddr n current_pt : ℕ)
    → 0 < n
    → (tables_needed vaddr n ≤ tables_ready vaddr n current_pt)
      ↔ ((current_pt ≡ 0) ⊎ (pt_offset vaddr + n % pages_per_table ≤ pages_per_table))
unfolding no_page_tables
no_page_tables_iff vaddr n current_pt pos = (
  λ enough. elim (ℕ_discrete current_pt 0) [
    | yes missing ↦ inl missing
    | no there ↦ inr (elim (dec_le (pt_offset vaddr + n % pages_per_table) pages_per_table) [
      | yes fits ↦ fits
      | no over ↦ absurd (ground arith)
    ])
  ],
  λ fits. ground arith,
)
