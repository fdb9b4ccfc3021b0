-- ===== src/Paging/Map/Tests.antt =====
-- Two pages that lie in two tables, and the theorems of bootstrap_mmap in
-- arch/i686/paging_utils.c at them.
use mugo.Base.{
  ℕ, zero, suc, ◌+◌, ◌*◌, ◌%◌, ◌^◌, ◌⊎◌, ◌↔◌, ◌<◌, ◌≤◌, ◌≡◌, ◌≢◌, refl, some, [], ◌==◌,
  if◌then◌else◌, arith,
}
use mugo.Paging.{pt_offset, page, page_size, pd_offset}
use mugo.Paging.Map.{
  pages_per_table, Words, Space, entry, bootstrap_mmap, no_page_tables, page_flags,
}
use mugo.Paging.Map.Count.{no_page_tables_iff, tables_needed, tables_ready}
use mugo.Paging.Map.Walk.{IsFree, walk, slot, dir_slot, bootstrap_mmap-walk}

-- The directory at 0x1000 has tables at 0x2000 and 0x3000.
abbrev two_tables : Words
two_tables k = if k == 0x1000 then 0x2003 else (if k == 0x1004 then 0x3003 else 0)

abbrev space : Space
space = record {
  words = two_tables;
  kinfo = record {
    memmap_addr = 0x200000;
    memmap_len = 0x100000;
    modules = [];
    kernel_high_vma = 0xC0000000;
    range_start = 0;
    range_end = 0;
  };
}

-- The last page of the first table and the first of the second, with frames from 0x800000 on.
abbrev last_page : ℕ
last_page = 0x3FF000

two_free : (j : ℕ) → j < 2 → walk 0x1000 (last_page + j * page_size) two_tables ≡ 0
two_free zero lt = refl
two_free (suc zero) lt = refl
two_free (suc (suc j)) lt = absurd (omega arith)

two_slots : (j : ℕ) → j < 2 → slot 0x1000 (last_page + j * page_size) two_tables ≡ 0x2FFC + j * 4
two_slots zero lt = refl
two_slots (suc zero) lt = refl
two_slots (suc (suc j)) lt = absurd (omega arith)

two_dirs : (j : ℕ) → j < 2 → dir_slot 0x1000 (last_page + j * page_size) ≡ 0x1000 + j * 4
two_dirs zero lt = refl
two_dirs (suc zero) lt = refl
two_dirs (suc (suc j)) lt = absurd (omega arith)

two-IsFree : IsFree 3 0x1000 0x800000 last_page 2 two_tables
two-IsFree = record {
  free = two_free;
  apart = λ i j lt lt' e. absurd (ground (arith, two_dirs i lt, two_slots j lt'));
  distinct = λ i j lt lt' e. ground (arith, two_slots i lt, two_slots j lt');
}

two_there :
    (k : ℕ)
    → pd_offset last_page ≤ k
    → k
      < pd_offset last_page
        + no_page_tables last_page
            (2 * page_size)
            (page (two_tables (entry 0x1000 (pd_offset last_page))))
    → two_tables (entry 0x1000 k) ≢ 0
unfolding no_page_tables
two_there zero le lt e = absurd (omega arith)
two_there (suc k) le lt e = absurd (omega arith)

bootstrap_mmap-walk_example :
    (s' : Space) × (bootstrap_mmap 0 0x1000 0x800000 last_page (2 * page_size) 3 space ≡ some s')
    × (walk 0x1000 (last_page + 1 * page_size) s'.words
        ≡ page ((0x800000 + 1 * page_size) % 2 ^ 32) + page_flags 3)
    × (s'.words 0x1000 ≡ 0x2003)
bootstrap_mmap-walk_example =
    bootstrap_mmap-walk 0 0x1000 0x800000 last_page 2 3 1 0x1000 space (omega arith) (omega arith)
      two-IsFree two_there (omega arith) (λ i lt e. absurd (ground (arith, two_slots i lt)))

abbrev first_table : ℕ
first_table = 0x2000

no_page_tables_iff_example :
    (tables_needed 0x3E8000 1124 ≤ tables_ready 0x3E8000 1124 first_table)
    ↔ ((first_table ≡ 0) ⊎ (pt_offset 0x3E8000 + 1124 % pages_per_table ≤ pages_per_table))
no_page_tables_iff_example = no_page_tables_iff 0x3E8000 1124 first_table (omega arith)
