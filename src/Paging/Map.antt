-- ===== src/Paging/Map.antt =====
-- bootstrap_mmap of arch/i686/paging_utils.c, with its callers. The tables that it fills are
-- reached through the memory, here of 32-bit words by address, which is mapped to itself.
pub mod Count
pub mod Flags
mod Tests
pub mod Walk
use Prim.Native.Nat.{bit_and, bit_or}
use mugo.Base.{
  ℕ, zero, suc, ◌+◌, ◌-◌, ◌*◌, ◌/◌, ◌%◌, ◌^◌, Bool, ◌&&◌, Option, none, some, ltb, leb, ◌==◌,
  if◌then◌else◌,
}
use mugo.Paging.{
  KernelInfo, page, page_size, pt_offset, pd_offset, present_rw, bootstrap_fetch_page,
}

abbrev pub Words : Type 0
Words = ℕ → ℕ

pub record Space : Type 0 where
  pub words : Words
  pub kinfo : KernelInfo

abbrev pub set_word : ℕ → ℕ → Words → Words
set_word a v w k = if k == a then v else w k

-- `memset((void*)pt, 0, ARCH_PAGE_SIZE)`
abbrev pub zero_page : ℕ → Words → Words
zero_page pt w k = if leb pt k && ltb k (pt + page_size) then 0 else w k

-- `&table->entries[i]`
abbrev pub entry : ℕ → ℕ → ℕ
entry table i = table + 4 * i

abbrev pub pages_per_table : ℕ
pages_per_table = 1024

-- KMAP_PROT_NONE and its kin
abbrev pub kmap_prot_none : ℕ
kmap_prot_none = 0

abbrev pub kmap_prot_read : ℕ
kmap_prot_read = 1

abbrev pub kmap_prot_write : ℕ
kmap_prot_write = 2

abbrev pub kmap_prot_user : ℕ
kmap_prot_user = 4

abbrev pub kmap_prot_exec : ℕ
kmap_prot_exec = 8

-- `pg_flags`, built from ARCH_PAGE_PRESENT (1), ARCH_PAGE_RW (2) and ARCH_PAGE_ENTRY_USER (4). A
-- comparison of C is 0 or 1; the bits differ, so `|=` is a sum.
abbrev pub flag : ℕ → ℕ → ℕ
flag flags prot = if bit_and flags prot == 0 then 0 else 1

unfoldable pub page_flags : ℕ → ℕ
page_flags flags =
    if bit_and flags kmap_prot_read == 0 && (bit_and flags kmap_prot_write == 0)
    then 0
    else (if flags == kmap_prot_none
        then 0
        else 1 + 2 * flag flags kmap_prot_write + 4 * flag flags kmap_prot_user)

-- How many tables it makes sure of.
unfoldable pub no_page_tables : (vaddr size current_pt : ℕ) → ℕ
no_page_tables vaddr size current_pt =
    size / (pages_per_table * page_size)
    + (if ltb pages_per_table (pt_offset vaddr + size / page_size) then 1 else 0)
    + (if current_pt == 0 then 1 else 0)

-- The loop that preallocates them, for `left` entries of the directory from the `i`-th on, and its
-- body. `user` is ARCH_PD_ENTRY_USER or 0. none is the panic.
unfoldable pub alloc_table : (user pd i : ℕ) → Space → Option Space
alloc_table user pd i s =
    let (pt, kinfo) = bootstrap_fetch_page s.kinfo in
    if s.words (entry pd i) == 0
    then (if pt == 0
        then none
        else some record {
          words = set_word (entry pd i) (page pt + present_rw + user) (zero_page pt s.words);
          kinfo = kinfo;
        })
    else some s

unfoldable pub alloc_tables : (user pd left i : ℕ) → Space → Option Space
alloc_tables user pd zero i s = some s
alloc_tables user pd (suc left) i s = elim (alloc_table user pd i s) [
  | none ↦ none
  | some s1 ↦ alloc_tables user pd left (i + 1) s1
]

-- The frame for an entry: the one that is mapped, a new one for PAGE_ALLOCATE, or the given one.
abbrev pub frame_for : (old paddr offset : ℕ) → KernelInfo → ℕ × KernelInfo
frame_for old paddr offset kinfo =
    if old == 0
    then (if paddr == 0 then bootstrap_fetch_page kinfo else ((paddr + offset) % 2 ^ 32, kinfo))
    else (page old, kinfo)

-- The body of the loop over the pages at `offset`, with `pd_off` and `current_pt` as the last round
-- left them. It gives the new `current_pt`.
unfoldable pub map_page : (pg_flags pd paddr vaddr offset pd_off current_pt : ℕ) → Space → ℕ × Space
map_page pg_flags pd paddr vaddr offset pd_off current_pt s =
    let v = (vaddr + offset) % 2 ^ 32 in
    let table =
      if pd_off == pd_offset v then current_pt else page (s.words (entry pd (pd_offset v))) in
    let at = entry table (pt_offset v) in
    let (frame_addr, kinfo) = frame_for (s.words at) paddr offset s.kinfo in
    (table, record { words = set_word at (page frame_addr + pg_flags) s.words; kinfo = kinfo })

-- The loop, for `left` pages from `offset` on.
unfoldable pub map_pages :
    (pg_flags pd paddr vaddr left offset pd_off current_pt : ℕ) → Space → Space
map_pages pg_flags pd paddr vaddr zero offset pd_off current_pt s = s
map_pages pg_flags pd paddr vaddr (suc left) offset pd_off current_pt s =
    let (table, s1) = map_page pg_flags pd paddr vaddr offset pd_off current_pt s in
    map_pages pg_flags pd paddr vaddr left (offset + page_size)
      (pd_offset ((vaddr + offset) % 2 ^ 32)) table s1

-- `pd` is `info->page_directory`; the ASSERTs are empty without DEBUG.
unfoldable pub bootstrap_mmap : (user pd paddr vaddr size flags : ℕ) → Space → Option Space
bootstrap_mmap user pd paddr vaddr size flags s =
    let pd_off = pd_offset vaddr in
    let no = no_page_tables vaddr size (page (s.words (entry pd pd_off))) in
    elim (alloc_tables user pd no pd_off s) [
      | none ↦ none
      | some s1 ↦ some (
          map_pages (page_flags flags) pd paddr vaddr ((size + (page_size - 1)) / page_size) 0
            pd_off (page (s1.words (entry pd pd_off))) s1)
    ]

-- The flags of bootstrap_elf_mmap from those of a segment: PF_X is 1, PF_W 2, PF_R 4.
unfoldable pub elf_flags : ℕ → ℕ
elf_flags flags =
    kmap_prot_exec * flag flags 1
    + kmap_prot_read * flag flags 4
    + kmap_prot_write * flag flags 2
    + kmap_prot_user

-- For a process, whose entries carry ARCH_PD_ENTRY_USER.
unfoldable pub bootstrap_elf_mmap : (pd paddr vaddr size flags : ℕ) → Space → Option Space
bootstrap_elf_mmap pd paddr vaddr size flags =
    bootstrap_mmap 4 pd paddr vaddr size (elf_flags flags)

-- `pd` is the address of page_directory, which k_exec_info holds.
unfoldable pub kmap : (pd vaddr paddr size flags : ℕ) → Space → Option Space
kmap pd vaddr paddr size flags = bootstrap_mmap 0 pd paddr vaddr size flags
