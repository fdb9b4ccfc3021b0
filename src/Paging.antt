-- ===== src/Paging.antt =====
-- arch/i686/paging_utils.c, the page tables that the kernel builds while it boots. A table is a
-- function from the index, which C does not check. On words of 32 bits, `& ARCH_PAGE_MASK` is
-- `page`, and the masks and shifts for the two offsets are quotients and remainders.
pub mod Identity
pub mod Map
mod Tests
use mugo.Base.{ℕ, zero, suc, ◌+◌, ◌-◌, ◌*◌, ◌/◌, ◌%◌, ◌^◌, List, [], ◌∷◌, ltb, ◌==◌, if◌then◌else◌}

abbrev pub Table : Type 0
Table = ℕ → ℕ

abbrev pub page_size : ℕ
page_size = 4096

abbrev pub page : ℕ → ℕ
page a = a / page_size * page_size

-- arch_get_pt_offset for ARCH_PD_0 and ARCH_PD_1.
abbrev pub pt_offset : ℕ → ℕ
pt_offset vaddr = vaddr / 2 ^ 12 % 2 ^ 10

abbrev pub pd_offset : ℕ → ℕ
pd_offset vaddr = vaddr / 2 ^ 22 % 2 ^ 10

-- struct boot_module, less the name and the virtual address.
pub record BootModule : Type 0 where
  pub start_paddr : ℕ
  pub end_paddr : ℕ

-- The parts of kernel_info_t that this file uses: the first memory map, the modules and
-- bootstrap_memory_phys_range.
pub record KernelInfo : Type 0 where
  pub memmap_addr : ℕ
  pub memmap_len : ℕ
  pub modules : List BootModule
  pub kernel_high_vma : ℕ
  pub range_start : ℕ
  pub range_end : ℕ

-- The static tables, and the physical address of the directory that is loaded.
pub record Tables : Type 0 where
  pub boot_page_directory : Table
  pub page_directory : Table
  pub bootstrap_pt : Table
  pub module_bootstrap_pt : Table
  pub loaded : ℕ

-- The addresses of those tables and of the kernel's.
pub record Addresses : Type 0 where
  pub boot_page_directory : ℕ
  pub page_directory : ℕ
  pub bootstrap_pt : ℕ
  pub module_bootstrap_pt : ℕ
  pub kernel_pt : ℕ
  pub k_high_vma : ℕ

-- ARCH_PAGE_PRESENT | ARCH_PAGE_RW, also as flags of a directory's entry. A page has no low bits,
-- so `|` is a sum.
abbrev pub present_rw : ℕ
present_rw = 3

abbrev pub sub32 : ℕ → ℕ → ℕ
sub32 a b = (a + 2 ^ 32 - b) % 2 ^ 32

abbrev pub set_entry : ℕ → ℕ → Table → Table
set_entry i e t k = if k == i then e else t k

-- memset of a whole table, of 1024 entries.
abbrev pub zero_table : Table → Table
zero_table t k = if ltb k 1024 then 0 else t k

-- The page and the map that is left; ASSERT_MSG has no effect in a build without DEBUG.
unfoldable pub bootstrap_fetch_page : KernelInfo → ℕ × KernelInfo
bootstrap_fetch_page kinfo = (
  kinfo.memmap_addr % 2 ^ 32,
  record kinfo {
    memmap_addr = (kinfo.memmap_addr + page_size) % 2 ^ 64;
    memmap_len = (kinfo.memmap_len + 2 ^ 64 - page_size) % 2 ^ 64;
  },
)

unfoldable pub bootstrap_create_page_dir : KernelInfo → ℕ × KernelInfo
bootstrap_create_page_dir kinfo = bootstrap_fetch_page kinfo

-- The loops `for (addr = ...; addr < end; addr += PAGE_SIZE, current_pt_offset++)`, for `n` pages.
unfoldable pub identity_from : (n addr current_pt_offset : ℕ) → Table → Table
identity_from zero addr current_pt_offset t = t
identity_from (suc n) addr current_pt_offset t =
    identity_from n (addr + page_size) (current_pt_offset + 1)
      (set_entry current_pt_offset (page addr + present_rw) t)

-- How often such a loop goes round, if the end and a page more do not wrap.
abbrev pub pages : (start end : ℕ) → ℕ
pages start end = (end - start + (page_size - 1)) / page_size

unfoldable pub map_modules : List BootModule → Table → Table
map_modules [] t = t
map_modules (m ∷ ms) t =
    map_modules ms
      (identity_from (pages m.start_paddr m.end_paddr) m.start_paddr (pt_offset m.start_paddr) t)

unfoldable pub bootstrap_map_boot_modules : Addresses → KernelInfo → Tables → Tables
bootstrap_map_boot_modules at kinfo s =
    let bootstrap_pt_phys = sub32 at.bootstrap_pt kinfo.kernel_high_vma in
    let pd =
      set_entry (pd_offset at.k_high_vma) (page (sub32 at.kernel_pt at.k_high_vma) + present_rw)
        s.page_directory in
    record s {
      page_directory = set_entry 0 (page bootstrap_pt_phys + present_rw) pd;
      bootstrap_pt =
          map_modules kinfo.modules
            (identity_from (pages 0 0x100000) 0 0 (zero_table s.bootstrap_pt));
    }

-- The loop that adds up the memory that the modules need.
unfoldable pub needed_end : List BootModule → (phys_end : ℕ) → ℕ
needed_end [] phys_end = phys_end
needed_end (m ∷ ms) phys_end =
    let module_size = sub32 m.end_paddr m.start_paddr in
    needed_end ms ((phys_end + page_size * 8 + (page module_size + page_size)) % 2 ^ 32)

unfoldable pub bootstrap_identity_map_init_mem :
    Addresses → KernelInfo → Tables → KernelInfo × Tables
bootstrap_identity_map_init_mem at info s =
    let phys_start = info.memmap_addr % 2 ^ 32 in
    let phys_end = needed_end info.modules phys_start in
    let pt =
      identity_from (pages phys_start phys_end) phys_start (pt_offset phys_start)
        (zero_table s.module_bootstrap_pt) in
    let pt_phys = sub32 at.module_bootstrap_pt info.kernel_high_vma in
    (
      record info { range_start = phys_start; range_end = phys_end },
      record s {
        boot_page_directory =
            set_entry (pd_offset phys_start) (page pt_phys + present_rw) s.page_directory;
        module_bootstrap_pt = pt;
        loaded = sub32 at.boot_page_directory info.kernel_high_vma;
      },
    )

-- bootstrap_load_boot_mappings and bootstrap_load_kernel_mappings
unfoldable pub bootstrap_load_boot_mappings : Addresses → KernelInfo → Tables → Tables
bootstrap_load_boot_mappings at kinfo s = record s {
  loaded = sub32 at.boot_page_directory kinfo.kernel_high_vma;
}

unfoldable pub bootstrap_load_kernel_mappings : Addresses → KernelInfo → Tables → Tables
bootstrap_load_kernel_mappings at kinfo s = record s {
  loaded = sub32 at.page_directory kinfo.kernel_high_vma;
}
