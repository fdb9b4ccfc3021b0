-- ===== src/Early/Tables.antt =====
-- early_page_map of arch/i686/early.c, the first page tables. A table is by index, as in Paging,
-- whose loop for a range of pages is that of each range here.
pub mod Kernel
use mugo.Base.{ℕ, zero, suc, ◌+◌, ◌-◌, ◌*◌, ◌/◌, ◌%◌, ◌^◌, ◌==◌, if◌then◌else◌}
use mugo.Paging.{
  Table, page, page_size, pt_offset, pd_offset, present_rw, pages, sub32, set_entry, identity_from,
}

-- The symbols of the linker script, and the addresses of the tables.
pub record Symbols : Type 0 where
  pub k_high_vma : ℕ
  pub kernel_start : ℕ
  pub ktable_start : ℕ
  pub ktable_end : ℕ
  pub kernel_end : ℕ
  pub early_start : ℕ
  pub early_end : ℕ
  pub console_debug : ℕ
  pub boot_pt_at : ℕ
  pub boot_kernel_pt_at : ℕ

pub record BootTables : Type 0 where
  pub boot_pt : Table
  pub boot_kernel_pt : Table
  pub boot_page_directory : Table

-- A word of zeros at byte `i` of a table, where entry `i / 4` keeps the bytes before it and the next
-- entry those behind it.
unfoldable pub clear_word : ℕ → Table → Table
clear_word i t =
    let b = 256 ^ (i % 4) in
    set_entry (i / 4) (t (i / 4) % b)
      (if i % 4 == 0 then t else set_entry (i / 4 + 1) (t (i / 4 + 1) / b * b) t)

-- The loop that clears, for `n` rounds from the `i`-th on.
unfoldable pub clear_words : (n i : ℕ) → Table → Table
clear_words zero i t = t
clear_words (suc n) i t = clear_words n (i + 1) (clear_word i t)

-- CONF_KHEAP_SIZE / ARCH_PT_ADDRESSABLE_BYTES, and two, pages.
abbrev pub paging_structs_size : ℕ
paging_structs_size = (0x1000000 / (1024 * 4096) + 2) * page_size

-- `start` is `kinfo.boot_module_phys_range.end`.
unfoldable pub early_page_map : Symbols → (start : ℕ) → BootTables → BootTables
early_page_map y start t =
    let k_phys_start = sub32 y.ktable_start y.k_high_vma in
    let k_phys_end = sub32 y.kernel_end y.k_high_vma in
    let ktable_end_phys = sub32 y.ktable_end y.k_high_vma in
    let early_size = sub32 y.early_end y.early_start + page_size in
    let first_mb = identity_from (pages 0 0x100000) 0 0 (clear_words (page_size / 4) 0 t.boot_pt) in
    let boot_code =
      identity_from (pages 0 early_size) y.early_start (pt_offset y.early_start) first_mb in
    let kernel =
      identity_from (pages 0 (sub32 k_phys_end k_phys_start)) k_phys_start
        (pt_offset y.ktable_start) t.boot_kernel_pt in
    let structs =
      identity_from (pages start (start + paging_structs_size)) start (pt_offset start) boot_code in
    let ktables =
      identity_from (pages k_phys_start ktable_end_phys) k_phys_start (pt_offset k_phys_start)
        structs in
    let kernel_pt_phys = sub32 y.boot_kernel_pt_at y.k_high_vma in
    record {
      boot_pt = ktables;
      boot_kernel_pt = set_entry (pt_offset y.console_debug) (page 0xB8000 + present_rw) kernel;
      boot_page_directory =
          set_entry (pd_offset y.ktable_start) (page kernel_pt_phys + present_rw)
            (set_entry 0 (page y.boot_pt_at + present_rw) t.boot_page_directory);
    }
