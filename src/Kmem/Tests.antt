-- ===== src/Kmem/Tests.antt =====
-- A kernel of a few pages, and the theorem of kern/kmem.c at it.
use mathlib.Core.Option.{map}
use mugo.Base.{ℕ, ◌≡◌, refl, [], arith}
use mugo.Kmem.{KernelLayout, kmap_all, map_boot_modules, kmem_map_kernel_memory}
use mugo.Paging.{Addresses}
use mugo.Paging.Map.{Space}
use mugo.Kmem.Layout.{IsLinked, parts, map_kernel-parts}

abbrev pub layout : KernelLayout
layout = record {
  k_high_vma = 0xC0000000;
  kernel_start = 0xC0101000;
  ktable_end = 0xC0107000;
  text_end = 0xC0110000;
  bss_start = 0xC0110000;
  bss_end = 0xC0118000;
  rodata_end = 0xC011A000;
  stack_guard_start = 0xC011C000;
  stack_start = 0xC011D000;
  stack_end = 0xC0127000;
  console_debug = 0xC0127000;
}

layout-IsLinked : IsLinked layout
layout-IsLinked = record {
  high = omega arith;
  ktable = omega arith;
  text = omega arith;
  bss_at = refl;
  bss = omega arith;
  rodata = omega arith;
  data_order = omega arith;
  stack_at = refl;
  stack = omega arith;
  console_at = refl;
  small = omega arith;
}

abbrev tables : Addresses
tables = record {
  boot_page_directory = 0xC0101000;
  page_directory = 0xC0102000;
  bootstrap_pt = 0xC0103000;
  module_bootstrap_pt = 0xC0104000;
  kernel_pt = 0xC0105000;
  k_high_vma = 0xC0000000;
}

abbrev no_tables : Space
no_tables = record {
  words = λ a. 0;
  kinfo = record {
    memmap_addr = 0x20_0000;
    memmap_len = 0x100_0000;
    modules = [];
    kernel_high_vma = 0xC000_0000;
    range_start = 0;
    range_end = 0;
  };
}

map_kernel-parts_example :
    kmem_map_kernel_memory tables layout no_tables
    ≡ map {B = Space × ℕ}
        (λ s. (s, 0xC0128000))
        (kmap_all tables.page_directory (parts layout) (map_boot_modules tables no_tables))
map_kernel-parts_example = map_kernel-parts tables layout no_tables layout-IsLinked
