-- ===== src/Early/Main.antt =====
-- early_main of arch/i686/early.c.
pub mod Memory
use mugo.Base.{
  ℕ, zero, suc, ◌+◌, ◌-◌, ◌*◌, ◌/◌, ◌%◌, ◌^◌, Option, none, some, ◌||◌, ◌==◌, if◌then◌else◌,
}
use mugo.Paging.{sub32}
use mugo.Early.{BootInfo, MemoryMap, at, read_tags}
use mugo.Early.Tables.{Symbols, BootTables, early_page_map}

-- The rest of kernel_info_t that early_main fills.
pub record Ranges : Type 0 where
  pub kernel_start : ℕ
  pub kernel_end : ℕ
  pub boot_modules_start : ℕ
  pub boot_modules_end : ℕ
  pub kernel_high_vma : ℕ
  pub kernel_size_bytes : ℕ
  pub bootstrap_memory_start : ℕ
  pub bootstrap_memory_end : ℕ

-- How early_main ends: with what it hands to the kernel, at a panic, or without fuel for the tags.
pub data Outcome : Type 0 where
  booted : BootInfo → Ranges → BootTables → Outcome
  halted : Outcome
  out_of_fuel : Outcome

-- The length of a map is a word of 64 bits.
abbrev pub sub64 : ℕ → ℕ → ℕ
sub64 a b = (a % 2 ^ 64 + 2 ^ 64 - b % 2 ^ 64) % 2 ^ 64

-- What is done to `memmaps[0]` before the tags are read, and to the rest of what they fill. The
-- fields that are not set here hold zeros at the start.
unfoldable pub before_tags : Symbols → BootInfo → BootInfo
before_tags y s =
    let kernel_end = sub32 y.kernel_end y.k_high_vma in
    let mmap = s.memmaps 0 in
    record s {
      memmaps =
          at 0
            (record mmap {
              len = sub64 mmap.len (sub32 kernel_end (sub32 y.kernel_start y.k_high_vma));
              addr = kernel_end;
            })
            s.memmaps;
      saved_mmap_index = 0;
      no_mmaps = 0;
      mem_upper = 0;
      module_index = 0;
      last_module_end_addr = kernel_end;
      total_module_size = 0;
    }

-- What is done to it at the end: the kernel and the modules are taken off.
unfoldable pub after_tags : Symbols → BootInfo → BootInfo
after_tags y s =
    let k_phys_end = sub32 y.kernel_end y.k_high_vma in
    let mmap = s.memmaps 0 in
    record s {
      memmaps =
          at 0
            (record mmap {
              len =
                  sub64 (sub64 mmap.len (sub64 k_phys_end mmap.addr % 2 ^ 32)) s.total_module_size;
              addr = s.last_module_end_addr;
            })
            s.memmaps;
    }

-- The part behind the loop over the tags.
unfoldable pub finish : Symbols → BootInfo → BootTables → Outcome
finish y s t =
    let kernel_start = sub32 y.kernel_start y.k_high_vma in
    let kernel_end = sub32 y.kernel_end y.k_high_vma in
    if s.no_mmaps == 0 || (s.mem_upper == 0) || (s.no_modules == 0)
    then halted
    else booted (after_tags y s)
        record {
          kernel_start = kernel_start;
          kernel_end = kernel_end;
          boot_modules_start = kernel_end;
          boot_modules_end = s.last_module_end_addr;
          kernel_high_vma = y.k_high_vma;
          kernel_size_bytes = sub32 kernel_end kernel_start;
          bootstrap_memory_start = kernel_end;
          bootstrap_memory_end = kernel_end;
        }
        (early_page_map y s.last_module_end_addr t)

-- MULTIBOOT2_BOOTLOADER_MAGIC
abbrev pub multiboot2_magic : ℕ
multiboot2_magic = 0x36D76289

-- What follows the loop, which may have run out of fuel.
unfoldable pub finish_walk : Symbols → BootTables → Option BootInfo → Outcome
finish_walk y t none = out_of_fuel
finish_walk y t (some s) = finish y s t

unfoldable pub early_main :
    (fuel : ℕ) → Symbols → (multiboot_magic multiboot_img_ptr : ℕ) → BootInfo → BootTables → Outcome
early_main fuel y multiboot_magic multiboot_img_ptr s t =
    let end = finish_walk y t (read_tags fuel (multiboot_img_ptr + 8) (before_tags y s)) in
    if multiboot_magic == multiboot2_magic then end else halted
