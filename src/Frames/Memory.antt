-- ===== src/Frames/Memory.antt =====
-- init_free_memory of kern/mem/phys_alloc.c, which counts the frames of the memory map. What it
-- prints is left out, and the addresses of the memory map do not wrap.
pub mod Count
use mugo.Base.{ℕ, zero, suc, ◌+◌, ◌-◌, ◌*◌, ◌/◌, ◌%◌, ◌^◌, Option, none, some, ltb, if◌then◌else◌}
use mugo.Paging.{page, page_size}
use mugo.Frames.{MmapEntry, MetadataRegion, skipped, plus, less}

-- The fields of struct multiboot_info that it reads.
pub record MultibootInfo : Type 0 where
  pub mmap_length : ℕ
  pub mmap_addr : ℕ
  pub mem_upper : ℕ

-- The symbols of the linker script.
pub record KernelSymbols : Type 0 where
  pub kernel_start : ℕ
  pub kernel_end : ℕ
  pub k_metadata_vma : ℕ
  pub k_metadata_size : ℕ
  pub k_high_vma : ℕ

abbrev pub dma_region_min_size : ℕ
dma_region_min_size = 0x10_0000

abbrev pub kernel_region_min_size : ℕ
kernel_region_min_size = 0x10_0000

-- The bounds of memory_regions[PHYS_MEM_REGION_KERNEL].
pub record KernelRegion : Type 0 where
  pub start : ℕ
  pub end : ℕ
  pub size : ℕ

-- How it ends, with the static variables that it sets.
pub data Counted : Type 0 where
  counted : (total_frames_available : ℕ) → MetadataRegion → KernelRegion → Counted
  panicked : Counted
  no_fuel : Counted

-- The body of the loop over the memory map.
unfoldable pub count_entry : (mmap_addr : ℕ) → MmapEntry → (total : ℕ) → ℕ
count_entry mmap_addr e total =
    if skipped mmap_addr e then total else plus total (e.len / page_size % 2 ^ 32)

-- The loop, with fuel for each round and the last test.
unfoldable pub count_entries :
    (read : ℕ → MmapEntry) (fuel mmap_addr curr_addr mmap_end_addr total : ℕ) → Option ℕ
count_entries read zero mmap_addr curr_addr mmap_end_addr total = none
count_entries read (suc fuel) mmap_addr curr_addr mmap_end_addr total =
    let e = read curr_addr in
    let rest =
      count_entries read fuel mmap_addr (curr_addr + (e.size + 4)) mmap_end_addr
        (count_entry mmap_addr e total) in
    if ltb curr_addr mmap_end_addr then rest else some total

abbrev pub occupied : KernelSymbols → ℕ
occupied y = less y.kernel_end y.kernel_start / page_size + y.k_metadata_size / page_size

abbrev pub metadata_region : KernelSymbols → MetadataRegion
metadata_region y = record {
  start = y.k_metadata_vma;
  end = plus y.k_metadata_vma y.k_metadata_size;
  current_offset = y.k_metadata_vma;
}

abbrev pub kernel_memory_region : KernelSymbols → KernelRegion
kernel_memory_region y =
    let start = less (plus (page y.kernel_end) page_size) y.k_high_vma in
    record { start = start; end = plus start 0x20_0000; size = 0x20_0000 }

-- What follows the loop.
abbrev pub finish_count : KernelSymbols → Option ℕ → Counted
finish_count y none = no_fuel
finish_count y (some total) =
    counted (less total (occupied y)) (metadata_region y) (kernel_memory_region y)

unfoldable pub init_free_memory : (read : ℕ → MmapEntry) → KernelSymbols → MultibootInfo → Counted
init_free_memory read y info =
    let end = info.mmap_addr + info.mmap_length in
    if ltb (info.mem_upper * 1024 % 2 ^ 32) (dma_region_min_size + kernel_region_min_size)
    then panicked
    else finish_count y
        (count_entries read (info.mmap_length + 1) info.mmap_addr info.mmap_addr end 0)
