-- ===== src/Frames/Tests.antt =====
-- Two free frames, and a memory map of one entry, with the theorems of kern/mem at them.
use mugo.Base.{◌==◌, if◌then◌else◌, ℕ, ◌+◌, ◌*◌, refl, arith}
use mugo.Frames.{MmapEntry, Region, Frames, MetadataRegion, stack_alloc_init}
use mugo.Frames.Memory.{MultibootInfo, KernelSymbols}
use mugo.Frames.Init.{IsStarted, stack_alloc_init-IsStarted}
use mugo.Frames.Stack.{IsCounted}

abbrev two : Frames
two = record {
  depth = 2;
  stack = λ k. 0x1000 * (k + 1);
  region = record { start = 0x1000; no_frames_available = 2; no_frames_in_use = 1; size = 0x3000 };
}

two-IsCounted : IsCounted 3 two
two-IsCounted = record { available = refl; sum = refl }

abbrev one_map : ℕ → MmapEntry
one_map p = record { size = 20; addr = 0x100000; len = 0x400000; kind = 1 }

abbrev kernel_region : Region
kernel_region = record {
  start = 0x200000;
  no_frames_available = 0;
  no_frames_in_use = 0;
  size = 0x200000;
}

abbrev metadata : MetadataRegion
metadata = record { start = 0xD0000000; end = 0xD0100000; current_offset = 0xD0000000 }

stack_alloc_init-IsStarted_example :
    IsStarted 1 2
      (two.stack)
      (stack_alloc_init one_map 0x9000 24 2 (two.stack) kernel_region metadata)
stack_alloc_init-IsStarted_example =
    stack_alloc_init-IsStarted one_map 1 0x9000 24 2 (two.stack) kernel_region metadata
      (omega arith) (omega arith, omega arith)

-- A map of four megabytes, and one that is reserved.
abbrev two_maps : ℕ → MmapEntry
two_maps p =
    if p == 0x9000
    then record { size = 20; addr = 0x100000; len = 0x400000; kind = 1 }
    else record { size = 20; addr = 0x500000; len = 0x1000; kind = 2 }

abbrev symbols : KernelSymbols
symbols = record {
  kernel_start = 0xC010_0000;
  kernel_end = 0xC012_0800;
  k_metadata_vma = 0xD000_0000;
  k_metadata_size = 0x4000;
  k_high_vma = 0xC000_0000;
}

abbrev multiboot_info : MultibootInfo
multiboot_info = record { mmap_length = 48; mmap_addr = 0x9000; mem_upper = 4096 }
