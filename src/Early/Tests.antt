-- ===== src/Early/Tests.antt =====
-- A boot loader's information with a memory map, a module and the amount of memory, and the
-- theorems of arch/i686/early.c at it.
use mugo.Base.{
  ℕ, zero, suc, ◌<◌, ◌≤◌, ◌≡◌, refl, inl, inr, List, [], ◌∷◌, ◌==◌, if◌then◌else◌, arith,
}
use mugo.Stdlib.{Bytes}
use mugo.Paging.{pt_offset, pd_offset}
use mugo.Paging.Identity.{IsIdentity}
use mugo.Early.{BootInfo, MemoryMap}
use mugo.Early.Modules.{IsPlaced, end_before}
use mugo.Early.Tags.{IsTag, Ends}
use mugo.Early.Tables.{Symbols, BootTables, early_page_map}
use mugo.Early.Tables.Kernel.{IsLinked, early_page_map-kernel, early_page_map-IsIdentity}
use mugo.Early.Main.{finish, early_main, multiboot2_magic}
use mugo.Early.Main.Memory.{phys_end, early_main-IsPlaced}

abbrev lookup : List (ℕ × ℕ) → Bytes
lookup [] k = 0
lookup ((p, v) ∷ ps) k = if k == p then v else lookup ps k

-- The bytes of the tags that are not 0, with the information at 0x1000.
abbrev info : Bytes
info = lookup (
    (0x1008, 6)
    ∷ (0x100C, 40)
    ∷ (0x1010, 24)
    ∷ (0x101A, 0x10)
    ∷ (0x1023, 7)
    ∷ (0x1028, 1)
    ∷ (0x1030, 3)
    ∷ (0x1034, 20)
    ∷ (0x1039, 0x50)
    ∷ (0x103C, 3)
    ∷ (0x103D, 0x50)
    ∷ (0x1040, 97)
    ∷ (0x1048, 4)
    ∷ (0x104C, 16)
    ∷ (0x1054, 100)
    ∷ [])

abbrev free_map : MemoryMap
free_map = record { addr = 0x100000; len = 0x7000000; kind = 1; reserved = 0 }

abbrev start_info : BootInfo
start_info = record {
  mem = info;
  memmaps = λ k. record { addr = 0; len = 0; kind = 0; reserved = 0 };
  saved_mmap_index = 0;
  no_mmaps = 0;
  mem_upper = 0;
  modules = λ k. record { start_paddr = 0; end_paddr = 0 };
  names = λ k i. 0;
  module_index = 0;
  no_modules = 0;
  last_module_end_addr = 0x200000;
  total_module_size = 0;
}

abbrev linked : Symbols
linked = record {
  k_high_vma = 0xC0000000;
  kernel_start = 0xC0101000;
  ktable_start = 0xC0101000;
  ktable_end = 0xC0108000;
  kernel_end = 0xC0200000;
  early_start = 0x100000;
  early_end = 0x100F00;
  console_debug = 0xC01FF000;
  boot_pt_at = 0x7000;
  boot_kernel_pt_at = 0xC0104000;
}

abbrev no_tables : BootTables
no_tables = record { boot_pt = λ k. 9; boot_kernel_pt = λ k. 0; boot_page_directory = λ k. 0 }

map-IsTag : IsTag 0x1060 0x1008 0 0x200000 info
map-IsTag = record {
  more = λ e. absurd (omega arith);
  header = omega arith;
  below = omega arith;
  map = inr (omega arith, omega arith);
  name = inl (λ e. absurd (omega arith));
  above = omega arith;
}

module-IsTag : IsTag 0x1060 0x1030 0 0x200000 info
module-IsTag = record {
  more = λ e. absurd (omega arith);
  header = omega arith;
  below = omega arith;
  map = inl (λ e. absurd (omega arith));
  name = inr (record { len = 1; inside = omega arith; end = refl });
  above = omega arith;
}

amount-IsTag : IsTag 0x1060 0x1048 1 0x201000 info
amount-IsTag = record {
  more = λ e. absurd (omega arith);
  header = omega arith;
  below = omega arith;
  map = inl (λ e. absurd (omega arith));
  name = inl (λ e. absurd (omega arith));
  above = omega arith;
}

info-Ends : Ends 0x1060 3 0x1008 0 0x200000 info
info-Ends = (map-IsTag, (module-IsTag, (amount-IsTag, (omega arith, refl))))

early_main-IsPlaced_example :
    (s' : BootInfo) × (early_main 4 linked multiboot2_magic 0x1000 start_info no_tables
      ≡ finish linked s' no_tables)
    × IsPlaced (phys_end linked) s'
    × (s'.saved_mmap_index ≤ 19)
early_main-IsPlaced_example =
    early_main-IsPlaced 0x1060 3 multiboot2_magic 0x1000 linked start_info no_tables refl info-Ends
      (omega arith)

abbrev one_module : BootInfo
one_module = record start_info {
  memmaps = λ k. free_map;
  modules = λ k. record { start_paddr = 0x200000; end_paddr = 0x201000 };
  module_index = 1;
  last_module_end_addr = 0x201000;
  total_module_size = 0x1000;
}

one_chain : (i : ℕ) → i < 1 → 0x200000 ≡ end_before 0x200000 one_module.modules i
one_chain zero lt = refl
one_chain (suc i) lt = absurd (omega arith)

one-IsPlaced : IsPlaced (phys_end linked) one_module
one-IsPlaced = record {
  chain = one_chain;
  aligned = λ i lt. refl;
  last = refl;
  total = refl;
  total_small = omega arith;
  few = omega arith;
}

linked_ok : IsLinked linked
linked_ok = record {
  at_page = refl;
  vma_page = refl;
  high = omega arith;
  region = omega arith;
  small = omega arith;
}

early_page_map-kernel_example :
    let t' = early_page_map linked 0x201000 no_tables in
    (t'.boot_page_directory (pd_offset 0xC0123456) ≡ 0x104003)
    × (t'.boot_kernel_pt (pt_offset 0xC0123456) ≡ 0x123003)
early_page_map-kernel_example =
    early_page_map-kernel linked 0x201000 0xC0123456 no_tables linked_ok (omega arith) (omega arith)
      (λ e. absurd (omega arith))

early_page_map-IsIdentity_example :
    IsIdentity (early_page_map linked 0x201000 no_tables).boot_pt 0x203
early_page_map-IsIdentity_example =
    early_page_map-IsIdentity linked 0x201000 0x203123 no_tables (omega arith)
      (omega arith, omega arith) (omega arith, omega arith) (omega arith, omega arith)
      (inr (inr (inl (omega arith, omega arith))))
