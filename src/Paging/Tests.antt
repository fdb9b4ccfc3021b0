-- ===== src/Paging/Tests.antt =====
-- A module at 0x110000, and the theorems of arch/i686/paging_utils.c at it.
use mugo.Base.{◌≡◌, refl, inl, inr, [], ◌∷◌, arith}
use mugo.Paging.{
  KernelInfo, Tables, Addresses, bootstrap_map_boot_modules, bootstrap_identity_map_init_mem,
  needed_end,
}
use mugo.Paging.Identity.{AllLow, IsIdentity, map_boot_modules-IsIdentity, identity_map-IsIdentity}

abbrev kinfo : KernelInfo
kinfo = record {
  memmap_addr = 0x200000;
  memmap_len = 0x100000;
  modules = record { start_paddr = 0x110000; end_paddr = 0x112345 } ∷ [];
  kernel_high_vma = 0xC0000000;
  range_start = 0;
  range_end = 0;
}

abbrev blank : Tables
blank = record {
  boot_page_directory = λ k. 0;
  page_directory = λ k. 0;
  bootstrap_pt = λ k. 0;
  module_bootstrap_pt = λ k. 0;
  loaded = 0;
}

abbrev at : Addresses
at = record {
  boot_page_directory = 0xC0101000;
  page_directory = 0xC0102000;
  bootstrap_pt = 0xC0103000;
  module_bootstrap_pt = 0xC0104000;
  kernel_pt = 0xC0105000;
  k_high_vma = 0xC0000000;
}

low : AllLow kinfo.modules
low = ((omega arith, omega arith), tt)

map_boot_modules-IsIdentity_example :
    let s' = bootstrap_map_boot_modules at kinfo blank in
    (s'.page_directory 0 ≡ 0x103003) × IsIdentity s'.bootstrap_pt 0x112
map_boot_modules-IsIdentity_example =
    map_boot_modules-IsIdentity at kinfo blank 0x112340 low (inr (inl (omega arith, omega arith)))

needed : needed_end kinfo.modules kinfo.memmap_addr ≡ 0x20B000
unfolding needed_end
needed = refl

identity_map-IsIdentity_example :
    let (info', s') = bootstrap_identity_map_init_mem at kinfo blank in
    (info'.range_start ≡ 0x200000)
    × (info'.range_end ≡ needed_end kinfo.modules kinfo.memmap_addr)
    × (s'.loaded ≡ 0x101000)
    × (s'.boot_page_directory 0 ≡ 0x104003)
    × (s'.module_bootstrap_pt 0x20A ≡ 0x20A003)
identity_map-IsIdentity_example =
    identity_map-IsIdentity at kinfo blank 0x20A123 (omega arith) (omega arith) (omega arith)
      (omega (arith, needed)) (omega (arith, needed))
