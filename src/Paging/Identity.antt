-- ===== src/Paging/Identity.antt =====
-- The identity mappings that arch/i686/paging_utils.c builds.
use mugo.Base.{
  ℕ, zero, suc, ◌+◌, ◌-◌, ◌*◌, ◌/◌, ◌%◌, ◌^◌, ◌≤◌, ◌<◌, ◌≡◌, refl, ◌∙◌, ◌⊎◌, inl, inr, List, [],
  ◌∷◌, ◌&&◌, leb, ltb, if◌then◌else◌, arith,
}
use mugo.Paging.{
  Table, BootModule, KernelInfo, Tables, Addresses, page, page_size, present_rw, pages, pt_offset,
  pd_offset, sub32, set_entry, zero_table, identity_from, map_modules, bootstrap_map_boot_modules,
  needed_end, bootstrap_identity_map_init_mem,
}

pub identity_from_lem :
    (n addr offset : ℕ) (t : Table) (k : ℕ)
    → identity_from n addr offset t k ≡ (
        if leb offset k && ltb k (offset + n)
        then page (addr + (k - offset) * page_size) + present_rw
        else t k)
unfolding identity_from
identity_from_lem zero addr offset t k = ground arith
identity_from_lem (suc n) addr offset t k = ground (
  arith,
  identity_from_lem n (addr + page_size) (offset + 1) (set_entry offset (page addr + present_rw) t)
      k,
)

-- Entry `k` of the first table maps page `k` to itself.
abbrev pub IsIdentity : Table → ℕ → Type 0
IsIdentity t k = t k ≡ k * page_size + present_rw

-- The module begins at a page and ends in the first four megabytes.
abbrev pub IsLow : BootModule → Type 0
IsLow m = (m.start_paddr % page_size ≡ 0) × (m.end_paddr ≤ 2 ^ 22)

abbrev pub AllLow : List BootModule → Type 0
AllLow [] = Unit
AllLow (m ∷ ms) = IsLow m × AllLow ms

-- The address lies in one of the modules.
abbrev pub InModule : List BootModule → ℕ → Type 0
InModule [] a = ⊥
InModule (m ∷ ms) a = ((m.start_paddr ≤ a) × (a < m.end_paddr)) ⊎ InModule ms a

pub module_mapped :
    (m : BootModule) (t : Table) (k : ℕ)
    → IsLow m
    → k < 1024
    → (m.start_paddr / page_size ≤ k)
        × (k < m.start_paddr / page_size + pages m.start_paddr m.end_paddr)
      ⊎ IsIdentity t k
    → IsIdentity
        (identity_from (pages m.start_paddr m.end_paddr) m.start_paddr (pt_offset m.start_paddr) t)
        k
module_mapped m t k low small known =
    identity_from_lem (pages m.start_paddr m.end_paddr) m.start_paddr (pt_offset m.start_paddr) t k
    ∙ ground (arith, low.0, low.1, known)

modules_keep :
    (ms : List BootModule) (t : Table) (k : ℕ)
    → AllLow ms
    → k < 1024
    → IsIdentity t k
    → IsIdentity (map_modules ms t) k
unfolding map_modules
modules_keep [] t k low small known = known
modules_keep (m ∷ ms) t k low small known =
    modules_keep ms _ k low.1 small (module_mapped m t k low.0 small (inr known))

modules_mapped :
    (ms : List BootModule) (t : Table) (a : ℕ)
    → AllLow ms
    → InModule ms a
    → IsIdentity (map_modules ms t) (a / page_size)
unfolding map_modules
modules_mapped [] t a low inside = absurd inside
modules_mapped (m ∷ ms) t a low (inl here) =
    modules_keep ms _ (a / page_size) low.1 (omega (arith, here.1, low.0.1)) (
      module_mapped m t (a / page_size) low.0 (omega (arith, here.1, low.0.1))
        (inl (omega (arith, here.0, low.0.0), omega (arith, here.0, here.1, low.0.0))))
modules_mapped (m ∷ ms) t a low (inr later) = modules_mapped ms _ a low.1 later

-- If the modules begin at pages and end in the first four megabytes, then after
-- bootstrap_map_boot_modules the first entry of the directory is the bootstrap table's, and that
-- table maps to itself the page of each address in the first megabyte or in a module.
pub map_boot_modules-IsIdentity :
    (at : Addresses) (kinfo : KernelInfo) (s : Tables) (a : ℕ)
    → AllLow kinfo.modules
    → (a < 2 ^ 20) ⊎ InModule kinfo.modules a
    → let s' = bootstrap_map_boot_modules at kinfo s in
      (s'.page_directory 0 ≡ page (sub32 at.bootstrap_pt kinfo.kernel_high_vma) + present_rw)
      × IsIdentity s'.bootstrap_pt (a / page_size)
unfolding bootstrap_map_boot_modules
map_boot_modules-IsIdentity at kinfo s a low (inr inside) =
    (refl, modules_mapped kinfo.modules _ a low inside)
map_boot_modules-IsIdentity at kinfo s a low (inl first) = (
  refl,
  modules_keep kinfo.modules _ (a / page_size) low (omega arith)
      (identity_from_lem 256 0 0 (zero_table s.bootstrap_pt) (a / page_size) ∙ ground arith),
)

-- The entry for an address of a range inside one region of four megabytes.
pub region_entry :
    (start end a : ℕ) (t : Table)
    → start % page_size ≡ 0
    → start ≤ a
    → a < end
    → end ≤ start / 2 ^ 22 * 2 ^ 22 + 2 ^ 22
    → (if leb (pt_offset start) (pt_offset a)
          && ltb (pt_offset a) (pt_offset start + pages start end)
        then page (start + (pt_offset a - pt_offset start) * page_size) + present_rw
        else t (pt_offset a))
      ≡ page a + present_rw
region_entry start end a t aligned lo hi region =
    let above : pt_offset start ≤ pt_offset a = omega arith in
    let below : pt_offset a < pt_offset start + pages start end = omega arith in
    let same : page (start + (pt_offset a - pt_offset start) * page_size) ≡ page a = omega arith in
    ground (arith, above, below, same)

-- If the first memory map begins at a page, and the memory that the modules need lies with it in one
-- region of four megabytes, then after bootstrap_identity_map_init_mem the directory that is loaded
-- has the module table for each address of that memory, and the table maps its page to itself.
pub identity_map-IsIdentity :
    (at : Addresses) (info : KernelInfo) (s : Tables) (a : ℕ)
    → info.memmap_addr < 2 ^ 32
    → info.memmap_addr % page_size ≡ 0
    → info.memmap_addr ≤ a
    → a < needed_end info.modules info.memmap_addr
    → needed_end info.modules info.memmap_addr ≤ info.memmap_addr / 2 ^ 22 * 2 ^ 22 + 2 ^ 22
    → let (info', s') = bootstrap_identity_map_init_mem at info s in
      (info'.range_start ≡ info.memmap_addr)
      × (info'.range_end ≡ needed_end info.modules info.memmap_addr)
      × (s'.loaded ≡ sub32 at.boot_page_directory info.kernel_high_vma)
      × (s'.boot_page_directory (pd_offset a)
          ≡ page (sub32 at.module_bootstrap_pt info.kernel_high_vma) + present_rw)
      × (s'.module_bootstrap_pt (pt_offset a) ≡ page a + present_rw)
unfolding bootstrap_identity_map_init_mem
identity_map-IsIdentity at info s a small aligned lo hi region =
    let start : info.memmap_addr % 2 ^ 32 ≡ info.memmap_addr = omega arith in
    rw start (
      refl,
      refl,
      refl,
      ground arith,
      identity_from_lem (pages info.memmap_addr (needed_end info.modules info.memmap_addr))
            info.memmap_addr (pt_offset info.memmap_addr) (zero_table s.module_bootstrap_pt)
            (pt_offset a)
          ∙ region_entry info.memmap_addr (needed_end info.modules info.memmap_addr) a
              (zero_table s.module_bootstrap_pt) aligned lo hi region,
    )
