-- ===== src/Early/Tables/Kernel.antt =====
-- What early_page_map of arch/i686/early.c maps.
use mugo.Base.{ℕ, ◌+◌, ◌-◌, ◌*◌, ◌/◌, ◌%◌, ◌^◌, ◌<◌, ◌≤◌, ◌≡◌, ◌≢◌, ◌∙◌, ◌⊎◌, inl, inr, arith}
use mugo.Paging.{
  BootModule, Table, page, page_size, pt_offset, pd_offset, present_rw, pages, sub32, identity_from,
}
use mugo.Paging.Identity.{identity_from_lem, module_mapped, IsLow, IsIdentity}
use mugo.Early.Tables.{Symbols, BootTables, clear_words, early_page_map, paging_structs_size}

-- The kernel begins at a page and lies, with its window on the console, in one region of four
-- megabytes.
pub record IsLinked (y : Symbols) : Type 0 where
  pub at_page : y.ktable_start % page_size ≡ 0
  pub vma_page : y.k_high_vma % page_size ≡ 0
  pub high : y.k_high_vma ≤ y.ktable_start
  pub region : y.kernel_end ≤ y.ktable_start / 2 ^ 22 * 2 ^ 22 + 2 ^ 22
  pub small : y.kernel_end < 2 ^ 32

-- If the kernel and `k_high_vma` begin at a page, `k_high_vma` is not above the kernel, and the
-- kernel lies in one region of four megabytes and ends below 2^32, then after early_page_map the
-- directory and the kernel's table lead from each address of the kernel, but those with the entry of the console's page, to the page that lies `k_high_vma` below.
pub early_page_map-kernel :
    (y : Symbols) (start v : ℕ) (t : BootTables)
    → IsLinked y
    → y.ktable_start ≤ v
    → v < y.kernel_end
    → pt_offset v ≢ pt_offset y.console_debug
    → let t' = early_page_map y start t in
      (t'.boot_page_directory (pd_offset v)
        ≡ page (sub32 y.boot_kernel_pt_at y.k_high_vma) + present_rw)
      × (t'.boot_kernel_pt (pt_offset v) ≡ page (v - y.k_high_vma) + present_rw)
unfolding early_page_map
early_page_map-kernel y start v t linked lo hi other =
    let ks : sub32 y.ktable_start y.k_high_vma ≡ y.ktable_start - y.k_high_vma =
      omega (arith, linked.high, linked.small) in
    let ke : sub32 y.kernel_end y.k_high_vma ≡ y.kernel_end - y.k_high_vma =
      omega (arith, linked.high, linked.small) in
    let n : sub32 (y.kernel_end - y.k_high_vma) (y.ktable_start - y.k_high_vma)
        ≡ y.kernel_end - y.ktable_start =
      omega (arith, linked.high, linked.small) in
    let same_dir : pd_offset v ≡ pd_offset y.ktable_start =
      omega (arith, linked.region, linked.small) in
    let above : pt_offset y.ktable_start ≤ pt_offset v = omega (arith, linked.region) in
    let below : pt_offset v < pt_offset y.ktable_start + pages 0 (y.kernel_end - y.ktable_start) =
      omega (arith, linked.region, linked.at_page) in
    let frame : page
          (y.ktable_start - y.k_high_vma + (pt_offset v - pt_offset y.ktable_start) * page_size)
        ≡ page (v - y.k_high_vma) =
      omega (arith, linked.region, linked.at_page, linked.vma_page, linked.high) in
    (
      ground (arith, same_dir),
      rw (ks, ke, n)
          (ground (
            arith,
            other,
            above,
            below,
            frame,
            identity_from_lem (pages 0 (y.kernel_end - y.ktable_start))
                (y.ktable_start - y.k_high_vma) (pt_offset y.ktable_start) t.boot_kernel_pt
                (pt_offset v),
          )),
    )

abbrev pub range : (start end : ℕ) → BootModule
range start end = record { start_paddr = start; end_paddr = end }

-- The ranges that early_page_map maps to themselves besides the first megabyte: the boot code and
-- the page behind it, the frames behind the modules, and the kernel's tables.
abbrev pub boot_code : Symbols → BootModule
boot_code y = range y.early_start (y.early_end + page_size)

abbrev pub structs : ℕ → BootModule
structs start = range start (start + paging_structs_size)

abbrev pub ktables : Symbols → BootModule
ktables y = range (sub32 y.ktable_start y.k_high_vma) (sub32 y.ktable_end y.k_high_vma)

abbrev pub Inside : BootModule → ℕ → Type 0
Inside m a = (m.start_paddr ≤ a) × (a < m.end_paddr)

abbrev mapped : BootModule → Table → Table
mapped m t =
    identity_from (pages m.start_paddr m.end_paddr) m.start_paddr (pt_offset m.start_paddr) t

mapped-IsIdentity :
    (m : BootModule) (t : Table) (a : ℕ)
    → IsLow m
    → a < 2 ^ 22
    → Inside m a ⊎ IsIdentity t (a / page_size)
    → IsIdentity (mapped m t) (a / page_size)
mapped-IsIdentity m t a low small (inl (lo, hi)) =
    module_mapped m t (a / page_size) low (omega arith)
      (inl (omega (arith, low.0), omega (arith, low.0)))
mapped-IsIdentity m t a low small (inr known) =
    module_mapped m t (a / page_size) low (omega arith) (inr known)

first_mb-IsIdentity :
    (t : Table) (a : ℕ)
    → a < 2 ^ 20
    → IsIdentity (identity_from (pages 0 0x100000) 0 0 t) (a / page_size)
first_mb-IsIdentity t a lt = identity_from_lem 256 0 0 t (a / page_size) ∙ ground arith

-- After early_page_map the first table maps to itself the page of each address in the first
-- megabyte, the boot code, the frames for the paging structures and the kernel's tables, if these
-- begin at pages and end in the first four megabytes.
pub early_page_map-IsIdentity :
    (y : Symbols) (start a : ℕ) (t : BootTables)
    → y.early_start ≤ y.early_end
    → IsLow (boot_code y)
    → IsLow (structs start)
    → IsLow (ktables y)
    → (a < 2 ^ 20) ⊎ Inside (boot_code y) a ⊎ Inside (structs start) a ⊎ Inside (ktables y) a
    → IsIdentity (early_page_map y start t).boot_pt (a / page_size)
unfolding early_page_map
early_page_map-IsIdentity y start a t order code_low structs_low tables_low place =
    let size : pages 0 (sub32 y.early_end y.early_start + page_size)
        ≡ pages y.early_start (y.early_end + page_size) =
      omega (arith, order, code_low.1) in
    let first = identity_from (pages 0 0x100000) 0 0 (clear_words (page_size / 4) 0 t.boot_pt) in
    let code = mapped (boot_code y) first in
    let frames = mapped (structs start) code in
    let small : a < 2 ^ 22 = ground (arith, code_low.1, structs_low.1, tables_low.1, place) in
    let in_code = mapped-IsIdentity (boot_code y) first a code_low small in
    let in_frames = mapped-IsIdentity (structs start) code a structs_low small in
    let in_tables = mapped-IsIdentity (ktables y) frames a tables_low small in
    rw size (elim place [
      | inl low ↦ in_tables (inr (in_frames (inr (in_code (inr (first_mb-IsIdentity _ a low))))))
      | inr (inl here) ↦ in_tables (inr (in_frames (inr (in_code (inl here)))))
      | inr (inr (inl here)) ↦ in_tables (inr (in_frames (inl here)))
      | inr (inr (inr here)) ↦ in_tables (inl here)
    ])
