-- ===== src/Boot/Kept.antt =====
-- bootstrap_mmap of arch/i686/paging_utils.c and its callers leave the list of the modules alone.
use mugo.Base.{
  ℕ, zero, suc, ◌+◌, ◌-◌, ◌/◌, ◌%◌, ◌^◌, ◌≡◌, Bool-cases, inl, inr, Option, none, some, List, [],
  ◌∷◌, ◌==◌,
}
use mugo.Paging.{
  Addresses, BootModule, page, page_size, pd_offset, bootstrap_fetch_page,
  bootstrap_identity_map_init_mem, sub32,
}
use mugo.Paging.Map.{
  Space, entry, page_flags, no_page_tables, alloc_table, alloc_tables, frame_for, map_page,
  map_pages, bootstrap_mmap, kmap,
}
use mugo.Kmem.{
  KernelLayout, KmapCall, kmap_calls, kmap_all, map_boot_modules, kmem_map_kernel_memory, kmem_init,
  kheap_size,
}
use mugo.Kmalloc.{Pool, kmalloc_init}
use mugo.Boot.{prepare_memory, identity_map_init_mem}

module _ (ms : List BootModule) where
  abbrev Has : Space → Type 0
  Has s = s.kinfo.modules ≡ ms

  abbrev pub IfAny : Option Space → Type 0
  IfAny none = Unit
  IfAny (some s) = Has s

  then_IfAny :
      (r : Option Space) (f : Space → Option Space)
      → IfAny r
      → ((s : Space) → Has s → IfAny (f s))
      → IfAny (elim r [ none ↦ none | some s ↦ f s ])
  then_IfAny none f has go = tt
  then_IfAny (some s) f has go = go s has

  alloc_table-IfAny : (user pd i : ℕ) (s : Space) → Has s → IfAny (alloc_table user pd i s)
  unfolding alloc_table bootstrap_fetch_page
  alloc_table-IfAny user pd i s has = elim (Bool-cases (s.words (entry pd i) == 0)) [
    | inl e ↦ elim (Bool-cases (s.kinfo.memmap_addr % 2 ^ 32 == 0)) [
      | inl z ↦ rw (e, z) tt
      | inr z ↦ rw (e, z) has
    ]
    | inr e ↦ rw e has
  ]

  alloc_tables-IfAny : (user pd n i : ℕ) (s : Space) → Has s → IfAny (alloc_tables user pd n i s)
  unfolding alloc_tables
  alloc_tables-IfAny user pd zero i s has = has
  alloc_tables-IfAny user pd (suc n) i s has =
      then_IfAny (alloc_table user pd i s) (alloc_tables user pd n (i + 1))
        (alloc_table-IfAny user pd i s has)
        (λ s1 has1. alloc_tables-IfAny user pd n (i + 1) s1 has1)

  frame_for-modules :
      (old paddr offset : ℕ) (s : Space)
      → Has s
      → (frame_for old paddr offset s.kinfo).1.modules ≡ ms
  unfolding bootstrap_fetch_page
  frame_for-modules old paddr offset s has = elim (Bool-cases (old == 0)) [
    | inl e ↦ elim (Bool-cases (paddr == 0)) [ inl z ↦ rw (e, z) has | inr z ↦ rw (e, z) has ]
    | inr e ↦ rw e has
  ]

  map_page-Has :
      (pg_flags pd paddr vaddr offset pd_off current_pt : ℕ) (s : Space)
      → Has s
      → Has (map_page pg_flags pd paddr vaddr offset pd_off current_pt s).1
  unfolding map_page
  map_page-Has pg_flags pd paddr vaddr offset pd_off current_pt s has =
      frame_for-modules _ paddr offset s has

  map_pages-Has :
      (pg_flags pd paddr vaddr n offset pd_off current_pt : ℕ) (s : Space)
      → Has s
      → Has (map_pages pg_flags pd paddr vaddr n offset pd_off current_pt s)
  unfolding map_pages
  map_pages-Has pg_flags pd paddr vaddr zero offset pd_off current_pt s has = has
  map_pages-Has pg_flags pd paddr vaddr (suc n) offset pd_off current_pt s has =
      map_pages-Has pg_flags pd paddr vaddr n (offset + page_size) _ _ _
        (map_page-Has pg_flags pd paddr vaddr offset pd_off current_pt s has)

  mmap-IfAny :
      (user pd paddr vaddr size flags : ℕ) (s : Space)
      → Has s
      → IfAny (bootstrap_mmap user pd paddr vaddr size flags s)
  unfolding bootstrap_mmap
  mmap-IfAny user pd paddr vaddr size flags s has =
      let at = pd_offset vaddr in
      let pages = (size + (page_size - 1)) / page_size in
      then_IfAny
        (alloc_tables user pd (no_page_tables vaddr size (page (s.words (entry pd at)))) at s)
        (λ s1. some (
          map_pages (page_flags flags) pd paddr vaddr pages 0 at (page (s1.words (entry pd at)))
            s1))
        (alloc_tables-IfAny user pd _ at s has)
        (λ s1 has1.
          map_pages-Has (page_flags flags) pd paddr vaddr pages 0 at (page (s1.words (entry pd at)))
            s1 has1)

  kmap_all-IfAny : (pd : ℕ) (cs : List KmapCall) (s : Space) → Has s → IfAny (kmap_all pd cs s)
  unfolding kmap_all kmap
  kmap_all-IfAny pd [] s has = has
  kmap_all-IfAny pd (c ∷ cs) s has =
      then_IfAny (kmap pd c.vaddr c.paddr c.size c.flags s) (kmap_all pd cs)
        (mmap-IfAny 0 pd c.paddr c.vaddr c.size c.flags s has)
        (λ s1 has1. kmap_all-IfAny pd cs s1 has1)

  abbrev IfAnyWith : {A : Type 0} → Option (Space × A) → Type 0
  IfAnyWith none = Unit
  IfAnyWith (some (s, a)) = Has s

  map_kernel-IfAnyWith :
      (tables : Addresses) (y : KernelLayout) (s : Space)
      → Has s
      → IfAnyWith (kmem_map_kernel_memory tables y s)
  unfolding kmem_map_kernel_memory map_boot_modules
  map_kernel-IfAnyWith tables y s has =
      go (kmap_all tables.page_directory (kmap_calls y).0 (map_boot_modules tables s))
        (kmap_all-IfAny tables.page_directory (kmap_calls y).0 (map_boot_modules tables s) has)
    where
      go :
          (r : Option Space)
          → IfAny r
          → IfAnyWith (elim r [ none ↦ none | some s1 ↦ some (s1, (kmap_calls y).1) ])
      go none has = tt
      go (some s1) has = has

  kmem_init-IfAnyWith :
      (tables : Addresses) (y : KernelLayout) (pool : Pool) (s : Space)
      → Has s
      → IfAnyWith (kmem_init tables y s pool)
  unfolding kmem_init
  kmem_init-IfAnyWith tables y pool s has =
      go (kmem_map_kernel_memory tables y s) (map_kernel-IfAnyWith tables y s has)
    where
      go :
          (r : Option (Space × ℕ))
          → IfAnyWith r
          → IfAnyWith {A = ℕ × Pool} (elim r [
            | none ↦ none
            | some (s1, start) ↦ some (
              s1,
              (
                sub32 tables.page_directory s1.kinfo.kernel_high_vma,
                kmalloc_init start kheap_size pool,
              ),
            )
          ])
      go none has = tt
      go (some (s1, start)) has = has

  identity-Has : (tables : Addresses) (s : Space) → Has s → Has (identity_map_init_mem tables s)
  unfolding bootstrap_identity_map_init_mem
  identity-Has tables s has = has

  -- The first lines of bootstrap keep the list of the modules.
  pub prepare_memory-IfAny :
      (tables : Addresses) (y : KernelLayout) (pool : Pool) (s : Space)
      → Has s
      → IfAny (prepare_memory tables y pool s)
  unfolding prepare_memory
  prepare_memory-IfAny tables y pool s has =
      go (kmem_init tables y s pool) (kmem_init-IfAnyWith tables y pool s has)
    where
      go :
          (r : Option (Space × (ℕ × Pool)))
          → IfAnyWith r
          → IfAny (elim r [
            | none ↦ none
            | some (s1, (loaded_directory, pool1)) ↦ some (identity_map_init_mem tables s1)
          ])
      go none has = tt
      go (some (s1, (loaded_directory, pool1))) has = identity-Has tables s1 has
