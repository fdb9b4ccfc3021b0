-- ===== src/Kmem.antt =====
-- kern/kmem.c, the kernel's mappings. mmap, which only returns 0, has no definition; what
-- page_fault_handler logs is in Printf/Kernel.
mod Layout
pub mod Tests
use mugo.Base.{
  ℕ, zero, suc, ◌+◌, ◌-◌, ◌*◌, ◌/◌, ◌%◌, ◌^◌, ◌&&◌, Option, none, some, List, [], ◌∷◌, ltb, leb,
  ◌==◌, if◌then◌else◌,
}
use mugo.Paging.{Addresses, Table, Tables, page_size, sub32, bootstrap_map_boot_modules}
use mugo.Kmalloc.{Pool, kmalloc_init}
use mugo.Paging.Map.{
  Words, Space, entry, kmap, kmap_prot_none, kmap_prot_read, kmap_prot_write, kmap_prot_exec,
}

-- The symbols of the linker script.
pub record KernelLayout : Type 0 where
  pub k_high_vma : ℕ
  pub kernel_start : ℕ
  pub ktable_end : ℕ
  pub text_end : ℕ
  pub bss_start : ℕ
  pub bss_end : ℕ
  pub rodata_end : ℕ
  pub stack_guard_start : ℕ
  pub stack_start : ℕ
  pub stack_end : ℕ
  pub console_debug : ℕ

-- A call of kmap.
pub record KmapCall : Type 0 where
  pub vaddr : ℕ
  pub paddr : ℕ
  pub size : ℕ
  pub flags : ℕ

abbrev pub call : (vaddr paddr size flags : ℕ) → KmapCall
call vaddr paddr size flags = record { vaddr = vaddr; paddr = paddr; size = size; flags = flags }

-- CONF_KHEAP_SIZE
abbrev pub kheap_size : ℕ
kheap_size = 0x1000000

abbrev pub plus : ℕ → ℕ → ℕ
plus a size = (a + size) % 2 ^ 32

abbrev pub read_write : ℕ
read_write = kmap_prot_read + kmap_prot_write

-- The calls that kmem_map_kernel_memory makes, in order, and the start of the heap. `a` is
-- `curr_addr` and `p` is `curr_addr_phys`.
unfoldable pub kmap_calls : KernelLayout → List KmapCall × ℕ
kmap_calls y =
    let a = y.kernel_start in
    let p = sub32 y.kernel_start y.k_high_vma in
    let ktable = sub32 y.ktable_end y.kernel_start in
    let a1 = plus a ktable in
    let p1 = plus p ktable in
    let text = sub32 y.text_end y.ktable_end in
    let a2 = plus a1 text in
    let p2 = plus p1 text in
    let bss = sub32 y.bss_end y.bss_start in
    let a3 = plus a2 bss in
    let p3 = plus p2 bss in
    let rodata = sub32 y.rodata_end y.bss_end in
    let a4 = plus a3 rodata in
    let p4 = plus p3 rodata in
    let data_size = sub32 y.stack_guard_start y.rodata_end in
    let a5 = plus a4 data_size in
    let p5 = plus p4 data_size in
    let a6 = plus a5 page_size in
    let p6 = plus p5 page_size in
    let stack = sub32 y.stack_end y.stack_start in
    let kheap_start = plus (plus a6 stack) page_size in
    (
      call a p ktable read_write
          ∷ call a1 p1 text (kmap_prot_read + kmap_prot_exec)
          ∷ call a2 p2 bss read_write
          ∷ call a3 p3 rodata kmap_prot_read
          ∷ call a4 p4 data_size read_write
          ∷ call a5 0 page_size kmap_prot_none
          ∷ call a6 p6 stack read_write
          ∷ call y.console_debug 0xB8000 page_size read_write
          ∷ call kheap_start 0 kheap_size read_write
          ∷ [],
      kheap_start,
    )

unfoldable pub kmap_all : (pd : ℕ) → List KmapCall → Space → Option Space
kmap_all pd [] s = some s
kmap_all pd (c ∷ cs) s = elim (kmap pd c.vaddr c.paddr c.size c.flags s) [
  | none ↦ none
  | some s1 ↦ kmap_all pd cs s1
]

-- A table in the memory, and the memory with a table.
abbrev pub table_at : ℕ → Words → Table
table_at a w i = w (entry a i)

abbrev pub put_table : ℕ → Table → Words → Words
put_table a t w k =
    if leb a k && ltb k (a + page_size) && ((k - a) % 4 == 0) then t ((k - a) / 4) else w k

-- bootstrap_map_boot_modules on the tables where they lie.
unfoldable pub map_boot_modules : Addresses → Space → Space
map_boot_modules at s =
    let t : Tables = record {
      boot_page_directory = table_at at.boot_page_directory s.words;
      page_directory = table_at at.page_directory s.words;
      bootstrap_pt = table_at at.bootstrap_pt s.words;
      module_bootstrap_pt = table_at at.module_bootstrap_pt s.words;
      loaded = 0;
    } in
    let t' = bootstrap_map_boot_modules at s.kinfo t in
    record s {
      words =
          put_table at.page_directory t'.page_directory
            (put_table at.bootstrap_pt t'.bootstrap_pt s.words);
    }

-- It gives `info->kheap_range.start` beside the memory; none is the panic of kmap.
unfoldable pub kmem_map_kernel_memory : Addresses → KernelLayout → Space → Option (Space × ℕ)
kmem_map_kernel_memory at y s =
    let (calls, kheap_start) = kmap_calls y in
    elim (kmap_all at.page_directory calls (map_boot_modules at s)) [
      | none ↦ none
      | some s1 ↦ some (s1, kheap_start)
    ]

-- It gives the memory, the physical address of the directory that is loaded, and the pool of the
-- kernel's heap.
unfoldable pub kmem_init : Addresses → KernelLayout → Space → Pool → Option (Space × (ℕ × Pool))
kmem_init at y s pool = elim (kmem_map_kernel_memory at y s) [
  | none ↦ none
  | some (s1, kheap_start) ↦ some (
    s1,
    (sub32 at.page_directory s1.kinfo.kernel_high_vma, kmalloc_init kheap_start kheap_size pool),
  )
]
