-- ===== src/Kmem/Layout.antt =====
-- Where kmem_map_kernel_memory of kern/kmem.c maps the parts of the kernel.
use mathlib.Core.Option.{map}
use mathlib.Core.Path.{subst}
use mugo.Base.{ℕ, ◌+◌, ◌-◌, ◌^◌, ◌<◌, ◌≤◌, ◌≡◌, refl, sym, Option, none, some, List, [], ◌∷◌, arith}
use mugo.Paging.{Addresses, page_size, sub32}
use mugo.Paging.Map.{Space, kmap_prot_none, kmap_prot_read, kmap_prot_exec}
use mugo.Kmem.{
  KernelLayout, KmapCall, call, kheap_size, plus, read_write, kmap_calls, kmap_all,
  map_boot_modules, kmem_map_kernel_memory,
}

-- What arch/i686/link.ld lays out: the parts in this order, each where the one before it ends, the
-- guard of one page, and the console's page behind the stack.
pub record IsLinked (y : KernelLayout) : Type 0 where
  pub high : y.k_high_vma ≤ y.kernel_start
  pub ktable : y.kernel_start ≤ y.ktable_end
  pub text : y.ktable_end ≤ y.text_end
  pub bss_at : y.bss_start ≡ y.text_end
  pub bss : y.bss_start ≤ y.bss_end
  pub rodata : y.bss_end ≤ y.rodata_end
  pub data_order : y.rodata_end ≤ y.stack_guard_start
  pub stack_at : y.stack_start ≡ y.stack_guard_start + page_size
  pub stack : y.stack_start ≤ y.stack_end
  pub console_at : y.console_debug ≡ y.stack_end
  pub small : y.console_debug + page_size < 2 ^ 32

-- A part of the kernel, mapped to the memory `k_high_vma` below.
abbrev pub part : KernelLayout → (start end flags : ℕ) → KmapCall
part y start end flags = call start (start - y.k_high_vma) (end - start) flags

-- The parts, with their rights, and the heap behind the console.
abbrev pub parts : KernelLayout → List KmapCall
parts y =
    part y y.kernel_start y.ktable_end read_write
    ∷ part y y.ktable_end y.text_end (kmap_prot_read + kmap_prot_exec)
    ∷ part y y.bss_start y.bss_end read_write
    ∷ part y y.bss_end y.rodata_end kmap_prot_read
    ∷ part y y.rodata_end y.stack_guard_start read_write
    ∷ call y.stack_guard_start 0 page_size kmap_prot_none
    ∷ part y y.stack_start y.stack_end read_write
    ∷ call y.console_debug 0xB8000 page_size read_write
    ∷ call (y.console_debug + page_size) 0 kheap_size read_write
    ∷ []

sub32_lem : (a b : ℕ) → a ≤ b → b < 2 ^ 32 → sub32 b a ≡ b - a
sub32_lem a b le lt = omega arith

-- The running address steps from the end of one part to the end of the next.
plus_lem : (a b : ℕ) → a ≤ b → b < 2 ^ 32 → plus a (b - a) ≡ b
plus_lem a b le lt = omega arith

-- The running physical address does the same.
phys_plus_lem : (v a b : ℕ) → v ≤ a → a ≤ b → b < 2 ^ 32 → plus (a - v) (b - a) ≡ b - v
phys_plus_lem v a b le le' lt = omega arith

kmap_calls-parts :
    (y : KernelLayout) → IsLinked y → kmap_calls y ≡ (parts y, y.console_debug + page_size)
unfolding kmap_calls
kmap_calls-parts y linked =
    let high = linked.high in
    let ktable = linked.ktable in
    let text = linked.text in
    let bss : y.text_end ≤ y.bss_end = omega (arith, linked.bss, linked.bss_at) in
    let rodata = linked.rodata in
    let data_order = linked.data_order in
    let stack : y.stack_guard_start + page_size ≤ y.stack_end =
      omega (arith, linked.stack, linked.stack_at) in
    let small : y.stack_end + page_size < 2 ^ 32 = omega (arith, linked.small, linked.console_at) in
    let step : (a b : ℕ)
        → y.k_high_vma ≤ a
        → a ≤ b
        → b < 2 ^ 32
        → (sub32 b a ≡ b - a)
          × (plus a (b - a) ≡ b)
          × (plus (a - y.k_high_vma) (b - a) ≡ b - y.k_high_vma) =
      λ a b le le' lt.
        (sub32_lem a b le' lt, plus_lem a b le' lt, phys_plus_lem y.k_high_vma a b le le' lt) in
    let (s0, a0, p0) = step y.kernel_start y.ktable_end (omega arith) (omega arith) (omega arith) in
    let (s1, a1, p1) = step y.ktable_end y.text_end (omega arith) (omega arith) (omega arith) in
    let (s2, a2, p2) = step y.text_end y.bss_end (omega arith) (omega arith) (omega arith) in
    let (s3, a3, p3) = step y.bss_end y.rodata_end (omega arith) (omega arith) (omega arith) in
    let (s4, a4, p4) =
      step y.rodata_end y.stack_guard_start (omega arith) (omega arith) (omega arith) in
    let start = sub32_lem y.k_high_vma y.kernel_start high (omega arith) in
    let guard : plus y.stack_guard_start page_size ≡ y.stack_guard_start + page_size =
      omega arith in
    let guard_phys : plus (y.stack_guard_start - y.k_high_vma) page_size
        ≡ y.stack_guard_start + page_size - y.k_high_vma =
      omega arith in
    let stack_size = sub32_lem (y.stack_guard_start + page_size) y.stack_end stack (omega arith) in
    let stack_top = plus_lem (y.stack_guard_start + page_size) y.stack_end stack (omega arith) in
    let heap : plus y.stack_end page_size ≡ y.stack_end + page_size = omega arith in
    rw
      (
        linked.bss_at, linked.stack_at, linked.console_at, start, s0, a0, p0, s1, a1, p1, s2, a2,
        p2, s3, a3, p3, s4, a4, p4, guard, guard_phys, stack_size, stack_top, heap,
      )
      refl

-- With the linker's layout kmem_map_kernel_memory maps the boot modules and then calls kmap, in this
-- order, for each part of the kernel, with its rights, at its own symbol and the memory `k_high_vma`
-- below, for a page without rights between the data and the stack, for the console and for the heap
-- behind it: it panics when one of the calls does, and otherwise gives the memory behind the calls and the page behind the console as the heap's start.
pub map_kernel-parts :
    (at : Addresses) (y : KernelLayout) (s : Space)
    → IsLinked y
    → kmem_map_kernel_memory at y s
      ≡ map
          (λ s1. (s1, y.console_debug + page_size))
          (kmap_all at.page_directory (parts y) (map_boot_modules at s))
unfolding kmem_map_kernel_memory
map_kernel-parts at y s linked =
    subst
      (λ c.
        elim (kmap_all at.page_directory c.0 (map_boot_modules at s)) [
          | none ↦ none
          | some s1 ↦ some (s1, c.1)
        ]
        ≡ map {B = Space × ℕ} (λ s1. (s1, y.console_debug + page_size))
            (kmap_all at.page_directory (parts y) (map_boot_modules at s)))
      (sym (kmap_calls-parts y linked))
      (as_map (kmap_all at.page_directory (parts y) (map_boot_modules at s)))
  where
    as_map :
        (r : Option Space)
        → elim r [ none ↦ none | some s1 ↦ some (s1, y.console_debug + page_size) ]
          ≡ map {B = Space × ℕ} (λ s1. (s1, y.console_debug + page_size)) r
    as_map none = refl
    as_map (some s1) = refl
