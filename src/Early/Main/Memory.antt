-- ===== src/Early/Main/Memory.antt =====
-- What early_main of arch/i686/early.c makes of the tags as a whole.
use mugo.Base.{ℕ, ◌+◌, ◌-◌, ◌%◌, ◌^◌, ◌<◌, ◌≤◌, ◌≡◌, refl, ◌∙◌, ap, true, some, ◌==◌, arith}
use mugo.Paging.{sub32}
use mugo.Early.{BootInfo, read_tags}
use mugo.Early.Modules.{IsPlaced}
use mugo.Early.Tags.{Ends}
use mugo.Early.Walk.{read_tags-IsPlaced}
use mugo.Early.Tables.{Symbols, BootTables}
use mugo.Early.Main.{
  sub64, before_tags, after_tags, finish, finish_walk, multiboot2_magic, early_main,
}

abbrev pub phys_end : Symbols → ℕ
phys_end y = sub32 y.kernel_end y.k_high_vma

phys_end-IsPlaced : (y : Symbols) (s : BootInfo) → IsPlaced (phys_end y) (before_tags y s)
unfolding before_tags
phys_end-IsPlaced y s = record {
  chain = λ i lt. absurd (omega arith);
  aligned = λ i lt. absurd (omega arith);
  last = refl;
  total = omega arith;
  total_small = omega arith;
  few = omega arith;
}

early_main_lem :
    (fuel magic img : ℕ) (y : Symbols) (s s' : BootInfo) (t : BootTables)
    → magic ≡ multiboot2_magic
    → read_tags fuel (img + 8) (before_tags y s) ≡ some s'
    → early_main fuel y magic img s t ≡ finish y s' t
unfolding early_main finish_walk
early_main_lem fuel magic img y s s' t known run =
    let is_known : (magic == multiboot2_magic) ≡ true = ground (arith, known) in
    rw (is_known, run) refl

-- If the boot loader is a Multiboot2 loader, and `n` well-formed tags and the end tag lie below the
-- kernel's end, then early_main ends, with fuel for `n + 1` tags, and either hands over or halts
-- with the modules back to back and on pages from the kernel's end on, at most five, and at most 19
-- memory maps saved.
pub early_main-IsPlaced :
    (hi n magic img : ℕ) (y : Symbols) (s : BootInfo) (t : BootTables)
    → magic ≡ multiboot2_magic
    → Ends hi n (img + 8) 0 (phys_end y) s.mem
    → hi ≤ phys_end y
    → (s' : BootInfo) × (early_main (n + 1) y magic img s t ≡ finish y s' t)
      × IsPlaced (phys_end y) s'
      × (s'.saved_mmap_index ≤ 19)
unfolding before_tags
early_main-IsPlaced hi n magic img y s t known ends above =
    let (s', run, placed, le) =
      read_tags-IsPlaced hi (phys_end y) n (img + 8) (before_tags y s) ends above
        (phys_end-IsPlaced y s) (omega arith) in
    (s', early_main_lem (n + 1) magic img y s s' t known run, placed, le)

sub64_lem : (a b : ℕ) → b ≤ a → a < 2 ^ 64 → sub64 a b ≡ a - b
sub64_lem a b le lt = omega arith

-- If the first memory map holds the kernel's end and the end of the modules behind it, it ends
-- where it did before, and begins at the end of the modules.
pub after_tags-memory :
    (y : Symbols) (s : BootInfo)
    → IsPlaced (phys_end y) s
    → (s.memmaps 0).addr ≤ phys_end y
    → phys_end y ≤ s.last_module_end_addr
    → s.last_module_end_addr ≤ (s.memmaps 0).addr + (s.memmaps 0).len
    → (s.memmaps 0).len < 2 ^ 64
    → let map = (after_tags y s).memmaps 0 in
      (map.addr ≡ s.last_module_end_addr)
      × (map.addr + map.len ≡ (s.memmaps 0).addr + (s.memmaps 0).len)
unfolding after_tags
after_tags-memory y s placed below above inside small =
    let total : phys_end y + s.total_module_size ≡ s.last_module_end_addr =
      omega (arith, placed.total, placed.total_small) in
    let front : sub64 (phys_end y) (s.memmaps 0).addr % 2 ^ 32 ≡ phys_end y - (s.memmaps 0).addr =
      ap (λ d. d % 2 ^ 32) (sub64_lem (phys_end y) (s.memmaps 0).addr below (omega arith))
      ∙ omega arith in
    (
      refl,
      rw
          (
            front,
            sub64_lem (s.memmaps 0).len (phys_end y - (s.memmaps 0).addr) (omega arith) small,
            sub64_lem ((s.memmaps 0).len - (phys_end y - (s.memmaps 0).addr)) s.total_module_size
                (omega arith) (omega arith),
          )
          (omega arith),
    )
