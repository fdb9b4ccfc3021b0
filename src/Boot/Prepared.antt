-- ===== src/Boot/Prepared.antt =====
-- The frames that bootstrap of kern/main.c takes before it loads the modules.
use mugo.Base.{ℕ, ◌+◌, Option, none, some, List, [], ◌∷◌, arith}
use mugo.Paging.{sub32, Addresses, bootstrap_identity_map_init_mem}
use mugo.Paging.Map.{Space, kmap}
use mugo.Kmem.{
  KernelLayout, KmapCall, kmap_calls, kmap_all, map_boot_modules, kmem_map_kernel_memory, kmem_init,
  kheap_size,
}
use mugo.Kmalloc.{Pool, kmalloc_init}
use mugo.Modules.Room.{Room, HasRoom, then_HasRoom, frames_for, mmap-HasRoom}
use mugo.Boot.{prepare_memory, identity_map_init_mem}

abbrev pub frames_of_calls : List KmapCall → ℕ
frames_of_calls [] = 0
frames_of_calls (c ∷ cs) = frames_for c.size + frames_of_calls cs

-- What the kernel's own parts take.
abbrev pub kernel_frames : KernelLayout → ℕ
kernel_frames y = frames_of_calls (kmap_calls y).0

module _ (limit : ℕ) where
  kmap_all-HasRoom :
      (pd k : ℕ) (cs : List KmapCall) (s : Space)
      → Room limit (frames_of_calls cs + k) s
      → HasRoom limit k (kmap_all pd cs s)
  unfolding kmap_all kmap
  kmap_all-HasRoom pd k [] s (pos, small) = (pos, omega arith)
  kmap_all-HasRoom pd k (c ∷ cs) s (pos, small) =
      then_HasRoom limit (frames_of_calls cs + k) k (kmap pd c.vaddr c.paddr c.size c.flags s)
        (kmap_all pd cs)
        (mmap-HasRoom limit 0 pd c.paddr c.vaddr c.size c.flags (frames_of_calls cs + k) s
          (pos, omega arith))
        (λ s1 room. kmap_all-HasRoom pd k cs s1 room)

  identity-Room :
      (tables : Addresses) (k : ℕ) (s : Space)
      → Room limit k s
      → Room limit k (identity_map_init_mem tables s)
  unfolding bootstrap_identity_map_init_mem
  identity-Room tables k s room = room

  -- There is a memory with room, beside what else a call gives.
  abbrev RoomWith : {A : Type 0} → ℕ → Option (Space × A) → Type 0
  RoomWith k none = ⊥
  RoomWith k (some (s, a)) = Room limit k s

  map_kernel-RoomWith :
      (tables : Addresses) (y : KernelLayout) (k : ℕ) (s : Space)
      → Room limit (kernel_frames y + k) s
      → RoomWith k (kmem_map_kernel_memory tables y s)
  unfolding kmem_map_kernel_memory map_boot_modules
  map_kernel-RoomWith tables y k s room =
      go (kmap_all tables.page_directory (kmap_calls y).0 (map_boot_modules tables s))
        (kmap_all-HasRoom tables.page_directory k (kmap_calls y).0 (map_boot_modules tables s) room)
    where
      go :
          (r : Option Space)
          → HasRoom limit k r
          → RoomWith k (elim r [ none ↦ none | some s1 ↦ some (s1, (kmap_calls y).1) ])
      go none room = room
      go (some s1) room = room

  kmem_init-RoomWith :
      (tables : Addresses) (y : KernelLayout) (pool : Pool) (k : ℕ) (s : Space)
      → Room limit (kernel_frames y + k) s
      → RoomWith k (kmem_init tables y s pool)
  unfolding kmem_init
  kmem_init-RoomWith tables y pool k s room =
      go (kmem_map_kernel_memory tables y s) (map_kernel-RoomWith tables y k s room)
    where
      go :
          (r : Option (Space × ℕ))
          → RoomWith k r
          → RoomWith {A = ℕ × Pool} k (elim r [
            | none ↦ none
            | some (s1, start) ↦ some (
              s1,
              (
                sub32 tables.page_directory s1.kinfo.kernel_high_vma,
                kmalloc_init start kheap_size pool,
              ),
            )
          ])
      go none room = room
      go (some (s1, start)) room = room

  -- The first lines of bootstrap do not panic, and leave the other frames.
  pub prepare_memory-HasRoom :
      (tables : Addresses) (y : KernelLayout) (pool : Pool) (k : ℕ) (s : Space)
      → Room limit (kernel_frames y + k) s
      → HasRoom limit k (prepare_memory tables y pool s)
  unfolding prepare_memory
  prepare_memory-HasRoom tables y pool k s room =
      go (kmem_init tables y s pool) (kmem_init-RoomWith tables y pool k s room)
    where
      go :
          (r : Option (Space × (ℕ × Pool)))
          → RoomWith k r
          → HasRoom limit k (elim r [
            | none ↦ none
            | some (s1, (loaded_directory, pool1)) ↦ some (identity_map_init_mem tables s1)
          ])
      go none room = room
      go (some (s1, (loaded_directory, pool1))) room = identity-Room tables k s1 room
