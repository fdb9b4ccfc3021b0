-- ===== src/Early.antt =====
-- arch/i686/early.c, which runs before paging is on: early_main reads the tags of the boot loader
-- into the kernel's information, over the memory of bytes. The pointers of one tag do not wrap.
mod Maps
mod Tags
mod Walk
mod Modules
pub mod Tables
pub mod Main
mod Tests
use mugo.Base.{
  ℕ, zero, suc, ◌+◌, ◌-◌, ◌*◌, ◌/◌, ◌%◌, ◌^◌, Bool, ◌&&◌, Option, none, some, ltb, leb, ◌==◌,
  if◌then◌else◌,
}
use mugo.Stdlib.{Bytes, store, memcpy}
use mugo.Elf.{elf_word}
use mugo.Paging.{BootModule, page, page_size, sub32}

abbrev pub no_memmaps : ℕ
no_memmaps = 20

abbrev pub no_modules_max : ℕ
no_modules_max = 5

abbrev pub max_module_name_len : ℕ
max_module_name_len = 32

-- struct multiboot_mmap_entry
pub record MemoryMap : Type 0 where
  pub addr : ℕ
  pub len : ℕ
  pub kind : ℕ
  pub reserved : ℕ

-- Words of 32 and 64 bits, little-endian.
abbrev pub word : ℕ → Bytes → ℕ
word p m = elf_word p m

abbrev pub read_map : ℕ → Bytes → MemoryMap
read_map p m = record {
  addr = word p m + word (p + 4) m * 2 ^ 32;
  len = word (p + 8) m + word (p + 12) m * 2 ^ 32;
  kind = word (p + 16) m;
  reserved = word (p + 20) m;
}

-- The memory, the parts of `kinfo` that the tags fill, and the local variables of early_main. The
-- arrays are by index, which C does not check; `names` has the field `name` of the modules.
pub record BootInfo : Type 0 where
  pub mem : Bytes
  pub memmaps : ℕ → MemoryMap
  pub saved_mmap_index : ℕ
  pub no_mmaps : ℕ
  pub mem_upper : ℕ
  pub modules : ℕ → BootModule
  pub names : ℕ → ℕ → ℕ
  pub module_index : ℕ
  pub no_modules : ℕ
  pub last_module_end_addr : ℕ
  pub total_module_size : ℕ

abbrev pub at : {A : Type 0} → ℕ → A → (ℕ → A) → ℕ → A
at i v f k = if k == i then v else f k

-- Type MULTIBOOT_MEMORY_AVAILABLE, above the first megabyte.
abbrev pub available : MemoryMap → Bool
available e = e.kind == 1 && leb 0x100000 e.addr

-- The body of the loop over the memory map.
unfoldable pub save_map : MemoryMap → BootInfo → BootInfo
save_map e s =
    if available e
    then record s {
      memmaps = at s.saved_mmap_index e s.memmaps;
      saved_mmap_index = suc s.saved_mmap_index;
      no_mmaps = suc s.no_mmaps;
    }
    else s

-- The loop, with fuel for each round and the last test; none when it runs out.
unfoldable pub save_maps :
    (fuel curr_addr mmap_end_addr entry_size : ℕ) → BootInfo → Option BootInfo
save_maps zero curr_addr mmap_end_addr entry_size s = none
save_maps (suc fuel) curr_addr mmap_end_addr entry_size s =
    let rest =
      save_maps fuel (curr_addr + entry_size) mmap_end_addr entry_size
        (save_map (read_map curr_addr s.mem) s) in
    if ltb curr_addr mmap_end_addr && ltb (suc s.saved_mmap_index) no_memmaps then rest else some s

-- The loop that copies the name, for `left` characters at most. It gives `p` and the name.
unfoldable pub copy_name : (left p i : ℕ) → Bytes → (ℕ → ℕ) → ℕ × (ℕ → ℕ)
copy_name zero p i m name = (p, name)
copy_name (suc left) p i m name =
    let rest = copy_name left (p + 1) (i + 1) m (at i (m p) name) in
    if m p == 0 then (p, name) else rest

-- An end of a module, moved up to a page.
abbrev pub page_align : ℕ → ℕ
page_align e = if e % page_size == 0 then e else (page e + page_size) % 2 ^ 32

abbrev pub mod_start : ℕ → Bytes → ℕ
mod_start tag m = word (tag + 8) m

abbrev pub mod_end : ℕ → Bytes → ℕ
mod_end tag m = word (tag + 12) m

-- The end of the module of a tag that is put at `start`.
abbrev pub end_from : (start tag : ℕ) → Bytes → ℕ
end_from start tag m = page_align ((start + sub32 (mod_end tag m) (mod_start tag m)) % 2 ^ 32)

-- The case MULTIBOOT_TAG_TYPE_MODULE behind its test. The loop that copies the module is that of
-- memcpy, and does nothing when the module ends before it starts.
unfoldable pub load_module : ℕ → BootInfo → BootInfo
load_module tag s =
    let i = s.module_index in
    let start = s.last_module_end_addr in
    let end = end_from start tag s.mem in
    let m = memcpy start (mod_start tag s.mem) (mod_end tag s.mem - mod_start tag s.mem) s.mem in
    let (p, name) = copy_name (max_module_name_len - 1) (tag + 16) 0 m (s.names i) in
    record s {
      mem = store p 0 m;
      modules = at i (record { start_paddr = start; end_paddr = end }) s.modules;
      names = at i name s.names;
      module_index = suc i;
      no_modules = suc s.no_modules;
      last_module_end_addr = end;
      total_module_size = (s.total_module_size + sub32 end start) % 2 ^ 32;
    }

abbrev pub tag_type : ℕ → Bytes → ℕ
tag_type tag m = word tag m

abbrev pub tag_size : ℕ → Bytes → ℕ
tag_size tag m = word (tag + 4) m

-- The switch. Its cases are MULTIBOOT_TAG_TYPE_MMAP, MULTIBOOT_TAG_TYPE_BASIC_MEMINFO and
-- MULTIBOOT_TAG_TYPE_MODULE. The fuel is enough for entries of at least one byte.
unfoldable pub read_tag : ℕ → BootInfo → Option BootInfo
read_tag tag s =
    if tag_type tag s.mem == 6
    then save_maps (tag_size tag s.mem + 1) (tag + 16) (tag + tag_size tag s.mem)
        (word (tag + 8) s.mem) s
    else (if tag_type tag s.mem == 4
        then some (record s { mem_upper = word (tag + 12) s.mem })
        else (if tag_type tag s.mem == 3 && leb (suc s.module_index) no_modules_max
            then some (load_module tag s)
            else some s))

-- `(tag->size + 7) & ~7` bytes on.
abbrev pub next_tag : ℕ → Bytes → ℕ
next_tag tag m = tag + (tag_size tag m + 7) / 8 * 8

-- The loop over the tags, with fuel for each of them and the end; none when it runs out.
unfoldable pub read_tags : (fuel tag : ℕ) → BootInfo → Option BootInfo
read_tags zero tag s = none
read_tags (suc fuel) tag s =
    let rest : Option BootInfo = elim (read_tag tag s) [
      | none ↦ none
      | some s1 ↦ read_tags fuel (next_tag tag s1.mem) s1
    ] in
    if tag_type tag s.mem == 0 then some s else rest
