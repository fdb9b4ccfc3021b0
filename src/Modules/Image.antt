-- ===== src/Modules/Image.antt =====
-- The files of the modules that load_boot_modules of kern/main.c loads, and one program header.
use mugo.Base.{
  ℕ, zero, suc, ◌+◌, ◌-◌, ◌*◌, ◌%◌, ◌^◌, ◌≡◌, refl, Bool, true, Bool-cases, inl, inr, Option, none,
  some, List, [], ◌∷◌, length, ◌==◌, if◌then◌else◌, arith, ◌∙◌,
}
use Prim.Native.Nat.{bit_or}
use mugo.Stdlib.{Bytes, memcpy}
use mugo.Paging.Map.{Space, bootstrap_elf_mmap, elf_flags, bootstrap_mmap}
use mugo.Elf.{
  elf_ok, ElfCtx, elf_ctx_create, e_phoff, e_phnum, e_shnum, find_symbols, sizeof_shdr, sh_type,
  sht_symtab, sh_link,
}
use mugo.Elf.Header.{IsSupported, create_iff}
use mugo.Elf.Load.{
  Phdr, pt_load, page_allocate, main_thread_stack_addr, main_thread_stack_size, arch_page_size,
}
use mugo.Elf.Load.Headers.{IsAccepted, All, Table, load_header}
use mugo.Modules.{Memory, e_entry, tables_reached, elf_mmap, memory_bytes, write_bytes, no_ctx}
use mugo.Modules.Room.{Room, HasRoom, frames_for, mmap-HasRoom}

abbrev pub stack_size : ℕ
stack_size = main_thread_stack_size + arch_page_size

-- A file in memory: it is supported, and its header gives the place and the number of the program
-- headers `hs` and the entry point.
pub record IsFile (start phoff entry : ℕ) (hs : List Phdr) (m : Bytes) : Type 0 where
  pub supported : IsSupported start m
  pub phoff_eq : e_phoff start m ≡ phoff
  pub phnum_eq : e_phnum start m ≡ length hs
  pub entry_eq : e_entry start m ≡ entry

-- The frames that the segments take at most: each is mapped twice.
abbrev pub frames_for_all : List Phdr → ℕ
frames_for_all [] = 0
frames_for_all (h ∷ hs) = frames_for h.p_memsz + (frames_for h.p_memsz + frames_for_all hs)

find_symbols-keeps :
    (left i : ℕ) (m : Bytes) (ctx : ElfCtx)
    → ((find_symbols left i m ctx).elf_hdr ≡ ctx.elf_hdr)
      × ((find_symbols left i m ctx).program_headers ≡ ctx.program_headers)
unfolding find_symbols
find_symbols-keeps zero i m ctx = (refl, refl)
find_symbols-keeps (suc left) i m ctx =
    let shdr = ctx.section_headers + sizeof_shdr * i in
    let found : ElfCtx = record ctx {
      symbol_table = shdr;
      string_table = ctx.section_headers + sizeof_shdr * sh_link shdr m;
    } in
    let same : (b : Bool)
        → ((if b then found else ctx).elf_hdr ≡ ctx.elf_hdr)
          × ((if b then found else ctx).program_headers ≡ ctx.program_headers) =
      λ b. (ground arith, ground arith) in
    let rest =
      find_symbols-keeps left (i + 1) m (if sh_type shdr m == sht_symtab then found else ctx) in
    let here = same (sh_type shdr m == sht_symtab) in (rest.0 ∙ here.0, rest.1 ∙ here.1)

pub All-at :
    {A : Type 0} (P : A → Phdr → Type 0) (a : A) (hs : List Phdr)
    → All (λ h. (a : A) → P a h) hs
    → All (P a) hs
All-at P a [] all = tt
All-at P a (h ∷ hs) all = (all.0 a, All-at P a hs all.1)

-- The context of a supported file.
pub record IsOpened (start : ℕ) (m : Bytes) (ctx : ElfCtx) : Type 0 where
  pub hdr_eq : ctx.elf_hdr ≡ start
  pub headers_eq : ctx.program_headers ≡ (start + e_phoff start m) % 2 ^ 32

pub create-IsOpened :
    (start : ℕ) (m : Bytes)
    → (elf_ctx_create no_ctx start m).0 ≡ elf_ok
    → IsOpened start m (elf_ctx_create no_ctx start m).1
unfolding elf_ctx_create
create-IsOpened start m ok =
    let (hdr_ok, arch_ok) = (create_iff no_ctx start m).0 ok in
    let kept = find_symbols-keeps (e_shnum start m - 1) 1 m _ in
    rw (hdr_ok, arch_ok) record { hdr_eq = kept.0; headers_eq = kept.1 }

module _ {Ram : Type 0} (view : (cr3 : ℕ) → Space → Ram → Bytes)
    (write : (cr3 : ℕ) → Space → Bytes → Ram → Ram) (reach : (cr3 : ℕ) → Space → ℕ → Bool)
    (limit : ℕ) (Holds : (cr3 : ℕ) → Memory Ram → Type 0) where
  -- There is a memory with room for `k` frames below `limit`, in which the files hold with `pd` loaded.
  abbrev pub Ready : (pd k : ℕ) → Option (Memory Ram) → Type 0
  Ready pd k none = ⊥
  Ready pd k (some w) = Room limit k w.space × Holds pd w

  -- A mapping of new frames in the loaded directory reaches its tables and keeps the files.
  abbrev pub Maps : (pd vaddr size : ℕ) → Type 0
  Maps pd vaddr size =
      (flags : ℕ) (w : Memory Ram) (s : Space)
      → Room limit (frames_for size) w.space
      → Holds pd w
      → bootstrap_elf_mmap pd page_allocate vaddr size flags w.space ≡ some s
      → (tables_reached (reach pd w.space) pd vaddr size w.space.words s.words ≡ true)
        × Holds pd (record w { space = s })

  -- The copy of a segment, as the loaded directory shows the memory, keeps the files.
  abbrev pub Copies : (pd hdr : ℕ) → Phdr → Type 0
  Copies pd hdr h =
      (w : Memory Ram)
      → Holds pd w
      → Holds pd record w {
        ram =
            write pd w.space
              (memcpy h.p_vaddr (hdr + h.p_offset) h.p_filesz
                (memory_bytes view write reach pd (some w)))
              w.ram;
      }

  -- What loading a segment needs.
  abbrev pub Loads : (hdr : ℕ) → Phdr → (pd : ℕ) → Type 0
  Loads hdr h pd = (h.p_type ≡ pt_load) → Maps pd h.p_vaddr h.p_memsz × Copies pd hdr h

  -- A module's file, with what the calls for it need when its page directory is loaded.
  pub record IsImage (start phoff entry : ℕ) (hs : List Phdr) : Type 0 where
    pub file :
        (pd : ℕ) (w : Memory Ram)
        → Holds pd w
        → IsFile start phoff entry hs (memory_bytes view write reach pd (some w))
    pub table :
        (pd : ℕ) (w : Memory Ram)
        → Holds pd w
        → Table
            (memory_bytes view write reach pd)
            (write_bytes view write reach pd)
            (λ p v z f w. w)
            ((start + phoff) % 2 ^ 32)
            hs
            (memory_bytes view write reach pd (some w))
    pub accepted : All IsAccepted hs
    pub segments : All (λ h. (pd : ℕ) → Loads start h pd) hs
    pub stack : (pd : ℕ) → Maps pd (main_thread_stack_addr - main_thread_stack_size) stack_size

  less-Ready : (pd j k : ℕ) (w : Option (Memory Ram)) → Ready pd (j + k) w → Ready pd k w
  less-Ready pd j k none ready = ready
  less-Ready pd j k (some w) ((pos, small), holds) = ((pos, omega arith), holds)

  pub mmap-Ready :
      (pd vaddr size flags k : ℕ) (w : Option (Memory Ram))
      → Maps pd vaddr size
      → Ready pd (frames_for size + k) w
      → Ready pd k (elf_mmap reach pd pd page_allocate vaddr size flags w)
  unfolding elf_mmap bootstrap_elf_mmap
  mmap-Ready pd vaddr size flags k none maps ready = ready
  mmap-Ready pd vaddr size flags k (some w) maps (room0, holds) =
      next (bootstrap_mmap 4 pd page_allocate vaddr size (elf_flags flags) w.space) refl
        (mmap-HasRoom limit 4 pd page_allocate vaddr size (elf_flags flags) k w.space room0)
    where
      next :
          (r : Option Space)
          → bootstrap_mmap 4 pd page_allocate vaddr size (elf_flags flags) w.space ≡ r
          → HasRoom limit k r
          → Ready pd k (elim r [
            | none ↦ none
            | some s ↦
                if tables_reached (reach pd w.space) pd vaddr size w.space.words s.words
                then some (record w { space = s })
                else none
          ])
      next none e room = room
      next (some s) e room =
          let (reached, kept) = maps flags w s (room0.0, omega arith) holds e in
          rw reached (room, kept)

  write-Ready :
      (pd hdr k : ℕ) (h : Phdr) (w : Option (Memory Ram))
      → Copies pd hdr h
      → Ready pd k w
      → Ready pd k (
          write_bytes view write reach pd
            (memcpy h.p_vaddr (hdr + h.p_offset) h.p_filesz (memory_bytes view write reach pd w))
            w)
  write-Ready pd hdr k h none copies ready = ready
  write-Ready pd hdr k h (some w) copies (room, holds) = (room, copies w holds)

  pub header-Ready :
      (pd hdr k : ℕ) (h : Phdr) (w : Option (Memory Ram))
      → Loads hdr h pd
      → Ready pd (frames_for h.p_memsz + (frames_for h.p_memsz + k)) w
      → Ready pd k (
          load_header
            (memory_bytes view write reach pd)
            (write_bytes view write reach pd)
            (elf_mmap reach pd pd)
            hdr
            h
            w)
  header-Ready pd hdr k h w loads ready =
      let more = frames_for h.p_memsz in
      let kept : Ready pd k w = less-Ready pd more k w (less-Ready pd more (more + k) w ready) in
      elim (Bool-cases (h.p_type == pt_load)) [
        | inl load ↦ elim (Bool-cases (h.p_filesz == 0)) [
          | inl empty ↦ rw (load, empty) kept
          | inr full ↦
              let needs = loads (ground (arith, load)) in
              rw (load, full)
                (mmap-Ready pd h.p_vaddr h.p_memsz h.p_flags k _ needs.0 (
                  write-Ready pd hdr (more + k) h _ needs.1 (
                    mmap-Ready pd h.p_vaddr h.p_memsz (bit_or h.p_flags 2) (more + k) w needs.0
                      ready)))
        ]
        | inr pass ↦ rw pass kept
      ]
