-- ===== src/Elf/Load.antt =====
-- elf_ctx_load of lib/libelf/elf.c. The callbacks of exec_info_t are parameters; `S` is what they
-- act on, and `mem` the memory in it.
pub mod Headers
use Prim.Native.Nat.{bit_and, bit_or}
use mugo.Base.{
  ℕ, zero, suc, ◌+◌, ◌-◌, ◌*◌, ◌^◌, ◌%◌, Bool, true, false, ◌&&◌, ◌||◌, Option, none, some, ltb,
  ◌==◌, if◌then◌else◌,
}
use mugo.Stdlib.{Bytes, memcpy}
use mugo.Elf.{elf_word, elf_ok, elf_invalid_hdr, elf_invalid_ph, e_phnum, ElfCtx}

-- Elf_Phdr, of 32 bytes.
pub record Phdr : Type 0 where
  pub p_type : ℕ
  pub p_offset : ℕ
  pub p_vaddr : ℕ
  pub p_filesz : ℕ
  pub p_memsz : ℕ
  pub p_flags : ℕ
  pub p_align : ℕ

abbrev pub sizeof_phdr : ℕ
sizeof_phdr = 32

abbrev pub phdr_at : ℕ → Bytes → Phdr
phdr_at p m = record {
  p_type = elf_word p m;
  p_offset = elf_word (p + 4) m;
  p_vaddr = elf_word (p + 8) m;
  p_filesz = elf_word (p + 16) m;
  p_memsz = elf_word (p + 20) m;
  p_flags = elf_word (p + 24) m;
  p_align = elf_word (p + 28) m;
}

abbrev pub pt_load : ℕ
pt_load = 1

abbrev pub pf_w : ℕ
pf_w = 2

abbrev pub pf_r : ℕ
pf_r = 4

abbrev pub page_allocate : ℕ
page_allocate = 0

-- ARCH_MAIN_THREAD_STACK_ADDR, ARCH_MAIN_THREAD_STACK_SIZE and ARCH_PAGE_SIZE
abbrev pub main_thread_stack_addr : ℕ
main_thread_stack_addr = 0x80000000

abbrev pub main_thread_stack_size : ℕ
main_thread_stack_size = 0x4000

abbrev pub arch_page_size : ℕ
arch_page_size = 4096

-- exec_info_t of include/exec.h: the callbacks, none for NULL, and the stack.
pub record ExecInfo (W : Type 0) : Type 0 where
  pub main_thread_stack_top : ℕ
  pub mmap : Option ((paddr vaddr size flags : ℕ) → W → W)
  pub on_load : W → W

-- A condition of C in which the operands of `%` may be zero: none is the fault.
abbrev pub not_multiple : ℕ → ℕ → Option Bool
not_multiple x zero = none
not_multiple x (suc n) = some (if x % suc n == 0 then false else true)

-- `a || b`, left to right.
abbrev pub or_else : Option Bool → Option Bool → Option Bool
or_else none b = none
or_else (some true) b = some true
or_else (some false) b = b

-- The third test of the loop's body.
unfoldable pub misaligned : Phdr → Option Bool
misaligned h =
    if ltb h.p_align 2 && (bit_and h.p_align ((h.p_align + 2 ^ 32 - 1) % 2 ^ 32) == 0)
    then or_else (not_multiple h.p_vaddr h.p_align) (not_multiple h.p_offset h.p_align)
    else some false

module _ {W : Type 0} (mem : W → Bytes) (write : Bytes → W → W) where
  -- The calls that load one segment of the file at `hdr`.
  abbrev pub load_segment : ((paddr vaddr size flags : ℕ) → W → W) → (hdr : ℕ) → Phdr → W → W
  load_segment mmap hdr h w =
      let w1 = mmap page_allocate h.p_vaddr h.p_memsz (bit_or h.p_flags pf_w) w in
      let w2 = write (memcpy h.p_vaddr (hdr + h.p_offset) h.p_filesz (mem w1)) w1 in
      mmap 0 h.p_vaddr h.p_memsz h.p_flags w2

  -- The loop's body: none for a fault, or ELF_OK to go on and another code to return.
  unfoldable pub load_phdr :
      ((paddr vaddr size flags : ℕ) → W → W) → (hdr : ℕ) → Phdr → W → Option (ℕ × W)
  load_phdr mmap hdr h w =
      if h.p_type == pt_load
      then (if ltb h.p_memsz h.p_filesz then some (elf_invalid_ph, w) else elim (misaligned h) [
        | none ↦ none
        | some true ↦ some (elf_invalid_ph, w)
        | some false ↦ some (elf_ok, if h.p_filesz == 0 then w else load_segment mmap hdr h w)
      ])
      else some (elf_ok, w)

  -- The loop from header `i` on, for `left` headers.
  unfoldable pub load_from :
      ((paddr vaddr size flags : ℕ) → W → W) → ElfCtx → (left i : ℕ) → W → Option (ℕ × W)
  load_from mmap ctx zero i w = some (elf_ok, w)
  load_from mmap ctx (suc left) i w =
      elim (load_phdr mmap ctx.elf_hdr (phdr_at (ctx.program_headers + sizeof_phdr * i) (mem w))
        w) [
          | none ↦ none
          | some (err, w1) ↦
              let rest = load_from mmap ctx left (i + 1) w1 in
              if err == elf_ok then rest else some (err, w1)
        ]

  -- `info` is none for NULL. The result has the error, `info` after the call, and the state.
  unfoldable pub elf_ctx_load :
      ElfCtx → Option (ExecInfo W) → W → Option (ℕ × Option (ExecInfo W) × W)
  elf_ctx_load ctx none w = some (elf_invalid_hdr, none, w)
  elf_ctx_load ctx (some info) w = elim info.mmap [
    | none ↦ some (elf_invalid_hdr, some info, w)
    | some mmap ↦ elim (load_from mmap ctx (e_phnum ctx.elf_hdr (mem w)) 0 (info.on_load w)) [
      | none ↦ none
      | some (err, w1) ↦
          if err == elf_ok
          then some (
            elf_ok,
            some (record info { main_thread_stack_top = main_thread_stack_addr }),
            mmap page_allocate (main_thread_stack_addr - main_thread_stack_size)
                (main_thread_stack_size + arch_page_size) (bit_or pf_w pf_r) w1,
          )
          else some (err, some info, w1)
    ]
  ]
