-- ===== src/Elf.antt =====
-- lib/libelf/elf.c, the loader of ELF files, over the memory of bytes that holds the file. The
-- layouts are those of include/sys/elf_32.h, little-endian and packed by the fields' sizes.
pub mod Load
pub mod Header
pub mod Sections
pub mod Tests
use mugo.Base.{
  ℕ, zero, suc, ◌+◌, ◌-◌, ◌*◌, ◌^◌, ◌%◌, Bool, ◌&&◌, List, [], ◌∷◌, ◌==◌, if◌then◌else◌,
}
use mugo.Stdlib.{Bytes}

-- enum ElfError
abbrev pub elf_ok : ℕ
elf_ok = 0

abbrev pub elf_unsupp_machine : ℕ
elf_unsupp_machine = 1

abbrev pub elf_unsupp_class : ℕ
elf_unsupp_class = 2

abbrev pub elf_unsupp_byte_order : ℕ
elf_unsupp_byte_order = 3

abbrev pub elf_unsupp_version : ℕ
elf_unsupp_version = 4

abbrev pub elf_invalid_ph : ℕ
elf_invalid_ph = 6

abbrev pub elf_invalid_type : ℕ
elf_invalid_type = 7

abbrev pub elf_invalid_hdr : ℕ
elf_invalid_hdr = 8

-- Elf_Half and Elf_Word at an address.
abbrev pub elf_half : ℕ → Bytes → ℕ
elf_half p m = m p + m (p + 1) * 2 ^ 8

abbrev pub elf_word : ℕ → Bytes → ℕ
elf_word p m = elf_half p m + elf_half (p + 2) m * 2 ^ 16

-- The fields of an Elf_Hdr at `hdr` that the code reads.
abbrev pub e_ident : ℕ → ℕ → Bytes → ℕ
e_ident hdr i m = m (hdr + i)

abbrev pub e_type : ℕ → Bytes → ℕ
e_type hdr = elf_half (hdr + 16)

abbrev pub e_machine : ℕ → Bytes → ℕ
e_machine hdr = elf_half (hdr + 18)

abbrev pub e_phoff : ℕ → Bytes → ℕ
e_phoff hdr = elf_word (hdr + 28)

abbrev pub e_shoff : ℕ → Bytes → ℕ
e_shoff hdr = elf_word (hdr + 32)

abbrev pub e_phnum : ℕ → Bytes → ℕ
e_phnum hdr = elf_half (hdr + 44)

abbrev pub e_shnum : ℕ → Bytes → ℕ
e_shnum hdr = elf_half (hdr + 48)

-- Those of an Elf_Shdr, of 40 bytes.
abbrev pub sizeof_shdr : ℕ
sizeof_shdr = 40

abbrev pub sh_type : ℕ → Bytes → ℕ
sh_type shdr = elf_word (shdr + 4)

abbrev pub sh_link : ℕ → Bytes → ℕ
sh_link shdr = elf_word (shdr + 24)

abbrev pub sht_symtab : ℕ
sht_symtab = 2

-- elf_ctx_t, less `size`, which the code never touches.
pub record ElfCtx : Type 0 where
  pub elf_hdr : ℕ
  pub section_headers : ℕ
  pub symbol_table : ℕ
  pub string_table : ℕ
  pub program_headers : ℕ

abbrev pub elf_magic : List ℕ
elf_magic = 0x7F ∷ 0x45 ∷ 0x4C ∷ 0x46 ∷ []

abbrev pub elf_get_sheader : ℕ → Bytes → ℕ
elf_get_sheader hdr m = (hdr + e_shoff hdr m) % 2 ^ 32

-- The loop of elf_check_hdr over the rest of the magic bytes.
unfoldable pub check_magic : List ℕ → (i hdr : ℕ) → Bytes → ℕ
check_magic [] i hdr m = elf_ok
check_magic (c ∷ cs) i hdr m =
    let rest = check_magic cs (i + 1) hdr m in
    if e_ident hdr i m == c then rest else elf_invalid_hdr

unfoldable pub elf_check_hdr : ℕ → Bytes → ℕ
elf_check_hdr hdr m = check_magic elf_magic 0 hdr m

unfoldable pub elf_check_arch_supported : ℕ → Bytes → ℕ
elf_check_arch_supported hdr m =
    if e_ident hdr 4 m == 1
    then (if e_ident hdr 5 m == 1
        then (if e_machine hdr m == 3
            then (if e_ident hdr 6 m == 1
                then (if e_type hdr m == 1
                    then elf_ok
                    else (if e_type hdr m == 2 then elf_ok else elf_invalid_type))
                else elf_unsupp_version)
            else elf_unsupp_machine)
        else elf_unsupp_byte_order)
    else elf_unsupp_class

-- The loop of elf_ctx_create from section `i` on, for `left` sections.
unfoldable pub find_symbols : (left i : ℕ) → Bytes → ElfCtx → ElfCtx
find_symbols zero i m ctx = ctx
find_symbols (suc left) i m ctx =
    let shdr = ctx.section_headers + sizeof_shdr * i in
    find_symbols left (i + 1) m (
      if sh_type shdr m == sht_symtab
      then record ctx {
        symbol_table = shdr;
        string_table = ctx.section_headers + sizeof_shdr * sh_link shdr m;
      }
      else ctx)

-- The error and the context. `size` is not used.
unfoldable pub elf_ctx_create : ElfCtx → (buf : ℕ) → Bytes → ℕ × ElfCtx
elf_ctx_create ctx buf m =
    let opened : ElfCtx = record ctx {
      elf_hdr = buf;
      section_headers = elf_get_sheader buf m;
      program_headers = (buf + e_phoff buf m) % 2 ^ 32;
    } in
    if elf_check_hdr buf m == elf_ok
    then (if elf_check_arch_supported buf m == elf_ok
        then (elf_ok, find_symbols (e_shnum buf m - 1) 1 m opened)
        else (elf_check_arch_supported buf m, ctx))
    else (elf_check_hdr buf m, ctx)

-- The section of a header.
abbrev pub sh_offset : ℕ → Bytes → ℕ
sh_offset shdr = elf_word (shdr + 16)

unfoldable pub elf_ctx_get_section : ElfCtx → (sec_hdr : ℕ) → Bytes → ℕ
elf_ctx_get_section ctx sec_hdr m = (ctx.elf_hdr + sh_offset sec_hdr m) % 2 ^ 32

-- The names of the errors, in the order of the enumeration.
abbrev pub elf_err_names : List (List ℕ)
elf_err_names =
    (b'E' ∷ b'L' ∷ b'F' ∷ b'_' ∷ b'O' ∷ b'K' ∷ [])
    ∷ (b'E' ∷ b'L' ∷ b'F' ∷ b'_' ∷ b'U' ∷ b'N' ∷ b'S' ∷ b'U' ∷ b'P' ∷ b'P' ∷ b'_' ∷ b'M' ∷ b'A'
        ∷ b'C' ∷ b'H' ∷ b'I' ∷ b'N' ∷ b'E' ∷ [])
    ∷ (b'E' ∷ b'L' ∷ b'F' ∷ b'_' ∷ b'U' ∷ b'N' ∷ b'S' ∷ b'U' ∷ b'P' ∷ b'P' ∷ b'_' ∷ b'C' ∷ b'L'
        ∷ b'A' ∷ b'S' ∷ b'S' ∷ [])
    ∷ (b'E' ∷ b'L' ∷ b'F' ∷ b'_' ∷ b'U' ∷ b'N' ∷ b'S' ∷ b'U' ∷ b'P' ∷ b'P' ∷ b'_' ∷ b'B' ∷ b'Y'
        ∷ b'T' ∷ b'E' ∷ b'_' ∷ b'O' ∷ b'R' ∷ b'D' ∷ b'E' ∷ b'R' ∷ [])
    ∷ (b'E' ∷ b'L' ∷ b'F' ∷ b'_' ∷ b'U' ∷ b'N' ∷ b'S' ∷ b'U' ∷ b'P' ∷ b'P' ∷ b'_' ∷ b'V' ∷ b'E'
        ∷ b'R' ∷ b'S' ∷ b'I' ∷ b'O' ∷ b'N' ∷ [])
    ∷ (b'E' ∷ b'L' ∷ b'F' ∷ b'_' ∷ b'U' ∷ b'N' ∷ b'S' ∷ b'U' ∷ b'P' ∷ b'P' ∷ b'_' ∷ b'P' ∷ b'H'
        ∷ b'_' ∷ b'T' ∷ b'Y' ∷ b'P' ∷ b'E' ∷ [])
    ∷ (b'E' ∷ b'L' ∷ b'F' ∷ b'_' ∷ b'I' ∷ b'N' ∷ b'V' ∷ b'A' ∷ b'L' ∷ b'I' ∷ b'D' ∷ b'_' ∷ b'P'
        ∷ b'H' ∷ [])
    ∷ (b'E' ∷ b'L' ∷ b'F' ∷ b'_' ∷ b'I' ∷ b'N' ∷ b'V' ∷ b'A' ∷ b'L' ∷ b'I' ∷ b'D' ∷ b'_' ∷ b'T'
        ∷ b'Y' ∷ b'P' ∷ b'E' ∷ [])
    ∷ (b'E' ∷ b'L' ∷ b'F' ∷ b'_' ∷ b'I' ∷ b'N' ∷ b'V' ∷ b'A' ∷ b'L' ∷ b'I' ∷ b'D' ∷ b'_' ∷ b'H'
        ∷ b'D' ∷ b'R' ∷ [])
    ∷ []

abbrev pub name_at : List (List ℕ) → ℕ → List ℕ
name_at [] err = b'U' ∷ b'N' ∷ b'K' ∷ b'N' ∷ b'O' ∷ b'W' ∷ b'N' ∷ []
name_at (name ∷ names) zero = name
name_at (name ∷ names) (suc err) = name_at names err

unfoldable pub elf_strerror : (err : ℕ) → List ℕ
elf_strerror err = name_at elf_err_names err
