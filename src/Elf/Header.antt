-- ===== src/Elf/Header.antt =====
-- Which files elf_ctx_create of lib/libelf/elf.c accepts.
use mugo.Base.{ℕ, ◌≡◌, ◌↔◌, ◌⊎◌, arith}
use mugo.Stdlib.{Bytes}
use mugo.Elf.{
  elf_ok, e_ident, e_type, e_machine, ElfCtx, check_magic, elf_check_hdr, elf_check_arch_supported,
  elf_ctx_create,
}

-- A relocatable or executable ELF file for 32-bit little-endian i386, version 1, at `hdr`.
pub record IsSupported (hdr : ℕ) (m : Bytes) : Type 0 where
  pub magic_0 : e_ident hdr 0 m ≡ 0x7F
  pub magic_1 : e_ident hdr 1 m ≡ 0x45
  pub magic_2 : e_ident hdr 2 m ≡ 0x4C
  pub magic_3 : e_ident hdr 3 m ≡ 0x46
  pub class_32 : e_ident hdr 4 m ≡ 1
  pub little : e_ident hdr 5 m ≡ 1
  pub version_1 : e_ident hdr 6 m ≡ 1
  pub i386 : e_machine hdr m ≡ 3
  pub kind : (e_type hdr m ≡ 1) ⊎ (e_type hdr m ≡ 2)

check_hdr_iff :
    (hdr : ℕ) (m : Bytes)
    → (elf_check_hdr hdr m ≡ elf_ok) ↔ (
        (e_ident hdr 0 m ≡ 0x7F)
        × (e_ident hdr 1 m ≡ 0x45)
        × (e_ident hdr 2 m ≡ 0x4C)
        × (e_ident hdr 3 m ≡ 0x46))
unfolding elf_check_hdr check_magic
check_hdr_iff hdr m = (λ e. ground arith, λ h. ground arith)

check_arch_iff :
    (hdr : ℕ) (m : Bytes)
    → (elf_check_arch_supported hdr m ≡ elf_ok) ↔ (
        (e_ident hdr 4 m ≡ 1)
        × (e_ident hdr 5 m ≡ 1)
        × (e_ident hdr 6 m ≡ 1)
        × (e_machine hdr m ≡ 3)
        × ((e_type hdr m ≡ 1) ⊎ (e_type hdr m ≡ 2)))
unfolding elf_check_arch_supported
check_arch_iff hdr m = (λ e. ground arith, λ h. ground arith)

pub create_iff :
    (ctx : ElfCtx) (buf : ℕ) (m : Bytes)
    → ((elf_ctx_create ctx buf m).0 ≡ elf_ok)
      ↔ ((elf_check_hdr buf m ≡ elf_ok) × (elf_check_arch_supported buf m ≡ elf_ok))
unfolding elf_ctx_create
create_iff ctx buf m = (λ e. ground arith, λ h. ground arith)

-- elf_ctx_create succeeds exactly on the supported files.
pub create-IsSupported :
    (ctx : ElfCtx) (buf : ℕ) (m : Bytes)
    → ((elf_ctx_create ctx buf m).0 ≡ elf_ok) ↔ IsSupported buf m
create-IsSupported ctx buf m = (
  λ e.
      let (h, a) = (create_iff ctx buf m).0 e in
      let (m0, m1, m2, m3) = (check_hdr_iff buf m).0 h in
      let (class, order, version, machine, kind) = (check_arch_iff buf m).0 a in
      record {
        magic_0 = m0;
        magic_1 = m1;
        magic_2 = m2;
        magic_3 = m3;
        class_32 = class;
        little = order;
        version_1 = version;
        i386 = machine;
        kind = kind;
      },
  λ s. (create_iff ctx buf m).1 (
    (check_hdr_iff buf m).1 (s.magic_0, s.magic_1, s.magic_2, s.magic_3),
    (check_arch_iff buf m).1 (s.class_32, s.little, s.version_1, s.i386, s.kind),
  ),
)
