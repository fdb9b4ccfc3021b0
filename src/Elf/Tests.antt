-- ===== src/Elf/Tests.antt =====
-- A small file, and the theorems of lib/libelf/elf.c at it.
use mathlib.Core.Path.{subst}
use mugo.Base.{
  ℕ, ◌+◌, ◌≤◌, ◌<◌, ◌≡◌, ◌≢◌, ◌↔◌, refl, ◌∙◌, inl, inr, List, [], ◌∷◌, some, ◌==◌, if◌then◌else◌,
  arith,
}
use mugo.Stdlib.{Bytes}
use mugo.Stdlib.Copy.{memcpy_lem}
use mugo.Elf.{ElfCtx, elf_ok, elf_word, elf_ctx_create, sh_type, sht_symtab}
use mugo.Elf.Header.{IsSupported, create-IsSupported}
use mugo.Elf.Sections.{section}
use mugo.Elf.Load.{Phdr, load_from}
use mugo.Elf.Load.Headers.{Table, IsAccepted, load_header, load_headers, load_from-headers}

abbrev pub lookup : List (ℕ × ℕ) → ℕ → ℕ
lookup [] p = 0
lookup ((q, v) ∷ rest) p = if p == q then v else lookup rest p

-- An executable with one segment of four bytes, for address 200, and a symbol table in section 1.
abbrev pub file : Bytes
file = lookup (
    (0, 0x7F)
    ∷ (1, 0x45)
    ∷ (2, 0x4C)
    ∷ (3, 0x46)
    ∷ (4, 1)
    ∷ (5, 1)
    ∷ (6, 1)
    ∷ (16, 2)
    ∷ (18, 3)
    ∷ (28, 52)
    ∷ (32, 128)
    ∷ (44, 1)
    ∷ (48, 3)
    ∷ (52, 1)
    ∷ (56, 84)
    ∷ (60, 200)
    ∷ (68, 4)
    ∷ (72, 8)
    ∷ (76, 5)
    ∷ (80, 16)
    ∷ (172, 2)
    ∷ (192, 2)
    ∷ [])

abbrev blank : ElfCtx
blank = record {
  elf_hdr = 0;
  section_headers = 0;
  symbol_table = 0;
  string_table = 0;
  program_headers = 0;
}

abbrev opened : ElfCtx
opened = record blank { section_headers = 128; program_headers = 52 }

abbrev pub text : Phdr
text = record {
  p_type = 1;
  p_offset = 84;
  p_vaddr = 200;
  p_filesz = 4;
  p_memsz = 8;
  p_flags = 5;
  p_align = 16;
}

create-IsSupported_example : ((elf_ctx_create blank 0 file).0 ≡ elf_ok) ↔ IsSupported 0 file
create-IsSupported_example = create-IsSupported blank 0 file

symbols : sh_type (section file opened 1) file ≡ sht_symtab
symbols = refl

no_symbols : (k : ℕ) → 1 < k → k < 1 + 2 → sh_type (section file opened k) file ≢ sht_symtab
no_symbols k lo hi e =
    let here : k ≡ 2 = omega arith in
    absurd (omega (arith, subst (λ k. sh_type (section file opened k) file ≡ sht_symtab) here e))

-- The state is the memory and the number of mappings made.
abbrev mem : Bytes × ℕ → Bytes
mem w = w.0

abbrev write : Bytes → Bytes × ℕ → Bytes × ℕ
write m w = (m, w.1)

abbrev mmap : (paddr vaddr size flags : ℕ) → Bytes × ℕ → Bytes × ℕ
mmap paddr vaddr size flags w = (w.0, w.1 + 1)

abbrev Intact : Bytes × ℕ → Type 0
Intact w = (p : ℕ) → p < 84 → w.0 p ≡ file p

word-Intact : (w : Bytes × ℕ) (p : ℕ) → Intact w → p + 4 ≤ 84 → elf_word p w.0 ≡ elf_word p file
word-Intact w p intact le =
    rw
      (
        intact p (omega arith),
        intact (p + 1) (omega arith),
        intact (p + 2) (omega arith),
        intact (p + 2 + 1) (omega arith),
      )
      refl

table : (w : Bytes × ℕ) → Intact w → Table mem write mmap 52 (text ∷ []) w.0
table w intact = (
  rw
      (
        word-Intact w 52 intact (omega arith),
        word-Intact w 56 intact (omega arith),
        word-Intact w 60 intact (omega arith),
        word-Intact w 68 intact (omega arith),
        word-Intact w 72 intact (omega arith),
        word-Intact w 76 intact (omega arith),
        word-Intact w 80 intact (omega arith),
      )
      refl,
  tt,
)

keeps : (w : Bytes × ℕ) → Intact w → Intact (load_header mem write mmap 0 text w)
keeps w intact p lt =
    (memcpy_lem 200 84 4 w.0 0 p (inr (omega arith)) (omega arith) (inl (omega arith))).1
    ∙ intact p lt

accepted : IsAccepted text
accepted e = (omega arith, omega arith)

load_from-headers_example :
    load_from mem write mmap opened 1 0 (file, 0)
    ≡ some (elf_ok, load_headers mem write mmap 0 (text ∷ []) (file, 0))
load_from-headers_example =
    load_from-headers mem write mmap Intact opened (text ∷ []) 0 (file, 0) table (keeps, tt)
      (accepted, tt) (λ p lt. refl)
