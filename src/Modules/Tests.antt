-- ===== src/Modules/Tests.antt =====
-- A boot with one module, whose file has one segment, and the theorem of load_boot_modules in
-- kern/main.c at it. The file lies at 4096. What lies below is a page directory's own, and the rest
-- is shared: `Ram` has the bytes by the directory, and those that are shared by 0.
use mugo.Base.{
  ℕ, ◌+◌, ◌≤◌, ◌<◌, ◌≡◌, refl, sym, ap, ◌-◌, Bool, false, inl, inr, Option, none, some, [], ◌∷◌,
  ◌==◌, ltb, if◌then◌else◌, arith, ◌∙◌,
}
use mathlib.Core.Path.{subst}
use mugo.Stdlib.{Bytes, memcpy}
use mugo.Stdlib.Copy.{memcpy_lem}
use mugo.Paging.Map.{Space, entry}
use mugo.Elf.{elf_word}
use mugo.Elf.Load.{phdr_at}
use mugo.Elf.Tests.{file, text}
use mugo.Modules.{Memory, Statics}
use mugo.Modules.Room.{Room}
use mugo.Modules.Within.{Within}
use mugo.Modules.Image.{IsFile}
use mugo.Modules.Loaded.{Image}

abbrev pub Ram : Type 0
Ram = ℕ → Bytes

abbrev pub view : (cr3 : ℕ) → Space → Ram → Bytes
view cr3 s r p = if ltb p 4096 then r cr3 p else r 0 p

abbrev pub write : (cr3 : ℕ) → Space → Bytes → Ram → Ram
write cr3 s b r d p = if d == (if ltb p 4096 then cr3 else 0) then b p else r d p

abbrev pub statics : Statics
statics = record {
  boot_processes = 0x9000;
  boot_processes_threads = 0x8000;
  boot_page_directory = 0x10_0000;
  kstack_top = 0xC010_0000;
}

abbrev pub image : Image
image = record { phoff = 52; entry = 0; headers = text ∷ [] }

-- The file is in memory.
abbrev pub Intact : Memory Ram → Type 0
Intact w = (p : ℕ) → p < 84 → w.ram 0 (4096 + p) ≡ file p

view-Intact :
    (cr3 q p : ℕ) (w : Memory Ram)
    → Intact w
    → q ≡ 4096 + p
    → p < 84
    → view cr3 w.space w.ram q ≡ file p
view-Intact cr3 q p w intact e lt =
    let high : ltb (4096 + p) 4096 ≡ false = ground arith in
    subst (λ q. view cr3 w.space w.ram q ≡ file p) (sym e) (rw high (intact p lt))

word-Intact :
    (cr3 q p : ℕ) (w : Memory Ram)
    → Intact w
    → q ≡ 4096 + p
    → p + 4 ≤ 84
    → elf_word q (view cr3 w.space w.ram) ≡ elf_word p file
word-Intact cr3 q p w intact e le =
    rw
      (
        view-Intact cr3 q p w intact e (omega arith),
        view-Intact cr3 (q + 1) (p + 1) w intact (omega arith) (omega arith),
        view-Intact cr3 (q + 2) (p + 2) w intact (omega arith) (omega arith),
        view-Intact cr3 (q + 2 + 1) (p + 2 + 1) w intact (omega arith) (omega arith),
      )
      refl

pub copy-Intact :
    (cr3 : ℕ) (w : Memory Ram)
    → Intact w
    → Intact (record w {
      ram = write cr3 w.space (memcpy 200 (4096 + 84) 4 (view cr3 w.space w.ram)) w.ram;
    })
copy-Intact cr3 w intact p lt =
    let high : ltb (4096 + p) 4096 ≡ false = ground arith in
    rw high (
      (memcpy_lem 200 (4096 + 84) 4 (view cr3 w.space w.ram) 0 (4096 + p) (inl (omega arith))
        (omega arith) (inr (omega arith))).1
      ∙ view-Intact cr3 (4096 + p) p w intact refl lt)

pub intact-IsFile :
    (cr3 : ℕ) (w : Memory Ram) → Intact w → IsFile 4096 52 0 (text ∷ []) (view cr3 w.space w.ram)
intact-IsFile cr3 w intact = record {
  supported = record {
    magic_0 = intact 0 (omega arith);
    magic_1 = intact 1 (omega arith);
    magic_2 = intact 2 (omega arith);
    magic_3 = intact 3 (omega arith);
    class_32 = intact 4 (omega arith);
    little = intact 5 (omega arith);
    version_1 = intact 6 (omega arith);
    i386 = rw (intact 18 (omega arith), intact 19 (omega arith)) refl;
    kind = inr (rw (intact 16 (omega arith), intact 17 (omega arith)) refl);
  };
  phoff_eq = word-Intact cr3 (4096 + 28) 28 w intact refl (omega arith);
  phnum_eq = rw (intact 44 (omega arith), intact 45 (omega arith)) refl;
  entry_eq = word-Intact cr3 (4096 + 24) 24 w intact refl (omega arith);
}

pub Intact-header :
    (cr3 : ℕ) (w : Memory Ram) → Intact w → phdr_at (4096 + 52) (view cr3 w.space w.ram) ≡ text
Intact-header cr3 w intact =
    rw
      (
        word-Intact cr3 4148 52 w intact refl (omega arith),
        word-Intact cr3 4152 56 w intact refl (omega arith),
        word-Intact cr3 4156 60 w intact refl (omega arith),
        word-Intact cr3 4164 68 w intact refl (omega arith),
        word-Intact cr3 4168 72 w intact refl (omega arith),
        word-Intact cr3 4172 76 w intact refl (omega arith),
        word-Intact cr3 4176 80 w intact refl (omega arith),
      )
      refl

-- The addresses below this one are mapped to themselves.
abbrev limit : ℕ
limit = 0x100_0000

abbrev reach : (cr3 : ℕ) → Space → ℕ → Bool
reach cr3 s p = ltb p limit

-- The file is there, and the tables are below the limit.
abbrev Holds : (cr3 : ℕ) → Memory Ram → Type 0
Holds cr3 w = Intact w × ((cr3 < limit) × Within limit w.space.words)

abbrev IsMade : Memory Ram → Option (ℕ × Memory Ram) → Type 0
IsMade w none = Unit
IsMade w (some (pd, w1)) = Holds pd w1

abbrev pub memory : Memory Ram
memory = record {
  space = record {
    words = λ a. 0;
    kinfo = record {
      memmap_addr = 0x20_0000;
      memmap_len = 0x100_0000;
      modules = record { start_paddr = 4096; end_paddr = 8192 } ∷ [];
      kernel_high_vma = 0xC000_0000;
      range_start = 0;
      range_end = 0;
    };
  };
  ram = λ d p. file (p - 4096);
}

pub memory-Intact : Intact memory
memory-Intact p lt = let same : 4096 + p - 4096 ≡ p = omega arith in ap file same
