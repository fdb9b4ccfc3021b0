-- ===== src/Elf/Load/Headers.antt =====
-- What elf_ctx_load of lib/libelf/elf.c does with each program header.
use mathlib.Core.Path.{subst}
use mugo.Base.{
  ap, ◌∙◌, ◌*◌, List, [], ◌∷◌, length, ℕ, zero, suc, ◌+◌, ◌%◌, ◌≤◌, ◌≡◌, refl, false, none, some,
  ltb, ◌==◌, if◌then◌else◌, arith,
}
use mugo.Stdlib.{Bytes}
use mugo.Elf.{elf_ok, elf_invalid_ph, ElfCtx}
use mugo.Elf.Load.{
  Phdr, sizeof_phdr, phdr_at, pt_load, misaligned, load_segment, load_phdr, load_from,
}

mod_one : (x : ℕ) → x % 1 ≡ 0
mod_one x = omega arith

misaligned_by :
    (h : Phdr) (a : ℕ) → h.p_align ≡ a → misaligned h ≡ (if a == 0 then none else some false)
unfolding misaligned
misaligned_by h zero e = rw e refl
misaligned_by h (suc zero) e = rw (e, mod_one h.p_vaddr, mod_one h.p_offset) refl
misaligned_by h (suc (suc n)) e =
    let big : ltb (suc (suc n)) 2 ≡ false = ground arith in rw (e, big) (ground arith)

misaligned_lem : (h : Phdr) → misaligned h ≡ (if h.p_align == 0 then none else some false)
misaligned_lem h = misaligned_by h h.p_align refl

-- No reason to refuse a header.
abbrev pub IsAccepted : Phdr → Type 0
IsAccepted h = (h.p_type ≡ pt_load) → (h.p_filesz ≤ h.p_memsz) × (1 ≤ h.p_align)

abbrev pub All : (Phdr → Type 0) → List Phdr → Type 0
All P [] = Unit
All P (h ∷ hs) = P h × All P hs

module _ {W : Type 0} (mem : W → Bytes) (write : Bytes → W → W)
    (mmap : (paddr vaddr size flags : ℕ) → W → W) where
  -- A header that is not of a loadable segment is passed over; one with more bytes in the file than
  -- in memory is refused; else an alignment of 0 is a fault, and any other is accepted, whatever the
  -- address and the offset. The segment is then loaded, if it has bytes in the file.
  pub load_phdr_lem :
      (hdr : ℕ) (h : Phdr) (w : W)
      → load_phdr mem write mmap hdr h w ≡ (
          if h.p_type == pt_load
          then (if ltb h.p_memsz h.p_filesz
              then some (elf_invalid_ph, w)
              else (if h.p_align == 0
                  then none
                  else some
                      (elf_ok, if h.p_filesz == 0 then w else load_segment mem write mmap hdr h w)))
          else some (elf_ok, w))
  unfolding load_phdr
  load_phdr_lem hdr h w = rw (misaligned_lem h) (ground arith)

  -- What a header that is accepted adds to the image.
  abbrev pub load_header : (hdr : ℕ) → Phdr → W → W
  load_header hdr h w =
      if h.p_type == pt_load
      then (if h.p_filesz == 0 then w else load_segment mem write mmap hdr h w)
      else w

  unfoldable pub load_headers : (hdr : ℕ) → List Phdr → W → W
  load_headers hdr [] w = w
  load_headers hdr (h ∷ hs) w = load_headers hdr hs (load_header hdr h w)

  pub load_phdr-IsAccepted :
      (hdr : ℕ) (h : Phdr) (w : W)
      → IsAccepted h
      → load_phdr mem write mmap hdr h w ≡ some (elf_ok, load_header hdr h w)
  load_phdr-IsAccepted hdr h w accepted = load_phdr_lem hdr h w ∙ ground (arith, accepted)

  -- The headers `hs` stand in the table at `p`.
  abbrev pub Table : ℕ → List Phdr → Bytes → Type 0
  Table p [] m = Unit
  Table p (h ∷ hs) m = (phdr_at p m ≡ h) × Table (p + sizeof_phdr) hs m

  -- If a state in `P` has a table of headers without reason to refuse one, and stays in `P` when one
  -- of them is loaded, then from such a state the loop of elf_ctx_load loads the segments in order
  -- and returns no error.
  pub load_from-headers :
      (P : W → Type 0) (ctx : ElfCtx) (hs : List Phdr) (i : ℕ) (w : W)
      → ((w : W) → P w → Table (ctx.program_headers + sizeof_phdr * i) hs (mem w))
      → All (λ h. (w : W) → P w → P (load_header ctx.elf_hdr h w)) hs
      → All IsAccepted hs
      → P w
      → load_from mem write mmap ctx (length hs) i w ≡ some (elf_ok, load_headers ctx.elf_hdr hs w)
  unfolding load_from load_headers
  load_from-headers P ctx [] i w table keeps accepted p = refl
  load_from-headers P ctx (h ∷ hs) i w table keeps accepted p =
      let here : phdr_at (ctx.program_headers + sizeof_phdr * i) (mem w) ≡ h = (table w p).0 in
      let step : load_phdr mem write mmap ctx.elf_hdr
            (phdr_at (ctx.program_headers + sizeof_phdr * i) (mem w)) w
          ≡ some (elf_ok, load_header ctx.elf_hdr h w) =
        ap (λ h. load_phdr mem write mmap ctx.elf_hdr h w) here
        ∙ load_phdr-IsAccepted ctx.elf_hdr h w accepted.0 in
      let later : (w : W) → P w → Table (ctx.program_headers + sizeof_phdr * (i + 1)) hs (mem w) =
        λ w p. subst (λ q. Table q hs (mem w)) (omega arith) (table w p).1 in
      rw (step, load_from)
        (load_from-headers P ctx hs (i + 1) (load_header ctx.elf_hdr h w) later keeps.1 accepted.1
          (keeps.0 w p))
