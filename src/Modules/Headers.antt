-- ===== src/Modules/Headers.antt =====
-- The program headers of a module's file, as load_boot_modules of kern/main.c loads them.
use mugo.Base.{
  Bool, ℕ, ◌+◌, ◌*◌, ◌≡◌, refl, ap, Option, none, some, List, [], ◌∷◌, length, arith, ◌∙◌,
}
use mathlib.Core.Path.{subst}
use mugo.Stdlib.{Bytes}
use mugo.Paging.Map.{Space}
use mugo.Elf.{elf_ok, ElfCtx}
use mugo.Elf.Load.{Phdr, sizeof_phdr, phdr_at, load_phdr, load_from}
use mugo.Elf.Load.Headers.{IsAccepted, All, Table, load_header, load_headers, load_phdr-IsAccepted}
use mugo.Modules.{Memory, elf_mmap, memory_bytes, write_bytes}
use mugo.Modules.Image.{frames_for_all, Ready, Loads, header-Ready}

module _ {Ram : Type 0} (view : (cr3 : ℕ) → Space → Ram → Bytes)
    (write : (cr3 : ℕ) → Space → Bytes → Ram → Ram) (reach : (cr3 : ℕ) → Space → ℕ → Bool)
    (limit : ℕ) (Holds : (cr3 : ℕ) → Memory Ram → Type 0) where
  -- The memory with the segments `hs` of the file at `hdr` loaded, each in its turn, into the
  -- directory `pd`, which is loaded.
  abbrev pub with_segments : (pd hdr : ℕ) → List Phdr → Option (Memory Ram) → Option (Memory Ram)
  with_segments pd =
      load_headers (memory_bytes view write reach pd) (write_bytes view write reach pd)
        (elf_mmap reach pd pd)

  -- The headers are loaded one after the other, and no step fails; the memory is `end`.
  abbrev pub Done :
      (pd k : ℕ) (end : Option (Memory Ram)) → Option (ℕ × Option (Memory Ram)) → Type 0
  Done pd k end none = ⊥
  Done pd k end (some (err, w)) =
      (err ≡ elf_ok) × (Ready view write reach limit Holds pd k w × (w ≡ end))

  pub load_from-Done :
      (pd : ℕ) (ctx : ElfCtx) (hs : List Phdr) (i k : ℕ) (w : Option (Memory Ram))
      → ((w : Memory Ram)
          → Holds pd w
          → Table
              (memory_bytes view write reach pd)
              (write_bytes view write reach pd)
              (λ p v z f w. w)
              (ctx.program_headers + sizeof_phdr * i)
              hs
              (memory_bytes view write reach pd (some w)))
      → All IsAccepted hs
      → All (λ h. Loads view write reach limit Holds ctx.elf_hdr h pd) hs
      → Ready view write reach limit Holds pd (frames_for_all hs + k) w
      → Done pd k (with_segments pd ctx.elf_hdr hs w) (
          load_from
            (memory_bytes view write reach pd)
            (write_bytes view write reach pd)
            (elf_mmap reach pd pd)
            ctx
            (length hs)
            i
            w)
  unfolding load_from load_headers
  load_from-Done pd ctx [] i k none table accepted loads ready = absurd ready
  load_from-Done pd ctx [] i k (some w) table accepted loads ((pos, small), holds) =
      (refl, (((pos, omega arith), holds), refl))
  load_from-Done pd ctx (h ∷ hs) i k none table accepted loads ready = absurd ready
  load_from-Done pd ctx (h ∷ hs) i k (some w) table accepted loads (room, holds) =
      let mem = memory_bytes view write reach pd in
      let put = write_bytes view write reach pd in
      let mmap = elf_mmap reach pd pd in
      let here : phdr_at (ctx.program_headers + sizeof_phdr * i) (mem (some w)) ≡ h =
        (table w holds).0 in
      let step : load_phdr mem put mmap ctx.elf_hdr
            (phdr_at (ctx.program_headers + sizeof_phdr * i) (mem (some w))) (some w)
          ≡ some (elf_ok, load_header mem put mmap ctx.elf_hdr h (some w)) =
        ap (λ h. load_phdr mem put mmap ctx.elf_hdr h (some w)) here
        ∙ load_phdr-IsAccepted mem put mmap ctx.elf_hdr h (some w) accepted.0 in
      let later : (w : Memory Ram)
          → Holds pd w
          → Table mem put (λ p v z f w. w) (ctx.program_headers + sizeof_phdr * (i + 1)) hs
              (mem (some w)) =
        λ w p.
          subst (λ q. Table mem put (λ p v z f w. w) q hs (mem (some w))) (omega arith)
            (table w p).1 in
      let next : Ready view write reach limit Holds pd (frames_for_all hs + k)
          (load_header mem put mmap ctx.elf_hdr h (some w)) =
        header-Ready view write reach limit Holds pd ctx.elf_hdr (frames_for_all hs + k) h (some w)
          loads.0 ((room.0, omega arith), holds) in
      rw (step, load_from) (load_from-Done pd ctx hs (i + 1) k _ later accepted.1 loads.1 next)
