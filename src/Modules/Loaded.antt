-- ===== src/Modules/Loaded.antt =====
-- What load_boot_modules of kern/main.c makes of the modules.
use mugo.Base.{
  ℕ, suc, ◌+◌, ◌≡◌, ◌≢◌, refl, sym, ap, Bool, true, false, ◌%◌, ◌^◌, Option, none, some, List, [],
  ◌∷◌, ◌==◌, arith, ◌∙◌,
}
use mathlib.Core.Path.{subst}
use mugo.Stdlib.{Bytes}
use mugo.Paging.{BootModule, bootstrap_create_page_dir, bootstrap_fetch_page}
use mugo.Paging.Map.{Space}
use mugo.Elf.{ElfCtx}
use mugo.Elf.Load.{Phdr, main_thread_stack_addr}
use mugo.Thread.{Machine}
use mugo.Modules.{
  Memory, Boot, Statics, e_entry, memory_bytes, start_module, create_directory, load_file,
  process_at, load_boot_module, load_modules, load_boot_modules, load_pagedir,
}
use mugo.Modules.Room.{Room, frames_for}
use mugo.Modules.Image.{IsImage, frames_for_all, stack_size}
use mugo.Modules.File.{with_file, IsFiled, load_file-IsFiled}
use mugo.Modules.Started.{
  IsStarted, SameBefore, start_module-IsStarted, start_module-SameBefore, start_module-page_dir,
  SameBefore-cr3, IsStarted-same, SameBefore-trans,
}

-- What is known of a module's file.
pub record Image : Type 0 where
  pub phoff : ℕ
  pub entry : ℕ
  pub headers : List Phdr

-- The frames that a module takes at most: its page directory, its segments and its stack.
abbrev pub frames_of : Image → ℕ
frames_of f = suc (frames_for_all f.headers + frames_for stack_size)

abbrev pub frames_of_all : List Image → ℕ
frames_of_all [] = 0
frames_of_all (f ∷ fs) = frames_of f + frames_of_all fs

-- All modules from the `i`-th on are started.
abbrev pub AreStarted : Statics → (i : ℕ) → List Image → Machine → Type 0
AreStarted at i [] m = Unit
AreStarted at i (f ∷ fs) m = IsStarted at i f.entry m × AreStarted at (i + 1) fs m

module _ {Ram : Type 0} (view : (cr3 : ℕ) → Space → Ram → Bytes)
    (write : (cr3 : ℕ) → Space → Bytes → Ram → Ram) (reach : (cr3 : ℕ) → Space → ℕ → Bool)
    (at : Statics) (limit : ℕ) (Holds : (cr3 : ℕ) → Memory Ram → Type 0)
    (reached : (cr3 : ℕ) (w : Memory Ram)
      → Room limit 1 w.space
      → Holds cr3 w
      → reach cr3 w.space w.space.kinfo.memmap_addr ≡ true)
    (directories : (cr3 : ℕ) (w : Memory Ram) (pd : ℕ) (w1 : Memory Ram)
      → Room limit 1 w.space
      → Holds cr3 w
      → create_directory reach at cr3 w ≡ some (pd, w1)
      → Holds pd w1) where
  abbrev pub AreImages : List BootModule → List Image → Type 0
  AreImages [] [] = Unit
  AreImages [] (f ∷ fs) = ⊥
  AreImages (m ∷ ms) [] = ⊥
  AreImages (m ∷ ms) (f ∷ fs) =
      IsImage view write reach limit Holds m.start_paddr f.phoff f.entry f.headers × AreImages ms fs

  abbrev Created : ℕ → Option (ℕ × Memory Ram) → Type 0
  Created k none = ⊥
  Created k (some (pd, w)) = (pd ≢ 0) × ((Room limit k w.space) × Holds pd w)

  HasPage : ℕ → Option (ℕ × Memory Ram) → Type 0
  HasPage k none = ⊥
  HasPage k (some (pd, w)) = (pd ≢ 0) × Room limit k w.space

  create_directory-HasPage :
      (cr3 k : ℕ) (w : Memory Ram)
      → Room limit (suc k) w.space
      → reach cr3 w.space w.space.kinfo.memmap_addr ≡ true
      → HasPage k (create_directory reach at cr3 w)
  unfolding create_directory bootstrap_create_page_dir bootstrap_fetch_page HasPage
  create_directory-HasPage cr3 k w ((pos, fits), small) mapped =
      let addr : w.space.kinfo.memmap_addr % 2 ^ 32 ≡ w.space.kinfo.memmap_addr = omega arith in
      let page : (w.space.kinfo.memmap_addr == 0) ≡ false = ground (arith, pos) in
      rw (addr, page, mapped) (λ e. absurd (omega arith), ((omega arith, fits), omega arith))

  create_directory-Created :
      (cr3 k : ℕ) (w : Memory Ram) (r : Option (ℕ × Memory Ram))
      → create_directory reach at cr3 w ≡ r
      → Room limit 1 w.space
      → Holds cr3 w
      → HasPage k r
      → Created k r
  unfolding HasPage
  create_directory-Created cr3 k w none e one holds page = page
  create_directory-Created cr3 k w (some (pd, w1)) e one holds (ne, room) =
      (ne, (room, directories cr3 w pd w1 one holds e))

  -- The module has a page directory of its own, made while that of the module before it was loaded,
  -- and its segments and its stack are loaded through it. They leave the memory `w2`.
  pub record IsPlaced (i : ℕ) (m : BootModule) (f : Image) (cr3 : ℕ) (w : Memory Ram) (pd : ℕ)
      (w2 : Memory Ram) (machine : Machine) : Type 0 where
    pub made : Memory Ram
    pub created : create_directory reach at cr3 w ≡ some (pd, made)
    pub loaded : with_file view write reach limit Holds pd m.start_paddr f.headers made ≡ some w2
    pub page_dir : (machine.proc (process_at at i)).page_dir ≡ pd

  -- The state behind module `i`.
  record IsNext (i k : ℕ) (m : BootModule) (f : Image) (b b1 : Boot Ram) : Type 0 where
    started : IsStarted at i f.entry b1.machine
    before : SameBefore at i b.machine b1.machine
    placed : IsPlaced i m f b.machine.cr3 b.memory b1.machine.cr3 b1.memory b1.machine
    pid : b1.pid ≡ suc (suc i)
    room : Room limit k b1.memory.space
    holds : Holds b1.machine.cr3 b1.memory

  abbrev HasNext : (i k : ℕ) → BootModule → Image → Boot Ram → Option (Boot Ram) → Type 0
  HasNext i k m f b none = ⊥
  HasNext i k m f b (some b1) = IsNext i k m f b b1

  module _ (i k : ℕ) (m : BootModule) (f : Image) (b : Boot Ram)
      (image : IsImage view write reach limit Holds m.start_paddr f.phoff f.entry f.headers)
      (pid : b.pid ≡ suc i) where
    finished-HasNext :
        (pd : ℕ) (w : Memory Ram)
        → create_directory reach at b.machine.cr3 b.memory ≡ some (pd, w)
        → pd ≢ 0
        → (r : Option (ElfCtx × (ℕ × Memory Ram)))
        → IsFiled view write reach limit Holds pd m.start_paddr k
            (with_file view write reach limit Holds pd m.start_paddr f.headers w)
            r
        → HasNext i k m f b (elim r [
          | none ↦ none
          | some (ctx, (top, w1)) ↦ some record {
            memory = w1;
            machine =
                start_module at i b.pid pd
                  (e_entry ctx.elf_hdr (memory_bytes view write reach pd (some w1)))
                  top
                  (load_pagedir pd b.machine);
            pid = suc b.pid;
            stack_top = top;
          }
        ])
    finished-HasNext pd w made nonzero none filed = absurd filed
    finished-HasNext pd w made nonzero (some (ctx, (top, w1))) filed =
        let m0 : Machine = load_pagedir pd b.machine in
        let mem = memory_bytes view write reach pd (some w1) in
        let entry : e_entry ctx.elf_hdr mem ≡ f.entry =
          ap (λ p. e_entry p mem) filed.hdr_eq ∙ (image.file pd w1 filed.holds).entry_eq in
        let machine : start_module at i b.pid pd (e_entry ctx.elf_hdr mem) top m0
            ≡ start_module at i (suc i) pd f.entry main_thread_stack_addr m0 =
          ap (λ p. start_module at i p pd (e_entry ctx.elf_hdr mem) top m0) pid
          ∙ ap (λ e. start_module at i (suc i) pd e top m0) entry
          ∙ ap (λ t. start_module at i (suc i) pd f.entry t m0) filed.top_eq in
        let (own, stays) = start_module-page_dir at i b.pid pd (e_entry ctx.elf_hdr mem) top m0 in
        record {
          started =
              subst (IsStarted at i f.entry) (sym machine)
                (start_module-IsStarted at i pd f.entry m0 nonzero);
          before =
              SameBefore-cr3 at i pd b.machine _
                (start_module-SameBefore at i b.pid pd (e_entry ctx.elf_hdr mem) top m0);
          placed =
              subst
                (λ c.
                  IsPlaced i m f b.machine.cr3 b.memory c w1
                    (start_module at i b.pid pd (e_entry ctx.elf_hdr mem) top m0))
                (sym stays)
                record { made = w; created = made; loaded = sym filed.loaded; page_dir = own };
          pid = ap suc pid;
          room = filed.room;
          holds = subst (λ c. Holds c w1) (sym stays) filed.holds;
        }

    directory-HasNext :
        (r : Option (ℕ × Memory Ram))
        → create_directory reach at b.machine.cr3 b.memory ≡ r
        → Created (frames_for_all f.headers + (frames_for stack_size + k)) r
        → HasNext i k m f b (elim r [
          | none ↦ none
          | some (pd, w) ↦ elim (load_file view write reach pd pd m.start_paddr b.stack_top w) [
            | none ↦ none
            | some (ctx, (top, w1)) ↦ some record {
              memory = w1;
              machine =
                  start_module at i b.pid pd
                    (e_entry ctx.elf_hdr (memory_bytes view write reach pd (some w1)))
                    top
                    (load_pagedir pd b.machine);
              pid = suc b.pid;
              stack_top = top;
            }
          ]
        ])
    directory-HasNext none e created = absurd created
    directory-HasNext (some (pd, w)) e (nonzero, (room, holds)) =
        finished-HasNext pd w e nonzero
          (load_file view write reach pd pd m.start_paddr b.stack_top w)
          (load_file-IsFiled view write reach limit Holds pd b.stack_top m.start_paddr f.phoff
            f.entry f.headers k w image (room, holds))

    load_boot_module-HasNext :
        Room limit (frames_of f + k) b.memory.space
        → Holds b.machine.cr3 b.memory
        → HasNext i k m f b (load_boot_module view write reach at i m b)
    unfolding load_boot_module
    load_boot_module-HasNext room holds =
        let left = frames_for_all f.headers + (frames_for stack_size + k) in
        let cr3 = b.machine.cr3 in
        let one : Room limit 1 b.memory.space = (room.0, omega arith) in
        directory-HasNext (create_directory reach at cr3 b.memory) refl (
          create_directory-Created cr3 left b.memory (create_directory reach at cr3 b.memory) refl
            one holds
            (create_directory-HasPage cr3 left b.memory (room.0, omega arith)
              (reached cr3 b.memory one holds)))

  -- The modules from the `i`-th on are placed in their turn, from the memory `w` with the directory
  -- `cr3` loaded to the end.
  abbrev pub ArePlaced :
      (i : ℕ) → List BootModule → List Image → (cr3 : ℕ) → Memory Ram → Boot Ram → Type 0
  ArePlaced i [] [] cr3 w b = (b.memory ≡ w) × (b.machine.cr3 ≡ cr3)
  ArePlaced i [] (f ∷ fs) cr3 w b = ⊥
  ArePlaced i (m ∷ ms) [] cr3 w b = ⊥
  ArePlaced i (m ∷ ms) (f ∷ fs) cr3 w b =
      (pd : ℕ) × ((w2 : Memory Ram) × (IsPlaced i m f cr3 w pd w2 b.machine
          × ArePlaced (i + 1) ms fs pd w2 b))

  -- The state behind all modules from the `i`-th on.
  record AreAll (i k : ℕ) (ms : List BootModule) (fs : List Image) (b b1 : Boot Ram) : Type 0 where
    started : AreStarted at i fs b1.machine
    placed : ArePlaced i ms fs b.machine.cr3 b.memory b1
    before : SameBefore at i b.machine b1.machine
    room : Room limit k b1.memory.space

  abbrev HasAll : (i k : ℕ) → List BootModule → List Image → Boot Ram → Option (Boot Ram) → Type 0
  HasAll i k ms fs b none = ⊥
  HasAll i k ms fs b (some b1) = AreAll i k ms fs b b1

  HasAll-cons :
      (i j k : ℕ) (m : BootModule) (ms : List BootModule) (f : Image) (fs : List Image)
      (b b1 : Boot Ram) (r : Option (Boot Ram))
      → IsNext i j m f b b1
      → HasAll (i + 1) k ms fs b1 r
      → HasAll i k (m ∷ ms) (f ∷ fs) b r
  HasAll-cons i j k m ms f fs b b1 none next all = all
  HasAll-cons i j k m ms f fs b b1 (some b2) next all =
      let first = next.placed in
      record {
        started = (
          IsStarted-same at i (i + 1) f.entry b1.machine b2.machine (omega arith) all.before
              next.started,
          all.started,
        );
        placed = (
          b1.machine.cr3,
          (
            b1.memory,
            (
              record {
                made = first.made;
                created = first.created;
                loaded = first.loaded;
                page_dir = ap (λ p. p.page_dir) (all.before.procs i (omega arith)) ∙ first.page_dir;
              },
              all.placed,
            ),
          ),
        );
        before = SameBefore-trans at i b.machine b1.machine b2.machine next.before all.before;
        room = all.room;
      }

  load_modules-HasAll :
      (i k : ℕ) (ms : List BootModule) (fs : List Image) (b : Boot Ram)
      → AreImages ms fs
      → b.pid ≡ suc i
      → Room limit (frames_of_all fs + k) b.memory.space
      → Holds b.machine.cr3 b.memory
      → HasAll i k ms fs b (load_modules view write reach at i ms b)
  unfolding load_modules
  load_modules-HasAll i k [] [] b images pid room holds = record {
    started = tt;
    placed = (refl, refl);
    before = record { procs = λ j lt. refl; tcbs = λ j lt. refl; selected = refl };
    room = (room.0, omega arith);
  }
  load_modules-HasAll i k [] (f ∷ fs) b images pid room holds = absurd images
  load_modules-HasAll i k (m ∷ ms) [] b images pid room holds = absurd images
  load_modules-HasAll i k (m ∷ ms) (f ∷ fs) b images pid room holds =
      behind (load_boot_module view write reach at i m b)
        (load_boot_module-HasNext i (frames_of_all fs + k) m f b images.0 pid (room.0, omega arith)
          holds)
        (λ b1 pid1 room1 holds1. load_modules-HasAll (i + 1) k ms fs b1 images.1 pid1 room1 holds1)
    where
      behind :
          (r : Option (Boot Ram))
          → HasNext i (frames_of_all fs + k) m f b r
          → ((b1 : Boot Ram)
              → b1.pid ≡ suc (i + 1)
              → Room limit (frames_of_all fs + k) b1.memory.space
              → Holds b1.machine.cr3 b1.memory
              → HasAll (i + 1) k ms fs b1 (load_modules view write reach at (i + 1) ms b1))
          → HasAll i k
              (m ∷ ms)
              (f ∷ fs)
              b
              (elim r [ none ↦ none | some b1 ↦ load_modules view write reach at (i + 1) ms b1 ])
      behind none step go = absurd step
      behind (some b1) step go =
          HasAll-cons i (frames_of_all fs + k) k m ms f fs b b1
            (load_modules view write reach at (i + 1) ms b1) step
            (go b1 (omega (arith, step.pid)) step.room step.holds)

  -- Every module is started and placed, and none failed to load.
  abbrev pub AllStarted :
      List BootModule → List Image → Memory Ram → Machine → Option (Boot Ram) → Type 0
  AllStarted ms fs w m none = ⊥
  AllStarted ms fs w m (some b) =
      AreStarted at 0 fs b.machine
      × (ArePlaced 0 ms fs m.cr3 w b × (b.machine.current_proc ≡ m.current_proc))

  pub load_boot_modules-AllStarted :
      (fs : List Image) (w : Memory Ram) (m : Machine)
      → AreImages w.space.kinfo.modules fs
      → Room limit (frames_of_all fs) w.space
      → Holds m.cr3 w
      → AllStarted w.space.kinfo.modules fs w m (load_boot_modules view write reach at w m)
  unfolding load_boot_modules
  load_boot_modules-AllStarted fs w m images room holds =
      let b : Boot Ram = record { memory = w; machine = m; pid = 1; stack_top = 0 } in
      all (load_modules view write reach at 0 w.space.kinfo.modules b)
        (load_modules-HasAll 0 0 w.space.kinfo.modules fs b images refl (room.0, omega arith) holds)
    where
      all :
          (r : Option (Boot Ram))
          → HasAll 0 0 w.space.kinfo.modules fs
              record { memory = w; machine = m; pid = 1; stack_top = 0 }
              r
          → AllStarted w.space.kinfo.modules fs w m r
      all none known = known
      all (some b) known = (known.started, (known.placed, known.before.selected))
