-- ===== src/Modules/File.antt =====
-- How load_boot_modules of kern/main.c loads the file of one module.
use mugo.Base.{
  Bool, ℕ, ◌+◌, ◌-◌, ◌*◌, ◌%◌, ◌^◌, ◌≡◌, refl, sym, ap, Option, none, some, List, length, ◌==◌,
  if◌then◌else◌, arith, ◌∙◌,
}
use Prim.Native.Nat.{bit_or}
use mathlib.Core.Path.{subst}
use mugo.Stdlib.{Bytes}
use mugo.Paging.Map.{Space}
use mugo.Elf.{elf_ok, ElfCtx, elf_ctx_create, e_phnum}
use mugo.Elf.Header.{create-IsSupported}
use mugo.Elf.Load.{
  Phdr, sizeof_phdr, load_from, elf_ctx_load, page_allocate, main_thread_stack_addr,
  main_thread_stack_size, ExecInfo,
}
use mugo.Elf.Load.Headers.{All, Table}
use mugo.Modules.{
  Memory, elf_mmap, memory_bytes, write_bytes, info_for, load_result, load_file, no_ctx,
}
use mugo.Modules.Room.{Room, frames_for}
use mugo.Modules.Image.{
  stack_size, frames_for_all, All-at, create-IsOpened, Ready, Maps, Loads, IsImage, mmap-Ready,
}
use mugo.Modules.Headers.{with_segments, Done, load_from-Done}

module _ {Ram : Type 0} (view : (cr3 : ℕ) → Space → Ram → Bytes)
    (write : (cr3 : ℕ) → Space → Bytes → Ram → Ram) (reach : (cr3 : ℕ) → Space → ℕ → Bool)
    (limit : ℕ) (Holds : (cr3 : ℕ) → Memory Ram → Type 0) where
  -- The call that maps the stack.
  abbrev pub with_stack : (pd : ℕ) → Option (Memory Ram) → Option (Memory Ram)
  with_stack pd =
      elf_mmap reach pd pd page_allocate (main_thread_stack_addr - main_thread_stack_size)
        stack_size (bit_or 2 4)

  -- What a file's segments and stack make of the memory in which its directory was made.
  abbrev pub with_file : (pd hdr : ℕ) → List Phdr → Memory Ram → Option (Memory Ram)
  with_file pd hdr hs w =
      with_stack pd (with_segments view write reach limit Holds pd hdr hs (some w))

  -- What load_file leaves: the context of the file, the stack at its place, the files, and the memory
  -- `end`.
  pub record Filed (pd start k : ℕ) (end : Option (Memory Ram)) (ctx : ElfCtx) (top : ℕ)
      (w : Memory Ram) : Type 0 where
    pub hdr_eq : ctx.elf_hdr ≡ start
    pub top_eq : top ≡ main_thread_stack_addr
    pub room : Room limit k w.space
    pub holds : Holds pd w
    pub loaded : some w ≡ end

  abbrev pub IsFiled :
      (pd start k : ℕ) (end : Option (Memory Ram)) → Option (ElfCtx × (ℕ × Memory Ram)) → Type 0
  IsFiled pd start k end none = ⊥
  IsFiled pd start k end (some (ctx, (top, w))) = Filed pd start k end ctx top w

  abbrev Stacked : (pd k : ℕ) (end : Option (Memory Ram)) → Option (ℕ × Memory Ram) → Type 0
  Stacked pd k end none = ⊥
  Stacked pd k end (some (top, w)) =
      (top ≡ main_thread_stack_addr)
      × (Ready view write reach limit Holds pd k (some w) × (some w ≡ end))

  -- The end of elf_ctx_load, behind the loop.
  abbrev behind_headers :
      (pd stack_top : ℕ)
      → Option (ℕ × Option (Memory Ram))
      → Option (ℕ × Option (ExecInfo (Option (Memory Ram))) × Option (Memory Ram))
  behind_headers pd stack_top none = none
  behind_headers pd stack_top (some (err, w)) =
      let info = info_for view write reach pd pd stack_top in
      if err == elf_ok
      then some (
        elf_ok,
        some (record info { main_thread_stack_top = main_thread_stack_addr }),
        with_stack pd w,
      )
      else some (err, some info, w)

  stack-Stacked :
      (pd k : ℕ) (info : ExecInfo (Option (Memory Ram))) (end o : Option (Memory Ram))
      → info.main_thread_stack_top ≡ main_thread_stack_addr
      → Ready view write reach limit Holds pd k o
      → o ≡ end
      → Stacked pd k end (load_result view write reach (some (elf_ok, some info, o)))
  stack-Stacked pd k info end none top ready e = ready
  stack-Stacked pd k info end (some w) top ready e = (top, (ready, e))

  headers-Stacked :
      (pd stack_top k : ℕ) (end : Option (Memory Ram)) (r : Option (ℕ × Option (Memory Ram)))
      → Maps view write reach limit Holds pd
          (main_thread_stack_addr - main_thread_stack_size)
          stack_size
      → Done view write reach limit Holds pd (frames_for stack_size + k) end r
      → Stacked pd k
          (with_stack pd end)
          (load_result view write reach (behind_headers pd stack_top r))
  headers-Stacked pd stack_top k end none maps done = absurd done
  headers-Stacked pd stack_top k end (some (err, w)) maps (ok, (ready, e)) =
      rw (ok, behind_headers)
        (stack-Stacked pd k
          (let info = info_for view write reach pd pd stack_top in
            record info { main_thread_stack_top = main_thread_stack_addr })
          (with_stack pd end) (with_stack pd w) refl
          (mmap-Ready view write reach limit Holds pd
            (main_thread_stack_addr - main_thread_stack_size) stack_size (bit_or 2 4) k w maps
            ready)
          (ap (with_stack pd) e))

  elf_ctx_load-behind :
      (pd stack_top : ℕ) (ctx : ElfCtx) (w : Memory Ram)
      → elf_ctx_load
          (memory_bytes view write reach pd)
          (write_bytes view write reach pd)
          ctx
          (some (info_for view write reach pd pd stack_top))
          (some w)
        ≡ behind_headers pd stack_top (
            load_from
              (memory_bytes view write reach pd)
              (write_bytes view write reach pd)
              (elf_mmap reach pd pd)
              ctx
              (e_phnum ctx.elf_hdr (memory_bytes view write reach pd (some w)))
              0
              (some w))
  unfolding elf_ctx_load
  elf_ctx_load-behind pd stack_top ctx w =
      elim (load_from (memory_bytes view write reach pd) (write_bytes view write reach pd)
        (elf_mmap reach pd pd) ctx (e_phnum ctx.elf_hdr (memory_bytes view write reach pd (some w)))
        0 (some w)) [ none ↦ refl | some x ↦ refl ]

  elf_ctx_load-Stacked :
      (pd stack_top start phoff entry : ℕ) (hs : List Phdr) (k : ℕ) (ctx : ElfCtx) (w : Memory Ram)
      → IsImage view write reach limit Holds start phoff entry hs
      → ctx.elf_hdr ≡ start
      → ctx.program_headers ≡ (start + phoff) % 2 ^ 32
      → Ready view write reach limit Holds pd
          (frames_for_all hs + (frames_for stack_size + k))
          (some w)
      → Stacked pd k (with_file pd ctx.elf_hdr hs w) (
          load_result view write reach (
            elf_ctx_load
              (memory_bytes view write reach pd)
              (write_bytes view write reach pd)
              ctx
              (some (info_for view write reach pd pd stack_top))
              (some w)))
  elf_ctx_load-Stacked pd stack_top start phoff entry hs k ctx w image hdr_eq headers_eq
        (room, holds) =
      let mem = memory_bytes view write reach pd in
      let put = write_bytes view write reach pd in
      let mmap = elf_mmap reach pd pd in
      let all = with_segments view write reach limit Holds pd ctx.elf_hdr hs (some w) in
      let count : e_phnum ctx.elf_hdr (mem (some w)) ≡ length hs =
        ap (λ p. e_phnum p (mem (some w))) hdr_eq ∙ (image.file pd w holds).phnum_eq in
      let table : (w : Memory Ram)
          → Holds pd w
          → Table mem put (λ p v z f w. w) (ctx.program_headers + sizeof_phdr * 0) hs
              (mem (some w)) =
        λ w p.
          subst (λ q. Table mem put (λ p v z f w. w) q hs (mem (some w)))
            (omega (arith, headers_eq)) (image.table pd w p) in
      let segments : All (λ h. Loads view write reach limit Holds ctx.elf_hdr h pd) hs =
        subst (λ p. All (λ h. Loads view write reach limit Holds p h pd) hs) (sym hdr_eq)
          (All-at (λ pd h. Loads view write reach limit Holds start h pd) pd hs image.segments) in
      let run : Done view write reach limit Holds pd (frames_for stack_size + k) all
          (load_from mem put mmap ctx (length hs) 0 (some w)) =
        load_from-Done view write reach limit Holds pd ctx hs 0 (frames_for stack_size + k) (some w)
          table image.accepted segments (room, holds) in
      let counted : Done view write reach limit Holds pd (frames_for stack_size + k) all
          (load_from mem put mmap ctx (e_phnum ctx.elf_hdr (mem (some w))) 0 (some w)) =
        subst
          (λ n.
            Done view write reach limit Holds pd (frames_for stack_size + k) all
              (load_from mem put mmap ctx n 0 (some w)))
          (sym count) run in
      subst (λ r. Stacked pd k (with_stack pd all) (load_result view write reach r))
        (sym (elf_ctx_load-behind pd stack_top ctx w))
        (headers-Stacked pd stack_top k all _ (image.stack pd) counted)

  filed :
      (pd start k : ℕ) (hs : List Phdr) (w0 : Memory Ram) (ctx : ElfCtx)
      (r : Option (ℕ × Memory Ram))
      → ctx.elf_hdr ≡ start
      → Stacked pd k (with_file pd ctx.elf_hdr hs w0) r
      → IsFiled pd start k
          (with_file pd start hs w0)
          (elim r [ none ↦ none | some (top, w) ↦ some (ctx, (top, w)) ])
  filed pd start k hs w0 ctx none hdr_eq stacked = absurd stacked
  filed pd start k hs w0 ctx (some (top, w)) hdr_eq (top_eq, ((room, holds), e)) = record {
    hdr_eq = hdr_eq;
    top_eq = top_eq;
    room = room;
    holds = holds;
    loaded = e ∙ ap (λ p. with_file pd p hs w0) hdr_eq;
  }

  pub load_file-IsFiled :
      (pd stack_top start phoff entry : ℕ) (hs : List Phdr) (k : ℕ) (w : Memory Ram)
      → IsImage view write reach limit Holds start phoff entry hs
      → Ready view write reach limit Holds pd
          (frames_for_all hs + (frames_for stack_size + k))
          (some w)
      → IsFiled pd start k
          (with_file pd start hs w)
          (load_file view write reach pd pd start stack_top w)
  unfolding load_file
  load_file-IsFiled pd stack_top start phoff entry hs k w image (room, holds) =
      let mem = memory_bytes view write reach pd (some w) in
      let F = image.file pd w holds in
      let ok : (elf_ctx_create no_ctx start mem).0 ≡ elf_ok =
        (create-IsSupported no_ctx start mem).1 F.supported in
      let opened = create-IsOpened start mem ok in
      let headers : (elf_ctx_create no_ctx start mem).1.program_headers ≡ (start + phoff) % 2 ^ 32 =
        opened.headers_eq ∙ ap (λ p. (start + p) % 2 ^ 32) F.phoff_eq in
      let stacked =
        elf_ctx_load-Stacked pd stack_top start phoff entry hs k (elf_ctx_create no_ctx start mem).1
          w image opened.hdr_eq headers (room, holds) in
      rw ok (filed pd start k hs w (elf_ctx_create no_ctx start mem).1 _ opened.hdr_eq stacked)
