-- ===== src/Elf/Sections.antt =====
-- Which section elf_ctx_create of lib/libelf/elf.c takes for the symbol table.
use native.Mathlib.Decide.{ℕ_discrete}
use mugo.Base.{
  true, false, ==_iff, Bool-cases, inl, inr, ℕ, zero, suc, ◌+◌, ◌*◌, ◌≤◌, ◌<◌, ◌≡◌, ◌≢◌, refl, ◌==◌,
  arith,
}
use mugo.Stdlib.{Bytes}
use mugo.Elf.{sh_type, sh_link, sht_symtab, sizeof_shdr, ElfCtx, find_symbols}

module _ (m : Bytes) where
  abbrev pub section : ElfCtx → ℕ → ℕ
  section ctx k = ctx.section_headers + sizeof_shdr * k

  -- With no more symbol tables among the sections, the context stays.
  find_none :
      (left i : ℕ) (ctx : ElfCtx)
      → ((k : ℕ) → i ≤ k → k < i + left → sh_type (section ctx k) m ≢ sht_symtab)
      → find_symbols left i m ctx ≡ ctx
  unfolding find_symbols
  find_none zero i ctx no_more = refl
  find_none (suc left) i ctx no_more =
      let no : (sh_type (section ctx i) m == sht_symtab) ≡ false =
        ground (arith, no_more i (omega arith) (omega arith)) in
      rw no (find_none left (i + 1) ctx (λ k ge lt. no_more k (omega arith) (omega arith)))

  -- The last section with a symbol table's type, if there is one, becomes the symbol table, and
  -- the section that it links to the string table.
  find_symbols-last :
      (left i j : ℕ) (ctx : ElfCtx)
      → i ≤ j
      → j < i + left
      → sh_type (section ctx j) m ≡ sht_symtab
      → ((k : ℕ) → j < k → k < i + left → sh_type (section ctx k) m ≢ sht_symtab)
      → find_symbols left i m ctx ≡ record ctx {
        symbol_table = section ctx j;
        string_table = section ctx (sh_link (section ctx j) m);
      }
  unfolding find_symbols
  find_symbols-last zero i j ctx ge lt found no_more = absurd (omega arith)
  find_symbols-last (suc left) i j ctx ge lt found no_more = elim (ℕ_discrete i j) [
    | yes here ↦
        let hit : (sh_type (section ctx i) m == sht_symtab) ≡ true =
          (==_iff _ _).1 (rw here found) in
        rw (← here, hit) (find_none left (i + 1) _ (λ k a b. no_more k (omega arith) (omega arith)))
    | no ne ↦ elim (Bool-cases (sh_type (section ctx i) m == sht_symtab)) [
      | inl e ↦ rw e (
          find_symbols-last left (i + 1) j _ (omega arith) (omega arith) found
            (λ k a b. no_more k a (omega arith)))
      | inr e ↦ rw e (
          find_symbols-last left (i + 1) j ctx (omega arith) (omega arith) found
            (λ k a b. no_more k a (omega arith)))
    ]
  ]
