-- ===== src/Early/Modules.antt =====
-- Where early_main of arch/i686/early.c puts the modules.
use native.Mathlib.Decide.{ℕ_discrete}
use mugo.Base.{
  ◌⊎◌, ℕ, zero, suc, ◌+◌, ◌-◌, ◌%◌, ◌^◌, ◌<◌, ◌≤◌, ◌≡◌, refl, sym, ◌∙◌, ap, inl, inr, true,
  Bool-cases, ◌==◌, arith,
}
use mugo.Stdlib.{Bytes, memcpy}
use mugo.Stdlib.Copy.{memcpy_outside}
use mugo.Paging.{BootModule, page_size, sub32}
use mugo.Early.{
  BootInfo, at, copy_name, page_align, end_from, mod_start, mod_end, max_module_name_len,
  load_module,
}
use mugo.Early.Maps.{Kept}

-- Where module `i` should begin.
abbrev pub end_before : (start : ℕ) → (ℕ → BootModule) → ℕ → ℕ
end_before start f zero = start
end_before start f (suc i) = (f i).end_paddr

-- The modules stand back to back from `start` on, each up to the end of a page, and
-- `total_module_size` is the space that they take.
pub record IsPlaced (start : ℕ) (s : BootInfo) : Type 0 where
  pub chain :
      (i : ℕ) → i < s.module_index → (s.modules i).start_paddr ≡ end_before start s.modules i
  pub aligned : (i : ℕ) → i < s.module_index → (s.modules i).end_paddr % page_size ≡ 0
  pub last : s.last_module_end_addr ≡ end_before start s.modules s.module_index
  pub total : (start + s.total_module_size) % 2 ^ 32 ≡ s.last_module_end_addr
  pub total_small : s.total_module_size < 2 ^ 32
  pub few : s.module_index ≤ 5

page_align-aligned : (e : ℕ) → page_align e % page_size ≡ 0
page_align-aligned e = ground arith

end_from-small : (start tag : ℕ) (m : Bytes) → end_from start tag m < 2 ^ 32
end_from-small start tag m = ground arith

at_self : (i : ℕ) (b : BootModule) (f : ℕ → BootModule) → at i b f i ≡ b
at_self i b f = ground arith

at_other : (i j : ℕ) (b : BootModule) (f : ℕ → BootModule) → i < j → at j b f i ≡ f i
at_other i j b f lt = ground arith

end_before-at :
    (start i j : ℕ) (b : BootModule) (f : ℕ → BootModule)
    → i ≤ j
    → end_before start (at j b f) i ≡ end_before start f i
end_before-at start zero j b f le = refl
end_before-at start (suc i) j b f le = ap (λ b. b.end_paddr) (at_other i j b f (omega arith))

total_lem :
    (start total last end : ℕ)
    → (start + total) % 2 ^ 32 ≡ last
    → end < 2 ^ 32
    → (start + (total + sub32 end last) % 2 ^ 32) % 2 ^ 32 ≡ end
total_lem start total last end so_far small = omega arith

pub load_module-IsPlaced :
    (start tag : ℕ) (s : BootInfo)
    → s.module_index < 5
    → IsPlaced start s
    → IsPlaced start (load_module tag s)
unfolding load_module
load_module-IsPlaced start tag s lt placed =
    let k = s.module_index in
    let b : BootModule = record {
      start_paddr = s.last_module_end_addr;
      end_paddr = end_from s.last_module_end_addr tag s.mem;
    } in
    record {
      chain = λ i lt'. elim (ℕ_discrete i k) [
        | yes here ↦
            rw (here, at_self k b s.modules, end_before-at start k k b s.modules (omega arith))
              placed.last
        | no ne ↦
            rw
              (
                at_other i k b s.modules (omega arith),
                end_before-at start i k b s.modules (omega arith),
              )
              (placed.chain i (omega arith))
      ];
      aligned = λ i lt'. elim (ℕ_discrete i k) [
        | yes here ↦
            rw (here, at_self k b s.modules)
              (page_align-aligned (
                (s.last_module_end_addr + sub32 (mod_end tag s.mem) (mod_start tag s.mem))
                % 2 ^ 32))
        | no ne ↦ rw (at_other i k b s.modules (omega arith)) (placed.aligned i (omega arith))
      ];
      last = ap (λ b. b.end_paddr) (sym (at_self k b s.modules));
      total =
          total_lem start s.total_module_size s.last_module_end_addr
            (end_from s.last_module_end_addr tag s.mem) placed.total
            (end_from-small s.last_module_end_addr tag s.mem);
      total_small = omega arith;
      few = omega arith;
    }

-- copy_name stops in a string that ends after `k` characters.
pub copy_name-place :
    (left p i : ℕ) (m : Bytes) (name : ℕ → ℕ) (k : ℕ)
    → m (p + k) ≡ 0
    → (p ≤ (copy_name left p i m name).0) × ((copy_name left p i m name).0 ≤ p + k)
unfolding copy_name
copy_name-place zero p i m name k end = (omega arith, omega arith)
copy_name-place (suc left) p i m name zero end =
    let stop : (m p == 0) ≡ true = ground (arith, end) in rw stop (omega arith, omega arith)
copy_name-place (suc left) p i m name (suc k) end =
    let (lo, hi) =
      copy_name-place left (p + 1) (i + 1) m (at i (m p) name) k (ap m (omega arith) ∙ end) in
    elim (Bool-cases (m p == 0)) [
      | inl stop ↦ rw stop (omega arith, omega arith)
      | inr on ↦ rw on (omega arith, omega arith)
    ]

-- Tags that lie below the end of the kernel's space keep their bytes: only the zero behind the
-- name is written there.
pub load_module-below :
    (tag p k hi : ℕ) (s : BootInfo)
    → hi ≤ s.last_module_end_addr
    → p < hi
    → tag + 16 + k < hi
    → s.mem (tag + 16 + k) ≡ 0
    → (p < tag + 16) ⊎ (tag + 16 + k < p)
    → (load_module tag s).mem p ≡ s.mem p
unfolding load_module
load_module-below tag p k hi s above lt inside end out =
    let n = mod_end tag s.mem - mod_start tag s.mem in
    let m = memcpy s.last_module_end_addr (mod_start tag s.mem) n s.mem in
    let same : (q : ℕ) → q < hi → m q ≡ s.mem q = λ q lt.
      memcpy_outside s.last_module_end_addr (mod_start tag s.mem) n s.mem q (inl (omega arith)) in
    let (lo, up) =
      copy_name-place (max_module_name_len - 1) (tag + 16) 0 m (s.names s.module_index) k
        (same (tag + 16 + k) inside ∙ end) in
    ground (arith, same p lt, lo, up)

pub Kept-IsPlaced : (start : ℕ) {s s' : BootInfo} → Kept s s' → IsPlaced start s → IsPlaced start s'
Kept-IsPlaced start {s = s} {s' = s'} kept placed = record {
  chain = rw (kept.modules_eq, kept.index_eq) placed.chain;
  aligned = rw (kept.modules_eq, kept.index_eq) placed.aligned;
  last = rw (kept.modules_eq, kept.index_eq, kept.last_eq) placed.last;
  total = rw (kept.total_eq, kept.last_eq) placed.total;
  total_small = rw kept.total_eq placed.total_small;
  few = rw kept.index_eq placed.few;
}
