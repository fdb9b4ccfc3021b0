-- ===== src/Gdt/Decode.antt =====
-- The segment that the processor reads from a descriptor of arch/i686/boot/gdt.c.
use mugo.Base.{
  zero, suc, ◌≤◌, ap, ◌∙◌, leb, ℕ, ◌+◌, ◌-◌, ◌*◌, ◌/◌, ◌%◌, ◌^◌, ◌<◌, ◌≡◌, refl, ◌==◌,
  if◌then◌else◌, arith,
}
use mugo.Base.Bits.{bit_or_nibble}
use mugo.Gdt.{GdtEntry, GdtEntries, fill_gdt_entry, init_gdt, gdt_fields}

-- Base, limit and flags as the descriptor's layout spreads them.
abbrev pub base_of : GdtEntry → ℕ
base_of e = e.base_low + e.base_middle * 2 ^ 16 + e.base_high * 2 ^ 24

abbrev pub limit_of : GdtEntry → ℕ
limit_of e = e.limit_low + e.granularity % 2 ^ 4 * 2 ^ 16

abbrev pub flags_of : GdtEntry → ℕ
flags_of e = e.granularity / 2 ^ 4

fields-decode :
    (base limit access flags : ℕ)
    → base < 2 ^ 32
    → flags < 16
    → let e = gdt_fields base limit access (flags * 16) in
      (base_of e ≡ base) × (limit_of e ≡ limit % 2 ^ 20) × (flags_of e ≡ flags)
fields-decode base limit access flags small hf =
    let or = bit_or_nibble (limit / 2 ^ 16 % 2 ^ 4) flags (omega arith) hf in
    (omega arith, omega (arith, or), omega (arith, or))

fill_self :
    (n base limit access gran : ℕ) (gdt : GdtEntries)
    → fill_gdt_entry n base limit access gran gdt n ≡ gdt_fields base limit access gran
unfolding fill_gdt_entry
fill_self n base limit access gran gdt = ground arith

-- The descriptor that fill_gdt_entry writes reads back as its arguments: a 32-bit base, the low
-- 20 bits of the limit, the access byte, and the flags, if the granularity byte has only flags.
-- The other descriptors stay.
pub fill-decode :
    (n base limit access flags k : ℕ) (gdt : GdtEntries)
    → base < 2 ^ 32
    → flags < 16
    → let gdt' = fill_gdt_entry n base limit access (flags * 16) gdt in
      (base_of (gdt' n) ≡ base)
      × (limit_of (gdt' n) ≡ limit % 2 ^ 20)
      × (flags_of (gdt' n) ≡ flags)
      × ((gdt' n).access ≡ access)
      × (gdt' k ≡ (if k == n then gdt' n else gdt k))
unfolding fill_gdt_entry
fill-decode n base limit access flags k gdt small hf =
    let at_n = fill_self n base limit access (flags * 16) gdt in
    let (b, l, f) = fields-decode base limit access flags small hf in
    (
      ap base_of at_n ∙ b,
      ap limit_of at_n ∙ l,
      ap flags_of at_n ∙ f,
      ap (λ e. e.access) at_n,
      ground arith,
    )

-- init_gdt leaves in each of the slots 1 to 4 a segment that spans the address space, in pages,
-- the first two for privilege 0 and the others for 3; slot 0 is null. The task descriptor points at
-- `tss`, whose ring-0 stack is the kernel's in segment 2, and the limit covers the six slots.
init-segments :
    (gdt_entries tss kstack_top i : ℕ) (gdt : GdtEntries)
    → tss < 2 ^ 32
    → 1 ≤ i
    → i ≤ 4
    → let (gdt', ptr, t) = init_gdt gdt_entries tss kstack_top gdt in
      (base_of (gdt' i) ≡ 0)
      × (limit_of (gdt' i) ≡ 2 ^ 20 - 1)
      × (flags_of (gdt' i) ≡ 12)
      × ((gdt' i).access / 2 ^ 5 % 4 ≡ (if leb i 2 then 0 else 3))
      × (gdt' 0 ≡ gdt_fields 0 0 0 0)
      × (base_of (gdt' 5) ≡ tss)
      × (t.sp0 ≡ kstack_top)
      × (t.ss0 ≡ 2 * 8)
      × (ptr.limit + 1 ≡ 6 * 8)
unfolding init_gdt
init-segments e tss k zero gdt small lo hi = absurd (omega arith)
init-segments e tss k (suc zero) gdt small lo hi =
    (refl, refl, refl, refl, refl, omega arith, refl, refl, refl)
init-segments e tss k (suc (suc zero)) gdt small lo hi =
    (refl, refl, refl, refl, refl, omega arith, refl, refl, refl)
init-segments e tss k (suc (suc (suc zero))) gdt small lo hi =
    (refl, refl, refl, refl, refl, omega arith, refl, refl, refl)
init-segments e tss k (suc (suc (suc (suc zero)))) gdt small lo hi =
    (refl, refl, refl, refl, refl, omega arith, refl, refl, refl)
init-segments e tss k (suc (suc (suc (suc (suc i))))) gdt small lo hi = absurd (omega arith)
