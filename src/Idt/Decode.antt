-- ===== src/Idt/Decode.antt =====
-- What init_idt of arch/i686/idt.c leaves at each vector.
use native.Mathlib.Decide.{ℕ_discrete, dec_lt}
use mugo.Base.{ℕ, zero, suc, ◌+◌, ◌*◌, ◌^◌, ◌<◌, ◌≤◌, ◌≡◌, ◌≢◌, refl, ◌∙◌, arith}
use mugo.Idt.{IdtEntry, IdtEntries, fill_idt_entry, fill_from, init_idt}

-- The handler's address, as the gate spreads it.
abbrev pub offset_of : IdtEntry → ℕ
offset_of e = e.offset_low + e.offset_high * 2 ^ 16

-- An interrupt gate to `target` in the kernel's code segment.
pub record IsGate (e : IdtEntry) (target : ℕ) : Type 0 where
  pub target_read : offset_of e ≡ target
  pub selector : e.selector ≡ 0x08
  pub kind : e.type_attr ≡ 0x8E
  pub reserved : e.zero_byte ≡ 0

fill-IsGate :
    (num offset : ℕ) (idt : IdtEntries)
    → offset < 2 ^ 32
    → IsGate (fill_idt_entry num offset 0x08 0x8E idt num) offset
unfolding fill_idt_entry
fill-IsGate num offset idt small = ground arith

fill_ne :
    (num offset s t : ℕ) (idt : IdtEntries) (v : ℕ)
    → v ≢ num
    → fill_idt_entry num offset s t idt v ≡ idt v
unfolding fill_idt_entry
fill_ne num offset s t idt v ne = ground arith

fill_from_before :
    (n num : ℕ) (handler : ℕ → ℕ) (idt : IdtEntries) (v : ℕ)
    → v < num
    → fill_from n num handler idt v ≡ idt v
unfolding fill_from
fill_from_before zero num handler idt v lt = refl
fill_from_before (suc n) num handler idt v lt =
    fill_from_before n (num + 1) handler _ v (omega arith)
    ∙ fill_ne num (handler num) 0x08 0x8E idt v (omega arith)

fill_from_after :
    (n num : ℕ) (handler : ℕ → ℕ) (idt : IdtEntries) (v : ℕ)
    → num + n ≤ v
    → fill_from n num handler idt v ≡ idt v
unfolding fill_from
fill_from_after zero num handler idt v le = refl
fill_from_after (suc n) num handler idt v le =
    fill_from_after n (num + 1) handler _ v (omega arith)
    ∙ fill_ne num (handler num) 0x08 0x8E idt v (omega arith)

fill_from-IsGate :
    (n num : ℕ) (handler : ℕ → ℕ) (idt : IdtEntries) (v : ℕ)
    → num ≤ v
    → v < num + n
    → handler v < 2 ^ 32
    → IsGate (fill_from n num handler idt v) (handler v)
unfolding fill_from
fill_from-IsGate zero num handler idt v le lt small = absurd (omega arith)
fill_from-IsGate (suc n) num handler idt v le lt small = elim (ℕ_discrete v num) [
  | yes e ↦
      rw
        (
          fill_from_before n (num + 1) handler (fill_idt_entry num (handler num) 0x08 0x8E idt) v
              (omega arith),
          e,
        )
        (fill-IsGate num (handler num) idt (rw (← e) small))
  | no ne ↦ fill_from-IsGate n (num + 1) handler _ v (omega arith) (omega arith) small
]

-- init_idt makes each of the 48 first vectors a gate to its stub, if the stub has a 32-bit
-- address, and leaves the others as they were.
pub init-IsGate :
    (idt_entries : ℕ) (handler : ℕ → ℕ) (idt : IdtEntries) (v w : ℕ)
    → v < 48
    → handler v < 2 ^ 32
    → 48 ≤ w
    → let (idt', ptr) = init_idt idt_entries handler idt in
      IsGate (idt' v) (handler v) × (idt' w ≡ idt w) × (ptr.limit + 1 ≡ 256 * 8)
unfolding init_idt
init-IsGate idt_entries handler idt v w lt small ge = elim (dec_lt v 32) [
  | yes exc ↦ (
    rw (fill_from_before 16 32 handler (fill_from 32 0 handler idt) v exc)
        (fill_from-IsGate 32 0 handler idt v (omega arith) (omega arith) small),
    fill_from_after 16 32 handler _ w (omega arith)
        ∙ fill_from_after 32 0 handler idt w (omega arith),
    refl,
  )
  | no irq ↦ (
    fill_from-IsGate 16 32 handler _ v (omega arith) (omega arith) small,
    fill_from_after 16 32 handler _ w (omega arith)
        ∙ fill_from_after 32 0 handler idt w (omega arith),
    refl,
  )
]
