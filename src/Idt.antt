-- ===== src/Idt.antt =====
-- arch/i686/idt.c: the interrupt descriptors.
pub mod Decode
mod Tests
use mugo.Base.{ℕ, zero, suc, ◌+◌, ◌-◌, ◌*◌, ◌/◌, ◌%◌, ◌^◌, ◌==◌, if◌then◌else◌}

-- idt_entry_t
pub record IdtEntry : Type 0 where
  pub offset_low : ℕ
  pub selector : ℕ
  pub zero_byte : ℕ
  pub type_attr : ℕ
  pub offset_high : ℕ

abbrev pub IdtEntries : Type 0
IdtEntries = ℕ → IdtEntry

-- idt_t, the operand of `lidt`.
pub record IdtPtr : Type 0 where
  pub limit : ℕ
  pub base : ℕ

abbrev pub sizeof_idt_entry : ℕ
sizeof_idt_entry = 8

unfoldable pub fill_idt_entry : (num offset selector type : ℕ) → IdtEntries → IdtEntries
fill_idt_entry num offset selector type idt n =
    if n == num
    then record {
      offset_low = offset % 2 ^ 16;
      selector = selector;
      zero_byte = 0;
      type_attr = type;
      offset_high = offset / 2 ^ 16 % 2 ^ 16;
    }
    else idt n

-- The calls for the vectors from the `num`-th on, `n` of them, all with the kernel's code segment
-- and an interrupt gate.
unfoldable pub fill_from : ℕ → ℕ → (ℕ → ℕ) → IdtEntries → IdtEntries
fill_from zero num handler idt = idt
fill_from (suc n) num handler idt =
    fill_from n (num + 1) handler (fill_idt_entry num (handler num) 0x08 0x8E idt)

-- `handler` gives the addresses of the stubs of arch/i686/boot/interrupt.asm: eh0 to eh31 for the
-- vectors 0 to 31, irq0 to irq15 for 32 to 47. load_idt, in assembly, only loads a register.
unfoldable pub init_idt : (idt_entries : ℕ) → (ℕ → ℕ) → IdtEntries → IdtEntries × IdtPtr
unfolding fill_from
init_idt idt_entries handler idt = (
  fill_from 16 32 handler (fill_from 32 0 handler idt),
  record { limit = sizeof_idt_entry * 256 - 1; base = idt_entries },
)
