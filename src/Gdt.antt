-- ===== src/Gdt.antt =====
-- arch/i686/boot/gdt.c: segment descriptors.
pub mod Decode
mod Tests
use Prim.Native.Nat.{bit_and, bit_or}
use mugo.Base.{ℕ, ◌+◌, ◌-◌, ◌*◌, ◌/◌, ◌%◌, ◌^◌, ◌==◌, if◌then◌else◌}

-- gdt_entry_t
pub record GdtEntry : Type 0 where
  pub limit_low : ℕ
  pub base_low : ℕ
  pub base_middle : ℕ
  pub access : ℕ
  pub granularity : ℕ
  pub base_high : ℕ

abbrev pub GdtEntries : Type 0
GdtEntries = ℕ → GdtEntry

-- The fields that fill_gdt_entry writes, for 32-bit `base` and `limit`; a mask of low bits is a
-- remainder and a shift a quotient.
abbrev pub gdt_fields : (base limit access granularity : ℕ) → GdtEntry
gdt_fields base limit access granularity = record {
  limit_low = limit % 2 ^ 16;
  base_low = base % 2 ^ 16;
  base_middle = base / 2 ^ 16 % 2 ^ 8;
  access = access;
  granularity = bit_or (limit / 2 ^ 16 % 2 ^ 4) granularity;
  base_high = base / 2 ^ 24 % 2 ^ 8;
}

unfoldable pub fill_gdt_entry :
    (segment_num base limit access granularity : ℕ) → GdtEntries → GdtEntries
fill_gdt_entry segment_num base limit access granularity gdt n =
    if n == segment_num then gdt_fields base limit access granularity else gdt n

-- The fields of struct tss that init_gdt writes.
pub record Tss : Type 0 where
  pub ss0 : ℕ
  pub sp0 : ℕ
  pub cs : ℕ
  pub ss : ℕ
  pub ds : ℕ
  pub es : ℕ
  pub fs : ℕ
  pub gs : ℕ

-- gdt_t, the operand of `lgdt`.
pub record GdtPtr : Type 0 where
  pub limit : ℕ
  pub base : ℕ

abbrev pub sizeof_gdt_entry : ℕ
sizeof_gdt_entry = 8

abbrev pub sizeof_tss : ℕ
sizeof_tss = 104

-- `gdt_entries`, `tss` and `kstack_top` are the addresses of these objects and the value of the
-- last. load_gdt and load_tss, in assembly, only load registers.
unfoldable pub init_gdt : (gdt_entries tss kstack_top : ℕ) → GdtEntries → GdtEntries × GdtPtr × Tss
unfolding fill_gdt_entry
init_gdt gdt_entries tss kstack_top gdt =
    let gdt = fill_gdt_entry 0 0 0 0 0 gdt in
    let gdt = fill_gdt_entry 1 0x0 0xFFFFFFFF 0x9A 0xC0 gdt in
    let gdt = fill_gdt_entry 2 0x0 0xFFFFFFFF 0x92 0xC0 gdt in
    let gdt = fill_gdt_entry 3 0x0 0xFFFFFFFF 0xFA 0xC0 gdt in
    let gdt = fill_gdt_entry 4 0x0 0xFFFFFFFF 0xF2 0xC0 gdt in
    let gdt = fill_gdt_entry 5 tss sizeof_tss 0x89 0xC0 gdt in
    (
      gdt,
      record { limit = sizeof_gdt_entry * 6 - 1; base = gdt_entries },
      record {
        ss0 = 0x10;
        sp0 = kstack_top;
        cs = 0x0b;
        ss = 0x13;
        ds = 0x13;
        es = 0x13;
        fs = 0x13;
        gs = 0x13;
      },
    )

unfoldable pub native_update_tss : ℕ → Tss → Tss
native_update_tss esp0 tss = record tss { sp0 = esp0 }
