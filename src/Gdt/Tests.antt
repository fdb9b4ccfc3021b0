-- ===== src/Gdt/Tests.antt =====
-- The theorems of arch/i686/boot/gdt.c at concrete segments.
use mugo.Base.{◌≡◌, ◌*◌, arith}
use mugo.Gdt.{GdtEntries, fill_gdt_entry, gdt_fields}
use mugo.Gdt.Decode.{base_of, limit_of, flags_of, fill-decode}

abbrev blank : GdtEntries
blank n = gdt_fields 0 0 0 0

fill-decode_example :
    let gdt' = fill_gdt_entry 3 0x12345678 0xABCDE 0x9A (12 * 16) blank in
    (base_of (gdt' 3) ≡ 0x12345678)
    × (limit_of (gdt' 3) ≡ 0xABCDE)
    × (flags_of (gdt' 3) ≡ 12)
    × ((gdt' 3).access ≡ 0x9A)
    × (gdt' 4 ≡ blank 4)
fill-decode_example = fill-decode 3 0x12345678 0xABCDE 0x9A 12 4 blank (omega arith) (omega arith)
