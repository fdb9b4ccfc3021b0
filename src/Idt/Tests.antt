-- ===== src/Idt/Tests.antt =====
-- The theorem of arch/i686/idt.c at concrete stubs.
use mugo.Base.{ℕ, ◌≡◌, ◌+◌, ◌*◌, arith}
use mugo.Idt.{IdtEntries, init_idt}
use mugo.Idt.Decode.{IsGate, init-IsGate}

abbrev stub : ℕ → ℕ
stub v = 0xC0100000 + 16 * v

abbrev blank : IdtEntries
blank n = record { offset_low = 0; selector = 0; zero_byte = 0; type_attr = 0; offset_high = 0 }

init-IsGate_example :
    let (idt', ptr) = init_idt 0xC0104000 stub blank in
    IsGate (idt' 32) 0xC0100200 × (idt' 200 ≡ blank 200) × (ptr.limit + 1 ≡ 2048)
init-IsGate_example =
    init-IsGate 0xC0104000 stub blank 32 200 (omega arith) (omega arith) (omega arith)
