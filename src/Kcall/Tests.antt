-- ===== src/Kcall/Tests.antt =====
-- A report of one memory map, and the theorems of kern/kcall.c at it.
use mugo.Base.{◌≡◌, List, [], ◌∷◌, refl, inl, arith}
use mugo.Kcall.{Words, Memmap, KcallFrame, kcall_handler}
use mugo.Kcall.Report.{Reported, handler-Reported, handler-refused}

abbrev memmaps : List Memmap
memmaps = record { addr = 0x100000; len = 0x4000 } ∷ []

abbrev frame : KcallFrame
frame = record { kcall_number = 1; arg = 0x8000 }

abbrev zeros : Words
zeros a = 0

handler-Reported_example :
    let (ret, w') = kcall_handler (λ p. 0) 0xC0000000 1 memmaps frame zeros in
    (ret ≡ 0) × Reported memmaps 0x8000 w' × (w' 0x80A0 ≡ 1)
handler-Reported_example =
    handler-Reported (λ p. 0) 0xC0000000 memmaps frame zeros refl (omega arith) (omega arith)

handler-refused_example : (kcall_handler (λ p. 0) 0xC0000000 2 memmaps frame zeros).1 ≡ zeros
handler-refused_example =
    handler-refused (λ p. 0) 0xC0000000 2 memmaps frame zeros (inl (λ e. absurd (omega (arith, e))))
