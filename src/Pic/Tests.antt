-- ===== src/Pic/Tests.antt =====
-- A device for arch/i686/drivers/pic.c, and the theorems at it.
use mugo.Base.{if◌then◌else◌, ◌==◌}
use mugo.Pic.{Device}

-- Every port but the slave's command port reads 0x5A; that one has its last line pending.
abbrev pub device : Device
device io port = if port == 0xA0 then 0x80 else 0x5A
