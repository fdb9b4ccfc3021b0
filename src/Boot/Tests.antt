-- ===== src/Boot/Tests.antt =====
-- A boot with one module, with an interrupt of the timer after it, and the theorem of bootstrap in
-- kern/main.c at it.
use mugo.Base.{ℕ, ◌+◌, ◌*◌, Bool, true, Option, none, some, [], ◌∷◌}
use mugo.Thread.{IrqContext}
use mugo.Thread.Tests.{boot, irq}
use mugo.Start.{World}
use mugo.Start.Tests.{world, no_callbacks}
use mugo.Paging.Map.{Space}
use mugo.Modules.{Memory}
use mugo.Modules.Tests.{Ram, image, Intact}
use mugo.Kmem.Tests.{layout}
use mugo.Paging.{Addresses}
use mugo.Modules.Loaded.{frames_of_all}
use mugo.Boot.Prepared.{kernel_frames}
use mugo.Boot.{Arch, ArchStatics}

abbrev arch : Arch
arch = record {
  gdt = λ n. record {
    limit_low = 0;
    base_low = 0;
    base_middle = 0;
    access = 0;
    granularity = 0;
    base_high = 0;
  };
  gdt_ptr = record { limit = 0; base = 0 };
  tss = record { ss0 = 0; sp0 = 0; cs = 0; ss = 0; ds = 0; es = 0; fs = 0; gs = 0 };
  idt = λ n. record { offset_low = 0; selector = 0; zero_byte = 0; type_attr = 0; offset_high = 0 };
  idt_ptr = record { limit = 0; base = 0 };
  msr = λ r. 0;
  io = [];
  callbacks = no_callbacks;
}

abbrev arch_statics : ArchStatics
arch_statics = record {
  gdt_entries = 0xC001_0000;
  tss = 0xC001_1000;
  idt_entries = 0xC001_2000;
  handler = λ n. 0xC002_0000 + n * 16;
  arch_sysenter_stub = 0xC003_0000;
}

abbrev off : World
off = let rr = world.rr in record world { rr = record rr { machine = boot } }

abbrev tick : IrqContext
tick = record irq { int_no = 32 }

abbrev addresses : Addresses
addresses = record {
  boot_page_directory = 0xC010_0000;
  page_directory = 0xC010_1000;
  bootstrap_pt = 0xC010_2000;
  module_bootstrap_pt = 0xC010_3000;
  kernel_pt = 0xC010_4000;
  k_high_vma = 0xC000_0000;
}

abbrev frames : ℕ
frames = kernel_frames layout + frames_of_all (image ∷ [])

-- All memory is mapped to itself, but shown at low addresses by each directory in its own way.
abbrev reach : (cr3 : ℕ) → Space → ℕ → Bool
reach cr3 s p = true

abbrev limit : ℕ
limit = 0x200_0000

abbrev Holds : (cr3 : ℕ) → Memory Ram → Type 0
Holds cr3 w = Intact w

-- A new directory is made in the tables alone.
abbrev IsMade : Option (ℕ × Memory Ram) → Type 0
IsMade none = Unit
IsMade (some (pd, w1)) = Intact w1
