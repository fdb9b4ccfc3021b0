-- ===== src/Thread/Tests.antt =====
-- A concrete machine for arch/i686/thread.c, and the theorems at it.
use mugo.Base.{ℕ, ◌≡◌, refl, arith, ◌==◌, if◌then◌else◌}
use mugo.Thread.{
  ThreadContext, IrqContext, Tcb, Proc, Machine, zero_regs, native_create_thread,
  native_select_thread, arch_update_exec_ctx,
}
use mugo.Thread.Context.{Runs, select-Runs}

abbrev context : ThreadContext
context = record {
  ds = 0x23;
  gp_regs_state = record zero_regs { ebp = 77 };
  err = 0;
  eip = 0;
  cs = 0x1B;
  eflags = 0x202;
  esp = 0;
  ss = 0x23;
}

-- The threads at 0x8000 and 0x8100 belong to the processes at 0x9000 and 0x9100.
abbrev pub thread : ℕ → Tcb
thread p = record {
  id = 0;
  proc = if p == 0x8000 then 0x9000 else 0x9100;
  sched_ctx = record { priority = 0; state = 0; quantum_nsec = 0 };
  exec_ctx = context;
  utcb_ptr = 0;
}

abbrev pub process : ℕ → Proc
process p = record {
  id = if p == 0x9000 then 1 else 2;
  page_dir = if p == 0x9000 then 0x20_0000 else 0x30_0000;
  priority = 0;
  threads = if p == 0x9000 then 0x8000 else 0x8100;
  thread_count = 1;
}

abbrev pub boot : Machine
boot = record { tcb = thread; proc = process; current_exec_ctx = 0; current_proc = 0; cr3 = 0 }

abbrev pub irq : IrqContext
irq = record {
  ds = 0x23;
  edi = 1;
  esi = 2;
  ebp = 3;
  unused = 4;
  ebx = 5;
  edx = 6;
  ecx = 7;
  eax = 8;
  int_no = 32;
  err_code = 0;
  eip = 0x40_0010;
  cs = 0x1B;
  eflags = 0x246;
  esp = 0x7FFF_FFF0;
  ss = 0x23;
}

abbrev running : Machine
running = record boot { current_exec_ctx = 0x8018; current_proc = 0x9000; cr3 = 0x20_0000 }

created :
    let t = (native_create_thread 0x8000 0x40_0000 0x8000_0000 0 boot).tcb 0x8000 in
    (t.exec_ctx.eip ≡ 0x40_0000)
    × (t.exec_ctx.esp ≡ 0x8000_0000)
    × (t.exec_ctx.gp_regs_state ≡ zero_regs)
unfolding native_create_thread
created = (refl, refl, refl)

-- The interrupted frame pointer, 3, is not saved.
ebp_is_lost : ((arch_update_exec_ctx irq running).tcb 0x8000).exec_ctx.gp_regs_state.ebp ≡ 77
unfolding arch_update_exec_ctx
ebp_is_lost = refl

select-Runs_example :
    Runs (native_select_thread 0x8100 boot) 0x8100
    × ((native_select_thread 0x8100 boot).tcb ≡ thread)
    × ((native_select_thread 0x8100 boot).proc ≡ process)
select-Runs_example = select-Runs 0x8100 boot (λ ne. absurd (ne refl)) (omega arith)

running-Runs : Runs running 0x8000
running-Runs = record { context = refl; process = refl; directory = refl }
