-- ===== src/Thread.antt =====
-- arch/i686/thread.c over the kernel objects of kern/kobjs.h and the register contexts of
-- arch/i686/include/arch_obj_defs.h and arch_interrupt.h.
-- Objects stand in arrays indexed by their address. A pointer is its address, and 0 is NULL.
pub mod Context
pub mod Tests
use mugo.Base.{ℕ, ◌+◌, ◌-◌, ◌%◌, ◌^◌, ◌==◌, if◌then◌else◌}

-- arch_gp_regs
pub record GpRegs : Type 0 where
  pub edi : ℕ
  pub esi : ℕ
  pub ebp : ℕ
  pub esp : ℕ
  pub edx : ℕ
  pub ecx : ℕ
  pub ebx : ℕ
  pub eax : ℕ

-- arch_thread_context_t
pub record ThreadContext : Type 0 where
  pub ds : ℕ
  pub gp_regs_state : GpRegs
  pub err : ℕ
  pub eip : ℕ
  pub cs : ℕ
  pub eflags : ℕ
  pub esp : ℕ
  pub ss : ℕ

-- struct irq_context; `unused` is the `__unused` slot, the stack pointer that `pusha` stores.
pub record IrqContext : Type 0 where
  pub ds : ℕ
  pub edi : ℕ
  pub esi : ℕ
  pub ebp : ℕ
  pub unused : ℕ
  pub ebx : ℕ
  pub edx : ℕ
  pub ecx : ℕ
  pub eax : ℕ
  pub int_no : ℕ
  pub err_code : ℕ
  pub eip : ℕ
  pub cs : ℕ
  pub eflags : ℕ
  pub esp : ℕ
  pub ss : ℕ

-- tcb_sched_ctx_t
pub record SchedCtx : Type 0 where
  pub priority : ℕ
  pub state : ℕ
  pub quantum_nsec : ℕ

-- tcb_t; its `list` header is kept with the links of kern/list.h.
pub record Tcb : Type 0 where
  pub id : ℕ
  pub proc : ℕ
  pub sched_ctx : SchedCtx
  pub exec_ctx : ThreadContext
  pub utcb_ptr : ℕ

-- proc_t; `list` is never linked.
pub record Proc : Type 0 where
  pub id : ℕ
  pub page_dir : ℕ
  pub priority : ℕ
  pub threads : ℕ
  pub thread_count : ℕ

-- The layout of tcb_t on i686: 4 bytes each for `id` and `proc`, 16 for `sched_ctx`, 60 for
-- `exec_ctx`, 4 for `utcb_ptr`, 8 for `list`.
abbrev pub tcb_sched_offset : ℕ
tcb_sched_offset = 8

abbrev pub tcb_exec_offset : ℕ
tcb_exec_offset = 24

abbrev pub tcb_list_offset : ℕ
tcb_list_offset = 88

abbrev pub sizeof_tcb : ℕ
sizeof_tcb = 96

-- What thread.c reads and writes: the objects, its two static variables, and the register CR3.
pub record Machine : Type 0 where
  pub tcb : ℕ → Tcb
  pub proc : ℕ → Proc
  pub current_exec_ctx : ℕ
  pub current_proc : ℕ
  pub cr3 : ℕ

abbrev pub write_tcb : ℕ → Tcb → Machine → Machine
write_tcb p t m = record m { tcb = λ q. if q == p then t else m.tcb q }

-- The context at address `ctx`: the `exec_ctx` of the object that it lies in.
abbrev pub owner : ℕ → ℕ
owner ctx = (ctx + 2 ^ 32 - tcb_exec_offset) % 2 ^ 32

abbrev pub zero_regs : GpRegs
zero_regs = record { edi = 0; esi = 0; ebp = 0; esp = 0; edx = 0; ecx = 0; ebx = 0; eax = 0 }

-- 0x2 | (1 << 9)
abbrev pub thread_default_eflags : ℕ
thread_default_eflags = 0x202

unfoldable pub native_create_thread :
    (tcb entrypoint thread_stack_base k_stack_base : ℕ) → Machine → Machine
native_create_thread tcb entrypoint thread_stack_base k_stack_base m =
    let t = m.tcb tcb in
    let ctx = t.exec_ctx in
    write_tcb tcb
      (record t {
        exec_ctx = record ctx {
          esp = thread_stack_base;
          eip = entrypoint;
          ss = 0x23;
          ds = 0x23;
          cs = 0x1B;
          eflags = thread_default_eflags;
          gp_regs_state = zero_regs;
        };
      })
      m

unfoldable pub native_select_thread : ℕ → Machine → Machine
native_select_thread tcb m =
    let ctx = tcb + tcb_exec_offset in
    let m1 = if ctx == m.current_exec_ctx then m else record m { current_exec_ctx = ctx } in
    let proc = (m1.tcb tcb).proc in
    if proc == m1.current_proc
    then m1
    else record m1 { current_proc = proc; cr3 = (m1.proc proc).page_dir }

unfoldable pub arch_update_exec_ctx : IrqContext → Machine → Machine
arch_update_exec_ctx irq m =
    let t = m.tcb (owner m.current_exec_ctx) in
    let ctx = t.exec_ctx in
    let regs = ctx.gp_regs_state in
    write_tcb (owner m.current_exec_ctx)
      (record t {
        exec_ctx = record ctx {
          eip = irq.eip;
          esp = irq.esp;
          eflags = irq.eflags;
          gp_regs_state = record regs {
            eax = irq.eax;
            ebx = irq.ebx;
            ecx = irq.ecx;
            edx = irq.edx;
            edi = irq.edi;
            esi = irq.esi;
          };
        };
      })
      m
