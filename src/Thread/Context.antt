-- ===== src/Thread/Context.antt =====
-- What arch/i686/thread.c keeps true of the selected thread, and what a context switch saves.
use mugo.Base.{ℕ, ◌+◌, ◌<◌, ◌^◌, ◌≡◌, ◌≢◌, arith}
use mugo.Thread.{
  owner, sizeof_tcb, Machine, IrqContext, ThreadContext, tcb_exec_offset, native_select_thread,
  arch_update_exec_ctx,
}

-- The processor runs thread `t`: its context, its process and that process's page directory.
pub record Runs (m : Machine) (t : ℕ) : Type 0 where
  pub context : m.current_exec_ctx ≡ t + tcb_exec_offset
  pub process : m.current_proc ≡ (m.tcb t).proc
  pub directory : m.cr3 ≡ (m.proc (m.tcb t).proc).page_dir

-- The page directory that is loaded is that of the current process, if there is one.
abbrev pub IsLoaded : Machine → Type 0
IsLoaded m = m.current_proc ≢ 0 → m.cr3 ≡ (m.proc m.current_proc).page_dir

-- `native_select_thread` makes the processor run the thread, whichever of the context and the
-- page directory it leaves as they are, and writes to no object.
pub select-Runs :
    (t : ℕ) (m : Machine)
    → IsLoaded m
    → (m.tcb t).proc ≢ 0
    → Runs (native_select_thread t m) t
      × ((native_select_thread t m).tcb ≡ m.tcb)
      × ((native_select_thread t m).proc ≡ m.proc)
unfolding native_select_thread
select-Runs t m l ne = ground arith

-- What `arch_update_exec_ctx` does to a context: nine registers come from the interrupt frame.
-- The frame pointer, the stack pointer of `pusha` and the segments stay.
pub record Saved (irq : IrqContext) (old new : ThreadContext) : Type 0 where
  pub eip_saved : new.eip ≡ irq.eip
  pub esp_saved : new.esp ≡ irq.esp
  pub eflags_saved : new.eflags ≡ irq.eflags
  pub eax_saved : new.gp_regs_state.eax ≡ irq.eax
  pub ebx_saved : new.gp_regs_state.ebx ≡ irq.ebx
  pub ecx_saved : new.gp_regs_state.ecx ≡ irq.ecx
  pub edx_saved : new.gp_regs_state.edx ≡ irq.edx
  pub edi_saved : new.gp_regs_state.edi ≡ irq.edi
  pub esi_saved : new.gp_regs_state.esi ≡ irq.esi
  pub ebp_kept : new.gp_regs_state.ebp ≡ old.gp_regs_state.ebp
  pub cs_kept : new.cs ≡ old.cs
  pub ss_kept : new.ss ≡ old.ss
  pub ds_kept : new.ds ≡ old.ds

module _ {m : Machine} (t : ℕ) (irq : IrqContext) (runs : Runs m t)
    (fits : t + sizeof_tcb < 2 ^ 32) where
  pub owner-Runs : owner m.current_exec_ctx ≡ t
  owner-Runs = omega (arith, runs.context)

  -- `arch_update_exec_ctx` saves the interrupted registers to the running thread's context.
  pub update-Saved : Saved irq (m.tcb t).exec_ctx ((arch_update_exec_ctx irq m).tcb t).exec_ctx
  unfolding arch_update_exec_ctx
  update-Saved = rw owner-Runs (ground arith)

  -- It changes no other field of an object, and the thread goes on running.
  pub update-rest :
      (p : ℕ)
      → (((arch_update_exec_ctx irq m).tcb p).sched_ctx ≡ (m.tcb p).sched_ctx)
        × (((arch_update_exec_ctx irq m).tcb p).proc ≡ (m.tcb p).proc)
        × (p ≢ t → (arch_update_exec_ctx irq m).tcb p ≡ m.tcb p)
  unfolding arch_update_exec_ctx
  update-rest p = rw owner-Runs (ground arith)

  pub update-Runs : Runs (arch_update_exec_ctx irq m) t
  unfolding arch_update_exec_ctx
  update-Runs = rw owner-Runs (ground (arith, runs.context, runs.process, runs.directory))

-- Wherever it writes, it leaves every object's process and scheduling fields.
pub update-sched :
    (m : Machine) (irq : IrqContext) (p : ℕ)
    → (((arch_update_exec_ctx irq m).tcb p).sched_ctx ≡ (m.tcb p).sched_ctx)
      × (((arch_update_exec_ctx irq m).tcb p).proc ≡ (m.tcb p).proc)
unfolding arch_update_exec_ctx
update-sched m irq p = ground arith

pub select-tcb : (t : ℕ) (m : Machine) (p : ℕ) → (native_select_thread t m).tcb p ≡ m.tcb p
unfolding native_select_thread
select-tcb t m p = ground arith
