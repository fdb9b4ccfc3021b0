-- ===== src/Sched.antt =====
-- kern/sched_rr.c, the round-robin scheduler, with `time_sub_nsec` of kern/time.h. The state is
-- the machine of thread.c, the links of kern/list.h and the static variables of the file.
-- `ready_queue` is the address of the array of that name, which the linker chooses. A log line is
-- output only and is left out; the kernel is built without DEBUG, so an ASSERT is empty.
pub mod Queues
pub mod Ready
pub mod Next
pub mod Threads
pub mod Schedule
pub mod Ticks
pub mod Turns
pub mod Init
pub mod Tests
use mugo.Base.{
  ℕ, zero, suc, ◌+◌, ◌*◌, ◌-◌, ◌%◌, ◌^◌, Bool, true, false, List, [], ◌∷◌, ltb, ◌==◌, if◌then◌else◌,
}
use mugo.Links.{Links, list_head_init, list_add, list_is_empty, list_next}
use mugo.Thread.{
  IrqContext, SchedCtx, Tcb, Machine, write_tcb, tcb_sched_offset, tcb_list_offset, sizeof_tcb,
  native_select_thread, arch_update_exec_ctx,
}

pub record Rr : Type 0 where
  pub machine : Machine
  pub links : Links
  pub current_thread : ℕ
  pub current_sched_ctx : ℕ

abbrev pub ready_queue_len : ℕ
ready_queue_len = 16

abbrev pub thread_ready : ℕ
thread_ready = 0x02

-- `(time_t)((1. / (float)100) * SEC_NSEC)`, ten milliseconds.
abbrev pub sched_tick_nsec : ℕ
sched_tick_nsec = 10_000_000

-- `nsec_to_next_tick` is never written, so it stays 0.
abbrev pub nsec_to_next_tick : ℕ
nsec_to_next_tick = 0

unfoldable pub time_sub_nsec : ℕ → ℕ → ℕ
time_sub_nsec tv_nsec nsec = if ltb nsec tv_nsec then tv_nsec - nsec else 0

-- `&tcb->list`, and list_data for tcb_t, which takes the offset off a pointer of 32 bits.
abbrev pub list_of : ℕ → ℕ
list_of tcb = tcb + tcb_list_offset

abbrev pub list_data : ℕ → ℕ
list_data ptr = (ptr + 2 ^ 32 - tcb_list_offset) % 2 ^ 32

abbrev pub write_sched : ℕ → SchedCtx → Machine → Machine
write_sched p c m = let t = m.tcb p in write_tcb p (record t { sched_ctx = c }) m

-- The quantum does not depend on the priority.
unfoldable pub rr_quant_from_prio : ℕ → ℕ
rr_quant_from_prio priority = 10 * 1_000_000_000

module _ (ready_queue : ℕ) where
  -- `&ready_queue[i].list`
  abbrev pub queue_head : ℕ → ℕ
  queue_head i = ready_queue + i * sizeof_tcb + tcb_list_offset

  unfoldable pub rr_move_to_ready : ℕ → Rr → Rr
  rr_move_to_ready tcb s =
      let ctx = (s.machine.tcb tcb).sched_ctx in
      record s {
        links = list_add (list_of tcb) (s.links.prev (queue_head ctx.priority)) s.links;
        machine = write_sched tcb (record ctx { state = thread_ready }) s.machine;
      }

  -- The loop over the queues from the `i`-th on, `n` rounds left; the address 0 is NULL.
  unfoldable pub get_next_from : ℕ → ℕ → Links → ℕ × Links
  get_next_from zero i h = (0, h)
  get_next_from (suc n) i h =
      let later = get_next_from n (i + 1) h in
      if list_is_empty (queue_head i) h
      then later
      else let (ret, h') = list_next (queue_head i) h in (list_data ret, h')

  unfoldable pub rr_get_next_ready : Rr → ℕ × Rr
  unfolding get_next_from
  rr_get_next_ready s =
      let (ret, h) = get_next_from ready_queue_len 0 s.links in (ret, record s { links = h })

  unfoldable pub rr_enqueue : ℕ → Rr → Rr
  rr_enqueue thread s =
      let ctx = (s.machine.tcb thread).sched_ctx in
      rr_move_to_ready thread (record s {
        machine =
            write_sched thread (record ctx { quantum_nsec = rr_quant_from_prio ctx.priority })
              s.machine;
      })

  abbrev pub select : ℕ → Rr → Rr
  select next s = record s { machine = native_select_thread next s.machine }

  -- `if (next != current_thread)` of rr_schedule.
  abbrev pub switch_to : ℕ → Rr → Rr
  switch_to next s =
      if next == s.current_thread
      then s
      else select next
          (record s { current_thread = next; current_sched_ctx = next + tcb_sched_offset })

  unfoldable pub rr_schedule : Rr → Rr
  rr_schedule s =
      let cur = s.current_thread in
      if (s.machine.tcb cur).sched_ctx.quantum_nsec == 0
      then (let (next, s1) = rr_get_next_ready (rr_move_to_ready cur s) in switch_to next s1)
      else switch_to cur s

  unfoldable pub rr_tick_handler : IrqContext → Rr → Rr
  rr_tick_handler irq s =
      let cur = s.current_thread in
      if cur == 0
      then s
      else let nsec = if nsec_to_next_tick == 0 then sched_tick_nsec else nsec_to_next_tick in
        let ctx = (s.machine.tcb cur).sched_ctx in
        let charged =
          write_sched cur (record ctx { quantum_nsec = time_sub_nsec ctx.quantum_nsec nsec })
            s.machine in
        rr_schedule (record s { machine = arch_update_exec_ctx irq charged })

  -- The two loops of rr_init: over the queues, `n` rounds left, and over the tasks' processes.
  unfoldable pub init_queues : ℕ → ℕ → Links → Links
  init_queues zero i h = h
  init_queues (suc n) i h = init_queues n (i + 1) (list_head_init (queue_head i) h)

  unfoldable pub enqueue_tasks : List ℕ → Rr → Rr
  enqueue_tasks [] s = s
  enqueue_tasks (task ∷ tasks) s = enqueue_tasks tasks (rr_enqueue (s.machine.proc task).threads s)

  -- `root_tasks` lists the addresses of the processes.
  unfoldable pub rr_init : List ℕ → Rr → Rr
  unfolding init_queues enqueue_tasks
  rr_init root_tasks s =
      let s1 =
        enqueue_tasks root_tasks (record s { links = init_queues ready_queue_len 0 s.links }) in
      let (next, s2) = rr_get_next_ready s1 in select next (record s2 { current_thread = next })
