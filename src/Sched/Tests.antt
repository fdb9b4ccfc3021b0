-- ===== src/Sched/Tests.antt =====
-- Two boot tasks under kern/sched_rr.c, and the theorems at them.
use mathlib.Core.Path.{subst}
use mugo.Base.{sym, ℕ, ◌*◌, ◌-◌, ◌≤◌, ◌≡◌, refl, List, [], ◌∷◌, length, replicate, arith}
use mugo.Links.{list_add, list_head_init, list_is_empty, list_next, list_remove}
use mugo.Thread.{IrqContext, native_select_thread}
use mugo.Thread.Tests.{boot, irq}
use mugo.Thread.Context.{Saved}
use mugo.Sched.{
  Rr, rr_init, rr_tick_handler, rr_enqueue, rr_quant_from_prio, rr_move_to_ready, rr_get_next_ready,
}
use mugo.Sched.Queues.{Queues, push, replace, pop_from}
use mugo.Sched.Ready.{IsUnlinked}
use mugo.Sched.Schedule.{IsRunning, Rotated, quantum, priority}
use mugo.Sched.Ticks.{ticks, tick-Rotated, ticks-kept, ticks-quantum_le}
use mugo.Sched.Turns.{longest, after, waiting-served}
use mugo.Sched.Init.{AreFresh, threads, enqueued, init-IsRunning}

abbrev pub ready_queue : ℕ
ready_queue = 0x1000

abbrev pub cold : Rr
cold = record {
  machine = boot;
  links = record { next = λ p. 0; prev = λ p. 0 };
  current_thread = 0;
  current_sched_ctx = 0;
}

abbrev pub tasks : List ℕ
tasks = 0x9000 ∷ 0x9100 ∷ []

unlinked : (t : ℕ) → 0x8000 ≤ t → IsUnlinked ready_queue (λ i. []) t
unlinked t le i lt = ground arith

fresh : AreFresh ready_queue boot (λ i. []) (threads ready_queue boot tasks)
fresh = (
  record { nonnull = omega arith; fits = omega arith; owned = omega arith; level = omega arith },
  unlinked 0x8000 (omega arith),
  (
    record { nonnull = omega arith; fits = omega arith; owned = omega arith; level = omega arith },
    unlinked 0x8100 (omega arith),
    tt,
  ),
)

-- After rr_init, with the second thread waiting.
abbrev warm : Rr
warm = rr_init ready_queue tasks cold

abbrev waiting : Queues
waiting =
    replace 0 (0x8100 ∷ []) (enqueued ready_queue boot (threads ready_queue boot tasks) (λ i. []))

init-IsRunning_example : (warm.current_thread ≡ 0x8000) × IsRunning ready_queue warm waiting
unfolding pop_from
init-IsRunning_example =
    init-IsRunning ready_queue cold 0x9000 (0x9100 ∷ []) refl fresh (refl, (refl, tt))

warm-IsRunning : IsRunning ready_queue warm waiting
unfolding pop_from
warm-IsRunning =
    (init-IsRunning ready_queue cold 0x9000 (0x9100 ∷ []) refl fresh (refl, (refl, tt))).1

warm-quantum : quantum warm warm.current_thread ≡ 10_000_000_000
unfolding rr_init rr_enqueue rr_move_to_ready rr_get_next_ready rr_quant_from_prio list_add
    list_head_init list_is_empty list_next list_remove native_select_thread
warm-quantum = refl

warm-level : priority warm warm.current_thread ≡ 0
unfolding rr_init rr_enqueue rr_move_to_ready rr_get_next_ready rr_quant_from_prio list_add
    list_head_init list_is_empty list_next list_remove native_select_thread
warm-level = refl

-- 999 ticks of the 1000 that the quantum is worth.
abbrev most : List IrqContext
most = replicate 999 irq

ticks-kept_example :
    ((ticks ready_queue most warm).current_thread ≡ warm.current_thread)
    × (quantum (ticks ready_queue most warm) warm.current_thread
        ≡ quantum warm warm.current_thread - length most * 10_000_000)
    × IsRunning ready_queue (ticks ready_queue most warm) waiting
ticks-kept_example =
    ticks-kept ready_queue most warm waiting warm-IsRunning (omega (arith, warm-quantum))

ticks-quantum_le_example :
    quantum (ticks ready_queue (irq ∷ irq ∷ []) warm) 0x8100 ≤ quantum warm 0x8100
ticks-quantum_le_example = ticks-quantum_le ready_queue (irq ∷ irq ∷ []) warm 0x8100

-- The state before the 1000th tick.
abbrev spent : Rr
spent = ticks ready_queue most warm

spent-IsRunning : IsRunning ready_queue spent waiting
spent-IsRunning =
    (ticks-kept ready_queue most warm waiting warm-IsRunning (omega (arith, warm-quantum))).2

spent-quantum : quantum spent spent.current_thread ≤ 10_000_000
spent-quantum =
    let (same, left, run) =
      ticks-kept ready_queue most warm waiting warm-IsRunning (omega (arith, warm-quantum)) in
    subst (λ t. quantum spent t ≤ 10_000_000) (sym same) (omega (arith, left, warm-quantum))

tick-Rotated_example :
    let s' = rr_tick_handler ready_queue irq spent in
    Rotated ready_queue
      (priority spent spent.current_thread)
      (pop_from 16 0 (push (priority spent spent.current_thread) spent.current_thread waiting))
      s'
    × Saved irq
        (spent.machine.tcb spent.current_thread).exec_ctx
        (s'.machine.tcb spent.current_thread).exec_ctx
tick-Rotated_example = tick-Rotated ready_queue spent waiting irq spent-IsRunning spent-quantum

-- The second thread runs after at most the 1001 ticks of the first.
waiting-served_example :
    (n : ℕ) × (n ≤ longest warm (warm.current_thread ∷ []))
    × ((after ready_queue n (λ i. irq) warm).current_thread ≡ 0x8100)
waiting-served_example =
    waiting-served ready_queue [] warm waiting (λ i. irq) 0 0x8100 [] warm-IsRunning warm-level
      (λ j lt. absurd (omega arith)) refl
