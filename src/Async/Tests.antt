-- ===== src/Async/Tests.antt =====
-- Runs of src/async_rt.rs on a few tasks and timers, and the theorems at them.
use raytask.Prelude.{◌≡◌, refl, true, none, some, List, [], ◌∷◌, map, arith, All}
use raytask.Prelude.Text.{codes}
use raytask.Value.{Value}
use raytask.Async.{
  TaskState, TaskInner, Store, Outcome, TimerEntry, push_timer, next_deadline, fire_due,
  complete_task, fail_task, add_waiter, push_ready, contains, pop_ready,
}
use raytask.Async.Timers.{Timers, after, until, fire_due_exact}
use raytask.Async.Tasks
use raytask.Async.Tasks.{result_at, Steps, Step, Steps-result, Settled, fire_due-Settled}
use raytask.Async.Turns.{Action, popped, popped-push_ready}

-- A task that two coroutines wait for, and one that is ready.
abbrev tasks : Store
tasks =
    record { state = TaskState.pending; waiters = 4 ∷ 9 ∷ []; cancel_token = none }
    ∷ record { state = TaskState.ready (Value.int 3); waiters = []; cancel_token = none }
    ∷ []

-- Timers at 30, 10 and 20, the last two of the pending task.
abbrev timers : List TimerEntry
timers = push_timer 20 0 (push_timer 10 0 (push_timer 30 1 []))

timers-Timers : Timers timers
timers-Timers = Timers.push 20 0 (Timers.push 10 0 (Timers.push 30 1 Timers.none_set))

fire_due_run : (fire_due 25 timers tasks).1.1 ≡ (0, 4 ∷ 9 ∷ []) ∷ (0, []) ∷ []
unfolding fire_due push_timer raytask.Async.sort_by_when raytask.Async.insert
    raytask.Async.count_due raytask.Async.fire_all complete_task raytask.Async.with_task
    raytask.Async.settle
fire_due_run = refl

fire_due_exact_example :
    ((fire_due 25 timers tasks).0 ≡ after 25 timers)
    × (map (λ r. r.0) (fire_due 25 timers tasks).1.1 ≡ map (λ e. e.task) (until 25 timers))
fire_due_exact_example = fire_due_exact 25 timers tasks timers-Timers

timers_run :
    timers
    ≡ record { when = 10; task = 0 }
      ∷ record { when = 20; task = 0 }
      ∷ record { when = 30; task = 1 }
      ∷ []
unfolding push_timer raytask.Async.sort_by_when raytask.Async.insert
timers_run = refl

timers-AllIn : Tasks.AllIn tasks timers
timers-AllIn = rw timers_run (omega arith, (omega arith, (omega arith, tt)))

fire_due-Settled_example :
    All (λ e. Settled (fire_due 25 timers tasks).1.0 e.task) (until 25 timers)
fire_due-Settled_example = fire_due-Settled 25 timers tasks timers-Timers timers-AllIn

-- The ready task is failed, and a coroutine waits for it: it stays ready.
Steps-result_example :
    result_at (add_waiter 1 7 (fail_task 1 (codes "no") tasks).0) 1
    ≡ some (Outcome.ok (Value.int 3))
Steps-result_example =
    Steps-result 1 (Outcome.ok (Value.int 3))
      (Steps.next (Step.fail 1 (codes "no")) (Steps.next (Step.wait 1 7) Steps.done))
      (unfold raytask.Async.result in refl)

-- Three coroutines are pushed between the pops.
popped-push_ready_example :
    (contains 8 (
        popped
          (Action.push 5
            ∷ Action.pop
            ∷ Action.push 3
            ∷ Action.pop
            ∷ Action.push 6
            ∷ Action.pop
            ∷ [])
          (push_ready 8 (3 ∷ 2 ∷ [])))
      ≡ true)
    × (push_ready 8 (push_ready 8 (3 ∷ 2 ∷ [])) ≡ push_ready 8 (3 ∷ 2 ∷ []))
popped-push_ready_example =
    popped-push_ready 8 (3 ∷ 2 ∷ [])
      (Action.push 5 ∷ Action.pop ∷ Action.push 3 ∷ Action.pop ∷ Action.push 6 ∷ Action.pop ∷ [])
      (omega arith)
