-- ===== src/Async/Tasks.antt =====
-- Tasks of src/async_rt.rs: a task that is settled stays as it is, and every timer that fires settles its
-- task.
use mathlib.Core.Option.{some-ne-none}
use mathlib.Core.Path.{subst}
use raytask.Async.Timers.{Timers, Timers-Ordered, take-count_due, until}
use raytask.Prelude.{sym}
use raytask.Prelude.{
  ℕ, zero, suc, ◌<◌, ◌≡◌, refl, ap, ◌∙◌, Option, some, List, [], ◌∷◌, ◌++◌, arith, get_elem?,
  length, Bool-cases, inl, inr, All, take,
}
use raytask.Prelude.Options.{◌>>=◌}
use raytask.Prelude.Text.{Str}
use raytask.Value.{Value}
use raytask.Async.{
  TaskState, TaskInner, Store, Outcome, outcome, result, settle, contains, waiting, with_task,
  complete_task, fail_task, cancel_task, add_waiter, TimerEntry, fire_all, count_due, fire_due,
}

-- What a handle's task has come to.
abbrev pub result_at : Store → ℕ → Option Outcome
result_at s task = get_elem? s task >>= λ t. result t

-- What the event loop does to the tasks.
pub data Step : Store → Store → Type 0 where
  spawn : {s : Store} (t : TaskInner) → Step s (s ++ t ∷ [])
  complete : {s : Store} (task : ℕ) (value : Value) → Step s (complete_task task value s).0
  fail : {s : Store} (task : ℕ) (message : Str) → Step s (fail_task task message s).0
  cancel : {s : Store} (task : ℕ) → Step s (cancel_task task s).0
  wait : {s : Store} (task co_id : ℕ) → Step s (add_waiter task co_id s)
  fire : {s : Store} (now : ℕ) (es : List TimerEntry) → Step s (fire_due now es s).1.0

pub data Steps : Store → Store → Type 0 where
  done : {s : Store} → Steps s s
  next : {s t u : Store} → Step s t → Steps t u → Steps s u

-- A function on a task that does not undo what the task has come to.
Keeps : (TaskInner → TaskInner × List ℕ) → Type 0
Keeps f = (t : TaskInner) (o : Outcome) → result t ≡ some o → result (f t).0 ≡ some o

settle-Keeps : (state : TaskState) → Keeps (settle state)
unfolding settle result Keeps
settle-Keeps state t o h = kept t.state refl
  where
    kept : (x : TaskState) → t.state ≡ x → result (settle state t).0 ≡ some o
    kept TaskState.pending e = absurd (some-ne-none o (sym h ∙ ap outcome e))
    kept (TaskState.ready value) e = rw e (sym (ap outcome e) ∙ h)
    kept (TaskState.failed message) e = rw e (sym (ap outcome e) ∙ h)

waiting-Keeps : (co_id : ℕ) → Keeps (λ t. (waiting co_id t, []))
unfolding waiting result Keeps
waiting-Keeps co_id t o h = elim (Bool-cases (contains co_id t.waiters)) [
  | inl there ↦ rw there h
  | inr new ↦ rw new h
]

with_task-Keeps :
    (f : TaskInner → TaskInner × List ℕ) (task : ℕ) (s : Store) (other : ℕ) (o : Outcome)
    → Keeps f
    → result_at s other ≡ some o
    → result_at (with_task f task s).0 other ≡ some o
unfolding with_task Keeps
with_task-Keeps f task [] other o k h = h
with_task-Keeps f zero (t ∷ ts) zero o k h = k t o h
with_task-Keeps f zero (t ∷ ts) (suc other) o k h = h
with_task-Keeps f (suc task) (t ∷ ts) zero o k h = h
with_task-Keeps f (suc task) (t ∷ ts) (suc other) o k h = with_task-Keeps f task ts other o k h

append-Keeps :
    (s : Store) (t : TaskInner) (other : ℕ) (o : Outcome)
    → result_at s other ≡ some o
    → result_at (s ++ t ∷ []) other ≡ some o
append-Keeps [] t other o h = absurd (some-ne-none o (sym h))
append-Keeps (x ∷ s) t zero o h = h
append-Keeps (x ∷ s) t (suc other) o h = append-Keeps s t other o h

fire_all-Keeps :
    (es : List TimerEntry) (s : Store) (other : ℕ) (o : Outcome)
    → result_at s other ≡ some o
    → result_at (fire_all es s).0 other ≡ some o
unfolding fire_all complete_task
fire_all-Keeps [] s other o h = h
fire_all-Keeps (e ∷ es) s other o h =
    fire_all-Keeps es _ other o (with_task-Keeps _ e.task s other o (settle-Keeps _) h)

Step-Keeps :
    {s t : Store} (other : ℕ) (o : Outcome)
    → Step s t
    → result_at s other ≡ some o
    → result_at t other ≡ some o
unfolding complete_task fail_task cancel_task add_waiter fire_due
Step-Keeps other o (Step.spawn {s} t) h = append-Keeps s t other o h
Step-Keeps other o (Step.complete {s} task value) h =
    with_task-Keeps _ task s other o (settle-Keeps _) h
Step-Keeps other o (Step.fail {s} task message) h =
    with_task-Keeps _ task s other o (settle-Keeps _) h
Step-Keeps other o (Step.cancel {s} task) h = with_task-Keeps _ task s other o (settle-Keeps _) h
Step-Keeps other o (Step.wait {s} task co_id) h =
    with_task-Keeps _ task s other o (waiting-Keeps co_id) h
Step-Keeps other o (Step.fire {s} now es) h =
    fire_all-Keeps (take (count_due now es) es) s other o h

-- The outcome of a task never changes: a task that is ready or has failed is so after any sequence of
-- completions, failures, cancellations, waits, timers and new tasks, with the same value or message.
pub Steps-result :
    {s t : Store} (task : ℕ) (o : Outcome)
    → Steps s t
    → result_at s task ≡ some o
    → result_at t task ≡ some o
Steps-result task o Steps.done h = h
Steps-result task o (Steps.next step steps) h = Steps-result task o steps (Step-Keeps task o step h)

-- A task that is ready or has failed.
pub record Settled (s : Store) (task : ℕ) : Type 0 where
  pub to : Outcome
  pub at : result_at s task ≡ some to

settle-Settled :
    (value : Value) (t : TaskInner) → Settled ((settle (TaskState.ready value) t).0 ∷ []) 0
unfolding settle result
settle-Settled value t = by_state t.state refl
  where
    by_state : (x : TaskState) → t.state ≡ x → Settled ((settle (TaskState.ready value) t).0 ∷ []) 0
    by_state TaskState.pending e = record { to = Outcome.ok value; at = rw e refl }
    by_state (TaskState.ready v) e = record { to = Outcome.ok v; at = rw e refl }
    by_state (TaskState.failed m) e = record { to = Outcome.err m; at = rw e refl }

complete_task-Settled :
    (task : ℕ) (value : Value) (s : Store)
    → task < length s
    → Settled (complete_task task value s).0 task
unfolding complete_task with_task
complete_task-Settled task value [] h = absurd (omega arith)
complete_task-Settled zero value (t ∷ ts) h =
    let now = settle-Settled value t in record { to = now.to; at = now.at }
complete_task-Settled (suc task) value (t ∷ ts) h =
    let later = complete_task-Settled task value ts (omega arith) in
    record { to = later.to; at = later.at }

length-with_task :
    (f : TaskInner → TaskInner × List ℕ) (task : ℕ) (s : Store)
    → length (with_task f task s).0 ≡ length s
unfolding with_task
length-with_task f task [] = refl
length-with_task f zero (t ∷ ts) = refl
length-with_task f (suc task) (t ∷ ts) = ap suc (length-with_task f task ts)

-- Every handle is of a task in the store.
abbrev pub AllIn : Store → List TimerEntry → Type 0
AllIn s es = All (λ e. e.task < length s) es

AllIn-same : (s t : Store) (es : List TimerEntry) → length t ≡ length s → AllIn s es → AllIn t es
AllIn-same s t [] h a = tt
AllIn-same s t (e ∷ es) h a = (omega (arith, a.0), AllIn-same s t es h a.1)

AllIn-take : (s : Store) (n : ℕ) (es : List TimerEntry) → AllIn s es → AllIn s (take n es)
AllIn-take s zero es a = tt
AllIn-take s (suc n) [] a = tt
AllIn-take s (suc n) (e ∷ es) a = (a.0, AllIn-take s n es a.1)

fire_all-Settled :
    (es : List TimerEntry) (s : Store) → AllIn s es → All (λ e. Settled (fire_all es s).0 e.task) es
unfolding fire_all
fire_all-Settled [] s a = tt
fire_all-Settled (e ∷ es) s a =
    let after_one = (complete_task e.task Value.null s).0 in
    let first = complete_task-Settled e.task Value.null s a.0 in
    let size : length after_one ≡ length s = unfold complete_task in length-with_task _ e.task s in
    (
      record { to = first.to; at = fire_all-Keeps es after_one e.task first.to first.at },
      fire_all-Settled es after_one (AllIn-same s after_one es size a.1),
    )

-- Every timer that is due when `fire_due` runs has its task settled by it, whether or not the task was
-- settled before and even if two timers share it.
pub fire_due-Settled :
    (now : ℕ) (es : List TimerEntry) (s : Store)
    → Timers es
    → AllIn s es
    → All (λ e. Settled (fire_due now es s).1.0 e.task) (until now es)
unfolding fire_due
fire_due-Settled now es s t a =
    let due = take (count_due now es) es in
    subst (λ l. All (λ e. Settled (fire_all due s).0 e.task) l)
      (take-count_due now es (Timers-Ordered t))
      (fire_all-Settled due s (AllIn-take s (count_due now es) es a))
