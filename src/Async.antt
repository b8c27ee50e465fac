-- ===== src/Async.antt =====
-- src/async_rt.rs: the tasks, timers and ready queue of the virtual machine's event loop. The tasks live
-- in a store, and a handle is a number of it: two handles may be of one task. A coroutine is its number,
-- an `Instant` a number that grows with time.
pub mod Timers
pub mod Tasks
pub mod Queue
pub mod Turns
mod Tests
use raytask.Prelude.{
  ℕ, zero, suc, Bool, true, false, Option, none, some, List, [], ◌∷◌, ◌++◌, ◌==◌, leb,
  if◌then◌else◌, take, drop,
}
use raytask.Prelude.Text.{Str, codes}
use raytask.Value.{Value}

pub data TaskState : Type 0 where
  pending : TaskState
  ready : Value → TaskState
  failed : Str → TaskState

pub record TaskInner : Type 0 where
  pub state : TaskState
  pub waiters : List ℕ
  pub cancel_token : Option Value

abbrev pub Store : Type 0
Store = List TaskInner

unfoldable pub new_pending_with_token : Option Value → TaskInner
new_pending_with_token token = record { state = pending; waiters = []; cancel_token = token }

unfoldable pub new_pending : TaskInner
new_pending = new_pending_with_token none

unfoldable pub new_ready : Value → TaskInner
new_ready value = record { state = ready value; waiters = []; cancel_token = none }

abbrev pub is_settled : TaskState → Bool
is_settled pending = false
is_settled (ready value) = true
is_settled (failed message) = true

unfoldable pub is_ready : TaskInner → Bool
is_ready t = is_settled t.state

pub data Outcome : Type 0 where
  ok : Value → Outcome
  err : Str → Outcome

abbrev pub outcome : TaskState → Option Outcome
outcome pending = none
outcome (ready value) = some (ok value)
outcome (failed message) = some (err message)

unfoldable pub result : TaskInner → Option Outcome
result t = outcome t.state

-- The bodies of `complete_task` and `fail_task`: the task after it, and the waiters that are taken.
unfoldable pub settle : TaskState → TaskInner → TaskInner × List ℕ
settle state t =
    if is_settled t.state then (t, []) else (record t { state = state; waiters = [] }, t.waiters)

unfoldable pub contains : ℕ → List ℕ → Bool
contains id [] = false
contains id (x ∷ xs) = if x == id then true else contains id xs

unfoldable pub waiting : ℕ → TaskInner → TaskInner
waiting co_id t =
    if contains co_id t.waiters then t else record t { waiters = t.waiters ++ co_id ∷ [] }

-- `borrow_mut` on a handle; no handle of the program is out of range.
unfoldable pub with_task : (TaskInner → TaskInner × List ℕ) → (task : ℕ) → Store → Store × List ℕ
with_task f task [] = ([], [])
with_task f zero (t ∷ ts) = ((f t).0 ∷ ts, (f t).1)
with_task f (suc task) (t ∷ ts) = let r = with_task f task ts in (t ∷ r.0, r.1)

unfoldable pub complete_task : (task : ℕ) → Value → Store → Store × List ℕ
complete_task task value = with_task (settle (ready value)) task

unfoldable pub fail_task : (task : ℕ) → Str → Store → Store × List ℕ
fail_task task message = with_task (settle (failed message)) task

unfoldable pub cancel_task : (task : ℕ) → Store → Store × List ℕ
cancel_task task = fail_task task (codes "operation cancelled")

unfoldable pub add_waiter : (task co_id : ℕ) → Store → Store
add_waiter task co_id s = (with_task (λ t. (waiting co_id t, [])) task s).0

pub record TimerEntry : Type 0 where
  pub when : ℕ
  pub task : ℕ

-- `sort_by_key`, which is stable
unfoldable pub insert : TimerEntry → List TimerEntry → List TimerEntry
insert e [] = e ∷ []
insert e (x ∷ xs) = if leb e.when x.when then e ∷ x ∷ xs else x ∷ insert e xs

unfoldable pub sort_by_when : List TimerEntry → List TimerEntry
sort_by_when [] = []
sort_by_when (e ∷ es) = insert e (sort_by_when es)

-- `TimerQueue::push`
unfoldable pub push_timer : (when task : ℕ) → List TimerEntry → List TimerEntry
push_timer when task entries = sort_by_when (entries ++ record { when = when; task = task } ∷ [])

unfoldable pub next_deadline : List TimerEntry → Option ℕ
next_deadline [] = none
next_deadline (e ∷ es) = some e.when

-- `take_while(|entry| entry.when <= now).count()`
unfoldable pub count_due : (now : ℕ) → List TimerEntry → ℕ
count_due now [] = 0
count_due now (e ∷ es) = if leb e.when now then suc (count_due now es) else 0

-- The loop over the entries that are due.
unfoldable pub fire_all : List TimerEntry → Store → Store × List (ℕ × List ℕ)
fire_all [] s = (s, [])
fire_all (e ∷ es) s =
    let woken = complete_task e.task Value.null s in
    let rest = fire_all es woken.0 in (rest.0, (e.task, woken.1) ∷ rest.1)

-- The entries that stay, the store, and the tasks that were fired with their waiters.
unfoldable pub fire_due :
    (now : ℕ) → List TimerEntry → Store → List TimerEntry × (Store × List (ℕ × List ℕ))
fire_due now entries s =
    let due = count_due now entries in (drop due entries, fire_all (take due entries) s)

-- `ReadyQueue::push`
unfoldable pub push_ready : (id : ℕ) → List ℕ → List ℕ
push_ready id queue = if contains id queue then queue else queue ++ id ∷ []

-- `ReadyQueue::pop`
unfoldable pub pop_ready : List ℕ → Option ℕ × List ℕ
pop_ready [] = (none, [])
pop_ready (id ∷ queue) = (some id, queue)
