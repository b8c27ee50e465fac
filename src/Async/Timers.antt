-- ===== src/Async/Timers.antt =====
-- `TimerQueue` of src/async_rt.rs: the queue stays in order, and exactly the timers that are due fire.
use mathlib.Core.Option.{some-injective}
use mathlib.Core.Path.{subst}
use mathlib.Core.List.{Perm, append-nil, perm_middle}
use mathlib.Core.List.Perm
use raytask.Prelude.{
  ℕ, zero, suc, ◌≤◌, ◌<◌, ◌≡◌, refl, sym, ap, ◌∙◌, false, some, List, [], ◌∷◌, ◌++◌, map, arith,
  leb, if◌then◌else◌, Bool-cases, inl, inr, All, take, drop,
}
use raytask.Async.{
  Store, TimerEntry, insert, sort_by_when, push_timer, next_deadline, count_due, fire_all, fire_due,
}

-- No timer before an earlier one.
abbrev pub Ordered : List TimerEntry → Type 0
Ordered [] = Unit
Ordered (e ∷ es) = All (λ x. e.when ≤ x.when) es × Ordered es

abbrev Later : ℕ → List TimerEntry → Type 0
Later n es = All (λ x. n ≤ x.when) es

Later-weaken : (m n : ℕ) (es : List TimerEntry) → m ≤ n → Later n es → Later m es
Later-weaken m n [] h l = tt
Later-weaken m n (e ∷ es) h l = (omega (arith, l.0), Later-weaken m n es h l.1)

Later-insert :
    (n : ℕ) (e : TimerEntry) (es : List TimerEntry)
    → n ≤ e.when
    → Later n es
    → Later n (insert e es)
unfolding insert
Later-insert n e [] h l = (h, tt)
Later-insert n e (x ∷ xs) h l = elim (Bool-cases (leb e.when x.when)) [
  | inl before ↦ rw (before, All) (h, l)
  | inr after ↦ rw (after, All) (l.0, Later-insert n e xs h l.1)
]

Ordered-insert : (e : TimerEntry) (es : List TimerEntry) → Ordered es → Ordered (insert e es)
unfolding insert
Ordered-insert e [] o = (tt, tt)
Ordered-insert e (x ∷ xs) o = elim (Bool-cases (leb e.when x.when)) [
  | inl before ↦
      let first : e.when ≤ x.when = ground arith in
      rw (before, Ordered) ((first, Later-weaken e.when x.when xs first o.0), o)
  | inr after ↦
      rw (after, Ordered) (Later-insert x.when e xs (ground arith) o.0, Ordered-insert e xs o.1)
]

Ordered-sort_by_when : (es : List TimerEntry) → Ordered (sort_by_when es)
unfolding sort_by_when
Ordered-sort_by_when [] = tt
Ordered-sort_by_when (e ∷ es) = Ordered-insert e (sort_by_when es) (Ordered-sort_by_when es)

-- The entries that an instant leaves, and those that it fires, in a specification that looks at every
-- entry.
abbrev pub after : ℕ → List TimerEntry → List TimerEntry
after now [] = []
after now (e ∷ es) = if leb e.when now then after now es else e ∷ after now es

abbrev pub until : ℕ → List TimerEntry → List TimerEntry
until now [] = []
until now (e ∷ es) = if leb e.when now then e ∷ until now es else until now es

none_due :
    (now n : ℕ) (es : List TimerEntry)
    → now < n
    → Later n es
    → (after now es ≡ es) × (until now es ≡ [])
none_due now n [] h l = (refl, refl)
none_due now n (e ∷ es) h l =
    let late : leb e.when now ≡ false = ground (arith, l.0) in
    let rest = none_due now n es h l.1 in rw (late, after, until) (ap (λ t. e ∷ t) rest.0, rest.1)

drop-count_due :
    (now : ℕ) (es : List TimerEntry) → Ordered es → drop (count_due now es) es ≡ after now es
unfolding count_due
drop-count_due now [] o = refl
drop-count_due now (e ∷ es) o = elim (Bool-cases (leb e.when now)) [
  | inl due ↦ rw (due, after) (drop-count_due now es o.1)
  | inr later ↦
      rw (later, after) (ap (λ t. e ∷ t) (sym (none_due now e.when es (ground arith) o.0).0))
]

pub take-count_due :
    (now : ℕ) (es : List TimerEntry) → Ordered es → take (count_due now es) es ≡ until now es
unfolding count_due
take-count_due now [] o = refl
take-count_due now (e ∷ es) o = elim (Bool-cases (leb e.when now)) [
  | inl due ↦ rw (due, until) (ap (λ t. e ∷ t) (take-count_due now es o.1))
  | inr later ↦ rw (later, until) (sym (none_due now e.when es (ground arith) o.0).1)
]

map-fire_all :
    (es : List TimerEntry) (s : Store) → map (λ r. r.0) (fire_all es s).1 ≡ map (λ e. e.task) es
unfolding fire_all
map-fire_all [] s = refl
map-fire_all (e ∷ es) s = ap (λ l. e.task ∷ l) (map-fire_all es _)

-- What the event loop can make of an empty queue.
pub data Timers : List TimerEntry → Type 0 where
  none_set : Timers []
  push : {es : List TimerEntry} (when task : ℕ) → Timers es → Timers (push_timer when task es)
  fire : {es : List TimerEntry} (now : ℕ) (s : Store) → Timers es → Timers (fire_due now es s).0

Ordered-drop : (n : ℕ) (es : List TimerEntry) → Ordered es → Ordered (drop n es)
Ordered-drop zero es o = o
Ordered-drop (suc n) [] o = tt
Ordered-drop (suc n) (e ∷ es) o = Ordered-drop n es o.1

-- The queue is in order after any sequence of pushes and firings.
pub Timers-Ordered : {es : List TimerEntry} → Timers es → Ordered es
unfolding push_timer fire_due
Timers-Ordered none_set = tt
Timers-Ordered (push when task t) = Ordered-sort_by_when _
Timers-Ordered (fire {es} now s t) = Ordered-drop (count_due now es) es (Timers-Ordered t)

-- On a queue that the event loop can have, `fire_due` fires the entries whose time has come, each of
-- them once and in their order, and leaves all others: it stops at the first entry that is not due, and
-- misses none by that.
pub fire_due_exact :
    (now : ℕ) (es : List TimerEntry) (s : Store)
    → Timers es
    → ((fire_due now es s).0 ≡ after now es)
      × (map (λ r. r.0) (fire_due now es s).1.1 ≡ map (λ e. e.task) (until now es))
unfolding fire_due
fire_due_exact now es s t =
    let o = Timers-Ordered t in
    (
      drop-count_due now es o,
      map-fire_all (take (count_due now es) es) s
          ∙ ap (map (λ e. e.task)) (take-count_due now es o),
    )

-- `next_deadline` is the time of an entry, and no entry is earlier.
pub next_deadline_first :
    (es : List TimerEntry) (n : ℕ)
    → Timers es
    → next_deadline es ≡ some n
    → All (λ e. n ≤ e.when) es
unfolding next_deadline
next_deadline_first [] n t h = tt
next_deadline_first (e ∷ es) n t h =
    let same : e.when ≡ n = some-injective _ _ h in
    (omega (arith, same), Later-weaken n e.when es (omega (arith, same)) (Timers-Ordered t).0)

-- After `fire_due`, the next deadline is still to come.
Later-after : (now : ℕ) (es : List TimerEntry) → All (λ e. now < e.when) (after now es)
Later-after now [] = tt
Later-after now (e ∷ es) = elim (Bool-cases (leb e.when now)) [
  | inl due ↦ rw (due, after, All) (Later-after now es)
  | inr later ↦ rw (later, after, All) (ground arith, Later-after now es)
]

pub fire_due_none_left :
    (now : ℕ) (es : List TimerEntry) (s : Store)
    → Timers es
    → All (λ e. now < e.when) (fire_due now es s).0
fire_due_none_left now es s t = rw (fire_due_exact now es s t).0 (Later-after now es)

insert-Perm : (e : TimerEntry) (es : List TimerEntry) → Perm (insert e es) (e ∷ es)
unfolding insert
insert-Perm e [] = Perm.refl _
insert-Perm e (x ∷ xs) = elim (Bool-cases (leb e.when x.when)) [
  | inl before ↦ rw before (Perm.refl (e ∷ x ∷ xs))
  | inr after ↦ rw after (Perm.trans (Perm.cons x (insert-Perm e xs)) (Perm.swap e x xs))
]

sort_by_when-Perm : (es : List TimerEntry) → Perm (sort_by_when es) es
unfolding sort_by_when
sort_by_when-Perm [] = Perm.refl []
sort_by_when-Perm (e ∷ es) =
    Perm.trans (insert-Perm e (sort_by_when es)) (Perm.cons e (sort_by_when-Perm es))

-- A push adds its entry and keeps all others.
pub push_timer-Perm :
    (when task : ℕ) (es : List TimerEntry)
    → Perm (push_timer when task es) (record { when = when; task = task } ∷ es)
unfolding push_timer
push_timer-Perm when task es = Perm.trans (sort_by_when-Perm _) (
    subst
      (λ l.
        Perm (es ++ record { when = when; task = task } ∷ [])
          (record { when = when; task = task } ∷ l))
      (append-nil es) (perm_middle es []))
