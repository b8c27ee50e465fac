-- ===== src/Async/Queue.antt =====
-- `ReadyQueue` of src/async_rt.rs: a queue in which no coroutine stands twice.
use raytask.Prelude.{ℕ, ◌≡◌, refl, false, List, [], ◌∷◌, ◌++◌, arith, ◌==◌, Bool-cases, inl, inr}
use raytask.Async.{contains, push_ready, pop_ready}

-- No coroutine stands behind itself.
abbrev pub Distinct : List ℕ → Type 0
Distinct [] = Unit
Distinct (id ∷ ids) = (contains id ids ≡ false) × Distinct ids

-- What pushes and pops make of an empty queue.
pub data Queue : List ℕ → Type 0 where
  empty : Queue []
  push : {q : List ℕ} (id : ℕ) → Queue q → Queue (push_ready id q)
  pop : {q : List ℕ} → Queue q → Queue (pop_ready q).1

contains-snoc :
    (x id : ℕ) (q : List ℕ)
    → contains x q ≡ false
    → (id == x) ≡ false
    → contains x (q ++ id ∷ []) ≡ false
unfolding contains
contains-snoc x id [] h d = rw d refl
contains-snoc x id (y ∷ q) h d = let ih = contains-snoc x id q in ground arith

Distinct-snoc : (id : ℕ) (q : List ℕ) → contains id q ≡ false → Distinct q → Distinct (q ++ id ∷ [])
unfolding contains
Distinct-snoc id [] h d = (refl, tt)
Distinct-snoc id (y ∷ q) h d =
    let other : (id == y) ≡ false = ground arith in
    let rest : contains id q ≡ false = ground arith in
    (contains-snoc y id q d.0 other, Distinct-snoc id q rest d.1)

Distinct-push_ready : (id : ℕ) (q : List ℕ) → Distinct q → Distinct (push_ready id q)
unfolding push_ready
Distinct-push_ready id q d = elim (Bool-cases (contains id q)) [
  | inl there ↦ rw there d
  | inr new ↦ rw new (Distinct-snoc id q new d)
]

Distinct-pop_ready : (q : List ℕ) → Distinct q → Distinct (pop_ready q).1
unfolding pop_ready
Distinct-pop_ready [] d = tt
Distinct-pop_ready (id ∷ q) d = d.1

-- No coroutine is in the queue twice, after any sequence of pushes and pops.
pub Queue-Distinct : {q : List ℕ} → Queue q → Distinct q
Queue-Distinct empty = tt
Queue-Distinct (push {q} id b) = Distinct-push_ready id q (Queue-Distinct b)
Queue-Distinct (pop {q} b) = Distinct-pop_ready q (Queue-Distinct b)
