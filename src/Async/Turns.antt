-- ===== src/Async/Turns.antt =====
-- `ReadyQueue` of src/async_rt.rs in use: what is popped when pushes and pops come in any order.
use mathlib.Core.List.{append_assoc}
use raytask.Prelude.{
  ℕ, suc, ◌≡◌, refl, ap, ◌∙◌, true, Option, none, some, List, [], ◌∷◌, ◌++◌, arith, length, ◌<◌,
  ==_refl, ◌==◌, ==_iff, Bool-cases, inl, inr,
}
use raytask.Async.{contains, push_ready, pop_ready}

pub data Action : Type 0 where
  push : ℕ → Action
  pop : Action

abbrev pub and_popped : Option ℕ → List ℕ → List ℕ
and_popped none ids = ids
and_popped (some id) ids = id ∷ ids

-- The coroutines that the actions pop, in this order.
abbrev pub popped : List Action → List ℕ → List ℕ
popped [] q = []
popped (push id ∷ acts) q = popped acts (push_ready id q)
popped (pop ∷ acts) q = and_popped (pop_ready q).0 (popped acts (pop_ready q).1)

abbrev pub pops : List Action → ℕ
pops [] = 0
pops (push id ∷ acts) = pops acts
pops (pop ∷ acts) = suc (pops acts)

push_ready-behind :
    (x id : ℕ) (front back : List ℕ)
    → (rest : List ℕ) × (push_ready x (front ++ id ∷ back) ≡ front ++ id ∷ rest)
unfolding push_ready
push_ready-behind x id front back = elim (Bool-cases (contains x (front ++ id ∷ back))) [
  | inl there ↦ rw there (back, refl)
  | inr new ↦ rw new (back ++ x ∷ [], append_assoc front (id ∷ back) (x ∷ []))
]

-- What stands in the queue is popped as soon as all before it are.
popped-contains :
    (acts : List Action) (id : ℕ) (front back : List ℕ)
    → length front < pops acts
    → contains id (popped acts (front ++ id ∷ back)) ≡ true
unfolding contains pop_ready
popped-contains [] id front back h = absurd (omega arith)
popped-contains (push x ∷ acts) id front back h =
    let (rest, e) = push_ready-behind x id front back in
    ap (λ q. contains id (popped acts q)) e ∙ popped-contains acts id front rest h
popped-contains (pop ∷ acts) id [] back h = rw (==_refl id) refl
popped-contains (pop ∷ acts) id (y ∷ front) back h =
    let ih = popped-contains acts id front back (omega arith) in ground arith

contains-split :
    (id : ℕ) (q : List ℕ)
    → contains id q ≡ true
    → (front : List ℕ) × ((back : List ℕ) × ((q ≡ front ++ id ∷ back) × (length front < length q)))
unfolding contains
contains-split id [] h = absurd (ground arith)
contains-split id (y ∷ q) h = elim (Bool-cases (y == id)) [
  | inl here ↦ ([], (q, (ap (λ x. x ∷ q) ((==_iff _ _).0 here), omega arith)))
  | inr later ↦
      let (front, (back, (e, few))) = contains-split id q (ground arith) in
      (y ∷ front, (back, (ap (λ l. y ∷ l) e, omega (arith, few))))
]

contains-appended : (id : ℕ) (q : List ℕ) → contains id (q ++ id ∷ []) ≡ true
unfolding contains
contains-appended id [] = rw (==_refl id) refl
contains-appended id (y ∷ q) = let ih = contains-appended id q in ground arith

pushed_again : (id : ℕ) (q : List ℕ) → contains id q ≡ true → push_ready id q ≡ q
unfolding push_ready
pushed_again id q h = rw h refl

contains-push_ready : (id : ℕ) (q : List ℕ) → contains id (push_ready id q) ≡ true
unfolding push_ready
contains-push_ready id q = elim (Bool-cases (contains id q)) [
  | inl there ↦ rw there there
  | inr new ↦ rw new (contains-appended id q)
]

-- A coroutine that is pushed on the ready queue is popped at the latest by as many further pops as
-- coroutines were in the queue and one more, whatever is pushed between them; and to push it again while
-- it waits changes nothing.
pub popped-push_ready :
    (id : ℕ) (q : List ℕ) (acts : List Action)
    → length q < pops acts
    → (contains id (popped acts (push_ready id q)) ≡ true)
      × (push_ready id (push_ready id q) ≡ push_ready id q)
unfolding push_ready
popped-push_ready id q acts h = (
  elim (Bool-cases (contains id q)) [
    | inl there ↦
        let (front, (back, (e, few))) = contains-split id q there in
        rw there (
          ap (λ l. contains id (popped acts l)) e
          ∙ popped-contains acts id front back (omega (arith, few)))
    | inr new ↦ rw new (popped-contains acts id q [] h)
  ],
  pushed_again id (push_ready id q) (contains-push_ready id q),
)
