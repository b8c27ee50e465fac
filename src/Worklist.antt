-- ===== src/Worklist.antt =====
-- The search that several parts of the program make: a stack of items, each popped, marked by its key and
-- replaced by its children. The marker of src/gc.rs and `reachable` of src/ssa/cfg.rs are such loops.
pub mod Found
pub mod Closed
pub mod Ends
use mathlib.Core.List.{Memᴰ}
use mathlib.Core.List.Memᴰ
use raytask.Prelude.{
  ℕ, zero, suc, ◌≡◌, refl, Bool, true, false, ◌||◌, ◌==◌, Bool-cases, ◌⊎◌, inl, inr, Option, none,
  some, List, [], ◌∷◌, if◌then◌else◌, arith,
}

-- `insert` and `contains` on a set of numbers
unfoldable pub contains : List ℕ → ℕ → Bool
contains [] k = false
contains (m ∷ ms) k = m == k || contains ms k

-- The items pushed one after the other: the last is on top.
unfoldable pub push_all {ℓ} : {V : Type ℓ} → List V → List V → List V
push_all [] stack = stack
push_all (c ∷ cs) stack = push_all cs (c ∷ stack)

pub data Walked : Type 0 where
  done : (marks : List ℕ) → Walked
  panics out_of_fuel : Walked

module _ {ℓ} {V : Type ℓ} (key : V → Option ℕ) (children : V → Option (List V)) where
  -- The marks and the stack after the children are pushed; `none` where their lookup panics.
  abbrev pub pushed : (marks : List ℕ) (stack : List V) → Option (List V) → Option (List ℕ × List V)
  pushed marks stack none = none
  pushed marks stack (some cs) = some (marks, push_all cs stack)

  -- An item without a key is not marked. One that is marked already is dropped.
  abbrev pub visit : (marks : List ℕ) (v : V) (stack : List V) → Option ℕ → Option (List ℕ × List V)
  visit marks v stack none = pushed marks stack (children v)
  visit marks v stack (some k) =
      if contains marks k then some (marks, stack) else pushed (k ∷ marks) stack (children v)

  unfoldable pub walk : (fuel : ℕ) (marks : List ℕ) (stack : List V) → Walked
  walk fuel marks [] = done marks
  walk zero marks (v ∷ stack) = out_of_fuel
  walk (suc fuel) marks (v ∷ stack) = elim (visit marks v stack (key v)) [
    | none ↦ panics
    | some next ↦ walk fuel (next.0) (next.1)
  ]

pub contains→Memᴰ : (ms : List ℕ) (k : ℕ) → contains ms k ≡ true → Memᴰ k ms
unfolding contains
contains→Memᴰ [] k h = ground arith
contains→Memᴰ (m ∷ ms) k h = elim (Bool-cases (m == k)) [
  | inl e ↦ Memᴰ.head (ground arith)
  | inr e ↦ Memᴰ.tail (contains→Memᴰ ms k (ground arith))
]

pub Memᴰ→contains : (ms : List ℕ) (k : ℕ) → Memᴰ k ms → contains ms k ≡ true
unfolding contains
Memᴰ→contains [] k x' = elim x' [ ]
Memᴰ→contains (m ∷ ms) k (Memᴰ.head e) = ground arith
Memᴰ→contains (m ∷ ms) k (Memᴰ.tail h) = ground (arith, Memᴰ→contains ms k h)

module _ {ℓ} {V : Type ℓ} where
  pub push_all-keeps : (v : V) (cs stack : List V) → Memᴰ v stack → Memᴰ v (push_all cs stack)
  unfolding push_all
  push_all-keeps v [] stack h = h
  push_all-keeps v (c ∷ cs) stack h = push_all-keeps v cs (c ∷ stack) (Memᴰ.tail h)

  pub push_all-adds : (v : V) (cs stack : List V) → Memᴰ v cs → Memᴰ v (push_all cs stack)
  unfolding push_all
  push_all-adds v [] stack x' = elim x' [ ]
  push_all-adds v (c ∷ cs) stack (Memᴰ.head e) = push_all-keeps v cs (c ∷ stack) (Memᴰ.head e)
  push_all-adds v (c ∷ cs) stack (Memᴰ.tail h) = push_all-adds v cs (c ∷ stack) h

  pub push_all-cases :
      (v : V) (cs stack : List V) → Memᴰ v (push_all cs stack) → Memᴰ v cs ⊎ Memᴰ v stack
  unfolding push_all
  push_all-cases v [] stack h = inr h
  push_all-cases v (c ∷ cs) stack h = elim (push_all-cases v cs (c ∷ stack) h) [
    | inl m ↦ inl (Memᴰ.tail m)
    | inr m ↦ elim (Memᴰ.cases_cons m) [ inl e ↦ inl (Memᴰ.head e) | inr n ↦ inr n ]
  ]
