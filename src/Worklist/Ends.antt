-- ===== src/Worklist/Ends.antt =====
-- When the loop of Worklist ends: the keys are below a bound, and what has no key is nested finitely deep.
use mathlib.Core.Path.{subst}
use mathlib.Core.List.{Memᴰ}
use mathlib.Core.List.Memᴰ
use raytask.Prelude.{
  ℕ, zero, suc, ◌≡◌, refl, sym, true, false, ◌==◌, Option, none, some, List, [], ◌∷◌, inl, inr,
  Bool-cases, if◌then◌else◌, ◌+◌, ◌<◌, ◌≤◌, arith,
}
use raytask.Worklist.{contains, push_all, done, walk, push_all-cases}
use raytask.Worklist.Found.{Option-cases}

-- How many of the numbers below the bound are not marked.
unfoldable pub unmarked : (bound : ℕ) (marks : List ℕ) → ℕ
unmarked zero marks = 0
unmarked (suc n) marks = (if contains marks n then 0 else 1) + unmarked n marks

unmarked-above : (n k : ℕ) (marks : List ℕ) → n ≤ k → unmarked n (k ∷ marks) ≡ unmarked n marks
unfolding unmarked contains
unmarked-above zero k marks h = refl
unmarked-above (suc n) k marks h = ground (arith, unmarked-above n k marks (omega arith))

pub unmarked-marked :
    (n k : ℕ) (marks : List ℕ)
    → k < n
    → contains marks k ≡ false
    → suc (unmarked n (k ∷ marks)) ≡ unmarked n marks
unfolding unmarked contains
unmarked-marked zero k marks h new = omega arith
unmarked-marked (suc n) k marks h new = elim (Bool-cases (k == n)) [
  | inl e ↦ ground (arith, unmarked-above n k marks (ground arith))
  | inr e ↦ ground (arith, unmarked-marked n k marks (ground arith) new)
]

module _ {ℓ} {V : Type ℓ} (key : V → Option ℕ) (children : V → Option (List V)) where
  -- Some amount of fuel brings the loop to its end.
  abbrev pub Ends : List ℕ → List V → Type 0
  Ends marks stack =
      (fuel : ℕ) × ((final : List ℕ) × (walk key children fuel marks stack ≡ done final))

  Ends-opened :
      (marks : List ℕ) (v : V) (stack cs : List V)
      → key v ≡ none
      → children v ≡ some cs
      → Ends marks (push_all cs stack)
      → Ends marks (v ∷ stack)
  unfolding walk
  Ends-opened marks v stack cs no_key found (fuel, (final, e)) = (suc fuel, (final, ground arith))

  Ends-dropped :
      (marks : List ℕ) (v : V) (stack : List V) (k : ℕ)
      → key v ≡ some k
      → contains marks k ≡ true
      → Ends marks stack
      → Ends marks (v ∷ stack)
  unfolding walk
  Ends-dropped marks v stack k is_key old (fuel, (final, e)) = (suc fuel, (final, ground arith))

  Ends-marked :
      (marks : List ℕ) (v : V) (stack cs : List V) (k : ℕ)
      → key v ≡ some k
      → contains marks k ≡ false
      → children v ≡ some cs
      → Ends (k ∷ marks) (push_all cs stack)
      → Ends marks (v ∷ stack)
  unfolding walk
  Ends-marked marks v stack cs k is_key new found (fuel, (final, e)) =
      (suc fuel, (final, ground arith))

  module _ {κ} (Ok : V → Type κ) (rank : V → ℕ) (bound : ℕ)
      (ok-children : (v : V)
        → Ok v
        → (cs : List V) × ((children v ≡ some cs) × ((c : V) → Memᴰ c cs → Ok c)))
      (ok-key : (v : V) (k : ℕ) → Ok v → key v ≡ some k → k < bound)
      (ok-rank : (v c : V) (cs : List V)
        → Ok v
        → key v ≡ none
        → children v ≡ some cs
        → Memᴰ c cs
        → rank c < rank v) where
    abbrev AllOk : List V → Type (ℓ ⊔ κ)
    AllOk stack = (v : V) → Memᴰ v stack → Ok v

    AllOk-cons : (v : V) (stack : List V) → Ok v → AllOk stack → AllOk (v ∷ stack)
    AllOk-cons v stack now later w m = elim (Memᴰ.cases_cons m) [
      | inl e ↦ subst Ok (sym e) now
      | inr n ↦ later w n
    ]

    AllOk-pushed : (cs stack : List V) → AllOk cs → AllOk stack → AllOk (push_all cs stack)
    AllOk-pushed cs stack now later w m = elim (push_all-cases w cs stack m) [
      | inl c ↦ now w c
      | inr r ↦ later w r
    ]

    -- With this many numbers left to mark, the loop ends on the stack.
    abbrev EndsWithin : ℕ → List V → Type 0
    EndsWithin left stack = (marks : List ℕ) → unmarked bound marks ≤ left → Ends marks stack

    EndsWithin-pushed :
        (left : ℕ) (cs stack : List V)
        → ((c : V) (rest : List V)
            → Memᴰ c cs
            → AllOk rest
            → EndsWithin left rest
            → EndsWithin left (c ∷ rest))
        → AllOk cs
        → AllOk stack
        → EndsWithin left stack
        → EndsWithin left (push_all cs stack)
    unfolding push_all
    EndsWithin-pushed left [] stack one now later ends = ends
    EndsWithin-pushed left (c ∷ cs) stack one now later ends =
        EndsWithin-pushed left cs (c ∷ stack) (λ d rest m. one d rest (Memᴰ.tail m))
          (λ d m. now d (Memᴰ.tail m)) (AllOk-cons c stack (now c (Memᴰ.head refl)) later)
          (one c stack (Memᴰ.head refl) later ends)

    -- One more item, where the loop ends on every stack with one number fewer left to mark.
    EndsWithin-item :
        (left : ℕ)
        → ((marks : List ℕ) (stack : List V)
            → suc (unmarked bound marks) ≤ left
            → AllOk stack
            → Ends marks stack)
        → (depth : ℕ) (v : V) (stack : List V) → rank v < depth
        → Ok v
        → AllOk stack
        → EndsWithin left stack
        → EndsWithin left (v ∷ stack)
    EndsWithin-item left fewer zero v stack below ok all ends marks few =
        let no : ⊥ = omega arith in elim no [ ]
    EndsWithin-item left fewer (suc depth) v stack below ok all ends marks few =
        let (cs, (found, all_cs)) = ok-children v ok in
        elim (Option-cases (key v)) [
          | inl no_key ↦ Ends-opened marks v stack cs no_key found (
              EndsWithin-pushed left cs stack
                (λ c rest m.
                  let less = ok-rank v c cs ok no_key found m in
                  EndsWithin-item left fewer depth c rest (omega arith) (all_cs c m))
                all_cs all ends marks few)
          | inr (k, is_key) ↦ elim (Bool-cases (contains marks k)) [
            | inl old ↦ Ends-dropped marks v stack k is_key old (ends marks few)
            | inr new ↦
                let fall = unmarked-marked bound k marks (ok-key v k ok is_key) new in
                Ends-marked marks v stack cs k is_key new found (
                  fewer (k ∷ marks) (push_all cs stack) (omega arith)
                    (AllOk-pushed cs stack all_cs all))
          ]
        ]

    EndsWithin-stack :
        (left : ℕ)
        → ((marks : List ℕ) (stack : List V)
            → suc (unmarked bound marks) ≤ left
            → AllOk stack
            → Ends marks stack)
        → (stack : List V) → AllOk stack
        → EndsWithin left stack
    unfolding walk
    EndsWithin-stack left fewer [] all = λ marks few. (0, (marks, refl))
    EndsWithin-stack left fewer (v ∷ stack) all =
        let rest : AllOk stack = λ w m. all w (Memᴰ.tail m) in
        EndsWithin-item left fewer (suc (rank v)) v stack (omega arith) (all v (Memᴰ.head refl))
          rest (EndsWithin-stack left fewer stack rest)

    Ends-left :
        (left : ℕ) (marks : List ℕ) (stack : List V)
        → suc (unmarked bound marks) ≤ left
        → AllOk stack
        → Ends marks stack
    Ends-left zero marks stack few all = let no : ⊥ = omega arith in elim no [ ]
    Ends-left (suc left) marks stack few all =
        EndsWithin-stack left (Ends-left left) stack all marks (omega arith)

    -- The loop ends on every stack of well-formed items.
    pub walk-Ends : (marks : List ℕ) (stack : List V) → AllOk stack → Ends marks stack
    walk-Ends marks stack all = Ends-left (suc (unmarked bound marks)) marks stack (omega arith) all
