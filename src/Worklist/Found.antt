-- ===== src/Worklist/Found.antt =====
-- What the loop of Worklist marks: exactly the keys of the items that can be reached.
use mathlib.Core.Path.{subst}
use mathlib.Core.List.{Memᴰ}
use mathlib.Core.List.Memᴰ
use raytask.Prelude.{
  ℕ, zero, suc, ◌≡◌, refl, sym, ap, ◌∙◌, Option, none, some, List, [], ◌∷◌, ◌⊎◌, inl, inr,
  Bool-cases, arith,
}
use raytask.Worklist.{contains, push_all, done, walk, contains→Memᴰ, push_all-cases}

pub Option-cases {ℓ} : {A : Type ℓ} (o : Option A) → (o ≡ none) ⊎ ((a : A) × (o ≡ some a))
Option-cases none = inl refl
Option-cases (some a) = inr (a, refl)

module _ {ℓ} {V : Type ℓ} (key : V → Option ℕ) (children : V → Option (List V)) where
  -- A statement of the marks and the stack holds if it holds at the end and each way to go on gives it.
  pub walk_rule {κ} :
      (P : List ℕ → List V → Type κ) (final : List ℕ)
      → P final []
      → ((marks : List ℕ) (v : V) (stack cs : List V)
          → key v ≡ none
          → children v ≡ some cs
          → P marks (push_all cs stack)
          → P marks (v ∷ stack))
      → ((marks : List ℕ) (v : V) (stack : List V) (k : ℕ)
          → key v ≡ some k
          → Memᴰ k marks
          → P marks stack
          → P marks (v ∷ stack))
      → ((marks : List ℕ) (v : V) (stack cs : List V) (k : ℕ)
          → key v ≡ some k
          → children v ≡ some cs
          → P (k ∷ marks) (push_all cs stack)
          → P marks (v ∷ stack))
      → (fuel : ℕ) (marks : List ℕ) (stack : List V)
      → walk key children fuel marks stack ≡ done final
      → P marks stack
  unfolding walk
  walk_rule P final end opened dropped marked fuel marks [] h =
      let same : marks ≡ final = cc in subst (λ m. P m []) (sym same) end
  walk_rule P final end opened dropped marked zero marks (v ∷ stack) h = ground arith
  walk_rule P final end opened dropped marked (suc fuel) marks (v ∷ stack) h =
      let go = walk_rule P final end opened dropped marked fuel in
      elim (Option-cases (key v)) [
        | inl no_key ↦ elim (Option-cases (children v)) [
          | inl gone ↦ ground arith
          | inr (cs, found) ↦
              opened marks v stack cs no_key found (go marks (push_all cs stack) (ground arith))
        ]
        | inr (k, is_key) ↦ elim (Bool-cases (contains marks k)) [
          | inl old ↦
              dropped marks v stack k is_key (contains→Memᴰ marks k old)
                (go marks stack (ground arith))
          | inr new ↦ elim (Option-cases (children v)) [
            | inl gone ↦ ground arith
            | inr (cs, found) ↦
                marked marks v stack cs k is_key found
                  (go (k ∷ marks) (push_all cs stack) (ground arith))
          ]
        ]
      ]

  -- An item on the stack, or a child of an item that is reached.
  pub data Reached (stack : List V) : V → Type ℓ where
    root : {v : V} → Memᴰ v stack → Reached stack v
    child :
        {u v : V} {cs : List V}
        → Reached stack u
        → children u ≡ some cs
        → Memᴰ v cs
        → Reached stack v

  abbrev pub ReachedKey : List V → ℕ → Type ℓ
  ReachedKey stack k = (v : V) × (Reached stack v × (key v ≡ some k))

  -- From a stack that the first one reaches, no more is reached.
  pub Reached-trans :
      (stack other : List V)
      → ((v : V) → Memᴰ v other → Reached stack v)
      → (v : V) → Reached other v
      → Reached stack v
  Reached-trans stack other from v (root m) = from v m
  Reached-trans stack other from v (child {u} r e m) =
      child (Reached-trans stack other from u r) e m

  Reached-popped : (v w : V) (stack : List V) → Reached stack w → Reached (v ∷ stack) w
  Reached-popped v w stack = Reached-trans (v ∷ stack) stack (λ u m. root (Memᴰ.tail m)) w

  Reached-pushed :
      (v w : V) (cs stack : List V)
      → children v ≡ some cs
      → Reached (push_all cs stack) w
      → Reached (v ∷ stack) w
  Reached-pushed v w cs stack e =
      Reached-trans (v ∷ stack) (push_all cs stack)
        (λ u m. elim (push_all-cases u cs stack m) [
          | inl c ↦ child (root (Memᴰ.head refl)) e c
          | inr r ↦ root (Memᴰ.tail r)
        ])
        w

  abbrev Sound : (final marks : List ℕ) → List V → Type ℓ
  Sound final marks stack = (k : ℕ) → Memᴰ k final → Memᴰ k marks ⊎ ReachedKey stack k

  ReachedKey-pushed :
      (v : V) (cs stack : List V) (k : ℕ)
      → children v ≡ some cs
      → ReachedKey (push_all cs stack) k
      → ReachedKey (v ∷ stack) k
  ReachedKey-pushed v cs stack k found (w, (r, e)) = (w, (Reached-pushed v w cs stack found r, e))

  -- A mark is an old one or the key of an item that is reached.
  pub walk-Sound :
      (fuel : ℕ) (marks : List ℕ) (stack : List V) (final : List ℕ)
      → walk key children fuel marks stack ≡ done final
      → Sound final marks stack
  walk-Sound fuel marks stack final =
      walk_rule (Sound final) final (λ k m. inl m)
        (λ marks v stack cs no_key found ih k m. elim (ih k m) [
          | inl old ↦ inl old
          | inr r ↦ inr (ReachedKey-pushed v cs stack k found r)
        ])
        (λ marks v stack i is_key old ih k m. elim (ih k m) [
          | inl old ↦ inl old
          | inr (w, (r, e)) ↦ inr (w, (Reached-popped v w stack r, e))
        ])
        (λ marks v stack cs i is_key found ih k m. elim (ih k m) [
          | inl new ↦ elim (Memᴰ.cases_cons new) [
            | inl same ↦ inr (v, (root (Memᴰ.head refl), is_key ∙ ap some (sym same)))
            | inr old ↦ inl old
          ]
          | inr r ↦ inr (ReachedKey-pushed v cs stack k found r)
        ])
        fuel marks stack

  abbrev Opened : (final marks : List ℕ) → List V → Type ℓ
  Opened final marks stack =
      (k : ℕ)
      → Memᴰ k final
      → Memᴰ k marks ⊎ ((v : V) × ((key v ≡ some k) × ((cs : List V) × (children v ≡ some cs))))

  -- The children of every item that was marked were found.
  pub walk-Opened :
      (fuel : ℕ) (marks : List ℕ) (stack : List V) (final : List ℕ)
      → walk key children fuel marks stack ≡ done final
      → Opened final marks stack
  walk-Opened fuel marks stack final =
      walk_rule (Opened final) final (λ k m. inl m) (λ marks v stack cs no_key found ih. ih)
        (λ marks v stack i is_key old ih. ih)
        (λ marks v stack cs i is_key found ih k m. elim (ih k m) [
          | inl new ↦ elim (Memᴰ.cases_cons new) [
            | inl same ↦ inr (v, (is_key ∙ ap some (sym same), (cs, found)))
            | inr old ↦ inl old
          ]
          | inr r ↦ inr r
        ])
        fuel marks stack
