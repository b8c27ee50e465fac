-- ===== src/Worklist/Closed.antt =====
-- The other half of what the loop of Worklist marks: nothing that can be reached is left out.
use mathlib.Core.Path.{subst}
use mathlib.Core.List.{Memᴰ}
use mathlib.Core.List.Memᴰ
use raytask.Prelude.{ℕ, ◌≡◌, refl, sym, Option, none, some, List, [], ◌∷◌, ◌⊎◌, inl, inr, arith}
use raytask.Worklist.{done, walk, push_all-keeps, push_all-adds}
use raytask.Worklist.Found.{walk_rule, Reached, root, child, ReachedKey}

module _ {ℓ} {V : Type ℓ} (key : V → Option ℕ) (children : V → Option (List V)) where
  -- A marked item, or one without a key whose children are all covered.
  data Covered (final : List ℕ) : V → Type ℓ where
    marked : {v : V} {k : ℕ} → key v ≡ some k → Memᴰ k final → Covered final v
    unkeyed :
        {v : V} {cs : List V}
        → key v ≡ none
        → children v ≡ some cs
        → ((c : V) → Memᴰ c cs → Covered final c)
        → Covered final v

  -- The children of every item with this key are covered.
  abbrev ClosedAt : List ℕ → ℕ → Type ℓ
  ClosedAt final k =
      (v : V) (cs : List V)
      → key v ≡ some k
      → children v ≡ some cs
      → (c : V) → Memᴰ c cs
      → Covered final c

  abbrev Closed : (final marks : List ℕ) → List V → Type ℓ
  Closed final marks stack =
      ((k : ℕ) → Memᴰ k marks → Memᴰ k final)
      × (((v : V) → Memᴰ v stack → Covered final v)
          × ((k : ℕ) → Memᴰ k final → Memᴰ k marks ⊎ ClosedAt final k))

  Covered-cons :
      (final : List ℕ) (v : V) (stack : List V)
      → Covered final v
      → ((w : V) → Memᴰ w stack → Covered final w)
      → (w : V) → Memᴰ w (v ∷ stack)
      → Covered final w
  Covered-cons final v stack now later w m = elim (Memᴰ.cases_cons m) [
    | inl e ↦ subst (Covered final) (sym e) now
    | inr n ↦ later w n
  ]

  -- Two items with one key have the same children.
  module _
      (same : (u v : V) (k : ℕ) → key u ≡ some k → key v ≡ some k → children u ≡ children v) where
    ClosedAt-visited :
        (final : List ℕ) (v : V) (cs : List V) (k : ℕ)
        → key v ≡ some k
        → children v ≡ some cs
        → ((c : V) → Memᴰ c cs → Covered final c)
        → ClosedAt final k
    ClosedAt-visited final v cs k is_key found all w ds w_key w_found c m =
        let e : ds ≡ cs = let p = same v w k is_key w_key in cc in all c (subst (Memᴰ c) e m)

    walk-Closed :
        (fuel : ℕ) (marks : List ℕ) (stack : List V) (final : List ℕ)
        → walk key children fuel marks stack ≡ done final
        → Closed final marks stack
    walk-Closed fuel marks stack final =
        walk_rule key children (Closed final) final
          ((λ k m. m), ((λ v x'. elim x' [ ]), (λ k m. inl m)))
          (λ marks v stack cs no_key found ih. (
            ih.0,
            (
              Covered-cons final v stack
                  (unkeyed no_key found (λ c m. ih.1.0 c (push_all-adds c cs stack m)))
                  (λ w m. ih.1.0 w (push_all-keeps w cs stack m)),
              ih.1.1,
            ),
          ))
          (λ marks v stack k is_key old ih.
            (ih.0, (Covered-cons final v stack (marked is_key (ih.0 k old)) ih.1.0, ih.1.1)))
          (λ marks v stack cs k is_key found ih. (
            (λ i m. ih.0 i (Memᴰ.tail m)),
            (
              Covered-cons final v stack (marked is_key (ih.0 k (Memᴰ.head refl)))
                  (λ w m. ih.1.0 w (push_all-keeps w cs stack m)),
              (λ i m. elim (ih.1.1 i m) [
                | inl new ↦ elim (Memᴰ.cases_cons new) [
                  | inl e ↦ inr (
                      subst (ClosedAt final) (sym e) (
                        ClosedAt-visited final v cs k is_key found
                          (λ c n. ih.1.0 c (push_all-adds c cs stack n))))
                  | inr old ↦ inl old
                ]
                | inr closed ↦ inr closed
              ]),
            ),
          ))
          fuel marks stack

    -- A search from no marks covers whatever is reached.
    Covered-Reached :
        (stack : List V) (final : List ℕ)
        → Closed final [] stack
        → (v : V) → Reached key children stack v
        → Covered final v
    Covered-Reached stack final closed v (root m) = closed.1.0 v m
    Covered-Reached stack final closed v (child {u} {cs = cs} r e m) =
        elim (Covered-Reached stack final closed u r) [
          | marked {k = k} is_key old ↦ elim (closed.1.1 k old) [
            | inl x' ↦ elim x' [ ]
            | inr at ↦ at u cs is_key e v m
          ]
          | unkeyed {cs = ds} no_key found all ↦
              let same_cs : cs ≡ ds = cc in all v (subst (Memᴰ v) same_cs m)
        ]

    Covered-key : (final : List ℕ) (v : V) (k : ℕ) → Covered final v → key v ≡ some k → Memᴰ k final
    Covered-key final v k (marked {k = i} is_key m) e =
        let same_k : i ≡ k = cc in subst (λ j. Memᴰ j final) same_k m
    Covered-key final v k (unkeyed no_key found all) e = ground arith

    -- Every item that is reached and has a key is marked.
    pub walk-Complete :
        (fuel : ℕ) (stack : List V) (final : List ℕ)
        → walk key children fuel [] stack ≡ done final
        → (k : ℕ) → ReachedKey key children stack k
        → Memᴰ k final
    walk-Complete fuel stack final h k (v, (r, e)) =
        Covered-key final v k (Covered-Reached stack final (walk-Closed fuel [] stack final h) v r)
          e

    self_child-Covered :
        (final : List ℕ) (v : V) (cs : List V)
        → key v ≡ none
        → children v ≡ some cs
        → Memᴰ v cs
        → Covered final v
        → ⊥
    self_child-Covered final v cs no_key found m (marked is_key old) = ground arith
    self_child-Covered final v cs no_key found m (unkeyed {cs = ds} no_key_again found_again all) =
        let same_cs : cs ≡ ds = cc in
        self_child-Covered final v cs no_key found m (all v (subst (Memᴰ v) same_cs m))

    -- A search that reaches an item without a key that is its own child does not end.
    pub walk-endless :
        (fuel : ℕ) (stack : List V) (final : List ℕ)
        → walk key children fuel [] stack ≡ done final
        → (v : V) (cs : List V) → Reached key children stack v
        → key v ≡ none
        → children v ≡ some cs
        → Memᴰ v cs
        → ⊥
    walk-endless fuel stack final h v cs r no_key found m =
        self_child-Covered final v cs no_key found m
          (Covered-Reached stack final (walk-Closed fuel [] stack final h) v r)
