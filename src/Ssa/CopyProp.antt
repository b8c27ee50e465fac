-- ===== src/Ssa/CopyProp.antt =====
-- src/ssa/passes/copy_prop.rs, on one function: a copy, or a phi of one value, is replaced by what it copies.
use mathlib.Core.List.{Memᴰ}
use raytask.Prelude.{
  ℕ, ◌≡◌, refl, sym, ap, ◌∙◌, Bool, true, false, not, ◌&&◌, ◌||◌, ◌==◌, Bool-cases, Option, none,
  some, List, [], ◌∷◌, inl, inr, map, arith, if◌then◌else◌,
}
use raytask.Ssa.{InstKind, dup, phi, Inst, Blocks, values}
use raytask.Ssa.Uses.{uses, replace_uses, rewrite, uses-replace_uses}

abbrev pub all_same : ℕ → List (ℕ × ℕ) → Bool
all_same first [] = true
all_same first ((bb, v) ∷ is) = v == first && all_same first is

unfoldable pub same_phi : List (ℕ × ℕ) → Option ℕ
same_phi [] = none
same_phi ((bb, first) ∷ is) = if all_same first ((bb, first) ∷ is) then some first else none

-- What the instruction is a copy of.
unfoldable pub copied : InstKind → Option ℕ
copied (dup value) = some value
copied (phi incomings) = same_phi incomings
copied kind = none

abbrev pub found : ℕ → Option ℕ → List (ℕ × ℕ) → List (ℕ × ℕ)
found id none repl = repl
found id (some to) repl = (id, to) ∷ repl

unfoldable pub collect_repl : List Inst → List (ℕ × ℕ)
collect_repl [] = []
collect_repl (i ∷ is) = found i.id (copied i.kind) (collect_repl is)

unfoldable pub apply_repl : List (ℕ × ℕ) → Blocks → Bool × Blocks
apply_repl [] bs = (false, bs)
apply_repl ((from, to) ∷ repl) bs =
    let rest = apply_repl repl (if not (from == to) then replace_uses from to bs else bs) in
    (not (from == to) || rest.0, rest.1)

-- The body of `run`: whether anything was replaced, and the blocks.
unfoldable pub copy_prop : Blocks → Bool × Blocks
copy_prop bs = apply_repl (collect_repl (values bs)) bs

module _ {ℓ} {A : Type ℓ} (value : ℕ → A) where
  -- What an instruction that copies makes of its value: a phi has that of one of its incomings.
  abbrev pub IsCopy : Inst → InstKind → Type ℓ
  IsCopy i (dup v) = value i.id ≡ value v
  IsCopy i (phi incomings) =
      (bb : ℕ) × ((v : ℕ) × (Memᴰ (bb, v) incomings × (value i.id ≡ value v)))
  IsCopy i kind = Unit {ℓ}

  all_same-member :
      (first : ℕ) (is : List (ℕ × ℕ)) (bb v : ℕ)
      → all_same first is ≡ true
      → Memᴰ (bb, v) is
      → v ≡ first
  all_same-member first [] bb v e x' = elim x' [ ]
  all_same-member first ((b, w) ∷ is) bb v e (Memᴰ.head same) =
      let own : v ≡ w = ap (λ p. p.1) same in own ∙ ground arith
  all_same-member first ((b, w) ∷ is) bb v e (Memᴰ.tail m) =
      all_same-member first is bb v (ground arith) m

  same_phi-member :
      (is : List (ℕ × ℕ)) (to bb v : ℕ) → same_phi is ≡ some to → Memᴰ (bb, v) is → v ≡ to
  unfolding same_phi
  same_phi-member [] to bb v e m = ground arith
  same_phi-member ((b, first) ∷ is) to bb v e m =
      elim (Bool-cases (all_same first ((b, first) ∷ is))) [
        | inl all ↦
            let is_to : first ≡ to = ground arith in
            all_same-member first ((b, first) ∷ is) bb v all m ∙ is_to
        | inr some_other ↦ absurd (ground arith)
      ]

  copied-value :
      (i : Inst) (kind : InstKind) (to : ℕ)
      → IsCopy i kind
      → copied kind ≡ some to
      → value i.id ≡ value to
  unfolding copied
  copied-value i (dup v) to copy e = let same : v ≡ to = cc in copy ∙ ap value same
  copied-value i (phi incomings) to (bb, (v, (m, copy))) e =
      copy ∙ ap value (same_phi-member incomings to bb v e m)
  copied-value i _ to copy e = ground arith

  -- The two sides of each replacement have one value.
  abbrev Faithful : List (ℕ × ℕ) → Type ℓ
  Faithful repl = (from to : ℕ) → Memᴰ (from, to) repl → value from ≡ value to

  found-Faithful :
      (id : ℕ) (o : Option ℕ) (repl : List (ℕ × ℕ))
      → ((to : ℕ) → o ≡ some to → value id ≡ value to)
      → Faithful repl
      → Faithful (found id o repl)
  found-Faithful id none repl here later from to m = later from to m
  found-Faithful id (some t) repl here later from to (Memᴰ.head same) =
      ap (λ p. value (p.0)) same ∙ here t refl ∙ ap (λ p. value (p.1)) (sym same)
  found-Faithful id (some t) repl here later from to (Memᴰ.tail m) = later from to m

  collect_repl-Faithful :
      (is : List Inst) → ((i : Inst) → Memᴰ i is → IsCopy i i.kind) → Faithful (collect_repl is)
  unfolding collect_repl
  collect_repl-Faithful [] copies = λ from to x'. elim x' [ ]
  collect_repl-Faithful (i ∷ is) copies =
      found-Faithful i.id (copied i.kind) (collect_repl is)
        (λ to e. copied-value i i.kind to (copies i (Memᴰ.head refl)) e)
        (collect_repl-Faithful is (λ j m. copies j (Memᴰ.tail m)))

  map-rewrite :
      (from to : ℕ) (vs : List ℕ)
      → value from ≡ value to
      → map value (map (rewrite from to) vs) ≡ map value vs
  unfolding rewrite
  map-rewrite from to [] e = refl
  map-rewrite from to (v ∷ vs) e = elim (Bool-cases (v == from)) [
    | inl is_from ↦
        let same : from ≡ v = ground arith in
        rw is_from (
          ap (λ x. x ∷ map value (map (rewrite from to) vs)) (sym e ∙ ap value same)
          ∙ ap (λ l. value v ∷ l) (map-rewrite from to vs e))
    | inr other ↦ rw other (ap (λ l. value v ∷ l) (map-rewrite from to vs e))
  ]

  apply_repl-uses :
      (repl : List (ℕ × ℕ)) (bs : Blocks)
      → Faithful repl
      → map value (uses ((apply_repl repl bs).1)) ≡ map value (uses bs)
  unfolding apply_repl
  apply_repl-uses [] bs faithful = refl
  apply_repl-uses ((from, to) ∷ repl) bs faithful =
      let rest = λ (x : Blocks). apply_repl-uses repl x (λ f t m. faithful f t (Memᴰ.tail m)) in
      elim (Bool-cases (from == to)) [
        | inl same ↦ rw same (rest bs)
        | inr other ↦ rw other (
            rest (replace_uses from to bs)
            ∙ ap (map value) (uses-replace_uses from to bs)
            ∙ map-rewrite from to (uses bs) (faithful from to (Memᴰ.head refl)))
      ]

  -- Copy propagation replaces values by such of the same value: whatever values the instructions have,
  -- each place that uses one has after the pass the value it had, if a copy has the value it copies and a
  -- phi that of one of its incomings.
  pub copy_prop-uses :
      (bs : Blocks)
      → ((i : Inst) → Memᴰ i (values bs) → IsCopy i i.kind)
      → map value (uses ((copy_prop bs).1)) ≡ map value (uses bs)
  unfolding copy_prop
  copy_prop-uses bs copies =
      apply_repl-uses (collect_repl (values bs)) bs (collect_repl-Faithful (values bs) copies)
