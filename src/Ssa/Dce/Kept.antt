-- ===== src/Ssa/Dce/Kept.antt =====
-- Which instructions src/ssa/passes/dce.rs keeps: those that are needed.
use mathlib.Core.Path.{subst}
use mathlib.Core.List.{Memᴰ}
use mathlib.Core.List.Memᴰ
use raytask.Prelude.{
  ℕ, ◌≡◌, refl, sym, ap, ◌∙◌, true, Bool-cases, some, List, [], ◌∷◌, ◌++◌, ◌⊎◌, inl, inr, ◌↔◌,
  arith,
}
use raytask.Worklist.{contains, contains→Memᴰ, Memᴰ→contains}
use raytask.Worklist.Found.{Option-cases}
use raytask.Ssa.{Inst, Blocks, values}
use raytask.Ssa.Dce.{
  roots, def_of, deps, propagate, is_param, is_kept, retain_kept, sweep_blocks, swept, dce,
}
use raytask.Ssa.Dce.Closed.{propagate-closed, propagate-least}
use raytask.Ssa.Dce.Needed.{
  terms, Needed, effect, effect_use, term_use, dep, roots-cases, roots-inst, roots-term,
}

retain_kept-append :
    (live : List ℕ) (is js : List Inst)
    → retain_kept live (is ++ js) ≡ retain_kept live is ++ retain_kept live js
unfolding retain_kept
retain_kept-append live [] js = refl
retain_kept-append live (i ∷ is) js = elim (Bool-cases (is_kept live i)) [
  | inl e ↦ rw (e, retain_kept-append live is js) refl
  | inr e ↦ rw (e, retain_kept-append live is js) refl
]

values-sweep_blocks :
    (live : List ℕ) (bs : Blocks) → values (sweep_blocks live bs) ≡ retain_kept live (values bs)
unfolding values sweep_blocks retain_kept
values-sweep_blocks live [] = refl
values-sweep_blocks live ((k, b) ∷ bs) =
    ap (λ l. retain_kept live b.insts ++ l) (values-sweep_blocks live bs)
    ∙ sym (retain_kept-append live b.insts (values bs))

pub terms-sweep_blocks : (live : List ℕ) (bs : Blocks) → terms (sweep_blocks live bs) ≡ terms bs
unfolding sweep_blocks
terms-sweep_blocks live [] = refl
terms-sweep_blocks live ((k, b) ∷ bs) = ap (λ l. b.term ∷ l) (terms-sweep_blocks live bs)

retain_kept-cases :
    (live : List ℕ) (is : List Inst) (i : Inst)
    → Memᴰ i (retain_kept live is)
    → Memᴰ i is × (is_kept live i ≡ true)
unfolding retain_kept
retain_kept-cases live [] i x' = elim x' [ ]
retain_kept-cases live (j ∷ is) i m = elim (Bool-cases (is_kept live j)) [
  | inl e ↦ elim (Memᴰ.cases_cons (subst (λ l. Memᴰ i l) (rw (retain_kept, e) refl) m)) [
    | inl same ↦ (Memᴰ.head same, subst (λ k. is_kept live k ≡ true) (sym same) e)
    | inr n ↦ let p = retain_kept-cases live is i n in (Memᴰ.tail (p.0), p.1)
  ]
  | inr e ↦
      let p = retain_kept-cases live is i (subst (λ l. Memᴰ i l) (rw (retain_kept, e) refl) m) in
      (Memᴰ.tail (p.0), p.1)
]

retain_kept-keeps :
    (live : List ℕ) (is : List Inst) (i : Inst)
    → Memᴰ i is
    → is_kept live i ≡ true
    → Memᴰ i (retain_kept live is)
unfolding retain_kept
retain_kept-keeps live [] i x' kept = elim x' [ ]
retain_kept-keeps live (j ∷ is) i (Memᴰ.head same) kept =
    let e : is_kept live j ≡ true = subst (λ k. is_kept live k ≡ true) same kept in
    rw e (Memᴰ.head same)
retain_kept-keeps live (j ∷ is) i (Memᴰ.tail m) kept = elim (Bool-cases (is_kept live j)) [
  | inl e ↦ rw e (Memᴰ.tail (retain_kept-keeps live is i m kept))
  | inr e ↦ rw e (retain_kept-keeps live is i m kept)
]

-- The run ended: what was found live, and the blocks that are left.
abbrev pub Ended : (fuel : ℕ) → Blocks → Blocks → Type 0
Ended fuel bs after =
    (live : List ℕ) × ((propagate fuel (values bs) (roots bs []) (roots bs []) ≡ some live)
      × (after ≡ sweep_blocks live bs))

pub dce-Ended : (fuel : ℕ) (bs after : Blocks) → dce fuel bs ≡ some after → Ended fuel bs after
unfolding dce
dce-Ended fuel bs after e =
    elim (Option-cases (propagate fuel (values bs) (roots bs []) (roots bs []))) [
      | inl gone ↦ absurd (ground arith)
      | inr (live, found) ↦
          let o : some (sweep_blocks live bs) ≡ some after = ap (swept bs) (sym found) ∙ e in
          (live, (found, cc))
    ]

deps-found :
    (bs : Blocks) (u v : ℕ) → Needed bs u → Memᴰ v (deps (def_of (values bs) u)) → Needed bs v
deps-found bs u v needed m = elim (Option-cases (def_of (values bs) u)) [
  | inl gone ↦ elim (subst (λ o. Memᴰ v (deps o)) gone m) [ ]
  | inr (kind, found) ↦ dep needed found (subst (λ o. Memᴰ v (deps o)) found m)
]

roots-Needed : (bs : Blocks) (v : ℕ) → Memᴰ v (roots bs []) → Needed bs v
roots-Needed bs v m = elim (roots-cases bs [] v m) [
  | inl (inl (i, (at, (on, inl own)))) ↦
      subst (Needed bs) (sym (Memᴰ.eq_of_singleton own)) (effect at on)
  | inl (inl (i, (at, (on, inr u)))) ↦ effect_use at on u
  | inl (inr (t, (at, u))) ↦ term_use at u
  | inr x' ↦ elim x' [ ]
]

Needed→live :
    (fuel : ℕ) (bs : Blocks) (live : List ℕ)
    → propagate fuel (values bs) (roots bs []) (roots bs []) ≡ some live
    → (v : ℕ) → Needed bs v
    → Memᴰ v live
Needed→live fuel bs live e v (effect {i} at on) =
    (propagate-closed (values bs) fuel (roots bs []) (roots bs []) live (λ u m. inl m) e).0 i.id
      (roots-inst bs [] i.id (i, (at, (on, inl (Memᴰ.head refl)))))
Needed→live fuel bs live e v (effect_use {i} at on u) =
    (propagate-closed (values bs) fuel (roots bs []) (roots bs []) live (λ w m. inl m) e).0 v
      (roots-inst bs [] v (i, (at, (on, inr u))))
Needed→live fuel bs live e v (term_use {t} at u) =
    (propagate-closed (values bs) fuel (roots bs []) (roots bs []) live (λ w m. inl m) e).0 v
      (roots-term bs [] v (t, (at, u)))
Needed→live fuel bs live e v (dep {u} before found m) =
    (propagate-closed (values bs) fuel (roots bs []) (roots bs []) live (λ w n. inl n) e).1 u v
      (Needed→live fuel bs live e u before) (subst (λ o. Memᴰ v (deps o)) (sym found) m)

live→Needed :
    (fuel : ℕ) (bs : Blocks) (live : List ℕ)
    → propagate fuel (values bs) (roots bs []) (roots bs []) ≡ some live
    → (v : ℕ) → Memᴰ v live
    → Needed bs v
live→Needed fuel bs live e v =
    propagate-least (values bs) (Needed bs) (deps-found bs) fuel (roots bs []) (roots bs []) live
      (roots-Needed bs) (roots-Needed bs) e v

-- Why an instruction is kept.
abbrev pub Wanted : Blocks → Inst → Type 0
Wanted bs i = (i.effectful ≡ true) ⊎ (Needed bs i.id ⊎ (is_param i.kind ≡ true))

is_kept-Wanted :
    (live : List ℕ) (bs : Blocks) (i : Inst)
    → ((v : ℕ) → Memᴰ v live → Needed bs v)
    → is_kept live i ≡ true
    → Wanted bs i
is_kept-Wanted live bs i sound e = elim (Bool-cases i.effectful) [
  | inl on ↦ inl on
  | inr off ↦ elim (Bool-cases (contains live i.id)) [
    | inl m ↦ inr (inl (sound i.id (contains→Memᴰ live i.id m)))
    | inr out ↦ inr (inr (ground arith))
  ]
]

Wanted-is_kept :
    (live : List ℕ) (bs : Blocks) (i : Inst)
    → ((v : ℕ) → Needed bs v → Memᴰ v live)
    → Wanted bs i
    → is_kept live i ≡ true
Wanted-is_kept live bs i complete (inl on) = ground arith
Wanted-is_kept live bs i complete (inr (inl needed)) =
    let m = Memᴰ→contains live i.id (complete i.id needed) in ground arith
Wanted-is_kept live bs i complete (inr (inr is_p)) = ground arith

-- Dead code elimination keeps exactly the instructions with an effect, the parameters, and those whose
-- value an effect or a terminator needs, directly or through what it needs.
pub dce-Wanted :
    (fuel : ℕ) (bs after : Blocks)
    → dce fuel bs ≡ some after
    → (i : Inst) → Memᴰ i (values after) ↔ (Memᴰ i (values bs) × Wanted bs i)
dce-Wanted fuel bs after e i =
    let (live, (found, same)) = dce-Ended fuel bs after e in
    let shape : values after ≡ retain_kept live (values bs) =
      ap values same ∙ values-sweep_blocks live bs in
    (
      (λ m.
          let (was, kept) = retain_kept-cases live (values bs) i (subst (λ l. Memᴰ i l) shape m) in
          (was, is_kept-Wanted live bs i (live→Needed fuel bs live found) kept)),
      (λ (was, wanted).
          subst (λ l. Memᴰ i l) (sym shape)
            (retain_kept-keeps live (values bs) i was
              (Wanted-is_kept live bs i (Needed→live fuel bs live found) wanted))),
    )
