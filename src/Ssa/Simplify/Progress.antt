-- ===== src/Ssa/Simplify/Progress.antt =====
-- The loop over the branches in src/ssa/passes/cfg_simplify.rs: which of them it has folded so far.
use mathlib.Core.Path.{subst}
use mathlib.Core.List.{Memᴰ}
use mathlib.Core.List.Memᴰ
use raytask.Prelude.{
  ℕ, ◌≡◌, refl, sym, ap, ◌∙◌, Bool, Bool-cases, ◌==◌, Option, none, some, List, [], ◌∷◌, inl, inr,
  arith, if◌then◌else◌,
}
use raytask.Prelude.Options.{◌>>=◌}
use raytask.Worklist.Found.{Option-cases}
use raytask.Ssa.{Terminator, br, cond_br, BasicBlock, Blocks, block, values, find_inst, find_def}
use raytask.Ssa.Cfg.{change_block, keys, rebuild_edges}
use raytask.Ssa.Cfg.Edges.{block-change_block, block-change_block_other, keys-block}
use raytask.Ssa.Cfg.Values.{values-change_block, values-rebuild_edges}
use raytask.Ssa.Simplify.{
  constant_bool, chosen, set_term, fold_to, fold_branch, fold_branches, folded, simplify,
}
use raytask.Ssa.Simplify.Kept.{rebuild_edges-before, left}

chosen-same : (bs cs : Blocks) (t : Terminator) → values cs ≡ values bs → chosen cs t ≡ chosen bs t
unfolding chosen find_def
chosen-same bs cs (cond_br cond then_bb else_bb) e =
    ap
      (λ is.
        find_inst cond is
        >>= (λ inst. constant_bool inst.kind >>= (λ b. some (if b then then_bb else else_bb))))
      e
chosen-same bs cs _ e = refl

-- Of the list, the terminators still to come: one not folded yet, or one that has no choice.
pub data Progress (bs : Blocks) (ids : List ℕ) (j : ℕ) (before after : Terminator) : Type 0 where
  waits : before ≡ after → Memᴰ j ids → Progress bs ids j before after
  stays : before ≡ after → chosen bs before ≡ none → Progress bs ids j before after
  goes :
      {target : ℕ}
      → chosen bs before ≡ some target
      → after ≡ br target
      → Progress bs ids j before after

abbrev pub FoldedAt : Blocks → List ℕ → ℕ → BasicBlock → Type 0
FoldedAt bs ids j c =
    (b : BasicBlock) × ((block bs j ≡ some b)
      × ((b.insts ≡ c.insts) × Progress bs ids j b.term c.term))

abbrev From : List ℕ → (bs cs : Blocks) → Type 0
From ids bs cs =
    (values cs ≡ values bs) × ((j : ℕ) (c : BasicBlock) → block cs j ≡ some c → FoldedAt bs ids j c)

-- The block whose turn it is, if its branch has no choice.
Progress-stays :
    (bs cs : Blocks) (id : ℕ) (ids : List ℕ) (j : ℕ) (before after : Terminator)
    → values cs ≡ values bs
    → (id ≡ j → chosen cs after ≡ none)
    → Progress bs (id ∷ ids) j before after
    → Progress bs ids j before after
Progress-stays bs cs id ids j before after v none_here (Progress.waits e m) =
    elim (Memᴰ.cases_cons m) [
      | inl here ↦ Progress.stays e (
          subst (λ t. chosen bs t ≡ none) (sym e)
            (sym (chosen-same bs cs after v) ∙ none_here (sym here)))
      | inr later ↦ Progress.waits e later
    ]
Progress-stays bs cs id ids j before after v none_here (Progress.stays e c) = Progress.stays e c
Progress-stays bs cs id ids j before after v none_here (Progress.goes e c) = Progress.goes e c

-- The block whose turn it is, if its branch has one.
Progress-goes :
    (bs cs : Blocks) (id : ℕ) (ids : List ℕ) (j : ℕ) (before after : Terminator) (target : ℕ)
    → values cs ≡ values bs
    → chosen cs after ≡ some target
    → Progress bs (id ∷ ids) j before after
    → Progress bs ids j before (br target)
unfolding chosen
Progress-goes bs cs id ids j before after target v now (Progress.waits e m) =
    Progress.goes
      (subst (λ t. chosen bs t ≡ some target) (sym e) (sym (chosen-same bs cs after v) ∙ now)) refl
Progress-goes bs cs id ids j before after target v now (Progress.stays e c) =
    Progress.goes
      (subst (λ t. chosen bs t ≡ some target) (sym e) (sym (chosen-same bs cs after v) ∙ now)) refl
Progress-goes bs cs id ids j before after target v now (Progress.goes e is_br) =
    let no_choice : none ≡ some target = subst (λ t. chosen cs t ≡ some target) is_br now in
    absurd (ground arith)

-- A block that is not the one whose turn it is.
Progress-other :
    (bs : Blocks) (id : ℕ) (ids : List ℕ) (j : ℕ) (before after : Terminator)
    → (id ≡ j → ⊥)
    → Progress bs (id ∷ ids) j before after
    → Progress bs ids j before after
Progress-other bs id ids j before after other (Progress.waits e m) = elim (Memᴰ.cases_cons m) [
  | inl here ↦ absurd (other (sym here))
  | inr later ↦ Progress.waits e later
]
Progress-other bs id ids j before after other (Progress.stays e c) = Progress.stays e c
Progress-other bs id ids j before after other (Progress.goes e c) = Progress.goes e c

From-change :
    (bs cs : Blocks) (id : ℕ) (ids : List ℕ) (target : ℕ) (b : BasicBlock)
    → From (id ∷ ids) bs cs
    → block cs id ≡ some b
    → chosen cs b.term ≡ some target
    → From ids bs (change_block (set_term (br target)) id cs)
From-change bs cs id ids target b (v, from) at now_goes = (
  values-change_block (set_term (br target)) id cs (λ c. refl) ∙ v,
  (λ j c now. elim (Bool-cases (id == j)) [
    | inl e ↦
        let here : id ≡ j = ground arith in
        let new : some (set_term (br target) b) ≡ some c =
          ap (λ o. o >>= (λ x. some (set_term (br target) x))) (sym at)
          ∙ sym (block-change_block (set_term (br target)) id cs)
          ∙ subst (λ i. block (change_block (set_term (br target)) id cs) i ≡ some c) (sym here)
              now in
        let is_c : set_term (br target) b ≡ c = cc in
        let (b0, (was, (insts, folds))) = from id b at in
        subst (λ i. FoldedAt bs ids i c) here
          (
            b0,
            (
              was,
              (
                insts ∙ ap (λ x. x.insts) is_c,
                subst (λ t. Progress bs ids id b0.term t) (ap (λ x. x.term) is_c)
                    (Progress-goes bs cs id ids id b0.term b.term target v now_goes folds),
              ),
            ),
          )
    | inr e ↦
        let other : id ≡ j → ⊥ = λ here. absurd (ground arith) in
        let (b0, (was, (insts, folds))) =
          from j c (sym (block-change_block_other (set_term (br target)) id j cs other) ∙ now) in
        (b0, (was, (insts, Progress-other bs id ids j b0.term c.term other folds)))
  ]),
)

From-fold_to :
    (bs cs : Blocks) (id : ℕ) (ids : List ℕ) (o : Option ℕ)
    → From (id ∷ ids) bs cs
    → (block cs id >>= (λ b. chosen cs b.term)) ≡ o
    → From ids bs ((fold_to id cs o).1)
From-fold_to bs cs id ids none (v, from) e = (
  v,
  (λ j c at.
      let (b, (was, (insts, folds))) = from j c at in
      (
        b,
        (
          was,
          (
            insts,
            Progress-stays bs cs id ids j b.term c.term v
                (λ here.
                  ap (λ o. o >>= (λ x. chosen cs x.term))
                    (sym (subst (λ i. block cs i ≡ some c) (sym here) at))
                  ∙ e)
                folds,
          ),
        ),
      )),
)
From-fold_to bs cs id ids (some target) from e = elim (Option-cases (block cs id)) [
  | inl gone ↦ absurd (ground arith)
  | inr (b, at) ↦
      From-change bs cs id ids target b from at
        (ap (λ o. o >>= (λ c. chosen cs c.term)) (sym at) ∙ e)
]

From-fold_branches :
    (ids : List ℕ) (bs cs : Blocks) → From ids bs cs → From [] bs ((fold_branches ids cs).1)
unfolding fold_branches fold_branch
From-fold_branches [] bs cs from = from
From-fold_branches (id ∷ ids) bs cs from =
    From-fold_branches ids bs ((fold_branch id cs).1)
      (From-fold_to bs cs id ids (block cs id >>= (λ b. chosen cs b.term)) from refl)

From-folded : (bs : Blocks) → From [] bs ((folded bs).1)
unfolding folded
From-folded bs = From-fold_branches (keys bs) bs (rebuild_edges bs) (
  values-rebuild_edges bs,
  (λ j c now.
      let (b, (was, (insts, term))) = rebuild_edges-before bs j c now in
      (b, (was, (insts, Progress.waits term (keys-block j bs b was))))),
)

-- What the progress comes to in the end.
pub left-Progress :
    (fuel entry : ℕ) (bs : Blocks) (r : Bool × Blocks)
    → simplify fuel entry bs ≡ some r
    → (j : ℕ) (c : BasicBlock) → block (r.1) j ≡ some c
    → FoldedAt bs [] j c
left-Progress fuel entry bs r ends j c at =
    let (flows, (d, (now, (insts, term)))) = left fuel entry bs r ends j c at in
    let (b, (was, (insts', folds))) = (From-folded bs).1 j d now in
    (b, (was, (insts' ∙ insts, subst (λ t. Progress bs [] j b.term t) term folds)))
