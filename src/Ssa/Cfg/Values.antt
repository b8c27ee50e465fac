-- ===== src/Ssa/Cfg/Values.antt =====
-- The instructions of a function under src/ssa/cfg.rs: its edges change, they do not.
use raytask.Prelude.{
  ℕ, ◌≡◌, refl, ap, ◌∙◌, Bool-cases, ◌==◌, Option, none, some, List, [], ◌∷◌, ◌++◌, inl, inr,
}
use raytask.Worklist.{contains}
use raytask.Ssa.{BasicBlock, Blocks, block, values}
use raytask.Ssa.Cfg.{
  term_succs, change_block, clear_edges, keys, add_pred, link_preds, set_succs, link_found,
  link_all, rebuild_edges,
}

pub values-change_block :
    (change : BasicBlock → BasicBlock) (id : ℕ) (bs : Blocks)
    → ((b : BasicBlock) → (change b).insts ≡ b.insts)
    → values (change_block change id bs) ≡ values bs
unfolding values change_block
values-change_block change id [] same = refl
values-change_block change id ((k, b) ∷ bs) same = elim (Bool-cases (k == id)) [
  | inl e ↦ rw e (ap (λ l. l ++ values bs) (same b))
  | inr e ↦ rw e (ap (λ l. b.insts ++ l) (values-change_block change id bs same))
]

insts-add_pred : (id : ℕ) (b : BasicBlock) → (add_pred id b).insts ≡ b.insts
unfolding add_pred
insts-add_pred id b = elim (Bool-cases (contains b.preds id)) [
  | inl e ↦ rw e refl
  | inr e ↦ rw e refl
]

values-link_preds : (id : ℕ) (ss : List ℕ) (bs : Blocks) → values (link_preds id ss bs) ≡ values bs
unfolding link_preds
values-link_preds id [] bs = refl
values-link_preds id (s ∷ ss) bs =
    values-link_preds id ss (change_block (add_pred id) s bs)
    ∙ values-change_block (add_pred id) s bs (insts-add_pred id)

values-link_found :
    (id : ℕ) (bs : Blocks) (o : Option BasicBlock) → values (link_found id bs o) ≡ values bs
values-link_found id bs none = refl
values-link_found id bs (some b) =
    values-link_preds id (term_succs b.term) (change_block (set_succs (term_succs b.term)) id bs)
    ∙ values-change_block (set_succs (term_succs b.term)) id bs (λ c. refl)

values-link_all : (ids : List ℕ) (bs : Blocks) → values (link_all ids bs) ≡ values bs
unfolding link_all
values-link_all [] bs = refl
values-link_all (id ∷ ids) bs =
    values-link_all ids (link_found id bs (block bs id)) ∙ values-link_found id bs (block bs id)

values-clear_edges : (bs : Blocks) → values (clear_edges bs) ≡ values bs
unfolding values clear_edges
values-clear_edges [] = refl
values-clear_edges ((k, b) ∷ bs) = ap (λ l. b.insts ++ l) (values-clear_edges bs)

pub values-rebuild_edges : (bs : Blocks) → values (rebuild_edges bs) ≡ values bs
unfolding rebuild_edges
values-rebuild_edges bs = values-link_all (keys bs) (clear_edges bs) ∙ values-clear_edges bs
