-- ===== src/Ssa/Simplify.antt =====
-- src/ssa/passes/cfg_simplify.rs, on one function: branches on a constant become jumps, and the blocks that
-- the entry does not lead to any more are removed.
pub mod Kept
pub mod Progress
pub mod Folds
use raytask.Prelude.{
  ℕ, Bool, true, false, not, ◌||◌, Option, none, some, List, [], ◌∷◌, if◌then◌else◌,
}
use raytask.Prelude.Options.{◌>>=◌}
use raytask.Fold.{ConstValue}
use raytask.Worklist.{contains, Walked, done, panics, out_of_fuel}
use raytask.Ssa.{
  InstKind, const, Inst, Terminator, br, cond_br, BasicBlock, Blocks, block, find_def,
}
use raytask.Ssa.Cfg.{change_block, keys, rebuild_edges, reachable}

abbrev pub constant_bool : InstKind → Option Bool
constant_bool (const (ConstValue.bool b)) = some b
constant_bool kind = none

-- Where a branch on a constant goes.
unfoldable pub chosen : Blocks → Terminator → Option ℕ
chosen bs (cond_br cond then_bb else_bb) = do
  inst ← find_def cond bs
  b ← constant_bool inst.kind
  some (if b then then_bb else else_bb)
chosen bs term = none

abbrev pub set_term : Terminator → BasicBlock → BasicBlock
set_term term b = record b { term = term }

abbrev pub fold_to : (bid : ℕ) → Blocks → Option ℕ → Bool × Blocks
fold_to bid bs none = (false, bs)
fold_to bid bs (some target) = (true, change_block (set_term (br target)) bid bs)

-- The body of the loop: whether the block was changed, and the blocks. The numbers are of blocks.
unfoldable pub fold_branch : (bid : ℕ) → Blocks → Bool × Blocks
fold_branch bid bs = fold_to bid bs (block bs bid >>= (λ b. chosen bs b.term))

unfoldable pub fold_branches : List ℕ → Blocks → Bool × Blocks
fold_branches [] bs = (false, bs)
fold_branches (bid ∷ bids) bs =
    let first = fold_branch bid bs in
    let rest = fold_branches bids (first.1) in (first.0 || rest.0, rest.1)

unfoldable pub retain_live : List ℕ → Blocks → Blocks
retain_live live [] = []
retain_live live ((k, b) ∷ bs) =
    if contains live k then (k, b) ∷ retain_live live bs else retain_live live bs

unfoldable pub has_dead : List ℕ → Blocks → Bool
has_dead live [] = false
has_dead live ((k, b) ∷ bs) = not (contains live k) || has_dead live bs

-- The blocks before the search.
unfoldable pub folded : Blocks → Bool × Blocks
folded bs = fold_branches (keys bs) (rebuild_edges bs)

abbrev pub removed : Bool → Blocks → Walked → Option (Bool × Blocks)
removed changed bs (done live) =
    some (changed || has_dead live bs, rebuild_edges (retain_live live bs))
removed changed bs panics = none
removed changed bs out_of_fuel = none

-- The body of `run`: whether anything changed, and the blocks.
unfoldable pub simplify : (fuel entry : ℕ) → Blocks → Option (Bool × Blocks)
simplify fuel entry bs =
    let linked = rebuild_edges ((folded bs).1) in
    removed ((folded bs).0) linked (reachable fuel entry linked)
