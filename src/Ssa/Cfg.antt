-- ===== src/Ssa/Cfg.antt =====
-- src/ssa/cfg.rs: the edges between the blocks, and the blocks that the entry leads to.
pub mod Values
pub mod Edges
pub mod Paths
use raytask.Prelude.{ℕ, ◌==◌, Option, none, some, List, [], ◌∷◌, ◌++◌, if◌then◌else◌}
use raytask.Prelude.Options.{◌>>=◌}
use raytask.Worklist.{contains, walk, Walked}
use raytask.Ssa.{
  Terminator, br, cond_br, return, halt, throw, unreachable, BasicBlock, Blocks, block,
}

unfoldable pub term_succs : Terminator → List ℕ
term_succs (br target) = target ∷ []
term_succs (cond_br cond then_bb else_bb) = then_bb ∷ else_bb ∷ []
term_succs term = []

-- `if let Some(b) = blocks.get_mut(&id)`
unfoldable pub change_block : (BasicBlock → BasicBlock) → ℕ → Blocks → Blocks
change_block change id [] = []
change_block change id ((k, b) ∷ bs) =
    if k == id then (k, change b) ∷ bs else (k, b) ∷ change_block change id bs

unfoldable pub clear_edges : Blocks → Blocks
clear_edges [] = []
clear_edges ((k, b) ∷ bs) = (k, record b { preds = []; succs = [] }) ∷ clear_edges bs

abbrev pub keys : Blocks → List ℕ
keys [] = []
keys ((k, b) ∷ bs) = k ∷ keys bs

unfoldable pub add_pred : ℕ → BasicBlock → BasicBlock
add_pred id b = if contains b.preds id then b else record b { preds = b.preds ++ id ∷ [] }

unfoldable pub link_preds : (id : ℕ) (succs : List ℕ) → Blocks → Blocks
link_preds id [] bs = bs
link_preds id (s ∷ ss) bs = link_preds id ss (change_block (add_pred id) s bs)

abbrev pub set_succs : List ℕ → BasicBlock → BasicBlock
set_succs succs b = record b { succs = succs }

-- The body of the loop of `rebuild_edges`; the numbers that it runs over are of blocks.
abbrev pub link_found : (id : ℕ) → Blocks → Option BasicBlock → Blocks
link_found id bs none = bs
link_found id bs (some b) =
    link_preds id (term_succs b.term) (change_block (set_succs (term_succs b.term)) id bs)

unfoldable pub link_all : List ℕ → Blocks → Blocks
link_all [] bs = bs
link_all (id ∷ ids) bs = link_all ids (link_found id bs (block bs id))

unfoldable pub rebuild_edges : Blocks → Blocks
rebuild_edges bs = link_all (keys bs) (clear_edges bs)

abbrev pub succs_of : Blocks → ℕ → Option (List ℕ)
succs_of bs b = block bs b >>= (λ c. some c.succs)

unfoldable pub reachable : (fuel : ℕ) (entry : ℕ) → Blocks → Walked
reachable fuel entry bs = walk some (succs_of bs) fuel [] (entry ∷ [])
