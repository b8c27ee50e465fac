-- ===== src/Ssa/Dce.antt =====
-- src/ssa/passes/dce.rs, on one function: the instructions that nothing with an effect needs are removed.
pub mod Closed
pub mod Needed
pub mod Kept
pub mod Used
mod Tests
use raytask.Prelude.{
  ℕ, zero, suc, Bool, true, false, ◌||◌, ◌&&◌, not, ◌==◌, Option, none, some, List, [], ◌∷◌, ◌++◌,
  length, if◌then◌else◌,
}
use raytask.Worklist.{contains}
use raytask.Ssa.{InstKind, param, Inst, Terminator, BasicBlock, Blocks, values}
use raytask.Ssa.Uses.{mark_uses, term_uses}

-- `live.insert`: a set is its members without repetition.
unfoldable pub insert_all : (vs live : List ℕ) → List ℕ
insert_all [] live = live
insert_all (v ∷ vs) live = if contains live v then insert_all vs live else insert_all vs (v ∷ live)

unfoldable pub inst_roots : List Inst → (live : List ℕ) → List ℕ
inst_roots [] live = live
inst_roots (i ∷ is) live =
    if i.effectful
    then inst_roots is (insert_all (mark_uses i.kind) (insert_all (i.id ∷ []) live))
    else inst_roots is live

-- What the effects and the terminators of the blocks need.
unfoldable pub roots : Blocks → (live : List ℕ) → List ℕ
roots [] live = live
roots ((k, b) ∷ bs) live = roots bs (insert_all (term_uses b.term) (inst_roots b.insts live))

-- `collect` into a map: the last of the instructions with one number
unfoldable pub def_of : List Inst → ℕ → Option InstKind
def_of [] v = none
def_of (i ∷ is) v = elim (def_of is v) [
  | some kind ↦ some kind
  | none ↦ if i.id == v then some i.kind else none
]

-- The inner loop: what is new is live and on the work list, the last on top.
unfoldable pub push_new : (deps live work : List ℕ) → List ℕ × List ℕ
push_new [] live work = (live, work)
push_new (d ∷ ds) live work =
    if contains live d then push_new ds live work else push_new ds (d ∷ live) (d ∷ work)

abbrev pub deps : Option InstKind → List ℕ
deps none = []
deps (some kind) = mark_uses kind

-- The outer loop; `none` where the fuel is used up.
unfoldable pub propagate : (fuel : ℕ) → List Inst → (live work : List ℕ) → Option (List ℕ)
propagate fuel insts live [] = some live
propagate zero insts live (v ∷ work) = none
propagate (suc fuel) insts live (v ∷ work) =
    let next = push_new (deps (def_of insts v)) live work in propagate fuel insts (next.0) (next.1)

abbrev pub is_param : InstKind → Bool
is_param (param index) = true
is_param kind = false

abbrev pub is_kept : (live : List ℕ) → Inst → Bool
is_kept live i = i.effectful || (contains live i.id || is_param i.kind)

unfoldable pub retain_kept : (live : List ℕ) → List Inst → List Inst
retain_kept live [] = []
retain_kept live (i ∷ is) = if is_kept live i then i ∷ retain_kept live is else retain_kept live is

unfoldable pub sweep_blocks : (live : List ℕ) → Blocks → Blocks
sweep_blocks live [] = []
sweep_blocks live ((k, b) ∷ bs) =
    (k, record b { insts = retain_kept live b.insts }) ∷ sweep_blocks live bs

abbrev pub swept : Blocks → Option (List ℕ) → Option Blocks
swept bs none = none
swept bs (some live) = some (sweep_blocks live bs)

-- The body of `run`; it changed something where a block has become shorter.
unfoldable pub dce : (fuel : ℕ) → Blocks → Option Blocks
dce fuel bs = swept bs (propagate fuel (values bs) (roots bs []) (roots bs []))
