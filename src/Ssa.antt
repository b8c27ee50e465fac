-- ===== src/Ssa.antt =====
-- src/ssa/ir.rs: the instructions, blocks and functions of the optimiser. A `ValueId`, a `BlockId` and a
-- `FuncId` are their numbers; the map of the blocks is its entries in the order of its iteration. The
-- counters of values and blocks do not overflow.
pub mod Uses
pub mod Cfg
pub mod Dce
pub mod CopyProp
pub mod PhiElim
pub mod Simplify
mod Sample
mod Tests
use raytask.Prelude.{
  ℕ, suc, Bool, true, false, not, ◌&&◌, ◌||◌, ◌==◌, Option, none, some, List, [], ◌∷◌, ◌++◌, ◌+◌,
  map, if◌then◌else◌,
}
use raytask.Prelude.Options.{◌>>=◌}
use raytask.Prelude.Text.{Str}
use raytask.Value.Kinds.{BinOpKind, UnOpKind}
use raytask.Fold.{ConstValue}

pub data SsaTy : Type 0 where
  void bool int float ref dyn : SsaTy

pub data InstKind : Type 0 where
  const : ConstValue → InstKind
  alloca : (ty : SsaTy) (slot : ℕ) → InstKind
  load : (ptr : ℕ) → InstKind
  store : (ptr value : ℕ) → InstKind
  bin_op : (op : BinOpKind) (lhs rhs : ℕ) → InstKind
  un_op : (op : UnOpKind) (arg : ℕ) → InstKind
  call : (callee : ℕ) (args : List ℕ) (effectful : Bool) → InstKind
  get_global : (index : ℕ) → InstKind
  set_global define_global : (index value : ℕ) → InstKind
  get_property : (object name : ℕ) → InstKind
  set_property : (object name value : ℕ) → InstKind
  get_index : (object index : ℕ) → InstKind
  set_index : (object index value : ℕ) → InstKind
  new_object : (class_index : ℕ) (name : Option ℕ) → InstKind
  new_array : (elems : List ℕ) → InstKind
  print dup await : (value : ℕ) → InstKind
  get_upvalue : (index : ℕ) → InstKind
  set_upvalue : (index value : ℕ) → InstKind
  make_closure : (proto : ℕ) (captures : List (Bool × ℕ)) → InstKind
  phi : (incomings : List (ℕ × ℕ)) → InstKind
  param : (index : ℕ) → InstKind

pub record Inst : Type 0 where
  pub id : ℕ
  pub kind : InstKind
  pub ty : SsaTy
  pub line : ℕ
  pub effectful : Bool

pub data Terminator : Type 0 where
  br : (target : ℕ) → Terminator
  cond_br : (cond then_bb else_bb : ℕ) → Terminator
  return : Option ℕ → Terminator
  halt : Terminator
  throw : ℕ → Terminator
  unreachable : Terminator

pub record BasicBlock : Type 0 where
  pub id : ℕ
  pub insts : List Inst
  pub term : Terminator
  pub preds : List ℕ
  pub succs : List ℕ

unfoldable pub new_block : ℕ → BasicBlock
new_block id = record { id = id; insts = []; term = unreachable; preds = []; succs = [] }

abbrev pub Blocks : Type 0
Blocks = List (ℕ × BasicBlock)

pub record SsaFunction : Type 0 where
  pub id : ℕ
  pub name : Str
  pub arity : ℕ
  pub local_count : ℕ
  pub is_async : Bool
  pub entry : ℕ
  pub blocks : Blocks
  pub next_value : ℕ
  pub next_block : ℕ
  pub source : Option Str

unfoldable pub new : (id : ℕ) (name : Str) (arity : ℕ) → SsaFunction
new id name arity = record {
  id = id;
  name = name;
  arity = arity;
  local_count = arity;
  is_async = false;
  entry = 0;
  blocks = (0, new_block 0) ∷ [];
  next_value = 0;
  next_block = 1;
  source = none;
}

unfoldable pub alloc_value : SsaFunction → ℕ × SsaFunction
alloc_value f = (f.next_value, record f { next_value = suc f.next_value })

-- `blocks.get`, and `&self.blocks[&id]`, which panics where there is no such block
unfoldable pub block : Blocks → ℕ → Option BasicBlock
block [] id = none
block ((k, b) ∷ bs) id = if k == id then some b else block bs id

-- `blocks.insert`
unfoldable pub insert_block : ℕ → BasicBlock → Blocks → Blocks
insert_block id b [] = (id, b) ∷ []
insert_block id b ((k, c) ∷ bs) = if k == id then (k, b) ∷ bs else (k, c) ∷ insert_block id b bs

unfoldable pub create_block : SsaFunction → ℕ × SsaFunction
create_block f = (
  f.next_block,
  record f {
    next_block = suc f.next_block;
    blocks = insert_block f.next_block (new_block f.next_block) f.blocks;
  },
)

-- A change of one block through `block_mut`; it panics where there is no such block.
unfoldable pub with_block : (BasicBlock → BasicBlock) → ℕ → Blocks → Option Blocks
with_block change id [] = none
with_block change id ((k, b) ∷ bs) =
    if k == id
    then some ((k, change b) ∷ bs)
    else (with_block change id bs >>= (λ rest. some ((k, b) ∷ rest)))

abbrev with_blocks : SsaFunction → Option Blocks → Option SsaFunction
with_blocks f none = none
with_blocks f (some bs) = some (record f { blocks = bs })

-- The kinds that `push_inst` takes to have an effect.
unfoldable pub has_effect : InstKind → Bool
has_effect (store ptr value) = true
has_effect (call callee args effectful) = effectful
has_effect (set_global index value) = true
has_effect (define_global index value) = true
has_effect (set_property object name value) = true
has_effect (set_index object index value) = true
has_effect (print value) = true
has_effect (await value) = true
has_effect (set_upvalue index value) = true
has_effect (new_object class_index name) = true
has_effect (new_array elems) = true
has_effect (make_closure proto captures) = true
has_effect kind = false

unfoldable pub push_inst : (bb : ℕ) → Inst → SsaFunction → Option (ℕ × SsaFunction)
push_inst bb inst f = do
  let pushed = record inst { effectful = has_effect inst.kind || inst.effectful }
  changed ←
      with_blocks f (with_block (λ b. record b { insts = b.insts ++ pushed ∷ [] }) bb f.blocks)
  some (inst.id, changed)

unfoldable pub set_term : (bb : ℕ) → Terminator → SsaFunction → Option SsaFunction
set_term bb term f = with_blocks f (with_block (λ b. record b { term = term }) bb f.blocks)

unfoldable pub values : Blocks → List Inst
values [] = []
values ((k, b) ∷ bs) = b.insts ++ values bs

unfoldable pub find_inst : ℕ → List Inst → Option Inst
find_inst id [] = none
find_inst id (i ∷ is) = if i.id == id then some i else find_inst id is

-- The blocks are searched one after the other.
unfoldable pub find_def : ℕ → Blocks → Option Inst
find_def id bs = find_inst id (values bs)

unfoldable pub retain_others : ℕ → List Inst → List Inst
retain_others vid [] = []
retain_others vid (i ∷ is) =
    if not (i.id == vid) then i ∷ retain_others vid is else retain_others vid is

unfoldable pub remove_inst : (bb vid : ℕ) → SsaFunction → Option SsaFunction
remove_inst bb vid f =
    with_blocks f (with_block (λ b. record b { insts = retain_others vid b.insts }) bb f.blocks)
