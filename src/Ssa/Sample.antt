-- ===== src/Ssa/Sample.antt =====
-- A small function of src/ssa/ir.rs, and what the passes make of it.
use raytask.Prelude.{ℕ, Bool, true, false, none, List, [], ◌∷◌}
use raytask.Fold.{ConstValue}
use raytask.Ssa.{InstKind, SsaTy, Inst, Terminator, BasicBlock, Blocks}

abbrev pub inst : ℕ → InstKind → Bool → Inst
inst id kind effectful = record {
  id = id;
  kind = kind;
  ty = SsaTy.dyn;
  line = 1;
  effectful = effectful;
}

abbrev pub block_of : ℕ → List Inst → Terminator → BasicBlock
block_of id is term = record { id = id; insts = is; term = term; preds = []; succs = [] }

-- A constant condition, a branch that prints a number and computes another that nothing uses, and a dead branch.
abbrev pub code : Blocks
code =
    (
      0,
      block_of 0 (inst 0 (InstKind.const (ConstValue.bool true)) false ∷ [])
          (Terminator.cond_br 0 1 2),
    )
    ∷ (
      1,
      block_of 1
          (inst 1 (InstKind.const (ConstValue.int 7)) false
            ∷ inst 2 (InstKind.print 1) true
            ∷ inst 3 (InstKind.dup 1) false
            ∷ [])
          (Terminator.return none),
    )
    ∷ (2, block_of 2 [] Terminator.halt)
    ∷ []

-- The function without its dead branch.
abbrev pub straight : Blocks
straight =
    (
      0,
      record {
        id = 0;
        insts = inst 0 (InstKind.const (ConstValue.bool true)) false ∷ [];
        term = Terminator.br 1;
        preds = [];
        succs = 1 ∷ [];
      },
    )
    ∷ (
      1,
      record {
        id = 1;
        insts =
            inst 1 (InstKind.const (ConstValue.int 7)) false
            ∷ inst 2 (InstKind.print 1) true
            ∷ inst 3 (InstKind.dup 1) false
            ∷ [];
        term = Terminator.return none;
        preds = 0 ∷ [];
        succs = [];
      },
    )
    ∷ []

-- The function without the copy that nothing uses.
abbrev pub lean : Blocks
lean =
    (
      0,
      block_of 0 (inst 0 (InstKind.const (ConstValue.bool true)) false ∷ [])
          (Terminator.cond_br 0 1 2),
    )
    ∷ (
      1,
      block_of 1
          (inst 1 (InstKind.const (ConstValue.int 7)) false ∷ inst 2 (InstKind.print 1) true ∷ [])
          (Terminator.return none),
    )
    ∷ (2, block_of 2 [] Terminator.halt)
    ∷ []

abbrev pub block_1 : BasicBlock
block_1 =
    block_of 1
      (inst 1 (InstKind.const (ConstValue.int 7)) false
        ∷ inst 2 (InstKind.print 1) true
        ∷ inst 3 (InstKind.dup 1) false
        ∷ [])
      (Terminator.return none)

abbrev pub first : BasicBlock
first =
    block_of 0 (inst 0 (InstKind.const (ConstValue.bool true)) false ∷ [])
      (Terminator.cond_br 0 1 2)

abbrev pub insts_1 : List Inst
insts_1 =
    inst 1 (InstKind.const (ConstValue.int 7)) false
    ∷ inst 2 (InstKind.print 1) true
    ∷ inst 3 (InstKind.dup 1) false
    ∷ []

abbrev pub one_inst : Inst
one_inst = inst 1 (InstKind.const (ConstValue.int 7)) false

abbrev pub first_after : BasicBlock
first_after = record {
  id = 0;
  insts = inst 0 (InstKind.const (ConstValue.bool true)) false ∷ [];
  term = Terminator.br 1;
  preds = [];
  succs = 1 ∷ [];
}
