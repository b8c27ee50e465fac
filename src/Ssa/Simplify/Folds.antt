-- ===== src/Ssa/Simplify/Folds.antt =====
-- The meaning of the blocks that src/ssa/passes/cfg_simplify.rs leaves: the branches on a constant, and no
-- others, become jumps.
use mathlib.Core.Path.{subst}
use mathlib.Core.List.{Memᴰ}
use raytask.Prelude.{
  ℕ, ◌≡◌, refl, sym, ap, ◌∙◌, Bool, true, false, Bool-cases, ◌==◌, ==_iff, Option, none, some, List,
  [], ◌∷◌, inl, inr, arith, if◌then◌else◌,
}
use raytask.Prelude.Options.{◌>>=◌}
use raytask.Fold.{ConstValue}
use raytask.Worklist.Found.{Option-cases}
use raytask.Ssa.{
  InstKind, const, Inst, Terminator, br, cond_br, BasicBlock, Blocks, block, values, find_inst,
  find_def,
}
use raytask.Ssa.Simplify.{constant_bool, chosen, simplify}
use raytask.Ssa.Simplify.Progress.{Progress, left-Progress}

-- The first instruction with the number is the constant.
pub data Decides (bs : Blocks) (cond : ℕ) (b : Bool) : Type 0 where
  decides :
      {i : Inst}
      → Memᴰ i (values bs)
      → i.id ≡ cond
      → find_def cond bs ≡ some i
      → i.kind ≡ const (ConstValue.bool b)
      → Decides bs cond b

-- A branch on `true` becomes the jump to its first target, one on `false` the jump to its second one, and
-- any other terminator stays.
pub data Folds (bs : Blocks) : (before after : Terminator) → Type 0 where
  taken :
      {cond then_bb else_bb : ℕ}
      → Decides bs cond true
      → Folds bs (cond_br cond then_bb else_bb) (br then_bb)
  not_taken :
      {cond then_bb else_bb : ℕ}
      → Decides bs cond false
      → Folds bs (cond_br cond then_bb else_bb) (br else_bb)
  undecided :
      {cond then_bb else_bb : ℕ}
      → ((b : Bool) → Decides bs cond b → ⊥)
      → Folds bs (cond_br cond then_bb else_bb) (cond_br cond then_bb else_bb)
  no_branch :
      {term : Terminator}
      → ((cond then_bb else_bb : ℕ) → term ≡ cond_br cond then_bb else_bb → ⊥)
      → Folds bs term term

find_inst-Memᴰ :
    (id : ℕ) (is : List Inst) (i : Inst) → find_inst id is ≡ some i → Memᴰ i is × (i.id ≡ id)
unfolding find_inst
find_inst-Memᴰ id [] i e = absurd (ground arith)
find_inst-Memᴰ id (j ∷ is) i e = elim (Bool-cases (j.id == id)) [
  | inl here ↦
      let o : some j ≡ some i = ground arith in
      let same : j ≡ i = cc in
      (Memᴰ.head (sym same), ap (λ x. x.id) (sym same) ∙ (==_iff _ _).0 here)
  | inr other ↦ let (m, f) = find_inst-Memᴰ id is i (ground arith) in (Memᴰ.tail m, f)
]

constant_bool-const :
    (kind : InstKind) (b : Bool) → constant_bool kind ≡ some b → kind ≡ const (ConstValue.bool b)
constant_bool-const (const (ConstValue.bool c)) b e =
    let same : c ≡ b = cc in ap (λ x. const (ConstValue.bool x)) same
constant_bool-const _ b e = ground arith

found-Decides :
    (bs : Blocks) (cond : ℕ) (i : Inst) (b : Bool)
    → find_def cond bs ≡ some i
    → constant_bool i.kind ≡ some b
    → Decides bs cond b
unfolding find_def
found-Decides bs cond i b e k =
    let (m, same) = find_inst-Memᴰ cond (values bs) i e in
    Decides.decides m same e (constant_bool-const i.kind b k)

Decides-found :
    (bs : Blocks) (cond : ℕ) (b : Bool)
    → Decides bs cond b
    → (find_def cond bs >>= (λ i. constant_bool i.kind)) ≡ some b
Decides-found bs cond b (Decides.decides m same e k) =
    ap (λ o. o >>= (λ i. constant_bool i.kind)) e ∙ ap constant_bool k

chosen_found :
    (bs : Blocks) (cond then_bb else_bb : ℕ) (i : Inst) (o : Option Bool)
    → find_def cond bs ≡ some i
    → constant_bool i.kind ≡ o
    → chosen bs (cond_br cond then_bb else_bb)
      ≡ (o >>= (λ b. some (if b then then_bb else else_bb)))
unfolding chosen
chosen_found bs cond then_bb else_bb i o e k = rw (e, k) refl

taken-Folds :
    (bs : Blocks) (cond then_bb else_bb target : ℕ) (b : Bool)
    → Decides bs cond b
    → (if b then then_bb else else_bb) ≡ target
    → Folds bs (cond_br cond then_bb else_bb) (br target)
taken-Folds bs cond then_bb else_bb target true d e =
    subst (λ t. Folds bs (cond_br cond then_bb else_bb) (br t)) e (Folds.taken d)
taken-Folds bs cond then_bb else_bb target false d e =
    subst (λ t. Folds bs (cond_br cond then_bb else_bb) (br t)) e (Folds.not_taken d)

chosen-Folds :
    (bs : Blocks) (term : Terminator) (target : ℕ)
    → chosen bs term ≡ some target
    → Folds bs term (br target)
unfolding chosen
chosen-Folds bs (cond_br cond then_bb else_bb) target e = elim (Option-cases (find_def cond bs)) [
  | inl gone ↦ absurd (ground arith)
  | inr (i, at) ↦ elim (Option-cases (constant_bool i.kind)) [
    | inl other ↦
        let none_there = chosen_found bs cond then_bb else_bb i none at other in
        absurd (ground arith)
    | inr (b, k) ↦
        let o : some (if b then then_bb else else_bb) ≡ some target =
          sym (chosen_found bs cond then_bb else_bb i (some b) at k) ∙ e in
        taken-Folds bs cond then_bb else_bb target b (found-Decides bs cond i b at k) cc
  ]
]
chosen-Folds bs _ target e = absurd (ground arith)

not_decided :
    (bs : Blocks) (cond then_bb else_bb : ℕ) (b : Bool)
    → chosen bs (cond_br cond then_bb else_bb) ≡ none
    → Decides bs cond b
    → ⊥
not_decided bs cond then_bb else_bb b e (Decides.decides {i} m same at k) =
    let goes = chosen_found bs cond then_bb else_bb i (some b) at (ap constant_bool k) in
    absurd (ground arith)

chosen-Folds_same : (bs : Blocks) (term : Terminator) → chosen bs term ≡ none → Folds bs term term
chosen-Folds_same bs (cond_br cond then_bb else_bb) e =
    Folds.undecided (λ b d. not_decided bs cond then_bb else_bb b e d)
chosen-Folds_same bs term e = Folds.no_branch (λ c t f same. absurd (ground arith))

Progress-Folds :
    (bs : Blocks) (j : ℕ) (before after : Terminator)
    → Progress bs [] j before after
    → Folds bs before after
Progress-Folds bs j before after (Progress.waits e m) = elim m [ ]
Progress-Folds bs j before after (Progress.stays e c) =
    subst (λ t. Folds bs before t) e (chosen-Folds_same bs before c)
Progress-Folds bs j before after (Progress.goes {target} c e) =
    subst (λ t. Folds bs before t) (sym e) (chosen-Folds bs before target c)

-- The block that had the number: its instructions are the same, and its terminator is the folded one.
abbrev pub FoldedAt : Blocks → ℕ → BasicBlock → Type 0
FoldedAt bs j c =
    (b : BasicBlock) × ((block bs j ≡ some b) × ((b.insts ≡ c.insts) × Folds bs b.term c.term))

-- Each block that cfg_simplify leaves has the instructions that its block had. If that ended in a branch
-- whose condition is the constant `true`, it now jumps to the branch's first target, and if the condition
-- is `false`, to the second one; with any other condition, or no branch, the terminator is the same.
pub simplify-Folds :
    (fuel entry : ℕ) (bs : Blocks) (r : Bool × Blocks)
    → simplify fuel entry bs ≡ some r
    → (j : ℕ) (c : BasicBlock) → block (r.1) j ≡ some c
    → FoldedAt bs j c
simplify-Folds fuel entry bs r ends j c at =
    let (b, (was, (insts, folds))) = left-Progress fuel entry bs r ends j c at in
    (b, (was, (insts, Progress-Folds bs j b.term c.term folds)))
