-- ===== src/Ssa/Cfg/Edges.antt =====
-- `rebuild_edges` of src/ssa/cfg.rs: the successors of a block are then those of its terminator.
use mathlib.Core.Path.{subst}
use mathlib.Core.List.{Memᴰ}
use mathlib.Core.List.Memᴰ
use raytask.Prelude.{
  ℕ, ◌≡◌, ◌≢◌, refl, sym, ap, ◌∙◌, false, ◌==◌, Bool-cases, Option, none, some, List, [], ◌∷◌, ◌⊎◌,
  inl, inr, arith,
}
use raytask.Prelude.Options.{◌>>=◌}
use raytask.Worklist.{contains}
use raytask.Worklist.Found.{Option-cases}
use raytask.Ssa.{Inst, Terminator, BasicBlock, Blocks, block}
use raytask.Ssa.Cfg.{
  term_succs, change_block, clear_edges, keys, add_pred, link_preds, set_succs, link_found,
  link_all, rebuild_edges,
}

abbrev pub Shape : Type 0
Shape = List Inst × (Terminator × List ℕ)

-- What a block holds besides its predecessors.
abbrev pub shape : BasicBlock → Shape
shape b = (b.insts, (b.term, b.succs))

abbrev pub shape_at : Blocks → ℕ → Option Shape
shape_at bs j = block bs j >>= (λ b. some (shape b))

pub block-change_block :
    (change : BasicBlock → BasicBlock) (id : ℕ) (bs : Blocks)
    → block (change_block change id bs) id ≡ (block bs id >>= (λ b. some (change b)))
unfolding change_block block
block-change_block change id [] = refl
block-change_block change id ((k, b) ∷ bs) = elim (Bool-cases (k == id)) [
  | inl e ↦ rw (e, block, e) refl
  | inr e ↦ rw (e, block, e) (block-change_block change id bs)
]

pub block-change_block_other :
    (change : BasicBlock → BasicBlock) (id j : ℕ) (bs : Blocks)
    → id ≢ j
    → block (change_block change id bs) j ≡ block bs j
unfolding change_block block
block-change_block_other change id j [] h = refl
block-change_block_other change id j ((k, b) ∷ bs) h = elim (Bool-cases (k == id)) [
  | inl e ↦ let other : (k == j) ≡ false = ground arith in rw (e, block, other) refl
  | inr e ↦ rw (e, block, block-change_block_other change id j bs h) refl
]

shape-add_pred : (id : ℕ) (b : BasicBlock) → shape (add_pred id b) ≡ shape b
unfolding add_pred
shape-add_pred id b = elim (Bool-cases (contains b.preds id)) [
  | inl e ↦ rw e refl
  | inr e ↦ rw e refl
]

after_same :
    (change : BasicBlock → BasicBlock) (o : Option BasicBlock)
    → ((b : BasicBlock) → shape (change b) ≡ shape b)
    → (o >>= (λ b. some (change b)) >>= (λ b. some (shape b))) ≡ (o >>= (λ b. some (shape b)))
after_same change none same = refl
after_same change (some b) same = ap some (same b)

shape_at-change_same :
    (change : BasicBlock → BasicBlock) (s j : ℕ) (bs : Blocks)
    → ((b : BasicBlock) → shape (change b) ≡ shape b)
    → shape_at (change_block change s bs) j ≡ shape_at bs j
unfolding block
shape_at-change_same change s j bs same = elim (Bool-cases (s == j)) [
  | inl e ↦
      let at : s ≡ j = ground arith in
      subst (λ i. shape_at (change_block change s bs) i ≡ shape_at bs i) at
        (ap (λ b. b >>= (λ c. some (shape c))) (block-change_block change s bs)
          ∙ after_same change (block bs s) same)
  | inr e ↦
      ap (λ b. b >>= (λ c. some (shape c)))
        (block-change_block_other change s j bs (λ at. absurd (ground arith)))
]

link_preds-shape :
    (id j : ℕ) (ss : List ℕ) (bs : Blocks) → shape_at (link_preds id ss bs) j ≡ shape_at bs j
unfolding link_preds
link_preds-shape id j [] bs = refl
link_preds-shape id j (s ∷ ss) bs =
    link_preds-shape id j ss (change_block (add_pred id) s bs)
    ∙ shape_at-change_same (add_pred id) s j bs (shape-add_pred id)

-- The successors are right, or the block is still to come.
abbrev Pending : List ℕ → ℕ → Shape → Type 0
Pending ids j (is, (term, succs)) = Memᴰ j ids ⊎ (succs ≡ term_succs term)

-- What the block is to be in the end.
abbrev linked : Shape → Shape
linked (is, (term, succs)) = (is, (term, term_succs term))

link_found-here :
    (id : ℕ) (bs : Blocks) (o : Option BasicBlock)
    → block bs id ≡ o
    → shape_at (link_found id bs o) id ≡ (shape_at bs id >>= (λ s. some (linked s)))
link_found-here id bs none e = rw e refl
link_found-here id bs (some b) e =
    link_preds-shape id id (term_succs b.term) (change_block (set_succs (term_succs b.term)) id bs)
    ∙ ap (λ o. o >>= (λ c. some (shape c)))
        (block-change_block (set_succs (term_succs b.term)) id bs)
    ∙ rw e refl

link_found-other :
    (id j : ℕ) (bs : Blocks) (o : Option BasicBlock)
    → id ≢ j
    → shape_at (link_found id bs o) j ≡ shape_at bs j
link_found-other id j bs none other = refl
link_found-other id j bs (some b) other =
    link_preds-shape id j (term_succs b.term) (change_block (set_succs (term_succs b.term)) id bs)
    ∙ ap (λ o. o >>= (λ c. some (shape c)))
        (block-change_block_other (set_succs (term_succs b.term)) id j bs other)

link_all-shape :
    (ids : List ℕ) (j : ℕ) (bs : Blocks) (s : Shape)
    → Pending ids j s
    → shape_at bs j ≡ some s
    → shape_at (link_all ids bs) j ≡ some (linked s)
unfolding link_all
link_all-shape [] j bs s (inl x') at = elim x' [ ]
link_all-shape [] j bs s (inr same) at = at ∙ ap (λ l. some (s.0, (s.1.0, l))) same
link_all-shape (id ∷ ids) j bs s pending at = elim (Bool-cases (id == j)) [
  | inl e ↦
      let here : j ≡ id = ground arith in
      link_all-shape ids j (link_found id bs (block bs id)) (linked s) (inr refl) (
        subst (λ i. shape_at (link_found id bs (block bs id)) i ≡ some (linked s)) (sym here)
          (link_found-here id bs (block bs id) refl
            ∙ ap (λ o. o >>= (λ x. some (linked x))) (subst (λ i. shape_at bs i ≡ some s) here at)))
  | inr e ↦
      link_all-shape ids j (link_found id bs (block bs id)) s
        (elim pending [
          | inl m ↦ elim (Memᴰ.cases_cons m) [
            | inl same ↦ absurd (ground arith)
            | inr later ↦ inl later
          ]
          | inr same ↦ inr same
        ])
        (link_found-other id j bs (block bs id) (λ at'. absurd (ground arith)) ∙ at)
]

link_all-none :
    (ids : List ℕ) (j : ℕ) (bs : Blocks)
    → shape_at bs j ≡ none
    → shape_at (link_all ids bs) j ≡ none
unfolding link_all
link_all-none [] j bs gone = gone
link_all-none (id ∷ ids) j bs gone =
    link_all-none ids j (link_found id bs (block bs id)) (elim (Bool-cases (id == j)) [
      | inl e ↦
          let here : j ≡ id = ground arith in
          subst (λ i. shape_at (link_found id bs (block bs id)) i ≡ none) (sym here)
            (link_found-here id bs (block bs id) refl
              ∙ ap (λ o. o >>= (λ x. some (linked x)))
                  (subst (λ i. shape_at bs i ≡ none) here gone))
      | inr e ↦ link_found-other id j bs (block bs id) (λ at. absurd (ground arith)) ∙ gone
    ])

clear_edges-shape :
    (j : ℕ) (bs : Blocks)
    → shape_at (clear_edges bs) j
      ≡ (shape_at bs j >>= (λ (is, (term, succs)). some (is, (term, []))))
unfolding clear_edges block
clear_edges-shape j [] = refl
clear_edges-shape j ((k, b) ∷ bs) = elim (Bool-cases (k == j)) [
  | inl e ↦ rw e refl
  | inr e ↦ rw e (clear_edges-shape j bs)
]

pub keys-block : (j : ℕ) (bs : Blocks) (b : BasicBlock) → block bs j ≡ some b → Memᴰ j (keys bs)
unfolding block
keys-block j [] b at = ground arith
keys-block j ((k, c) ∷ bs) b at = elim (Bool-cases (k == j)) [
  | inl e ↦ Memᴰ.head (ground arith)
  | inr e ↦ Memᴰ.tail (keys-block j bs b (ground arith))
]

-- Every block keeps its instructions and its terminator, and its successors become those of the terminator.
pub rebuild_edges-shape :
    (j : ℕ) (bs : Blocks)
    → shape_at (rebuild_edges bs) j ≡ (shape_at bs j >>= (λ s. some (linked s)))
unfolding rebuild_edges
rebuild_edges-shape j bs = elim (Option-cases (block bs j)) [
  | inl gone ↦
      link_all-none (keys bs) j (clear_edges bs) (clear_edges-shape j bs ∙ rw gone refl)
      ∙ rw gone refl
  | inr (b, at) ↦
      link_all-shape (keys bs) j (clear_edges bs) (b.insts, (b.term, []))
        (inl (keys-block j bs b at)) (clear_edges-shape j bs ∙ rw at refl)
      ∙ rw at refl
]
