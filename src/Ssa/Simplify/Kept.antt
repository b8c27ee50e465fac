-- ===== src/Ssa/Simplify/Kept.antt =====
-- The blocks that src/ssa/passes/cfg_simplify.rs leaves.
use mathlib.Core.Path.{subst}
use mathlib.Core.List.{Memᴰ}
use raytask.Prelude.{
  ℕ, ◌≡◌, refl, sym, ap, ◌∙◌, Bool, true, false, Bool-cases, ◌==◌, none, some, List, [], ◌∷◌, inl,
  inr, ◌↔◌, arith,
}
use raytask.Prelude.Options.{◌>>=◌}
use raytask.Worklist.{contains, Walked, done, panics, out_of_fuel, contains→Memᴰ, Memᴰ→contains}
use raytask.Worklist.Found.{Option-cases}
use raytask.Ssa.{BasicBlock, Blocks, block}
use raytask.Ssa.Cfg.{term_succs, rebuild_edges, reachable}
use raytask.Ssa.Cfg.Edges.{shape, shape_at, rebuild_edges-shape}
use raytask.Ssa.Cfg.Paths.{Flows, NoDangling, reachable-Flows, reachable-block}
use raytask.Ssa.Simplify.{retain_live, folded, removed, simplify}

==_to : (a b : ℕ) → (a == b) ≡ true → a ≡ b
==_to a b e = ground arith

some-injective {ℓ} : {A : Type ℓ} {a b : A} → some a ≡ some b → a ≡ b
some-injective e = cc

-- A block of the same instructions and terminator.
abbrev pub SameAt : Blocks → ℕ → BasicBlock → Type 0
SameAt bs j b =
    (c : BasicBlock) × ((block bs j ≡ some c) × ((c.insts ≡ b.insts) × (c.term ≡ b.term)))

pub rebuild_edges-before :
    (bs : Blocks) (j : ℕ) (b : BasicBlock) → block (rebuild_edges bs) j ≡ some b → SameAt bs j b
rebuild_edges-before bs j b at = elim (Option-cases (block bs j)) [
  | inl gone ↦
      let e : some (shape b) ≡ none =
        ap (λ o. o >>= (λ x. some (shape x))) (sym at) ∙ rebuild_edges-shape j bs ∙ rw gone refl in
      absurd (ground arith)
  | inr (c, was) ↦
      let e : shape b ≡ (c.insts, (c.term, term_succs c.term)) =
        let o : some (shape b) ≡ some (c.insts, (c.term, term_succs c.term)) =
          ap (λ o. o >>= (λ x. some (shape x))) (sym at) ∙ rebuild_edges-shape j bs ∙ rw was refl in
        cc in
      (c, (was, (sym (ap (λ s. s.0) e), sym (ap (λ s. s.1.0) e))))
]

pub rebuild_edges-after :
    (bs : Blocks) (j : ℕ) (c : BasicBlock)
    → block bs j ≡ some c
    → (b : BasicBlock) × (block (rebuild_edges bs) j ≡ some b)
rebuild_edges-after bs j c was = elim (Option-cases (block (rebuild_edges bs) j)) [
  | inl gone ↦
      let e : shape_at (rebuild_edges bs) j ≡ some (c.insts, (c.term, term_succs c.term)) =
        rebuild_edges-shape j bs ∙ rw was refl in
      absurd (ground arith)
  | inr here ↦ here
]

block-retain_live :
    (live : List ℕ) (bs : Blocks) (j : ℕ)
    → contains live j ≡ true
    → block (retain_live live bs) j ≡ block bs j
unfolding block retain_live
block-retain_live live [] j m = refl
block-retain_live live ((k, b) ∷ bs) j m = elim (Bool-cases (contains live k)) [
  | inl e ↦ rw (e, block, block-retain_live live bs j m) refl
  | inr e ↦
      let other : (k == j) ≡ false = elim (Bool-cases (k == j)) [
        | inl same ↦ ground (arith, ap (contains live) (==_to k j same))
        | inr o ↦ o
      ] in
      rw (e, other) (block-retain_live live bs j m)
]

block-retain_live_dead :
    (live : List ℕ) (bs : Blocks) (j : ℕ)
    → contains live j ≡ false
    → block (retain_live live bs) j ≡ none
unfolding block retain_live
block-retain_live_dead live [] j m = refl
block-retain_live_dead live ((k, b) ∷ bs) j m = elim (Bool-cases (contains live k)) [
  | inl e ↦
      let other : (k == j) ≡ false = elim (Bool-cases (k == j)) [
        | inl same ↦ ground (arith, ap (contains live) (==_to k j same))
        | inr o ↦ o
      ] in
      rw (e, block, other) (block-retain_live_dead live bs j m)
  | inr e ↦ rw e (block-retain_live_dead live bs j m)
]

-- The pass ended: what was found live, and the blocks that are left.
abbrev pub Removed : (fuel entry : ℕ) → Blocks → Blocks → Type 0
Removed fuel entry bs after =
    (live : List ℕ) × ((reachable fuel entry (rebuild_edges ((folded bs).1)) ≡ done live)
      × (after ≡ rebuild_edges (retain_live live (rebuild_edges ((folded bs).1)))))

removed-done :
    (changed : Bool) (bs : Blocks) (w : Walked) (r : Bool × Blocks)
    → removed changed bs w ≡ some r
    → (live : List ℕ) × ((w ≡ done live) × (r.1 ≡ rebuild_edges (retain_live live bs)))
removed-done changed bs (done live) r e = (live, (refl, ap (λ o. o.1) (sym (some-injective e))))
removed-done changed bs panics r e = ground arith
removed-done changed bs out_of_fuel r e = ground arith

pub simplify-Removed :
    (fuel entry : ℕ) (bs : Blocks) (r : Bool × Blocks)
    → simplify fuel entry bs ≡ some r
    → Removed fuel entry bs (r.1)
unfolding simplify
simplify-Removed fuel entry bs r e =
    let linked = rebuild_edges ((folded bs).1) in
    removed-done ((folded bs).0) linked (reachable fuel entry linked) r e

module _ (fuel entry : ℕ) (bs : Blocks) (r : Bool × Blocks)
    (ends : simplify fuel entry bs ≡ some r) where
  -- A block that is left is reachable, and was there.
  pub left :
      (j : ℕ) (b : BasicBlock)
      → block (r.1) j ≡ some b
      → Flows ((folded bs).1) entry j × SameAt ((folded bs).1) j b
  left j b at =
      let (live, (found, same)) = simplify-Removed fuel entry bs r ends in
      let linked = rebuild_edges ((folded bs).1) in
      let (c, (was, alike)) =
        rebuild_edges-before (retain_live live linked) j b
          (subst (λ x. block x j ≡ some b) same at) in
      elim (Bool-cases (contains live j)) [
        | inl m ↦
            let (d, (old, alike')) =
              rebuild_edges-before ((folded bs).1) j c
                (sym (block-retain_live live linked j m) ∙ was) in
            (
              (reachable-Flows fuel entry ((folded bs).1) live found j).0 (contains→Memᴰ live j m),
              (d, (old, (alike'.0 ∙ alike.0, alike'.1 ∙ alike.1))),
            )
        | inr m ↦ let e = block-retain_live_dead live linked j m in absurd (ground arith)
      ]

  -- A block that is reachable is left.
  stays : (j : ℕ) → Flows ((folded bs).1) entry j → (b : BasicBlock) × (block (r.1) j ≡ some b)
  stays j flows =
      let (live, (found, same)) = simplify-Removed fuel entry bs r ends in
      let linked = rebuild_edges ((folded bs).1) in
      let m = (reachable-Flows fuel entry ((folded bs).1) live found j).1 flows in
      let (c, was) = reachable-block fuel entry ((folded bs).1) live found j m in
      let (d, now) = rebuild_edges-after ((folded bs).1) j c was in
      let (b, at) =
        rebuild_edges-after (retain_live live linked) j d
          (block-retain_live live linked j (Memᴰ→contains live j m) ∙ now) in
      (b, subst (λ x. block x j ≡ some b) (sym same) at)

  -- cfg_simplify leaves exactly the blocks that jumps lead to from the entry once the branches on
  -- constants are folded.
  pub simplify-Flows :
      (j : ℕ) → ((b : BasicBlock) × (block (r.1) j ≡ some b)) ↔ Flows ((folded bs).1) entry j
  simplify-Flows j = ((λ (b, at). (left j b at).0), stays j)

  -- Every jump of a block that cfg_simplify leaves leads to a block that it leaves.
  pub simplify-NoDangling : NoDangling (r.1)
  simplify-NoDangling a b blk at m =
      let (flows, (c, (was, (insts, term)))) = left a blk at in
      stays b (Flows.jump flows was (subst (λ t. Memᴰ b (term_succs t)) (sym term) m))
