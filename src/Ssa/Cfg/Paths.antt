-- ===== src/Ssa/Cfg/Paths.antt =====
-- `reachable` of src/ssa/cfg.rs: the blocks that a run from the entry can come to.
use mathlib.Core.Path.{subst}
use mathlib.Core.List.{Memᴰ}
use mathlib.Core.List.Memᴰ
use raytask.Prelude.{
  ℕ, ◌≡◌, refl, sym, ap, ◌∙◌, Option, none, some, List, [], ◌∷◌, inl, inr, ◌↔◌, ◌<◌, arith,
}
use raytask.Prelude.Options.{◌>>=◌}
use raytask.Worklist.{done}
use raytask.Worklist.Found.{Reached, root, child, walk-Sound, walk-Opened, Option-cases}
use raytask.Worklist.Closed.{walk-Complete}
use raytask.Worklist.Ends.{walk-Ends}
use raytask.Ssa.{BasicBlock, Blocks, block}
use raytask.Ssa.Cfg.{term_succs, rebuild_edges, succs_of, reachable}
use raytask.Ssa.Cfg.Edges.{shape, shape_at, rebuild_edges-shape}

-- A way through the terminators from the entry to a block.
pub data Flows (bs : Blocks) (entry : ℕ) : ℕ → Type 0 where
  start : Flows bs entry entry
  jump :
      {a b : ℕ} {blk : BasicBlock}
      → Flows bs entry a
      → block bs a ≡ some blk
      → Memᴰ b (term_succs blk.term)
      → Flows bs entry b

succs_of-shape :
    (o : Option BasicBlock)
    → (o >>= (λ c. some c.succs))
      ≡ (o >>= (λ c. some (shape c)) >>= (λ (is, (term, succs)). some succs))
succs_of-shape none = refl
succs_of-shape (some c) = refl

succs_of-rebuild_edges :
    (bs : Blocks) (a : ℕ)
    → succs_of (rebuild_edges bs) a ≡ (block bs a >>= (λ b. some (term_succs b.term)))
succs_of-rebuild_edges bs a = elim (Option-cases (block bs a)) [
  | inl gone ↦
      let e : shape_at (rebuild_edges bs) a ≡ none = rebuild_edges-shape a bs ∙ rw gone refl in
      succs_of-shape (block (rebuild_edges bs) a)
      ∙ ap (λ o. o >>= (λ (is, (term, succs)). some succs)) e
      ∙ rw gone refl
  | inr (b, at) ↦
      let e : shape_at (rebuild_edges bs) a ≡ some (b.insts, (b.term, term_succs b.term)) =
        rebuild_edges-shape a bs ∙ rw at refl in
      succs_of-shape (block (rebuild_edges bs) a)
      ∙ ap (λ o. o >>= (λ (is, (term, succs)). some succs)) e
      ∙ rw at refl
]

Reached→Flows :
    (bs : Blocks) (entry b : ℕ)
    → Reached some (succs_of (rebuild_edges bs)) (entry ∷ []) b
    → Flows bs entry b
Reached→Flows bs entry b (root m) =
    subst (Flows bs entry) (sym (Memᴰ.eq_of_singleton m)) Flows.start
Reached→Flows bs entry b (child {u} {cs = cs} r found m) = elim (Option-cases (block bs u)) [
  | inl gone ↦ absurd (let e = succs_of-rebuild_edges bs u in ground arith)
  | inr (blk, at) ↦
      let same : cs ≡ term_succs blk.term =
        let e : succs_of (rebuild_edges bs) u ≡ some (term_succs blk.term) =
          succs_of-rebuild_edges bs u ∙ rw at refl in
        cc in
      Flows.jump (Reached→Flows bs entry u r) at (subst (Memᴰ b) same m)
]

Flows→Reached :
    (bs : Blocks) (entry b : ℕ)
    → Flows bs entry b
    → Reached some (succs_of (rebuild_edges bs)) (entry ∷ []) b
Flows→Reached bs entry b Flows.start = root (Memᴰ.head refl)
Flows→Reached bs entry b (Flows.jump {a} {blk = blk} f at m) =
    child (Flows→Reached bs entry a f) (succs_of-rebuild_edges bs a ∙ rw at refl) m

some-same :
    (bs : Blocks) (u v k : ℕ) → some u ≡ some k → some v ≡ some k → succs_of bs u ≡ succs_of bs v
some-same bs u v k eu ev = let same : u ≡ v = cc in ap (succs_of bs) same

-- After the edges are rebuilt, `reachable` gives exactly the blocks that the jumps of the terminators lead
-- to from the entry.
pub reachable-Flows :
    (fuel entry : ℕ) (bs : Blocks) (live : List ℕ)
    → reachable fuel entry (rebuild_edges bs) ≡ done live
    → (b : ℕ) → Memᴰ b live ↔ Flows bs entry b
unfolding reachable
reachable-Flows fuel entry bs live ends b =
    let next = succs_of (rebuild_edges bs) in
    (
      (λ m. elim (walk-Sound some next fuel [] (entry ∷ []) live ends b m) [
        | inl x' ↦ elim x' [ ]
        | inr (v, (r, e)) ↦
            let same : v ≡ b = cc in subst (Flows bs entry) same (Reached→Flows bs entry v r)
      ]),
      (λ f.
          walk-Complete some next (some-same (rebuild_edges bs)) fuel (entry ∷ []) live ends b
            (b, (Flows→Reached bs entry b f, refl))),
    )

-- Every block that is found reachable is there.
pub reachable-block :
    (fuel entry : ℕ) (bs : Blocks) (live : List ℕ)
    → reachable fuel entry (rebuild_edges bs) ≡ done live
    → (b : ℕ) → Memᴰ b live
    → (blk : BasicBlock) × (block bs b ≡ some blk)
unfolding reachable
reachable-block fuel entry bs live ends b m =
    elim (walk-Opened some (succs_of (rebuild_edges bs)) fuel [] (entry ∷ []) live ends b m) [
      | inl x' ↦ elim x' [ ]
      | inr (v, (is_b, (cs, found))) ↦ elim (Option-cases (block bs b)) [
        | inl gone ↦
            let same : v ≡ b = cc in
            let e : succs_of (rebuild_edges bs) v ≡ none =
              ap (succs_of (rebuild_edges bs)) same ∙ succs_of-rebuild_edges bs b ∙ rw gone refl in
            absurd (ground arith)
        | inr here ↦ here
      ]
    ]

-- The jumps of every block lead to blocks.
abbrev pub NoDangling : Blocks → Type 0
NoDangling bs =
    (a b : ℕ) (blk : BasicBlock)
    → block bs a ≡ some blk
    → Memᴰ b (term_succs blk.term)
    → (c : BasicBlock) × (block bs b ≡ some c)

-- `reachable` ends if the entry and the targets of all jumps are blocks and the numbers of the blocks are
-- below the next one.
pub reachable-returns :
    (entry next_block : ℕ) (bs : Blocks)
    → (blk : BasicBlock) × (block bs entry ≡ some blk)
    → NoDangling bs
    → ((b : ℕ) (blk : BasicBlock) → block bs b ≡ some blk → b < next_block)
    → (fuel : ℕ) × ((live : List ℕ) × (reachable fuel entry (rebuild_edges bs) ≡ done live))
unfolding reachable
reachable-returns entry next_block bs here closed below =
    walk-Ends some (succs_of (rebuild_edges bs)) (λ b. (blk : BasicBlock) × (block bs b ≡ some blk))
      (λ b. 0) next_block
      (λ a (blk, at). (
        term_succs blk.term,
        (succs_of-rebuild_edges bs a ∙ rw at refl, (λ b m. closed a b blk at m)),
      ))
      (λ a k (blk, at) e.
        let same : a ≡ k = cc in subst (λ i. i < next_block) same (below a blk at))
      (λ a c cs ok no_key. absurd (ground arith)) [] (entry ∷ [])
      (λ b m.
        subst (λ i. (blk : BasicBlock) × (block bs i ≡ some blk)) (sym (Memᴰ.eq_of_singleton m))
          here)
