-- ===== src/Ssa/PhiElim/Returns.antt =====
-- When src/ssa/phi_elim.rs comes to a result: where the blocks are that it writes to.
use raytask.Prelude.{
  ℕ, suc, ◌-◌, ◌^◌, ◌≡◌, refl, ap, ◌∙◌, true, false, ◌==◌, Bool-cases, some, List, [], ◌∷◌, ◌++◌,
  inl, inr, arith, if◌then◌else◌, All,
}
use raytask.Prelude.Options.{◌>>=◌}
use raytask.Ssa.{
  alloca, store, SsaTy, Inst, BasicBlock, Blocks, block, SsaFunction, with_block, alloc_value,
}
use raytask.Ssa.PhiElim.{
  PhiInst, phi_slot, inst_of, with_insts, store_incomings, load_slot, lower_phi, lower_phis,
}
use raytask.Ssa.PhiElim.Insts.{with_insts_lem}

-- The block is there.
abbrev pub There : SsaFunction → ℕ → Type 0
There f j = (b : BasicBlock) × (block f.blocks j ≡ some b)

-- A function that has the same blocks, or more, and begins with the same one.
abbrev Keeps : (f g : SsaFunction) → Type 0
Keeps f g = ((j : ℕ) → There f j → There g j) × (g.entry ≡ f.entry)

with_block-returns :
    (change : BasicBlock → BasicBlock) (id : ℕ) (bs : Blocks) (b : BasicBlock)
    → block bs id ≡ some b
    → (cs : Blocks) × (with_block change id bs ≡ some cs)
unfolding with_block block
with_block-returns change id [] b at = absurd (ground arith)
with_block-returns change id ((k, c) ∷ bs) b at = elim (Bool-cases (k == id)) [
  | inl here ↦ ((k, change c) ∷ bs, rw here refl)
  | inr other ↦
      let (cs, e) = with_block-returns change id bs b (ground arith) in
      ((k, c) ∷ cs, rw (other, e) refl)
]

with_insts-returns :
    (change : List Inst → List Inst) (bb : ℕ) (f : SsaFunction)
    → There f bb
    → (g : SsaFunction) × ((with_insts change bb f ≡ some g) × Keeps f g)
with_insts-returns change bb f (b, at) =
    let (bs, e) = with_block-returns (λ b. record b { insts = change b.insts }) bb f.blocks b at in
    let g : SsaFunction = record f { blocks = bs } in
    let done : with_insts change bb f ≡ some g =
      ap (λ o. o >>= (λ cs. some (record f { blocks = cs }))) e in
    let (same, now) = with_insts_lem change bb f g done in
    (
      g,
      (
        done,
        (
          (λ j (c, was). (
            (if bb == j then record c { insts = change c.insts } else c),
            now j
                ∙ ap
                    (λ o.
                      o
                      >>= (λ b. some (if bb == j then record b { insts = change b.insts } else b)))
                    was,
          )),
          refl,
        ),
      ),
    )

All-kept {ℓ} :
    {A : Type ℓ} (of : A → ℕ) (f g : SsaFunction) (xs : List A)
    → ((j : ℕ) → There f j → There g j)
    → All (λ x. There f (of x)) xs
    → All (λ x. There g (of x)) xs
All-kept of f g [] k h = tt
All-kept of f g (x ∷ xs) k (h, hs) = (k (of x) h, All-kept of f g xs k hs)

store_incomings-returns :
    (ptr : ℕ) (is : List (ℕ × ℕ)) (f : SsaFunction)
    → All (λ i. There f (i.0)) is
    → (g : SsaFunction) × ((store_incomings ptr is f ≡ some g) × Keeps f g)
unfolding store_incomings alloc_value
store_incomings-returns ptr [] f h = (f, (refl, ((λ j t. t), refl)))
store_incomings-returns ptr ((pred, val) ∷ is) f (here, h) =
    let next = (alloc_value f).1 in
    let change = λ (insts : List Inst).
      insts ++ inst_of ((alloc_value f).0) (store ptr val) SsaTy.void true ∷ [] in
    elim (Bool-cases (val == 2 ^ 32 - 1)) [
      | inl undefined ↦
          let (g, (e, k)) = store_incomings-returns ptr is f h in
          (g, (rw (store_incomings, undefined) e, k))
      | inr defined ↦
          let (m, (e1, k1)) = with_insts-returns change pred next here in
          let (g, (e2, k2)) =
            store_incomings-returns ptr is m (All-kept (λ i. i.0) f m is k1.0 h) in
          (g, (rw (store_incomings, defined, e1) e2, ((λ j t. k2.0 j (k1.0 j t)), k2.1 ∙ k1.1)))
    ]

-- The blocks that the lowering of a phi writes to.
abbrev pub Targets : SsaFunction → PhiInst → Type 0
Targets f p = There f p.bb × All (λ i. There f (i.0)) p.incomings

lower_phi-returns :
    (p : PhiInst) (f : SsaFunction)
    → There f f.entry
    → Targets f p
    → (g : SsaFunction) × ((lower_phi p f ≡ some g) × Keeps f g)
unfolding lower_phi alloc_value
lower_phi-returns p f start (bb, preds) =
    let slot = phi_slot f in
    let ptr = f.next_value in
    let fresh : SsaFunction = record f { local_count = suc slot; next_value = suc f.next_value } in
    let change =
      λ (insts : List Inst). inst_of ptr (alloca SsaTy.dyn slot) SsaTy.ref false ∷ insts in
    let (placed, (e1, k1)) = with_insts-returns change f.entry fresh start in
    let (stored, (e2, k2)) =
      store_incomings-returns ptr p.incomings placed
        (All-kept (λ i. i.0) f placed p.incomings k1.0 preds) in
    let (g, (e3, k3)) =
      with_insts-returns (load_slot ptr p.id) p.bb stored (k2.0 p.bb (k1.0 p.bb bb)) in
    (g, (rw (e1, e2) e3, ((λ j t. k3.0 j (k2.0 j (k1.0 j t))), k3.1 ∙ k2.1 ∙ k1.1)))

Targets-kept :
    (f g : SsaFunction) (ps : List PhiInst)
    → ((j : ℕ) → There f j → There g j)
    → All (Targets f) ps
    → All (Targets g) ps
Targets-kept f g [] k h = tt
Targets-kept f g (p ∷ ps) k ((bb, preds), h) =
    ((k p.bb bb, All-kept (λ i. i.0) f g p.incomings k preds), Targets-kept f g ps k h)

pub lower_phis-returns :
    (ps : List PhiInst) (f : SsaFunction)
    → There f f.entry
    → All (Targets f) ps
    → (g : SsaFunction) × (lower_phis ps f ≡ some g)
unfolding lower_phis
lower_phis-returns [] f start h = (f, refl)
lower_phis-returns (p ∷ ps) f start (t, h) =
    let (m, (e1, k1)) = lower_phi-returns p f start t in
    let start' : There m m.entry = rw (k1.1) (k1.0 f.entry start) in
    let (g, e2) = lower_phis-returns ps m start' (Targets-kept f m ps k1.0 h) in (g, rw e1 e2)
