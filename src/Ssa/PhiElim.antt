-- ===== src/Ssa/PhiElim.antt =====
-- src/ssa/phi_elim.rs: each phi becomes a stack slot that the predecessors store to and the block loads from.
pub mod Insts
pub mod Returns
pub mod Slots
use Prim.Native.Nat.{min}
use raytask.Prelude.{
  ℕ, suc, ◌≡◌, sym, ap, ◌∙◌, Bool, true, false, ◌==◌, Bool-cases, Option, none, some, List, [], ◌∷◌,
  ◌++◌, ◌-◌, ◌^◌, inl, inr, map, arith, if◌then◌else◌,
}
use raytask.Prelude.Options.{◌>>=◌}
use raytask.Fold.{ConstValue}
use raytask.Worklist.Found.{Option-cases}
use raytask.Ssa.{
  InstKind, const, alloca, load, store, phi, SsaTy, Inst, Blocks, SsaFunction, with_block,
  alloc_value,
}

pub record PhiInst : Type 0 where
  pub bb : ℕ
  pub id : ℕ
  pub incomings : List (ℕ × ℕ)

abbrev pub incomings_of : InstKind → Option (List (ℕ × ℕ))
incomings_of (phi incomings) = some incomings
incomings_of kind = none

abbrev pub noted : (bb : ℕ) → Inst → Option (List (ℕ × ℕ)) → List PhiInst → List PhiInst
noted bb i none phis = phis
noted bb i (some incomings) phis = record { bb = bb; id = i.id; incomings = incomings } ∷ phis

abbrev pub block_phis : (bb : ℕ) → List Inst → List PhiInst → List PhiInst
block_phis bb [] phis = phis
block_phis bb (i ∷ is) phis = noted bb i (incomings_of i.kind) (block_phis bb is phis)

unfoldable pub phis_of : Blocks → List PhiInst
phis_of [] = []
phis_of ((k, b) ∷ bs) = block_phis k b.insts (phis_of bs)

-- `func.local_count.min(254)`
unfoldable pub phi_slot : SsaFunction → ℕ
phi_slot f = min f.local_count 254

abbrev pub inst_of : (id : ℕ) → InstKind → SsaTy → (effectful : Bool) → Inst
inst_of id kind ty effectful = record {
  id = id;
  kind = kind;
  ty = ty;
  line = 0;
  effectful = effectful;
}

abbrev pub with_insts : (List Inst → List Inst) → (bb : ℕ) → SsaFunction → Option SsaFunction
with_insts change bb f =
    with_block (λ b. record b { insts = change b.insts }) bb f.blocks
    >>= (λ bs. some (record f { blocks = bs }))

-- The loop over the predecessors; a value that is not defined is not stored.
unfoldable pub store_incomings : (ptr : ℕ) → List (ℕ × ℕ) → SsaFunction → Option SsaFunction
store_incomings ptr [] f = some f
store_incomings ptr ((pred, val) ∷ is) f =
    let fresh = alloc_value f in
    elim (val == 2 ^ 32 - 1) [
      | true ↦ store_incomings ptr is f
      | false ↦
          elim (with_insts
            (λ insts. insts ++ inst_of (fresh.0) (store ptr val) SsaTy.void true ∷ []) pred
            (fresh.1)) [ none ↦ none | some g ↦ store_incomings ptr is g ]
    ]

-- The first instruction with the number loads the slot.
unfoldable pub load_slot : (ptr id : ℕ) → List Inst → List Inst
load_slot ptr id [] = []
load_slot ptr id (i ∷ is) =
    if i.id == id
    then record i { kind = load ptr; effectful = false } ∷ is
    else i ∷ load_slot ptr id is

-- The body of the loop over the phis.
unfoldable pub lower_phi : PhiInst → SsaFunction → Option SsaFunction
lower_phi p f = do
  let slot = phi_slot f
  let fresh = alloc_value (record f { local_count = suc slot })
  let ptr = fresh.0
  placed ←
      with_insts (λ insts. inst_of ptr (alloca SsaTy.dyn slot) SsaTy.ref false ∷ insts) f.entry
        (fresh.1)
  stored ← store_incomings ptr p.incomings placed
  with_insts (load_slot ptr p.id) p.bb stored

unfoldable pub lower_phis : List PhiInst → SsaFunction → Option SsaFunction
lower_phis [] f = some f
lower_phis (p ∷ ps) f = lower_phi p f >>= lower_phis ps

-- The last loop: whatever is still a phi becomes `null`.
abbrev pub null_phi : Inst → Option (List (ℕ × ℕ)) → Inst
null_phi i none = i
null_phi i (some incomings) = record i { kind = const ConstValue.null }

unfoldable pub null_phis : Blocks → Blocks
null_phis [] = []
null_phis ((k, b) ∷ bs) =
    (k, record b { insts = map (λ i. null_phi i (incomings_of i.kind)) b.insts }) ∷ null_phis bs

abbrev pub lowered : SsaFunction → List PhiInst → Option SsaFunction
lowered f [] = some f
lowered f (p ∷ ps) =
    lower_phis (p ∷ ps) f >>= (λ g. some (record g { blocks = null_phis g.blocks }))

unfoldable pub eliminate_phis : SsaFunction → Option SsaFunction
eliminate_phis f = lowered f (phis_of f.blocks)
