-- ===== src/Ssa/Tests.antt =====
-- The search and the simplification of src/ssa on a small function.
use mathlib.Core.Path.{subst}
use mathlib.Core.List.{Memᴰ}
use mathlib.Core.List.Memᴰ
use raytask.Prelude.{
  if◌then◌else◌, ◌==◌, false, ℕ, zero, suc, ◌≡◌, refl, sym, inl, inr, true, some, List, [], ◌∷◌,
  ◌↔◌, ◌<◌, map, arith,
}
use raytask.Worklist.{done}
use raytask.Ssa
use raytask.Ssa.{SsaFunction, InstKind, SsaTy, Inst, Terminator, BasicBlock, Blocks, block, values}
use raytask.Fold.{ConstValue}
use raytask.Ssa.Uses
use raytask.Ssa.Uses.{uses, replace_uses, rewrite, uses-replace_uses}
use raytask.Ssa.CopyProp.{copied, collect_repl, apply_repl, copy_prop, IsCopy, copy_prop-uses}
use raytask.Ssa.PhiElim
use raytask.Ssa.PhiElim.{lower_phi, lower_phis, phi_slot}
use raytask.Ssa.PhiElim.Returns.{There}
use raytask.Ssa.PhiElim.Slots.{slots, Allocates, lower_phis-slots}
use raytask.Ssa.Cfg
use raytask.Ssa.Cfg.{rebuild_edges, reachable, term_succs}
use raytask.Ssa.Cfg.Paths.{Flows, NoDangling, reachable-Flows, reachable-returns}
use raytask.Ssa.Simplify
use raytask.Ssa.Simplify.{simplify, folded}
use raytask.Ssa.Simplify.Kept.{simplify-Flows, simplify-NoDangling}
use raytask.Ssa.Simplify.Folds.{FoldedAt, simplify-Folds}
use raytask.Ssa.Sample.{inst, block_of, code, straight, block_1, first, first_after}

found : reachable 9 0 (rebuild_edges code) ≡ done (1 ∷ 2 ∷ 0 ∷ [])
unfolding reachable rebuild_edges Cfg.link_all Cfg.clear_edges Cfg.change_block Cfg.link_preds
    Cfg.add_pred term_succs block raytask.Worklist.walk raytask.Worklist.push_all
    raytask.Worklist.contains
found = refl

simplified : simplify 9 0 code ≡ some (true, straight)
unfolding simplify folded Simplify.fold_branches Simplify.fold_branch Simplify.chosen
    Simplify.retain_live Simplify.has_dead Ssa.find_def Ssa.find_inst values reachable rebuild_edges
    Cfg.link_all Cfg.clear_edges Cfg.change_block Cfg.link_preds Cfg.add_pred term_succs block
    raytask.Worklist.walk raytask.Worklist.push_all raytask.Worklist.contains
simplified = refl

code_closed : NoDangling code
unfolding block term_succs
code_closed zero b blk at m =
    let same : blk ≡ first = cc in
    elim (Memᴰ.cases_cons (subst (λ x. Memᴰ b (term_succs x.term)) same m)) [
      | inl is_1 ↦
          subst (λ i. (c : BasicBlock) × (block code i ≡ some c)) (sym is_1) (block_1, refl)
      | inr later ↦
          subst (λ i. (c : BasicBlock) × (block code i ≡ some c)) (sym (Memᴰ.eq_of_singleton later))
            (block_of 2 [] Terminator.halt, refl)
    ]
code_closed (suc zero) b blk at m =
    let same : blk ≡ block_1 = cc in elim (subst (λ x. Memᴰ b (term_succs x.term)) same m) [ ]
code_closed (suc (suc zero)) b blk at m =
    let same : blk ≡ block_of 2 [] Terminator.halt = cc in
    elim (subst (λ x. Memᴰ b (term_succs x.term)) same m) [ ]
code_closed (suc (suc (suc n))) b blk at m = ground arith

code_below : (b : ℕ) (blk : BasicBlock) → block code b ≡ some blk → b < 3
unfolding block
code_below zero blk at = omega arith
code_below (suc zero) blk at = omega arith
code_below (suc (suc zero)) blk at = omega arith
code_below (suc (suc (suc n))) blk at = ground arith

abbrev entry_there : (blk : BasicBlock) × (block code 0 ≡ some blk)
unfolding block
entry_there = (first, refl)

reachable-Flows_example : Memᴰ {A = ℕ} 1 (1 ∷ 2 ∷ 0 ∷ []) ↔ Flows code 0 1
reachable-Flows_example = reachable-Flows 9 0 code (1 ∷ 2 ∷ 0 ∷ []) found 1

reachable-returns_example :
    (fuel : ℕ) × ((live : List ℕ) × (reachable fuel 0 (rebuild_edges code) ≡ done live))
reachable-returns_example = reachable-returns 0 3 code entry_there code_closed code_below

simplify-Flows_example :
    ((b : BasicBlock) × (block straight 1 ≡ some b)) ↔ Flows ((folded code).1) 0 1
simplify-Flows_example = simplify-Flows 9 0 code (true, straight) simplified 1

simplify-NoDangling_example : NoDangling straight
simplify-NoDangling_example = simplify-NoDangling 9 0 code (true, straight) simplified

straight_first : block straight 0 ≡ some first_after
unfolding block
straight_first = refl

simplify-Folds_example : FoldedAt code 0 first_after
simplify-Folds_example =
    simplify-Folds 9 0 code (true, straight) simplified 0 first_after straight_first

-- A number, a copy of it, and a print of the copy.
abbrev copying : Blocks
copying =
    (
      0,
      block_of 0
          (inst 1 (InstKind.const (ConstValue.int 7)) false
            ∷ inst 3 (InstKind.dup 1) false
            ∷ inst 4 (InstKind.print 3) true
            ∷ [])
          Terminator.halt,
    )
    ∷ []

abbrev sevens : ℕ → ℕ
sevens v = if v == 4 then 0 else 7

copying-IsCopy : (i : Inst) → Memᴰ i (values copying) → IsCopy sevens i i.kind
unfolding values
copying-IsCopy i m = elim (Memᴰ.cases_cons m) [
  | inl e ↦ subst (λ x. IsCopy sevens x x.kind) (sym e) tt
  | inr n ↦ elim (Memᴰ.cases_cons n) [
    | inl e ↦ subst (λ x. IsCopy sevens x x.kind) (sym e) refl
    | inr last ↦ subst (λ x. IsCopy sevens x x.kind) (sym (Memᴰ.eq_of_singleton last)) tt
  ]
]

copied_run : uses ((copy_prop copying).1) ≡ 1 ∷ 1 ∷ []
unfolding copy_prop apply_repl collect_repl copied values uses replace_uses Uses.rewrite_block
    Uses.rewrite_inst_uses Uses.rewrite_term rewrite Uses.mark_uses Uses.term_uses
copied_run = refl

copy_prop-uses_example : map sevens (uses ((copy_prop copying).1)) ≡ map sevens (uses copying)
copy_prop-uses_example = copy_prop-uses sevens copying copying-IsCopy

abbrev phi_5 : PhiElim.PhiInst
phi_5 = record { bb = 1; id = 5; incomings = (0, 1) ∷ [] }

abbrev phi_6 : PhiElim.PhiInst
phi_6 = record { bb = 1; id = 6; incomings = (0, 1) ∷ [] }

abbrev jump_with : List Inst → BasicBlock
jump_with is = block_of 0 is (Terminator.br 1)

abbrev seven : Inst
seven = inst 1 (InstKind.const (ConstValue.int 7)) false

-- A function with 254 locals and two phis.
abbrev crowded : SsaFunction
crowded = record (Ssa.new 0 [] 0) {
  local_count = 254;
  blocks =
      (0, jump_with (seven ∷ []))
      ∷ (
        1,
        block_of 1
            (inst 5 (InstKind.phi ((0, 1) ∷ [])) false
              ∷ inst 6 (InstKind.phi ((0, 1) ∷ [])) false
              ∷ [])
            Terminator.halt,
      )
      ∷ [];
  next_value = 7;
  next_block = 2;
}

abbrev crowded_after : SsaFunction
crowded_after = record (Ssa.new 0 [] 0) {
  local_count = 255;
  blocks =
      (
        0,
        jump_with (
            PhiElim.inst_of 9 (InstKind.alloca SsaTy.dyn 254) SsaTy.ref false
            ∷ PhiElim.inst_of 7 (InstKind.alloca SsaTy.dyn 254) SsaTy.ref false
            ∷ seven
            ∷ PhiElim.inst_of 8 (InstKind.store 7 1) SsaTy.void true
            ∷ PhiElim.inst_of 10 (InstKind.store 9 1) SsaTy.void true
            ∷ []),
      )
      ∷ (
        1,
        block_of 1 (inst 5 (InstKind.load 7) false ∷ inst 6 (InstKind.load 9) false ∷ [])
            Terminator.halt,
      )
      ∷ [];
  next_value = 11;
  next_block = 2;
}

crowded_run : lower_phis (phi_5 ∷ phi_6 ∷ []) crowded ≡ some crowded_after
unfolding lower_phis lower_phi phi_slot Ssa.alloc_value Ssa.with_block PhiElim.store_incomings
    PhiElim.load_slot Ssa.new
crowded_run = refl

abbrev start_there : There crowded 0
unfolding block Ssa.new
start_there = (jump_with (seven ∷ []), refl)

abbrev phis_there : There crowded 1
unfolding block Ssa.new
phis_there = (
  block_of 1
      (inst 5 (InstKind.phi ((0, 1) ∷ [])) false ∷ inst 6 (InstKind.phi ((0, 1) ∷ [])) false ∷ [])
      Terminator.halt,
  refl,
)

lower_phis-slots_example :
    (g : SsaFunction) × ((lower_phis (phi_5 ∷ phi_6 ∷ []) crowded ≡ some g)
      × Allocates (slots 254 2) g)
unfolding Ssa.new
lower_phis-slots_example =
    lower_phis-slots (phi_5 ∷ phi_6 ∷ []) crowded start_there
      ((phis_there, (start_there, tt)), ((phis_there, (start_there, tt)), tt))
      (omega arith, (omega arith, tt))
