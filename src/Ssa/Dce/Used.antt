-- ===== src/Ssa/Dce/Used.antt =====
-- What src/ssa/passes/dce.rs keeps is complete: whatever is still used is still there. And it ends.
use mathlib.Core.Path.{subst}
use mathlib.Core.List.{Memᴰ}
use mathlib.Core.List.Memᴰ
use raytask.Prelude.{
  ℕ, ◌≡◌, refl, sym, ap, ◌∙◌, true, Bool-cases, ◌==◌, some, List, [], ◌∷◌, ◌++◌, ◌⊎◌, inl, inr, ◌+◌,
  ◌<◌, length, arith,
}
use raytask.Worklist.Found.{Option-cases}
use raytask.Worklist.Ends.{unmarked}
use raytask.Ssa.{InstKind, Inst, Blocks, values, param}
use raytask.Ssa.Uses.{mark_uses, term_uses, inst_uses, uses}
use raytask.Ssa.Dce.{roots, def_of, deps, is_param, sweep_blocks, swept, dce}
use raytask.Ssa.Dce.Closed.{propagate-returns}
use raytask.Ssa.Dce.Needed.{terms, effect_use, term_use, dep, TermRoot}
use raytask.Ssa.Dce.Kept.{dce-Wanted, dce-Ended, terms-sweep_blocks}

-- No two instructions have one number.
abbrev pub DistinctIds : Blocks → Type 0
DistinctIds bs = (i j : Inst) → Memᴰ i (values bs) → Memᴰ j (values bs) → i.id ≡ j.id → i ≡ j

def_of-some :
    (is : List Inst) (v : ℕ) (kind : InstKind)
    → def_of is v ≡ some kind
    → (j : Inst) × (Memᴰ j is × ((j.id ≡ v) × (j.kind ≡ kind)))
unfolding def_of
def_of-some [] v kind e = ground arith
def_of-some (i ∷ is) v kind e = elim (Option-cases (def_of is v)) [
  | inl gone ↦ elim (Bool-cases (i.id == v)) [
    | inl same ↦
        let o : some i.kind ≡ some kind = (rw (def_of, gone, same) refl) ∙ e in
        (i, (Memᴰ.head refl, (ground arith, cc)))
    | inr other ↦ absurd (ground arith)
  ]
  | inr (found, at) ↦
      let o : some found ≡ some kind = (rw (def_of, at) refl) ∙ e in
      let (j, (m, (id, same))) = def_of-some is v found at in (j, (Memᴰ.tail m, (id, cc)))
]

def_of-found :
    (is : List Inst) (i : Inst)
    → ((j k : Inst) → Memᴰ j is → Memᴰ k is → j.id ≡ k.id → j ≡ k)
    → Memᴰ i is
    → def_of is i.id ≡ some i.kind
unfolding def_of
def_of-found [] i distinct x' = elim x' [ ]
def_of-found (j ∷ is) i distinct m = elim (Option-cases (def_of is i.id)) [
  | inr (kind, at) ↦
      let (k, (n, (id, same))) = def_of-some is i.id kind at in
      rw at (ap some (sym same ∙ ap (λ x. x.kind) (distinct k i (Memᴰ.tail n) m id)))
  | inl gone ↦ elim (Memᴰ.cases_cons m) [
    | inl first ↦
        let own : (j.id == i.id) ≡ true =
          subst (λ x. (j.id == x.id) ≡ true) (sym first) (ground arith) in
        rw (gone, own) (ap (λ x. some x.kind) (sym first))
    | inr n ↦
        let found = def_of-found is i (λ x y p q. distinct x y (Memᴰ.tail p) (Memᴰ.tail q)) n in
        absurd (ground arith)
  ]
]

inst_uses-cases :
    (is : List Inst) (v : ℕ)
    → Memᴰ v (inst_uses is)
    → (i : Inst) × (Memᴰ i is × Memᴰ v (mark_uses i.kind))
inst_uses-cases [] v x' = elim x' [ ]
inst_uses-cases (i ∷ is) v m = elim (Memᴰ.append_cases (mark_uses i.kind) m) [
  | inl u ↦ (i, (Memᴰ.head refl, u))
  | inr n ↦ let (j, (at, u)) = inst_uses-cases is v n in (j, (Memᴰ.tail at, u))
]

uses-cases :
    (bs : Blocks) (v : ℕ)
    → Memᴰ v (uses bs)
    → ((i : Inst) × (Memᴰ i (values bs) × Memᴰ v (mark_uses i.kind))) ⊎ TermRoot (terms bs) v
unfolding uses values
uses-cases [] v x' = elim x' [ ]
uses-cases ((k, b) ∷ bs) v m = elim (Memᴰ.append_cases (inst_uses b.insts ++ term_uses b.term) m) [
  | inl here ↦ elim (Memᴰ.append_cases (inst_uses b.insts) here) [
    | inl u ↦
        let (i, (at, used)) = inst_uses-cases b.insts v u in
        inl (i, (Memᴰ.append_left (values bs) at, used))
    | inr u ↦ inr (b.term, (Memᴰ.head refl, u))
  ]
  | inr later ↦ elim (uses-cases bs v later) [
    | inl (i, (at, used)) ↦ inl (i, (Memᴰ.append_right b.insts at, used))
    | inr (t, (at, used)) ↦ inr (t, (Memᴰ.tail at, used))
  ]
]

inst_uses-inst :
    (is : List Inst) (i : Inst) (v : ℕ)
    → Memᴰ i is
    → Memᴰ v (mark_uses i.kind)
    → Memᴰ v (inst_uses is)
inst_uses-inst [] i v x' m = elim x' [ ]
inst_uses-inst (j ∷ is) i v (Memᴰ.head same) m =
    Memᴰ.append_left (inst_uses is) (subst (λ x. Memᴰ v (mark_uses x.kind)) same m)
inst_uses-inst (j ∷ is) i v (Memᴰ.tail n) m =
    Memᴰ.append_right (mark_uses j.kind) (inst_uses-inst is i v n m)

uses-inst :
    (bs : Blocks) (i : Inst) (v : ℕ)
    → Memᴰ i (values bs)
    → Memᴰ v (mark_uses i.kind)
    → Memᴰ v (uses bs)
unfolding uses values
uses-inst [] i v x' m = elim x' [ ]
uses-inst ((k, b) ∷ bs) i v n m = elim (Memᴰ.append_cases b.insts n) [
  | inl here ↦
      Memᴰ.append_left (uses bs)
        (Memᴰ.append_left (term_uses b.term) (inst_uses-inst b.insts i v here m))
  | inr later ↦ Memᴰ.append_right (inst_uses b.insts ++ term_uses b.term) (uses-inst bs i v later m)
]

param-uses : (kind : InstKind) (v : ℕ) → is_param kind ≡ true → Memᴰ v (mark_uses kind) → ⊥
unfolding mark_uses
param-uses (param index) v e x' = elim x' [ ]
param-uses _ v e m = ground arith

-- Whatever instruction's value is still used after dead code elimination is still there, if no two
-- instructions have one number.
pub dce-uses :
    (fuel : ℕ) (bs after : Blocks)
    → DistinctIds bs
    → dce fuel bs ≡ some after
    → (j : Inst) → Memᴰ j (values bs)
    → Memᴰ j.id (uses after)
    → Memᴰ j (values after)
dce-uses fuel bs after distinct e j was used =
    let (live, (found, same)) = dce-Ended fuel bs after e in
    (dce-Wanted fuel bs after e j).1 (
      was,
      inr (
          inl (elim (uses-cases after j.id used) [
            | inl (i, (at, u)) ↦
                let (before, wanted) = (dce-Wanted fuel bs after e i).0 at in
                elim wanted [
                  | inl on ↦ effect_use before on u
                  | inr (inl needed) ↦ dep needed (def_of-found (values bs) i distinct before) u
                  | inr (inr is_p) ↦ absurd (param-uses i.kind j.id is_p u)
                ]
            | inr (t, (at, u)) ↦
                term_use (subst (λ l. Memᴰ t l) (ap terms same ∙ terms-sweep_blocks live bs) at) u
          ])),
    )

-- Dead code elimination ends, if the values used have numbers below the next one.
pub dce-returns :
    (bs : Blocks) (next_value : ℕ)
    → ((v : ℕ) → Memᴰ v (uses bs) → v < next_value)
    → (fuel : ℕ) × ((after : Blocks) × (dce fuel bs ≡ some after))
unfolding dce
dce-returns bs next_value below =
    let start = roots bs [] in
    let fuel = unmarked next_value start + length start in
    let (live, found) =
      propagate-returns (values bs) next_value
        (λ v d m. elim (Option-cases (def_of (values bs) v)) [
          | inl gone ↦ elim (subst (λ o. Memᴰ d (deps o)) gone m) [ ]
          | inr (kind, at) ↦
              let (j, (n, (id, same))) = def_of-some (values bs) v kind at in
              below d (
                uses-inst bs j d n (
                  subst (λ x. Memᴰ d (mark_uses x)) (sym same) (subst (λ o. Memᴰ d (deps o)) at m)))
        ])
        fuel start start (omega arith) in
    (fuel, (sweep_blocks live bs, ap (swept bs) found))
