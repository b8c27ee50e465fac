-- ===== src/Ssa/Dce/Tests.antt =====
-- src/ssa/passes/dce.rs on a small function.
use mathlib.Core.Path.{subst}
use mathlib.Core.List.{Memᴰ}
use mathlib.Core.List.Memᴰ
use raytask.Prelude.{
  ℕ, ◌≡◌, refl, sym, ap, ◌∙◌, inl, inr, true, false, some, List, [], ◌∷◌, ◌↔◌, ◌<◌, arith,
}
use raytask.Fold.{ConstValue}
use raytask.Worklist.{done}
use raytask.Ssa.{InstKind, Inst, Blocks, values}
use raytask.Ssa.Uses
use raytask.Ssa.Uses.{uses, replace_uses, rewrite, uses-replace_uses}
use raytask.Ssa.Dce
use raytask.Ssa.Dce.{dce}
use raytask.Ssa.Dce.Kept.{Wanted, dce-Wanted}
use raytask.Ssa.Dce.Used.{DistinctIds, dce-uses, dce-returns}
use raytask.Ssa.Sample.{inst, code, lean, insts_1, one_inst}

eliminated : dce 9 code ≡ some lean
unfolding dce values Dce.propagate Dce.roots Dce.inst_roots Dce.insert_all Dce.push_new Dce.def_of
    Dce.sweep_blocks Dce.retain_kept Uses.mark_uses Uses.term_uses raytask.Worklist.contains
eliminated = refl

dce-Wanted_example : Memᴰ (inst 3 (InstKind.dup 1) false) (values lean) ↔ (
    Memᴰ (inst 3 (InstKind.dup 1) false) (values code)
    × Wanted code (inst 3 (InstKind.dup 1) false))
dce-Wanted_example = dce-Wanted 9 code lean eliminated (inst 3 (InstKind.dup 1) false)

uses_code : uses code ≡ 0 ∷ 1 ∷ 1 ∷ []
unfolding uses Uses.mark_uses Uses.term_uses
uses_code = refl

code_uses_below : (v : ℕ) → Memᴰ v (uses code) → v < 4
code_uses_below v m = elim (Memᴰ.cases_cons (subst (Memᴰ v) uses_code m)) [
  | inl e ↦ omega arith
  | inr n ↦ elim (Memᴰ.cases_cons n) [
    | inl e ↦ omega arith
    | inr last ↦ let e = Memᴰ.eq_of_singleton last in omega arith
  ]
]

dce-returns_example : (fuel : ℕ) × ((after : Blocks) × (dce fuel code ≡ some after))
dce-returns_example = dce-returns code 4 code_uses_below

-- The numbers of the instructions grow.
abbrev Above : ℕ → List Inst → Type 0
Above k is = (j : Inst) → Memᴰ j is → k < j.id

Above-cons : (k : ℕ) (i : Inst) (is : List Inst) → k < i.id → Above i.id is → Above k (i ∷ is)
Above-cons k i is less above j m = elim (Memᴰ.cases_cons m) [
  | inl e ↦ subst (λ x. k < x.id) (sym e) less
  | inr n ↦ let more = above j n in omega arith
]

Distinct-cons :
    (i : Inst) (is : List Inst)
    → Above i.id is
    → ((j k : Inst) → Memᴰ j is → Memᴰ k is → j.id ≡ k.id → j ≡ k)
    → (j k : Inst) → Memᴰ j (i ∷ is)
    → Memᴰ k (i ∷ is)
    → j.id ≡ k.id
    → j ≡ k
Distinct-cons i is above distinct j k (Memᴰ.head e) (Memᴰ.head f) same = e ∙ sym f
Distinct-cons i is above distinct j k (Memᴰ.head e) (Memᴰ.tail n) same =
    let less = above k n in let own = ap (λ x. x.id) e in absurd (omega arith)
Distinct-cons i is above distinct j k (Memᴰ.tail m) (Memᴰ.head f) same =
    let less = above j m in let own = ap (λ x. x.id) f in absurd (omega arith)
Distinct-cons i is above distinct j k (Memᴰ.tail m) (Memᴰ.tail n) same = distinct j k m n same

code_distinct : DistinctIds code
unfolding values
code_distinct =
    let above_3 : Above 3 [] = λ j x'. elim x' [ ] in
    let above_2 : Above 2 (inst 3 (InstKind.dup 1) false ∷ []) =
      Above-cons 2 (inst 3 (InstKind.dup 1) false) [] (omega arith) above_3 in
    let above_1 : Above 1 (inst 2 (InstKind.print 1) true ∷ inst 3 (InstKind.dup 1) false ∷ []) =
      Above-cons 1 (inst 2 (InstKind.print 1) true) (inst 3 (InstKind.dup 1) false ∷ [])
        (omega arith) above_2 in
    Distinct-cons (inst 0 (InstKind.const (ConstValue.bool true)) false) insts_1
      (Above-cons 0 one_inst (inst 2 (InstKind.print 1) true ∷ inst 3 (InstKind.dup 1) false ∷ [])
        (omega arith) above_1)
      (Distinct-cons one_inst (inst 2 (InstKind.print 1) true ∷ inst 3 (InstKind.dup 1) false ∷ [])
        above_1
        (Distinct-cons (inst 2 (InstKind.print 1) true) (inst 3 (InstKind.dup 1) false ∷ []) above_2
          (Distinct-cons (inst 3 (InstKind.dup 1) false) [] above_3 (λ j k x'. elim x' [ ]))))

one_there : Memᴰ one_inst (values code)
unfolding values
one_there = Memᴰ.tail (Memᴰ.head refl)

one_used : Memᴰ 1 (uses lean)
unfolding uses Uses.mark_uses Uses.term_uses
one_used = Memᴰ.tail (Memᴰ.head refl)

dce-uses_example : Memᴰ one_inst (values lean)
dce-uses_example = dce-uses 9 code lean code_distinct eliminated one_inst one_there one_used
