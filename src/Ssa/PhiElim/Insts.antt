-- ===== src/Ssa/PhiElim/Insts.antt =====
-- What the steps of src/ssa/phi_elim.rs leave at the start of the entry block.
use mathlib.Core.Path.{subst}
use mathlib.Core.List.{append_assoc}
use raytask.Prelude.{
  ℕ, suc, ◌-◌, ◌^◌, ◌≤◌, ◌<◌, ◌≡◌, refl, sym, ap, ◌∙◌, true, false, ◌==◌, Bool-cases, Option, none,
  some, List, [], ◌∷◌, ◌++◌, inl, inr, arith, if◌then◌else◌, All,
}
use raytask.Prelude.Options.{◌>>=◌}
use raytask.Worklist.Found.{Option-cases}
use raytask.Ssa.{
  store, SsaTy, Inst, BasicBlock, Blocks, block, SsaFunction, with_block, alloc_value,
}
use raytask.Ssa.PhiElim.{inst_of, with_insts, store_incomings, load_slot}

bind_some : (o : Option BasicBlock) → (o >>= (λ b. some b)) ≡ o
bind_some none = refl
bind_some (some b) = refl

-- `with_block` changes the block with the number and no other.
block-with_block :
    (change : BasicBlock → BasicBlock) (id j : ℕ) (bs cs : Blocks)
    → with_block change id bs ≡ some cs
    → block cs j ≡ (block bs j >>= (λ b. some (if id == j then change b else b)))
unfolding with_block block
block-with_block change id j [] cs e = absurd (ground arith)
block-with_block change id j ((k, b) ∷ bs) cs e = elim (Bool-cases (k == id)) [
  | inl here ↦
      let o : some ((k, change b) ∷ bs) ≡ some cs = ground arith in
      let same : (k, change b) ∷ bs ≡ cs = cc in
      ap (λ ds. block ds j) (sym same) ∙ elim (Bool-cases (k == j)) [
        | inl at ↦ let both : (id == j) ≡ true = ground arith in rw (at, both) refl
        | inr at ↦
            let not_both : (id == j) ≡ false = ground arith in
            rw (at, not_both) (sym (bind_some (block bs j)))
      ]
  | inr other ↦ elim (Option-cases (with_block change id bs)) [
    | inl gone ↦ absurd (ground arith)
    | inr (ds, changed) ↦
        let o : some ((k, b) ∷ ds) ≡ some cs = ground arith in
        let same : (k, b) ∷ ds ≡ cs = cc in
        ap (λ es. block es j) (sym same) ∙ elim (Bool-cases (k == j)) [
          | inl at ↦ let not_both : (id == j) ≡ false = ground arith in rw (at, not_both) refl
          | inr at ↦ rw at (block-with_block change id j bs ds changed)
        ]
  ]
]

-- The entry block begins with the instructions.
abbrev pub Begins : List Inst → SsaFunction → Type 0
Begins front f =
    (b : BasicBlock) × ((block f.blocks f.entry ≡ some b)
      × ((rest : List Inst) × (b.insts ≡ front ++ rest)))

-- What a step over the instructions of one block keeps, besides the entry block.
abbrev pub Same : (f g : SsaFunction) → Type 0
Same f g = (g.entry ≡ f.entry) × ((g.local_count ≡ f.local_count) × (g.next_value ≡ f.next_value))

abbrev pub Extends : (List Inst → List Inst) → (front after : List Inst) → Type 0
Extends change front after =
    (rest : List Inst) → (more : List Inst) × (change (front ++ rest) ≡ after ++ more)

-- The whole effect of `with_insts`.
pub with_insts_lem :
    (change : List Inst → List Inst) (bb : ℕ) (f g : SsaFunction)
    → with_insts change bb f ≡ some g
    → Same f g
      × ((j : ℕ)
          → block g.blocks j ≡ (
              block f.blocks j
              >>= (λ b. some (if bb == j then record b { insts = change b.insts } else b))))
with_insts_lem change bb f g e =
    elim (Option-cases (with_block (λ b. record b { insts = change b.insts }) bb f.blocks)) [
      | inl gone ↦ absurd (ground arith)
      | inr (bs, changed) ↦
          let o : some (record f { blocks = bs }) ≡ some g =
            ap (λ x. x >>= (λ cs. some (record f { blocks = cs }))) (sym changed) ∙ e in
          let same : record f { blocks = bs } ≡ g = cc in
          (
            (
              ap (λ x. x.entry) (sym same),
              (ap (λ x. x.local_count) (sym same), ap (λ x. x.next_value) (sym same)),
            ),
            (λ j.
                ap (λ x. block x.blocks j) (sym same)
                ∙ block-with_block (λ b. record b { insts = change b.insts }) bb j f.blocks bs
                    changed),
          )
    ]

pub with_insts-Begins :
    (change : List Inst → List Inst) (bb : ℕ) (f g : SsaFunction) (front after : List Inst)
    → with_insts change bb f ≡ some g
    → Extends change front after
    → ((bb == f.entry) ≡ false → front ≡ after)
    → Begins front f
    → Begins after g
with_insts-Begins change bb f g front after e extends other (b, (at, (rest, is))) =
    let ((entry, kept), now) = with_insts_lem change bb f g e in
    let found : block g.blocks g.entry
        ≡ some (if bb == f.entry then record b { insts = change b.insts } else b) =
      ap (λ j. block g.blocks j) entry
      ∙ now f.entry
      ∙ ap
          (λ o.
            o >>= (λ c. some (if bb == f.entry then record c { insts = change c.insts } else c)))
          at in
    elim (Bool-cases (bb == f.entry)) [
      | inl here ↦
          let (more, longer) = extends rest in
          (
            record b { insts = change b.insts },
            (
              found ∙ ap (λ t. some (if t then record b { insts = change b.insts } else b)) here,
              (more, ap change is ∙ longer),
            ),
          )
      | inr there ↦ (
        b,
        (
          found ∙ ap (λ t. some (if t then record b { insts = change b.insts } else b)) there,
          (rest, is ∙ ap (λ l. l ++ rest) (other there)),
        ),
      )
    ]

-- The stores come behind the start of a block.
pub store_incomings_lem :
    (ptr : ℕ) (is : List (ℕ × ℕ)) (f g : SsaFunction) (front : List Inst)
    → store_incomings ptr is f ≡ some g
    → Begins front f
    → Begins front g × ((g.local_count ≡ f.local_count) × (f.next_value ≤ g.next_value))
unfolding store_incomings alloc_value
store_incomings_lem ptr [] f g front e b =
    let same : f ≡ g = cc in
    subst (λ x. Begins front x × ((x.local_count ≡ f.local_count) × (f.next_value ≤ x.next_value)))
      same (b, (refl, omega arith))
store_incomings_lem ptr ((pred, val) ∷ is) f g front e b =
    let next = (alloc_value f).1 in
    let change = λ (insts : List Inst).
      insts ++ inst_of ((alloc_value f).0) (store ptr val) SsaTy.void true ∷ [] in
    elim (Bool-cases (val == 2 ^ 32 - 1)) [
      | inl undefined ↦ store_incomings_lem ptr is f g front (ground arith) b
      | inr defined ↦ elim (Option-cases (with_insts change pred next)) [
        | inl gone ↦ absurd (ground arith)
        | inr (h, stored) ↦
            let ((entry, (count, values)), now) = with_insts_lem change pred next h stored in
            let b' : Begins front h =
              with_insts-Begins change pred next h front front stored
                (λ rest. (
                  rest ++ inst_of ((alloc_value f).0) (store ptr val) SsaTy.void true ∷ [],
                  append_assoc front rest _,
                ))
                (λ other. refl) b in
            let (b2, (count2, values2)) = store_incomings_lem ptr is h g front (ground arith) b' in
            let fresh : h.next_value ≡ suc f.next_value = values in
            (b2, (count2 ∙ count, omega arith))
      ]
    ]

pub load_slot-Extends :
    (ptr id n : ℕ) (front : List Inst)
    → id < n
    → All (λ i. n ≤ i.id) front
    → Extends (load_slot ptr id) front front
unfolding load_slot
load_slot-Extends ptr id n [] h new rest = (load_slot ptr id rest, refl)
load_slot-Extends ptr id n (i ∷ front) h (new, all) rest =
    let (more, e) = load_slot-Extends ptr id n front h all rest in
    let other : (i.id == id) ≡ false = ground arith in (more, rw other (ap (λ l. i ∷ l) e))
