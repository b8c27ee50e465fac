-- ===== src/Ssa/PhiElim/Slots.antt =====
-- The stack slots of src/ssa/phi_elim.rs, as the instructions at the start of the entry block allocate them.
use Prim.Native.Nat.{min}
use mathlib.Core.Path.{subst}
use raytask.Prelude.{
  ℕ, zero, suc, ◌+◌, ◌≤◌, ◌<◌, ◌≡◌, refl, sym, ap, ◌∙◌, false, some, List, [], ◌∷◌, ◌++◌, inl, inr,
  map, arith, All, length, ==_refl,
}
use raytask.Prelude.Options.{◌>>=◌}
use raytask.Worklist.Found.{Option-cases}
use raytask.Ssa.{InstKind, alloca, SsaTy, Inst, BasicBlock, block, SsaFunction, alloc_value}
use raytask.Ssa.PhiElim.Returns.{There, Targets, lower_phis-returns}
use raytask.Ssa.PhiElim.Insts.{
  Begins, with_insts_lem, with_insts-Begins, store_incomings_lem, load_slot-Extends,
}
use raytask.Ssa.PhiElim.{
  PhiInst, phi_slot, inst_of, with_insts, store_incomings, load_slot, lower_phi, lower_phis,
}

abbrev slot_inst : (id slot : ℕ) → Inst
slot_inst id slot = inst_of id (alloca SsaTy.dyn slot) SsaTy.ref false

-- One phi.
lower_phi_lem :
    (p : PhiInst) (f g : SsaFunction) (n : ℕ) (front : List Inst)
    → p.id < n
    → n ≤ f.next_value
    → All (λ i. n ≤ i.id) front
    → Begins front f
    → lower_phi p f ≡ some g
    → Begins (slot_inst f.next_value (phi_slot f) ∷ front) g
      × ((g.local_count ≡ suc (phi_slot f)) × (n ≤ g.next_value))
unfolding lower_phi alloc_value
lower_phi_lem p f g n front old fresh_n new b e =
    let slot = phi_slot f in
    let ptr = f.next_value in
    let fresh : SsaFunction = record f { local_count = suc slot; next_value = suc f.next_value } in
    let change =
      λ (insts : List Inst). inst_of ptr (alloca SsaTy.dyn slot) SsaTy.ref false ∷ insts in
    let after : List Inst = slot_inst ptr slot ∷ front in
    elim (Option-cases (with_insts change f.entry fresh)) [
      | inl gone ↦ absurd (ground arith)
      | inr (placed, e1) ↦ elim (Option-cases (store_incomings ptr p.incomings placed)) [
        | inl gone ↦ absurd (ground arith)
        | inr (stored, e2) ↦
            let e3 : with_insts (load_slot ptr p.id) p.bb stored ≡ some g = ground arith in
            let b1 : Begins after placed =
              with_insts-Begins change f.entry fresh placed front after e1 (λ rest. (rest, refl))
                (λ other. absurd (ground (arith, ==_refl f.entry))) b in
            let ((entry1, (count1, values1)), now1) =
              with_insts_lem change f.entry fresh placed e1 in
            let (b2, (count2, values2)) =
              store_incomings_lem ptr p.incomings placed stored after e2 b1 in
            let ((entry3, (count3, values3)), now3) =
              with_insts_lem (load_slot ptr p.id) p.bb stored g e3 in
            let b3 : Begins after g =
              with_insts-Begins (load_slot ptr p.id) p.bb stored g after after e3
                (load_slot-Extends ptr p.id n after old (fresh_n, new)) (λ other. refl) b2 in
            (b3, (count3 ∙ count2 ∙ count1, omega arith))
      ]
    ]

-- The slots of `n` phis, the last one first, if `locals` stand before them.
abbrev pub slots : (locals n : ℕ) → List ℕ
slots locals zero = []
slots locals (suc n) = min (locals + n) 254 ∷ slots locals n

-- The entry block begins with instructions that allocate the slots.
abbrev pub Allocates : List ℕ → SsaFunction → Type 0
Allocates ns f =
    (b : BasicBlock) × ((block f.blocks f.entry ≡ some b)
      × ((rest : List InstKind) × (map (λ i. i.kind) b.insts
            ≡ map (λ n. alloca SsaTy.dyn n) ns ++ rest)))

map_kind :
    (front rest : List Inst)
    → map (λ (i : Inst). i.kind) (front ++ rest) ≡ map (λ i. i.kind) front ++ map (λ i. i.kind) rest
map_kind [] rest = refl
map_kind (i ∷ front) rest = ap (λ l. i.kind ∷ l) (map_kind front rest)

lower_phis_lem :
    (ps : List PhiInst) (f g : SsaFunction) (n locals k : ℕ) (front : List Inst)
    → All (λ p. p.id < n) ps
    → n ≤ f.next_value
    → All (λ i. n ≤ i.id) front
    → Begins front f
    → map (λ i. i.kind) front ≡ map (λ m. alloca SsaTy.dyn m) (slots locals k)
    → phi_slot f ≡ min (locals + k) 254
    → lower_phis ps f ≡ some g
    → Allocates (slots locals (k + length ps)) g
unfolding lower_phis
lower_phis_lem [] f g n locals k front old fresh new (b, (at, (rest, is))) kinds slot e =
    let same : f ≡ g = cc in
    let none_left : k ≡ k + 0 = omega arith in
    subst (λ m. Allocates (slots locals m) g) none_left
      (subst (λ x. Allocates (slots locals k) x) same
        (
          b,
          (
            at,
            (
              map (λ i. i.kind) rest,
              ap (λ l. map (λ i. i.kind) l) is
                  ∙ map_kind front rest
                  ∙ ap (λ l. l ++ map (λ i. i.kind) rest) kinds,
            ),
          ),
        ))
lower_phis_lem (p ∷ ps) f g n locals k front (old_p, old) fresh new b kinds slot e =
    elim (Option-cases (lower_phi p f)) [
      | inl gone ↦ absurd (ground arith)
      | inr (h, e1) ↦
          let (b', (count, values)) = lower_phi_lem p f h n front old_p fresh new b e1 in
          let e2 : lower_phis ps h ≡ some g = ap (λ o. o >>= lower_phis ps) (sym e1) ∙ e in
          let next : phi_slot h ≡ min (locals + suc k) 254 = unfold phi_slot in omega arith in
          let one_more : suc k + length ps ≡ k + suc (length ps) = omega arith in
          subst (λ m. Allocates (slots locals m) g) one_more
            (lower_phis_lem ps h g n locals (suc k) (slot_inst f.next_value (phi_slot f) ∷ front)
              old values (fresh, new) b'
              (ap (λ m. alloca SsaTy.dyn m ∷ map (λ i. i.kind) front) slot
                ∙ ap (λ l. alloca SsaTy.dyn (min (locals + k) 254) ∷ l) kinds)
              next e2)
    ]

slots_of_result :
    (ps : List PhiInst) (f g : SsaFunction)
    → There f f.entry
    → All (λ p. p.id < f.next_value) ps
    → lower_phis ps f ≡ some g
    → Allocates (slots f.local_count (length ps)) g
slots_of_result ps f g (b, at) old e =
    let first : phi_slot f ≡ min (f.local_count + 0) 254 = unfold phi_slot in omega arith in
    let counted : 0 + length ps ≡ length ps = omega arith in
    subst (λ m. Allocates (slots f.local_count m) g) counted
      (lower_phis_lem ps f g f.next_value f.local_count 0 [] old (omega arith) tt
        (b, (at, (b.insts, refl))) refl first e)

-- If the entry of a function, the blocks of its phis and their predecessors are there and the numbers of
-- the phis are below that of the next value, lowering the phis comes to a result, which has the
-- instructions that allocate their slots at the start of the entry block, the last phi's first: the slots
-- follow the locals, but none is behind 254, so that from there on all phis share slot 254.
pub lower_phis-slots :
    (ps : List PhiInst) (f : SsaFunction)
    → There f f.entry
    → All (Targets f) ps
    → All (λ p. p.id < f.next_value) ps
    → (g : SsaFunction) × ((lower_phis ps f ≡ some g)
        × Allocates (slots f.local_count (length ps)) g)
lower_phis-slots ps f start targets old =
    let (g, e) = lower_phis-returns ps f start targets in
    (g, (e, slots_of_result ps f g start old e))
