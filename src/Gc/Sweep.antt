-- ===== src/Gc/Sweep.antt =====
-- The loop over the tracked cells in `collect` of src/gc.rs: which cells stay and what becomes of the others.
use mathlib.Core.Path.{subst}
use mathlib.Core.List.{Memᴰ}
use mathlib.Core.List.Memᴰ
use raytask.Prelude.{
  ℕ, suc, ◌≡◌, refl, sym, ap, ◌∙◌, true, false, some, List, [], ◌∷◌, inl, inr, Bool-cases, ◌+◌,
  ◌==◌, arith, length, get_elem?, modify, get_elem?-modify, get_elem?-modify_other, length-modify,
}
use raytask.Worklist.{contains, contains→Memᴰ, Memᴰ→contains}
use raytask.Gc.{GcCell, Contents, sweep, clear_cell, cleared, size_at}

-- What the loop leaves when the first cell is marked, and when it is not.
sweep-marked :
    (marks : List ℕ) (t : ℕ) (ts : List ℕ) (cells : List GcCell)
    → contains marks t ≡ true
    → sweep marks (t ∷ ts) cells
      ≡ record (sweep marks ts cells) { alive = t ∷ (sweep marks ts cells).alive }
unfolding sweep
sweep-marked marks t ts cells e = rw (sweep, e) refl

sweep-unmarked :
    (marks : List ℕ) (t : ℕ) (ts : List ℕ) (cells : List GcCell)
    → contains marks t ≡ false
    → sweep marks (t ∷ ts) cells ≡ record (sweep marks ts (modify t clear_cell cells)) {
      freed = suc (sweep marks ts (modify t clear_cell cells)).freed;
      freed_bytes = size_at cells t + (sweep marks ts (modify t clear_cell cells)).freed_bytes;
    }
unfolding sweep
sweep-unmarked marks t ts cells e = rw (sweep, e) refl

pub alive→marked :
    (marks ts : List ℕ) (cells : List GcCell) (k : ℕ)
    → Memᴰ k ((sweep marks ts cells).alive)
    → Memᴰ k ts × Memᴰ k marks
unfolding sweep
alive→marked marks [] cells k x' = elim x' [ ]
alive→marked marks (t ∷ ts) cells k m = elim (Bool-cases (contains marks t)) [
  | inl e ↦
      elim (Memᴰ.cases_cons (subst (λ s. Memᴰ k (s.alive)) (sweep-marked marks t ts cells e) m)) [
        | inl same ↦ (Memᴰ.head same, contains→Memᴰ marks k (rw same e))
        | inr n ↦ let r = alive→marked marks ts cells k n in (Memᴰ.tail r.0, r.1)
      ]
  | inr e ↦
      let n = subst (λ s. Memᴰ k (s.alive)) (sweep-unmarked marks t ts cells e) m in
      let r = alive→marked marks ts (modify t clear_cell cells) k n in (Memᴰ.tail r.0, r.1)
]

pub marked→alive :
    (marks ts : List ℕ) (cells : List GcCell) (k : ℕ)
    → Memᴰ k ts
    → Memᴰ k marks
    → Memᴰ k ((sweep marks ts cells).alive)
marked→alive marks [] cells k x' m = elim x' [ ]
marked→alive marks (t ∷ ts) cells k n m = elim (Bool-cases (contains marks t)) [
  | inl e ↦
      subst (λ s. Memᴰ k (s.alive)) (sym (sweep-marked marks t ts cells e))
        (elim (Memᴰ.cases_cons n) [
          | inl same ↦ Memᴰ.head same
          | inr later ↦ Memᴰ.tail (marked→alive marks ts cells k later m)
        ])
  | inr e ↦
      subst (λ s. Memᴰ k (s.alive)) (sym (sweep-unmarked marks t ts cells e))
        (elim (Memᴰ.cases_cons n) [
          | inl same ↦ let yes = Memᴰ→contains marks k m in absurd (ground arith)
          | inr later ↦ marked→alive marks ts (modify t clear_cell cells) k later m
        ])
]

-- A marked cell is left as it is.
pub sweep-keeps :
    (marks ts : List ℕ) (cells : List GcCell) (k : ℕ)
    → Memᴰ k marks
    → get_elem? ((sweep marks ts cells).cells) k ≡ get_elem? cells k
unfolding sweep
sweep-keeps marks [] cells k m = refl
sweep-keeps marks (t ∷ ts) cells k m = elim (Bool-cases (contains marks t)) [
  | inl e ↦ rw (sweep-marked marks t ts cells e) (sweep-keeps marks ts cells k m)
  | inr e ↦
      let yes = Memᴰ→contains marks k m in
      rw (sweep-unmarked marks t ts cells e) (
        sweep-keeps marks ts (modify t clear_cell cells) k m
        ∙ get_elem?-modify_other t k clear_cell cells (λ same. absurd (ground arith)))
]

cleared_twice : (c : Contents) → cleared (cleared c) ≡ cleared c
unfolding cleared
cleared_twice (Contents.items vs) = refl
cleared_twice (Contents.entries kvs) = refl
cleared_twice (Contents.data_of o) = refl

clear_cell_twice : (c : GcCell) → clear_cell (clear_cell c) ≡ clear_cell c
unfolding clear_cell
clear_cell_twice c = ap (λ x. record c { contents = x }) (cleared_twice c.contents)

-- The cell is empty already, and stays so.
sweep-empty :
    (marks ts : List ℕ) (cells : List GcCell) (k : ℕ) (c : GcCell)
    → get_elem? cells k ≡ some (clear_cell c)
    → get_elem? ((sweep marks ts cells).cells) k ≡ some (clear_cell c)
unfolding sweep
sweep-empty marks [] cells k c h = h
sweep-empty marks (t ∷ ts) cells k c h = elim (Bool-cases (contains marks t)) [
  | inl e ↦ rw (sweep-marked marks t ts cells e) (sweep-empty marks ts cells k c h)
  | inr e ↦ rw (sweep-unmarked marks t ts cells e) (
      sweep-empty marks ts (modify t clear_cell cells) k c (elim (Bool-cases (t == k)) [
        | inl same ↦
            let at : t ≡ k = ground arith in
            subst (λ i. get_elem? (modify i clear_cell cells) k ≡ some (clear_cell c)) (sym at)
              (get_elem?-modify k clear_cell cells (clear_cell c) h ∙ ap some (clear_cell_twice c))
        | inr other ↦ get_elem?-modify_other t k clear_cell cells (λ i. absurd (ground arith)) ∙ h
      ]))
]

-- A tracked cell that is not marked is emptied.
pub sweep-empties :
    (marks ts : List ℕ) (cells : List GcCell) (k : ℕ) (c : GcCell)
    → Memᴰ k ts
    → contains marks k ≡ false
    → get_elem? cells k ≡ some c
    → get_elem? ((sweep marks ts cells).cells) k ≡ some (clear_cell c)
sweep-empties marks [] cells k c x' out h = elim x' [ ]
sweep-empties marks (t ∷ ts) cells k c n out h = elim (Bool-cases (contains marks t)) [
  | inl e ↦ rw (sweep-marked marks t ts cells e) (elim (Memᴰ.cases_cons n) [
    | inl same ↦ absurd (ground arith)
    | inr later ↦ sweep-empties marks ts cells k c later out h
  ])
  | inr e ↦ rw (sweep-unmarked marks t ts cells e) (elim (Bool-cases (t == k)) [
    | inl same ↦
        let at : k ≡ t = ground arith in
        sweep-empty marks ts (modify t clear_cell cells) k c (
          subst (λ i. get_elem? (modify i clear_cell cells) k ≡ some (clear_cell c)) at
            (get_elem?-modify k clear_cell cells c h))
    | inr other ↦ elim (Memᴰ.cases_cons n) [
      | inl first ↦ absurd (ground arith)
      | inr later ↦
          sweep-empties marks ts (modify t clear_cell cells) k c later out
            (get_elem?-modify_other t k clear_cell cells (λ i. absurd (ground arith)) ∙ h)
    ]
  ])
]

-- Every tracked cell is kept or counted as freed.
pub sweep-count :
    (marks ts : List ℕ) (cells : List GcCell)
    → length ((sweep marks ts cells).alive) + (sweep marks ts cells).freed ≡ length ts
unfolding sweep
sweep-count marks [] cells = refl
sweep-count marks (t ∷ ts) cells = elim (Bool-cases (contains marks t)) [
  | inl e ↦ rw (sweep-marked marks t ts cells e) (omega (arith, sweep-count marks ts cells))
  | inr e ↦
      rw (sweep-unmarked marks t ts cells e)
        (omega (arith, sweep-count marks ts (modify t clear_cell cells)))
]

pub length-sweep :
    (marks ts : List ℕ) (cells : List GcCell) → length ((sweep marks ts cells).cells) ≡ length cells
unfolding sweep
length-sweep marks [] cells = refl
length-sweep marks (t ∷ ts) cells = elim (Bool-cases (contains marks t)) [
  | inl e ↦ rw (sweep-marked marks t ts cells e) (length-sweep marks ts cells)
  | inr e ↦
      rw (sweep-unmarked marks t ts cells e)
        (length-sweep marks ts (modify t clear_cell cells) ∙ length-modify t clear_cell cells)
]

-- Where every tracked cell is marked nothing is freed.
pub sweep-all :
    (marks ts : List ℕ) (cells : List GcCell)
    → ((k : ℕ) → Memᴰ k ts → Memᴰ k marks)
    → (sweep marks ts cells).freed ≡ 0
unfolding sweep
sweep-all marks [] cells all = refl
sweep-all marks (t ∷ ts) cells all =
    let e = Memᴰ→contains marks t (all t (Memᴰ.head refl)) in
    rw (sweep-marked marks t ts cells e) (sweep-all marks ts cells (λ k m. all k (Memᴰ.tail m)))
