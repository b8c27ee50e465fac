-- ===== src/Ssa/Dce/Needed.antt =====
-- What the effects and the terminators of a function need, and where src/ssa/passes/dce.rs starts from.
use mathlib.Core.Path.{subst}
use mathlib.Core.List.{Memᴰ}
use mathlib.Core.List.Memᴰ
use raytask.Prelude.{ℕ, ◌≡◌, refl, true, Bool-cases, some, List, [], ◌∷◌, ◌⊎◌, inl, inr}
use raytask.Ssa.{InstKind, Inst, Terminator, Blocks, values}
use raytask.Ssa.Uses.{mark_uses, term_uses}
use raytask.Ssa.Dce.{insert_all, inst_roots, roots, def_of}
use raytask.Ssa.Dce.Closed.{insert_all-cases, insert_all-keeps, insert_all-adds}

abbrev pub terms : Blocks → List Terminator
terms [] = []
terms ((k, b) ∷ bs) = b.term ∷ terms bs

-- What an effect or a terminator needs, directly or through what it needs.
pub data Needed (bs : Blocks) : ℕ → Type 0 where
  effect : {i : Inst} → Memᴰ i (values bs) → i.effectful ≡ true → Needed bs i.id
  effect_use :
      {i : Inst} {v : ℕ}
      → Memᴰ i (values bs)
      → i.effectful ≡ true
      → Memᴰ v (mark_uses i.kind)
      → Needed bs v
  term_use : {t : Terminator} {v : ℕ} → Memᴰ t (terms bs) → Memᴰ v (term_uses t) → Needed bs v
  dep :
      {u v : ℕ} {kind : InstKind}
      → Needed bs u
      → def_of (values bs) u ≡ some kind
      → Memᴰ v (mark_uses kind)
      → Needed bs v

-- The values that `inst_roots` adds.
abbrev pub Root : List Inst → ℕ → Type 0
Root is x =
    (i : Inst) × (Memᴰ i is
      × ((i.effectful ≡ true) × (Memᴰ x (i.id ∷ []) ⊎ Memᴰ x (mark_uses i.kind))))

Root-tail : (i : Inst) (is : List Inst) (x : ℕ) → Root is x → Root (i ∷ is) x
Root-tail i is x (j, (m, r)) = (j, (Memᴰ.tail m, r))

inst_roots-cases :
    (is : List Inst) (live : List ℕ) (x : ℕ) → Memᴰ x (inst_roots is live) → Root is x ⊎ Memᴰ x live
unfolding inst_roots
inst_roots-cases [] live x m = inr m
inst_roots-cases (i ∷ is) live x m = elim (Bool-cases i.effectful) [
  | inl e ↦
      elim (inst_roots-cases is (insert_all (mark_uses i.kind) (insert_all (i.id ∷ []) live)) x
        (subst (λ l. Memᴰ x l) (rw (inst_roots, e) refl) m)) [
          | inl r ↦ inl (Root-tail i is x r)
          | inr n ↦ elim (insert_all-cases (mark_uses i.kind) (insert_all (i.id ∷ []) live) x n) [
            | inl u ↦ inl (i, (Memᴰ.head refl, (e, inr u)))
            | inr o ↦ elim (insert_all-cases (i.id ∷ []) live x o) [
              | inl own ↦ inl (i, (Memᴰ.head refl, (e, inl own)))
              | inr old ↦ inr old
            ]
          ]
        ]
  | inr e ↦ elim (inst_roots-cases is live x (subst (λ l. Memᴰ x l) (rw (inst_roots, e) refl) m)) [
    | inl r ↦ inl (Root-tail i is x r)
    | inr old ↦ inr old
  ]
]

inst_roots-keeps :
    (is : List Inst) (live : List ℕ) (x : ℕ) → Memᴰ x live → Memᴰ x (inst_roots is live)
unfolding inst_roots
inst_roots-keeps [] live x m = m
inst_roots-keeps (i ∷ is) live x m = elim (Bool-cases i.effectful) [
  | inl e ↦ rw e (
      inst_roots-keeps is (insert_all (mark_uses i.kind) (insert_all (i.id ∷ []) live)) x (
        insert_all-keeps (mark_uses i.kind) (insert_all (i.id ∷ []) live) x
          (insert_all-keeps (i.id ∷ []) live x m)))
  | inr e ↦ rw e (inst_roots-keeps is live x m)
]

inst_roots-adds : (is : List Inst) (live : List ℕ) (x : ℕ) → Root is x → Memᴰ x (inst_roots is live)
unfolding inst_roots
inst_roots-adds [] live x (j, (x', r)) = elim x' [ ]
inst_roots-adds (i ∷ is) live x (j, (Memᴰ.head same, (on, r))) =
    let e : i.effectful ≡ true = subst (λ k. k.effectful ≡ true) same on in
    let own = insert_all (i.id ∷ []) live in
    rw e (
      inst_roots-keeps is (insert_all (mark_uses i.kind) own) x
        (elim (subst (λ k. Memᴰ x (k.id ∷ []) ⊎ Memᴰ x (mark_uses k.kind)) same r) [
          | inl is_own ↦
              insert_all-keeps (mark_uses i.kind) own x (insert_all-adds (i.id ∷ []) live x is_own)
          | inr u ↦ insert_all-adds (mark_uses i.kind) own x u
        ]))
inst_roots-adds (i ∷ is) live x (j, (Memᴰ.tail m, r)) = elim (Bool-cases i.effectful) [
  | inl e ↦ rw e (
      inst_roots-adds is (insert_all (mark_uses i.kind) (insert_all (i.id ∷ []) live)) x
        (j, (m, r)))
  | inr e ↦ rw e (inst_roots-adds is live x (j, (m, r)))
]

abbrev pub TermRoot : List Terminator → ℕ → Type 0
TermRoot ts x = (t : Terminator) × (Memᴰ t ts × Memᴰ x (term_uses t))

pub roots-cases :
    (bs : Blocks) (live : List ℕ) (x : ℕ)
    → Memᴰ x (roots bs live)
    → (Root (values bs) x ⊎ TermRoot (terms bs) x) ⊎ Memᴰ x live
unfolding roots values
roots-cases [] live x m = inr m
roots-cases ((k, b) ∷ bs) live x m =
    elim (roots-cases bs (insert_all (term_uses b.term) (inst_roots b.insts live)) x m) [
      | inl (inl (i, (n, r))) ↦ inl (inl (i, (Memᴰ.append_right b.insts n, r)))
      | inl (inr (t, (n, u))) ↦ inl (inr (t, (Memᴰ.tail n, u)))
      | inr n ↦ elim (insert_all-cases (term_uses b.term) (inst_roots b.insts live) x n) [
        | inl u ↦ inl (inr (b.term, (Memᴰ.head refl, u)))
        | inr o ↦ elim (inst_roots-cases b.insts live x o) [
          | inl (i, (at, r)) ↦ inl (inl (i, (Memᴰ.append_left (values bs) at, r)))
          | inr old ↦ inr old
        ]
      ]
    ]

roots-keeps : (bs : Blocks) (live : List ℕ) (x : ℕ) → Memᴰ x live → Memᴰ x (roots bs live)
unfolding roots
roots-keeps [] live x m = m
roots-keeps ((k, b) ∷ bs) live x m =
    roots-keeps bs (insert_all (term_uses b.term) (inst_roots b.insts live)) x (
      insert_all-keeps (term_uses b.term) (inst_roots b.insts live) x
        (inst_roots-keeps b.insts live x m))

pub roots-inst : (bs : Blocks) (live : List ℕ) (x : ℕ) → Root (values bs) x → Memᴰ x (roots bs live)
unfolding roots values
roots-inst [] live x (i, (x', r)) = elim x' [ ]
roots-inst ((k, b) ∷ bs) live x (i, (m, r)) = elim (Memᴰ.append_cases b.insts m) [
  | inl n ↦ roots-keeps bs (insert_all (term_uses b.term) (inst_roots b.insts live)) x (
      insert_all-keeps (term_uses b.term) (inst_roots b.insts live) x
        (inst_roots-adds b.insts live x (i, (n, r))))
  | inr n ↦ roots-inst bs (insert_all (term_uses b.term) (inst_roots b.insts live)) x (i, (n, r))
]

pub roots-term :
    (bs : Blocks) (live : List ℕ) (x : ℕ) → TermRoot (terms bs) x → Memᴰ x (roots bs live)
unfolding roots
roots-term [] live x (t, (x', u)) = elim x' [ ]
roots-term ((k, b) ∷ bs) live x (t, (Memᴰ.head same, u)) =
    roots-keeps bs (insert_all (term_uses b.term) (inst_roots b.insts live)) x (
      insert_all-adds (term_uses b.term) (inst_roots b.insts live) x
        (subst (λ s. Memᴰ x (term_uses s)) same u))
roots-term ((k, b) ∷ bs) live x (t, (Memᴰ.tail m, u)) =
    roots-term bs (insert_all (term_uses b.term) (inst_roots b.insts live)) x (t, (m, u))
