-- ===== src/Ssa/Dce/Closed.antt =====
-- The sets of values of src/ssa/passes/dce.rs: what is inserted, and what the work list brings to an end.
use mathlib.Core.Path.{subst}
use mathlib.Core.List.{Memᴰ}
use mathlib.Core.List.Memᴰ
use raytask.Prelude.{
  ℕ, zero, suc, ◌≡◌, refl, sym, Bool-cases, some, List, [], ◌∷◌, ◌⊎◌, inl, inr, ◌+◌, ◌<◌, ◌≤◌,
  length, arith,
}
use raytask.Worklist.{contains, contains→Memᴰ}
use raytask.Worklist.Ends.{unmarked, unmarked-marked}
use raytask.Ssa.{Inst}
use raytask.Ssa.Dce.{insert_all, push_new, deps, def_of, propagate}

pub insert_all-cases :
    (vs live : List ℕ) (x : ℕ) → Memᴰ x (insert_all vs live) → Memᴰ x vs ⊎ Memᴰ x live
unfolding insert_all
insert_all-cases [] live x m = inr m
insert_all-cases (v ∷ vs) live x m = elim (Bool-cases (contains live v)) [
  | inl e ↦ elim (insert_all-cases vs live x (subst (λ l. Memᴰ x l) (rw (insert_all, e) refl) m)) [
    | inl a ↦ inl (Memᴰ.tail a)
    | inr b ↦ inr b
  ]
  | inr e ↦
      elim (insert_all-cases vs (v ∷ live) x (subst (λ l. Memᴰ x l) (rw (insert_all, e) refl) m)) [
        | inl a ↦ inl (Memᴰ.tail a)
        | inr b ↦ elim (Memᴰ.cases_cons b) [ inl same ↦ inl (Memᴰ.head same) | inr old ↦ inr old ]
      ]
]

pub insert_all-keeps : (vs live : List ℕ) (x : ℕ) → Memᴰ x live → Memᴰ x (insert_all vs live)
unfolding insert_all
insert_all-keeps [] live x m = m
insert_all-keeps (v ∷ vs) live x m = elim (Bool-cases (contains live v)) [
  | inl e ↦ rw e (insert_all-keeps vs live x m)
  | inr e ↦ rw e (insert_all-keeps vs (v ∷ live) x (Memᴰ.tail m))
]

pub insert_all-adds : (vs live : List ℕ) (x : ℕ) → Memᴰ x vs → Memᴰ x (insert_all vs live)
unfolding insert_all
insert_all-adds [] live x x' = elim x' [ ]
insert_all-adds (v ∷ vs) live x m = elim (Bool-cases (contains live v)) [
  | inl e ↦ rw e (elim (Memᴰ.cases_cons m) [
    | inl same ↦
        insert_all-keeps vs live x (subst (λ y. Memᴰ y live) (sym same) (contains→Memᴰ live v e))
    | inr n ↦ insert_all-adds vs live x n
  ])
  | inr e ↦ rw e (elim (Memᴰ.cases_cons m) [
    | inl same ↦ insert_all-keeps vs (v ∷ live) x (Memᴰ.head same)
    | inr n ↦ insert_all-adds vs (v ∷ live) x n
  ])
]

-- Both results of the inner loop hold what they held, the live values hold the new ones, and each new one is on
-- the work list.
abbrev Pushed : (ds live work : List ℕ) → List ℕ × List ℕ → Type 0
Pushed ds live work next =
    ((x : ℕ) → Memᴰ x live → Memᴰ x (next.0))
    × (((x : ℕ) → Memᴰ x work → Memᴰ x (next.1))
        × (((x : ℕ) → Memᴰ x ds → Memᴰ x (next.0))
            × (((x : ℕ) → Memᴰ x (next.0) → Memᴰ x live ⊎ (Memᴰ x ds × Memᴰ x (next.1)))
                × ((x : ℕ) → Memᴰ x (next.1) → Memᴰ x work ⊎ Memᴰ x ds))))

push_new-Pushed : (ds live work : List ℕ) → Pushed ds live work (push_new ds live work)
unfolding push_new
push_new-Pushed [] live work =
    ((λ x m. m), ((λ x m. m), ((λ x x'. elim x' [ ]), ((λ x m. inl m), (λ x m. inl m)))))
push_new-Pushed (d ∷ ds) live work = elim (Bool-cases (contains live d)) [
  | inl e ↦
      let (keeps, (keeps_work, (adds, (cases, cases_work)))) = push_new-Pushed ds live work in
      rw e (
        keeps,
        (
          keeps_work,
          (
            (λ x m. elim (Memᴰ.cases_cons m) [
              | inl same ↦ keeps x (subst (λ y. Memᴰ y live) (sym same) (contains→Memᴰ live d e))
              | inr n ↦ adds x n
            ]),
            (
              (λ x m. elim (cases x m) [ inl old ↦ inl old | inr (n, w) ↦ inr (Memᴰ.tail n, w) ]),
              (λ x m. elim (cases_work x m) [ inl old ↦ inl old | inr n ↦ inr (Memᴰ.tail n) ]),
            ),
          ),
        ),
      )
  | inr e ↦
      let (keeps, (keeps_work, (adds, (cases, cases_work)))) =
        push_new-Pushed ds (d ∷ live) (d ∷ work) in
      rw e (
        (λ x m. keeps x (Memᴰ.tail m)),
        (
          (λ x m. keeps_work x (Memᴰ.tail m)),
          (
            (λ x m. elim (Memᴰ.cases_cons m) [
              | inl same ↦ keeps x (Memᴰ.head same)
              | inr n ↦ adds x n
            ]),
            (
              (λ x m. elim (cases x m) [
                | inl new ↦ elim (Memᴰ.cases_cons new) [
                  | inl same ↦ inr (Memᴰ.head same, keeps_work x (Memᴰ.head same))
                  | inr old ↦ inl old
                ]
                | inr (n, w) ↦ inr (Memᴰ.tail n, w)
              ]),
              (λ x m. elim (cases_work x m) [
                | inl new ↦ elim (Memᴰ.cases_cons new) [
                  | inl same ↦ inr (Memᴰ.head same)
                  | inr old ↦ inl old
                ]
                | inr n ↦ inr (Memᴰ.tail n)
              ]),
            ),
          ),
        ),
      )
]

module _ (insts : List Inst) where
  abbrev deps_of : ℕ → List ℕ
  deps_of v = deps (def_of insts v)

  -- A live value waits on the work list, or what it needs is live.
  abbrev Waiting : (live work : List ℕ) → Type 0
  Waiting live work =
      (v : ℕ) → Memᴰ v live → Memᴰ v work ⊎ ((d : ℕ) → Memᴰ d (deps_of v) → Memᴰ d live)

  -- In the end what was live is so still, and what a live value needs is live.
  pub propagate-closed :
      (fuel : ℕ) (live work final : List ℕ)
      → Waiting live work
      → propagate fuel insts live work ≡ some final
      → ((v : ℕ) → Memᴰ v live → Memᴰ v final)
        × ((v d : ℕ) → Memᴰ v final → Memᴰ d (deps_of v) → Memᴰ d final)
  unfolding propagate
  propagate-closed fuel live [] final waiting e =
      let same : live ≡ final = cc in
      (
        (λ v m. subst (λ l. Memᴰ v l) same m),
        (λ v d m n. elim (waiting v (subst (λ l. Memᴰ v l) (sym same) m)) [
          | inl x' ↦ elim x' [ ]
          | inr all ↦ subst (λ l. Memᴰ d l) same (all d n)
        ]),
      )
  propagate-closed zero live (v ∷ work) final waiting e = ground arith
  propagate-closed (suc fuel) live (v ∷ work) final waiting e =
      let (keeps, (keeps_work, (adds, (cases, cases_work)))) =
        push_new-Pushed (deps_of v) live work in
      let next = push_new (deps_of v) live work in
      let (later, closed) =
        propagate-closed fuel (next.0) (next.1) final
          (λ x m. elim (cases x m) [
            | inl old ↦ elim (waiting x old) [
              | inl waits ↦ elim (Memᴰ.cases_cons waits) [
                | inl same ↦ inr (λ d n. adds d (subst (λ y. Memᴰ d (deps_of y)) same n))
                | inr w ↦ inl (keeps_work x w)
              ]
              | inr all ↦ inr (λ d n. keeps d (all d n))
            ]
            | inr (n, w) ↦ inl w
          ])
          e in
      ((λ x m. later x (keeps x m)), closed)

  -- What is live in the end satisfies whatever the live values did and what they need does.
  pub propagate-least :
      (P : ℕ → Type 0)
      → ((v d : ℕ) → P v → Memᴰ d (deps_of v) → P d)
      → (fuel : ℕ) (live work final : List ℕ) → ((v : ℕ) → Memᴰ v live → P v)
      → ((v : ℕ) → Memᴰ v work → P v)
      → propagate fuel insts live work ≡ some final
      → (v : ℕ) → Memᴰ v final
      → P v
  unfolding propagate
  propagate-least P step fuel live [] final all all_work e v m =
      let same : live ≡ final = cc in all v (subst (λ l. Memᴰ v l) (sym same) m)
  propagate-least P step zero live (w ∷ work) final all all_work e v m = ground arith
  propagate-least P step (suc fuel) live (w ∷ work) final all all_work e v m =
      let (keeps, (keeps_work, (adds, (cases, cases_work)))) =
        push_new-Pushed (deps_of w) live work in
      let next = push_new (deps_of w) live work in
      let from_w = all_work w (Memᴰ.head refl) in
      propagate-least P step fuel (next.0) (next.1) final
        (λ x n. elim (cases x n) [ inl old ↦ all x old | inr (d, on) ↦ step w x from_w d ])
        (λ x n. elim (cases_work x n) [
          | inl old ↦ all_work x (Memᴰ.tail old)
          | inr d ↦ step w x from_w d
        ])
        e v m

push_new-measure :
    (bound : ℕ) (ds live work : List ℕ)
    → ((d : ℕ) → Memᴰ d ds → d < bound)
    → unmarked bound ((push_new ds live work).0) + length ((push_new ds live work).1)
      ≡ unmarked bound live + length work
unfolding push_new
push_new-measure bound [] live work below = refl
push_new-measure bound (d ∷ ds) live work below = elim (Bool-cases (contains live d)) [
  | inl e ↦ rw e (push_new-measure bound ds live work (λ x m. below x (Memᴰ.tail m)))
  | inr e ↦ rw e (
      omega (
        arith,
        push_new-measure bound ds (d ∷ live) (d ∷ work) (λ x m. below x (Memᴰ.tail m)),
        unmarked-marked bound d live (below d (Memᴰ.head refl)) e,
      ))
]

-- Each round takes one value off the count of those that are not live or that wait.
pub propagate-returns :
    (insts : List Inst) (bound : ℕ)
    → ((v d : ℕ) → Memᴰ d (deps (def_of insts v)) → d < bound)
    → (fuel : ℕ) (live work : List ℕ) → unmarked bound live + length work ≤ fuel
    → (final : List ℕ) × (propagate fuel insts live work ≡ some final)
unfolding propagate
propagate-returns insts bound below fuel live [] enough = (live, refl)
propagate-returns insts bound below zero live (v ∷ work) enough = absurd (omega arith)
propagate-returns insts bound below (suc fuel) live (v ∷ work) enough =
    let next = push_new (deps (def_of insts v)) live work in
    let same = push_new-measure bound (deps (def_of insts v)) live work (below v) in
    propagate-returns insts bound below fuel (next.0) (next.1) (omega arith)
