-- ===== src/Gc/Finalize.antt =====
-- The finalizers of src/gc.rs: which objects are due one, and what is left of them when it runs.
use mathlib.Core.Path.{subst}
use mathlib.Core.List.{Memᴰ}
use mathlib.Core.List.Memᴰ
use raytask.Prelude.{
  ℕ, ◌≡◌, refl, sym, ap, ◌∙◌, true, false, not, ◌&&◌, Option, some, List, [], ◌∷◌, inl, inr, ◌↔◌,
  Bool-cases, arith, get_elem?,
}
use raytask.Prelude.Options.{◌>>=◌}
use raytask.Value.{Value}
use raytask.Worklist.{contains, Memᴰ→contains}
use raytask.Worklist.Found.{Option-cases}
use raytask.Gc.{
  GcHeap, Memory, Contents, ObjectInstance, data_of, cell_contents, finals, unfinalized, finish,
  collect, cleared, clear_cell,
}
use raytask.Gc.Marking.{Live, FlagsTracked}
use raytask.Gc.Collect.{finished, marks-Live, not-Live, collect-empties}

-- The cell is neither marked nor of an object that was finalized.
abbrev Due : Memory → (marks : List ℕ) → ℕ → Type 0
Due m marks k = (contains marks k ≡ false) × (unfinalized (cell_contents m k) ≡ true)

finals→Due :
    (m : Memory) (marks ts : List ℕ) (k : ℕ)
    → Memᴰ k (finals m marks ts)
    → Memᴰ k ts × Due m marks k
unfolding finals
finals→Due m marks [] k x' = elim x' [ ]
finals→Due m marks (t ∷ ts) k n =
    elim (Bool-cases (not (contains marks t) && unfinalized (cell_contents m t))) [
      | inl e ↦ elim (Memᴰ.cases_cons (subst (λ l. Memᴰ k l) (rw (finals, e) refl) n)) [
        | inl same ↦ (Memᴰ.head same, subst (Due m marks) (sym same) (ground arith, ground arith))
        | inr later ↦ let p = finals→Due m marks ts k later in (Memᴰ.tail (p.0), p.1)
      ]
      | inr e ↦
          let p = finals→Due m marks ts k (subst (λ l. Memᴰ k l) (rw (finals, e) refl) n) in
          (Memᴰ.tail (p.0), p.1)
    ]

Due→finals :
    (m : Memory) (marks ts : List ℕ) (k : ℕ)
    → Memᴰ k ts
    → Due m marks k
    → Memᴰ k (finals m marks ts)
unfolding finals
Due→finals m marks [] k x' due = elim x' [ ]
Due→finals m marks (t ∷ ts) k n (unmarked, old) =
    elim (Bool-cases (not (contains marks t) && unfinalized (cell_contents m t))) [
      | inl e ↦ rw e (elim (Memᴰ.cases_cons n) [
        | inl same ↦ Memᴰ.head same
        | inr later ↦ Memᴰ.tail (Due→finals m marks ts k later (unmarked, old))
      ])
      | inr e ↦ rw e (elim (Memᴰ.cases_cons n) [
        | inl same ↦
            let both : Due m marks t = subst (Due m marks) same (unmarked, old) in
            let out = both.0 in let is_due = both.1 in absurd (ground arith)
        | inr later ↦ Due→finals m marks ts k later (unmarked, old)
      ])
    ]

unfinalized-object :
    (c : Option Contents)
    → unfinalized c ≡ true
    → (o : ObjectInstance) × ((c ≡ some (data_of o)) × (o.finalized ≡ false))
unfolding unfinalized
unfinalized-object (some (data_of o)) e = (o, (refl, ground arith))
unfinalized-object _ e = ground arith

module _ (fuel : ℕ) (roots : List Value) (h : GcHeap) (m : Memory) (r : GcHeap × Memory)
    (on : h.config.enabled ≡ true) (flags : FlagsTracked h m)
    (ends : collect fuel roots h m ≡ some r) where
  -- After a collection of an enabled heap a finalizer is pending for exactly the tracked objects that were
  -- not finalized and that the roots do not lead to, if only tracked cells had their flag set.
  pub collect-finalizers :
      (k : ℕ)
      → Memᴰ k (r.0.pending_finalizers)
        ↔ (Memᴰ k h.tracked × ((Live m roots k → ⊥) × (unfinalized (cell_contents m k) ≡ true)))
  unfolding finish
  collect-finalizers k =
      let f = finished fuel roots h m r on flags ends in
      (
        (λ due.
            let p =
              finals→Due m (f.0) h.tracked k
                (subst (λ x. Memᴰ k (x.0.pending_finalizers)) (sym (f.1.1)) due) in
            (
              p.0,
              (
                (λ live.
                    let e =
                      Memᴰ→contains (f.0) k
                        ((marks-Live fuel roots h m r on flags ends k).1 live) in
                    let out = p.1.0 in ground arith),
                p.1.1,
              ),
            )),
        (λ (was, (dead, old)).
            subst (λ x. Memᴰ k (x.0.pending_finalizers)) (f.1.1)
              (Due→finals m (f.0) h.tracked k was
                (not-Live fuel roots h m r on flags ends k dead, old))),
      )

  -- What a finalizer is pending for after a collection of an enabled heap is an object that was not
  -- finalized and that has lost all its fields, if only tracked cells had their flag set.
  pub collect-finalizes_empty :
      (k : ℕ)
      → Memᴰ k (r.0.pending_finalizers)
      → (o : ObjectInstance) × ((cell_contents m k ≡ some (data_of o))
          × (cell_contents (r.1) k ≡ some (data_of (record o { fields = [] }))))
  unfolding cell_contents clear_cell cleared
  collect-finalizes_empty k due =
      let p = (collect-finalizers k).0 due in
      let q = unfinalized-object (cell_contents m k) (p.1.1) in
      (
        q.0,
        (
          q.1.0,
          elim (Option-cases (get_elem? m.cells k)) [
            | inl gone ↦ absurd (let e = q.1.0 in ground arith)
            | inr (c, at) ↦
                let same : c.contents ≡ data_of (q.0) = let e = q.1.0 in cc in
                ap (λ x. x >>= (λ d. some d.contents))
                  (collect-empties fuel roots h m r on flags ends k c (p.0) (p.1.0) at)
                ∙ ap (λ x. some (cleared x)) same
          ],
        ),
      )
