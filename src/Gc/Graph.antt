-- ===== src/Gc/Graph.antt =====
-- The values that the program can still reach after `collect` of src/gc.rs, and the invariant of the heap.
use mathlib.Core.Path.{subst}
use mathlib.Core.List.{Memᴰ}
use raytask.Prelude.{
  ℕ, ◌≡◌, refl, sym, ap, ◌∙◌, true, none, some, List, [], ◌∷◌, inl, inr, ◌↔◌, arith,
}
use raytask.Prelude.Options.{◌>>=◌}
use raytask.Value.{Value}
use raytask.Worklist.Found.{Option-cases, root, child}
use raytask.Gc.{
  GcHeap, Memory, key, children, cell_contents, values_of, upvalues_at, finish, collect,
}
use raytask.Gc.Sweep.{sweep-all}
use raytask.Gc.Marking.{Leads, Live, FlagsTracked, children-key}
use raytask.Gc.Collect.{finished, marks-Live, collect-tracked, collect-keeps}

upvalues_at-same :
    (m n : Memory) (us : List ℕ) → m.upvalues ≡ n.upvalues → upvalues_at m us ≡ upvalues_at n us
unfolding upvalues_at
upvalues_at-same m n [] e = refl
upvalues_at-same m n (u ∷ us) e = rw (e, upvalues_at-same m n us e) refl

-- What has no flag has the same children in memories that differ only in their cells.
pub children-unkeyed :
    (m n : Memory) (v : Value)
    → key v ≡ none
    → m.upvalues ≡ n.upvalues
    → m.tasks ≡ n.tasks
    → children m v ≡ children n v
unfolding children key
children-unkeyed m n (Value.array i) e up ta = ground arith
children-unkeyed m n (Value.dict i) e up ta = ground arith
children-unkeyed m n (Value.object i) e up ta = ground arith
children-unkeyed m n (Value.task i) e up ta = rw ta refl
children-unkeyed m n (Value.function name chunk_index arity defaults is_async upvalues) e up ta =
    upvalues_at-same m n upvalues up
children-unkeyed m n _ e up ta = refl

module _ (fuel : ℕ) (roots : List Value) (h : GcHeap) (m : Memory) (r : GcHeap × Memory)
    (on : h.config.enabled ≡ true) (flags : FlagsTracked h m)
    (ends : collect fuel roots h m ≡ some r) where
  collect-upvalues : (r.1.upvalues ≡ m.upvalues) × (r.1.tasks ≡ m.tasks)
  unfolding finish
  collect-upvalues =
      let e = (finished fuel roots h m r on flags ends).1.1 in
      (ap (λ x. x.1.upvalues) (sym e), ap (λ x. x.1.tasks) (sym e))

  children-kept : (v : Value) → Leads m roots v → children (r.1) v ≡ children m v
  unfolding cell_contents
  children-kept v leads = elim (Option-cases (key v)) [
    | inl no_key ↦ children-unkeyed (r.1) m v no_key (collect-upvalues.0) (collect-upvalues.1)
    | inr (k, is_key) ↦
        let same = collect-keeps fuel roots h m r on flags ends k (v, (leads, is_key)) in
        children-key (r.1) v k is_key
        ∙ ap (λ c. c >>= (λ x. some x.contents) >>= (λ x. some (values_of x))) same
        ∙ sym (children-key m v k is_key)
  ]

  Leads-before : (v : Value) → Leads (r.1) roots v → Leads m roots v
  Leads-before v (root is_root) = root is_root
  Leads-before v (child {u} leads e c) =
      let before = Leads-before u leads in child before (sym (children-kept u before) ∙ e) c

  Leads-after : (v : Value) → Leads m roots v → Leads (r.1) roots v
  Leads-after v (root is_root) = root is_root
  Leads-after v (child {u} leads e c) = child (Leads-after u leads) (children-kept u leads ∙ e) c

  -- The roots lead to the same cells before and after.
  pub collect-Live : (k : ℕ) → Live (r.1) roots k ↔ Live m roots k
  collect-Live k = (
    (λ (v, (leads, is_key)). (v, (Leads-before v leads, is_key))),
    (λ (v, (leads, is_key)). (v, (Leads-after v leads, is_key))),
  )

-- Only tracked cells have their flag set, and the roots lead to tracked cells only.
abbrev pub Owns : (roots : List Value) → GcHeap → Memory → Type 0
Owns roots h m = FlagsTracked h m × ((k : ℕ) → Live m roots k → Memᴰ k h.tracked)

-- A collection of an enabled heap keeps the invariant that only tracked cells have their flag set and that
-- the roots lead to tracked cells only.
pub collect-Owns :
    (fuel : ℕ) (roots : List Value) (h : GcHeap) (m : Memory) (r : GcHeap × Memory)
    → h.config.enabled ≡ true
    → Owns roots h m
    → collect fuel roots h m ≡ some r
    → Owns roots (r.0) (r.1)
unfolding finish
collect-Owns fuel roots h m r on (flags, owned) ends =
    let e = (finished fuel roots h m r on flags ends).1.1 in
    let tracked : (k : ℕ) → Live m roots k → Memᴰ k (r.0.tracked) =
      λ k live. (collect-tracked fuel roots h m r on flags ends k).1 (owned k live, live) in
    (
      (λ k is_marked. tracked k (
          (marks-Live fuel roots h m r on flags ends k).0
            (subst (λ x. Memᴰ k (x.1.marked)) (sym e) is_marked))),
      (λ k live. tracked k ((collect-Live fuel roots h m r on flags ends k).0 live)),
    )

collect-enabled :
    (fuel : ℕ) (roots : List Value) (h : GcHeap) (m : Memory) (r : GcHeap × Memory)
    → h.config.enabled ≡ true
    → FlagsTracked h m
    → collect fuel roots h m ≡ some r
    → r.0.config.enabled ≡ true
unfolding finish
collect-enabled fuel roots h m r on flags ends =
    ap (λ x. x.0.config.enabled) (sym ((finished fuel roots h m r on flags ends).1.1)) ∙ on

-- A second collection from the same roots frees nothing, if the heap was enabled, only tracked cells had
-- their flag set and the roots led to tracked cells only.
pub collect-again :
    (fuel fuel_again : ℕ) (roots : List Value) (h : GcHeap) (m : Memory) (r s : GcHeap × Memory)
    → h.config.enabled ≡ true
    → Owns roots h m
    → collect fuel roots h m ≡ some r
    → collect fuel_again roots (r.0) (r.1) ≡ some s
    → s.0.objects_freed ≡ r.0.objects_freed
unfolding finish
collect-again fuel fuel_again roots h m r s on owns ends again =
    let still = collect-enabled fuel roots h m r on (owns.0) ends in
    let flags = (collect-Owns fuel roots h m r on owns ends).0 in
    let f = finished fuel_again roots (r.0) (r.1) s still flags again in
    let all : (k : ℕ) → Memᴰ k (r.0.tracked) → Memᴰ k (f.0) = λ k tracked.
      (marks-Live fuel_again roots (r.0) (r.1) s still flags again k).1 (
        (collect-Live fuel roots h m r on (owns.0) ends k).1
          ((collect-tracked fuel roots h m r on (owns.0) ends k).0 tracked).1) in
    subst (λ x. x.0.objects_freed ≡ r.0.objects_freed) (f.1.1)
      (omega (arith, sweep-all (f.0) (r.0.tracked) (r.1.cells) all))
