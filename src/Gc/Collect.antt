-- ===== src/Gc/Collect.antt =====
-- `collect` of src/gc.rs: what the roots lead to stays as it is, everything else is freed.
use mathlib.Core.Path.{subst}
use mathlib.Core.List.{Memᴰ}
use raytask.Prelude.{
  ℕ, ◌≡◌, refl, sym, true, false, some, List, inl, inr, ◌↔◌, Bool-cases, ◌+◌, arith, get_elem?,
  length, if◌then◌else◌, if◌then◌else◌,
}
use raytask.Value.{Value}
use raytask.Worklist.{contains, Walked, done, panics, out_of_fuel, contains→Memᴰ}
use raytask.Gc.{GcHeap, GcCell, Memory, clear_cell, mark, finish, finish_marked, collect}
use raytask.Gc.Sweep.{alive→marked, marked→alive, sweep-keeps, sweep-empties, sweep-count}
use raytask.Gc.Marking.{Live, FlagsTracked, mark-Live}

abbrev pub Finished : (fuel : ℕ) (roots : List Value) → GcHeap → Memory → GcHeap × Memory → Type 0
Finished fuel roots h m r =
    (marks : List ℕ) × ((mark fuel roots h m ≡ done marks) × (finish marks h m ≡ r))

finish_marked-done :
    (fuel : ℕ) (roots : List Value) (h : GcHeap) (m : Memory) (r : GcHeap × Memory) (w : Walked)
    → mark fuel roots h m ≡ w
    → finish_marked h m w ≡ some r
    → Finished fuel roots h m r
unfolding finish_marked
finish_marked-done fuel roots h m r (done marks) is_done e = (marks, (is_done, cc))
finish_marked-done fuel roots h m r panics is_done e = ground arith
finish_marked-done fuel roots h m r out_of_fuel is_done e = ground arith

pub collect-Finished :
    (fuel : ℕ) (roots : List Value) (h : GcHeap) (m : Memory) (r : GcHeap × Memory)
    → h.config.enabled ≡ true
    → collect fuel roots h m ≡ some r
    → Finished fuel roots h m r
unfolding collect
collect-Finished fuel roots h m r on e =
    finish_marked-done fuel roots h m r (mark fuel roots h m) refl (
      subst (λ b. (if b then finish_marked h m (mark fuel roots h m) else some (h, m)) ≡ some r) on
        e)

module _ (fuel : ℕ) (roots : List Value) (h : GcHeap) (m : Memory) (r : GcHeap × Memory)
    (on : h.config.enabled ≡ true) (flags : FlagsTracked h m)
    (ends : collect fuel roots h m ≡ some r) where
  pub finished : Finished fuel roots h m r
  finished = collect-Finished fuel roots h m r on ends

  pub marks-Live : (k : ℕ) → Memᴰ k (finished.0) ↔ Live m roots k
  marks-Live = mark-Live fuel roots h m (finished.0) flags (finished.1.0)

  pub not-Live : (k : ℕ) → (Live m roots k → ⊥) → contains (finished.0) k ≡ false
  not-Live k dead = elim (Bool-cases (contains (finished.0) k)) [
    | inl is_marked ↦ absurd (dead ((marks-Live k).0 (contains→Memᴰ (finished.0) k is_marked)))
    | inr e ↦ e
  ]

  -- After a collection an enabled heap tracks exactly the cells it tracked before that the roots lead to,
  -- if only tracked cells had their flag set.
  pub collect-tracked : (k : ℕ) → Memᴰ k (r.0.tracked) ↔ (Memᴰ k h.tracked × Live m roots k)
  unfolding finish
  collect-tracked k =
      let same = finished.1.1 in
      (
        (λ now.
            let p =
              alive→marked (finished.0) h.tracked m.cells k
                (subst (λ x. Memᴰ k (x.0.tracked)) (sym same) now) in
            (p.0, (marks-Live k).0 (p.1))),
        (λ (was, live).
            subst (λ x. Memᴰ k (x.0.tracked)) same
              (marked→alive (finished.0) h.tracked m.cells k was ((marks-Live k).1 live))),
      )

  -- A cell that the roots lead to, through arrays, dictionaries, fields, tasks and captured variables, has
  -- after a collection of an enabled heap the contents it had before, if only tracked cells had their flag
  -- set.
  pub collect-keeps : (k : ℕ) → Live m roots k → get_elem? (r.1.cells) k ≡ get_elem? m.cells k
  unfolding finish
  collect-keeps k live =
      subst (λ x. get_elem? (x.1.cells) k ≡ get_elem? m.cells k) (finished.1.1)
        (sweep-keeps (finished.0) h.tracked m.cells k ((marks-Live k).1 live))

  -- A tracked cell that the roots do not lead to is emptied.
  pub collect-empties :
      (k : ℕ) (c : GcCell)
      → Memᴰ k h.tracked
      → (Live m roots k → ⊥)
      → get_elem? m.cells k ≡ some c
      → get_elem? (r.1.cells) k ≡ some (clear_cell c)
  unfolding finish
  collect-empties k c was dead at =
      subst (λ x. get_elem? (x.1.cells) k ≡ some (clear_cell c)) (finished.1.1)
        (sweep-empties (finished.0) h.tracked m.cells k c was (not-Live k dead) at)

  -- Each tracked cell is still tracked or counted as freed.
  pub collect-counts : r.0.objects_freed + length (r.0.tracked) ≡ h.objects_freed + length h.tracked
  unfolding finish
  collect-counts =
      subst (λ x. x.0.objects_freed + length (x.0.tracked) ≡ h.objects_freed + length h.tracked)
        (finished.1.1) (omega (arith, sweep-count (finished.0) h.tracked m.cells))
