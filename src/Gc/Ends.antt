-- ===== src/Gc/Ends.antt =====
-- When the marking loop of src/gc.rs ends: upvalues and tasks have no flag, so they must not form a cycle.
use mathlib.Core.Path.{subst}
use mathlib.Core.List.{Memᴰ}
use raytask.Prelude.{
  ℕ, suc, ◌≡◌, sym, ap, true, none, some, List, [], ◌∷◌, inl, inr, ◌<◌, arith, get_elem?, length,
  if◌then◌else◌,
}
use raytask.Value.{Value}
use raytask.Worklist.{push_all, done, walk, push_all-cases}
use raytask.Worklist.Found.{Option-cases}
use raytask.Worklist.Closed.{walk-endless}
use raytask.Worklist.Ends.{walk-Ends}
use raytask.Gc.{
  GcHeap, Memory, key, children, cell_contents, unmark, mark, finish, finish_marked, collect,
}
use raytask.Gc.Marking.{
  Leads, FlagsTracked, children-key, children-same, unmark-nothing, Leads-stack,
}
use raytask.Gc.Collect.{collect-Finished}

-- What the value refers to is there.
abbrev pub InRange : Memory → Value → Type 0
InRange m v = (cs : List Value) × (children m v ≡ some cs)

-- All that the memory holds refers to something.
abbrev pub ClosedMemory : Memory → Type 0
ClosedMemory m = (v c : Value) (cs : List Value) → children m v ≡ some cs → Memᴰ c cs → InRange m c

-- What a closure or a task holds is of a lower rank.
abbrev pub Ranked : Memory → (Value → ℕ) → Type 0
Ranked m rank =
    (v c : Value) (cs : List Value)
    → key v ≡ none
    → children m v ≡ some cs
    → Memᴰ c cs
    → rank c < rank v

get_elem?-length {ℓ} :
    {A : Type ℓ} (xs : List A) (k : ℕ) (a : A) → get_elem? xs k ≡ some a → k < length xs
get_elem?-length [] k a e = ground arith
get_elem?-length (x ∷ xs) ℕ.zero a e = omega arith
get_elem?-length (x ∷ xs) (suc k) a e = omega (arith, get_elem?-length xs k a e)

InRange-length :
    (m : Memory) (v : Value) (k : ℕ) → InRange m v → key v ≡ some k → k < length m.cells
unfolding cell_contents
InRange-length m v k (cs, found) is_key = elim (Option-cases (get_elem? m.cells k)) [
  | inl gone ↦ absurd (let e = children-key m v k is_key in ground arith)
  | inr (c, at) ↦ get_elem?-length m.cells k c at
]

collect-mark :
    (fuel : ℕ) (roots : List Value) (h : GcHeap) (m : Memory) (marks : List ℕ)
    → h.config.enabled ≡ true
    → mark fuel roots h m ≡ done marks
    → collect fuel roots h m ≡ some (finish marks h m)
unfolding collect finish_marked
collect-mark fuel roots h m marks on e =
    subst
      (λ b.
        (if b then finish_marked h m (mark fuel roots h m) else some (h, m))
        ≡ some (finish marks h m))
      (sym on) (ap (finish_marked h m) e)

-- A collection of an enabled heap ends with enough fuel, if what the roots and all values refer to is
-- there and what a closure or a task holds is of a lower rank; cycles through arrays, dictionaries and
-- objects are allowed.
pub collect-returns :
    (roots : List Value) (h : GcHeap) (m : Memory) (rank : Value → ℕ)
    → h.config.enabled ≡ true
    → ((v : Value) → Memᴰ v roots → InRange m v)
    → ClosedMemory m
    → Ranked m rank
    → (fuel : ℕ) × ((r : GcHeap × Memory) × (collect fuel roots h m ≡ some r))
unfolding mark
collect-returns roots h m rank on ranges closed ranked =
    let (fuel, (marks, e)) =
      walk-Ends key (children m) (InRange m) rank (length m.cells)
        (λ v (cs, found). (cs, (found, (λ c n. closed v c cs found n)))) (InRange-length m)
        (λ v c cs range. ranked v c cs) (unmark h.tracked m.marked) (push_all roots [])
        (λ v n. elim (push_all-cases v roots [] n) [
          | inl is_root ↦ ranges v is_root
          | inr x' ↦ elim x' [ ]
        ]) in
    (fuel, (finish marks h m, collect-mark fuel roots h m marks on e))

-- A collection of an enabled heap comes to a result with no fuel, if the roots lead to a closure or a task
-- that holds itself and only tracked cells have their flag set.
pub collect-endless :
    (roots : List Value) (h : GcHeap) (m : Memory) (f : Value) (held : List Value)
    → h.config.enabled ≡ true
    → FlagsTracked h m
    → Leads m roots f
    → key f ≡ none
    → children m f ≡ some held
    → Memᴰ f held
    → (fuel : ℕ) → collect fuel roots h m ≡ none
unfolding mark
collect-endless roots h m f held on flags leads no_key found itself fuel =
    elim (Option-cases (collect fuel roots h m)) [
      | inl e ↦ e
      | inr (r, e) ↦
          let (marks, (ends, same)) = collect-Finished fuel roots h m r on e in
          absurd (
            walk-endless key (children m) (children-same m) fuel (push_all roots []) marks
              (subst (λ old. walk key (children m) fuel old (push_all roots []) ≡ done marks)
                (unmark-nothing h.tracked m.marked flags) ends)
              f held ((Leads-stack m roots f).1 leads) no_key found itself)
    ]
