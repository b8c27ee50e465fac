-- ===== src/Gc/Marking.antt =====
-- What the marking loop of src/gc.rs marks: the cells that the roots lead to.
use mathlib.Core.Path.{subst}
use mathlib.Core.List.{Memᴰ}
use raytask.Prelude.{ℕ, ◌≡◌, refl, sym, ap, ◌∙◌, some, List, [], ◌∷◌, inl, inr, ◌↔◌, arith}
use raytask.Prelude.Options.{◌>>=◌}
use raytask.Value.{Value}
use raytask.Worklist.{push_all, done, walk, Memᴰ→contains, push_all-adds, push_all-cases}
use raytask.Worklist.Found.{Reached, ReachedKey, root, Reached-trans, walk-Sound}
use raytask.Worklist.Closed.{walk-Complete}
use raytask.Gc.{GcHeap, Memory, key, children, cell_contents, values_of, unmark, mark}

-- A value that the roots lead to, and a cell that such a value is of.
abbrev pub Leads : Memory → (roots : List Value) → Value → Type 0
Leads m roots v = Reached key (children m) roots v

abbrev pub Live : Memory → (roots : List Value) → ℕ → Type 0
Live m roots k = ReachedKey key (children m) roots k

-- Only cells of the heap have their flag set.
abbrev pub FlagsTracked : GcHeap → Memory → Type 0
FlagsTracked h m = (k : ℕ) → Memᴰ k m.marked → Memᴰ k h.tracked

-- The children of what has a flag are read from its cell.
pub children-key :
    (m : Memory) (v : Value) (k : ℕ)
    → key v ≡ some k
    → children m v ≡ (cell_contents m k >>= (λ c. some (values_of c)))
unfolding key children
children-key m (Value.array n) k e =
    let same : n ≡ k = cc in ap (λ i. cell_contents m i >>= (λ c. some (values_of c))) same
children-key m (Value.dict n) k e =
    let same : n ≡ k = cc in ap (λ i. cell_contents m i >>= (λ c. some (values_of c))) same
children-key m (Value.object n) k e =
    let same : n ≡ k = cc in ap (λ i. cell_contents m i >>= (λ c. some (values_of c))) same
children-key m _ k e = ground arith

pub children-same :
    (m : Memory) (u v : Value) (k : ℕ)
    → key u ≡ some k
    → key v ≡ some k
    → children m u ≡ children m v
children-same m u v k eu ev = children-key m u k eu ∙ sym (children-key m v k ev)

pub unmark-nothing :
    (tracked marks : List ℕ) → ((k : ℕ) → Memᴰ k marks → Memᴰ k tracked) → unmark tracked marks ≡ []
unfolding unmark
unmark-nothing tracked [] all = refl
unmark-nothing tracked (k ∷ ks) all =
    let yes = Memᴰ→contains tracked k (all k (Memᴰ.head refl)) in
    rw yes (unmark-nothing tracked ks (λ i m. all i (Memᴰ.tail m)))

-- The roots on the stack, in the order in which they are popped.
pub Leads-stack :
    (m : Memory) (roots : List Value) (v : Value) → Leads m (push_all roots []) v ↔ Leads m roots v
Leads-stack m roots v = (
  Reached-trans key (children m) roots (push_all roots [])
      (λ u on_stack. elim (push_all-cases u roots [] on_stack) [
        | inl is_root ↦ root is_root
        | inr x' ↦ elim x' [ ]
      ])
      v,
  Reached-trans key (children m) (push_all roots []) roots
      (λ u is_root. root (push_all-adds u roots [] is_root)) v,
)

pub mark-Live :
    (fuel : ℕ) (roots : List Value) (h : GcHeap) (m : Memory) (marks : List ℕ)
    → FlagsTracked h m
    → mark fuel roots h m ≡ done marks
    → (k : ℕ) → Memᴰ k marks ↔ Live m roots k
unfolding mark
mark-Live fuel roots h m marks flags e k =
    let ends : walk key (children m) fuel [] (push_all roots []) ≡ done marks =
      subst (λ old. walk key (children m) fuel old (push_all roots []) ≡ done marks)
        (unmark-nothing h.tracked m.marked flags) e in
    (
      (λ marked.
          elim (walk-Sound key (children m) fuel [] (push_all roots []) marks ends k marked) [
            | inl x' ↦ elim x' [ ]
            | inr (v, (r, is_key)) ↦ (v, ((Leads-stack m roots v).0 r, is_key))
          ]),
      (λ (v, (r, is_key)).
          walk-Complete key (children m) (children-same m) fuel (push_all roots []) marks ends k
            (v, ((Leads-stack m roots v).1 r, is_key))),
    )
