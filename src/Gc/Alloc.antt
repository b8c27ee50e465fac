-- ===== src/Gc/Alloc.antt =====
-- The allocations of src/gc.rs: a new cell is tracked, and the invariant of the heap is kept.
use Prim.Native.Nat.{max}
use mathlib.Core.Path.{subst}
use mathlib.Core.List.{Memᴰ}
use mathlib.Core.List.Memᴰ
use raytask.Prelude.{
  ℕ, zero, suc, ◌≡◌, refl, sym, ap, ◌∙◌, some, List, [], ◌∷◌, ◌++◌, ◌+◌, ◌*◌, ◌%◌, ◌^◌, ◌⊎◌, inl,
  inr, arith, length, get_elem?,
}
use raytask.Prelude.Options.{◌>>=◌}
use raytask.Prelude.Text.{Str}
use raytask.Value.{Value}
use raytask.Worklist.Found.{root, child, Option-cases}
use raytask.Gc.{
  GcHeap, Memory, Contents, items, entries, data_of, ObjectInstance, key, children, cell_contents,
  values_of,
}
use raytask.Gc.Marking.{Leads, children-key}
use raytask.Gc.Ends.{InRange}
use raytask.Gc.Graph.{Owns, children-unkeyed}

-- `wrapping_add(1).max(1)`: the identifier, and the heap that gives the next one
unfoldable pub next_id : GcHeap → ℕ × GcHeap
next_id h = (h.next_id, record h { next_id = max ((h.next_id + 1) % 2 ^ 32) 1 })

-- The steps that the three allocations share: the cell is tracked under the next free number.
unfoldable pub alloc : (bytes : ℕ) → Contents → GcHeap → Memory → ℕ × (GcHeap × Memory)
alloc bytes contents h m =
    let cell = length m.cells in
    (
      cell,
      (
        record (next_id h).1 {
          tracked = h.tracked ++ cell ∷ [];
          allocated_bytes = h.allocated_bytes + bytes;
        },
        record m { cells = m.cells ++ record { id = (next_id h).0; contents = contents } ∷ [] },
      ),
    )

-- `size_of_value` is the width of a `Value` that the compiler chooses.
unfoldable pub alloc_array :
    (size_of_value : ℕ) → List Value → GcHeap → Memory → ℕ × (GcHeap × Memory)
alloc_array size_of_value vs = alloc (32 + length vs * size_of_value) (items vs)

unfoldable pub alloc_dict : List (Str × Value) → GcHeap → Memory → ℕ × (GcHeap × Memory)
alloc_dict kvs = alloc (32 + length kvs * 32) (entries kvs)

unfoldable pub alloc_object : ObjectInstance → GcHeap → Memory → ℕ × (GcHeap × Memory)
alloc_object o = alloc (48 + length o.fields * 32) (data_of o)

get_elem?-append {ℓ} :
    {A : Type ℓ} (xs ys : List A) (k : ℕ) (a : A)
    → get_elem? xs k ≡ some a
    → get_elem? (xs ++ ys) k ≡ some a
get_elem?-append [] ys k a e = ground arith
get_elem?-append (x ∷ xs) ys zero a e = e
get_elem?-append (x ∷ xs) ys (suc k) a e = get_elem?-append xs ys k a e

get_elem?-last {ℓ} :
    {A : Type ℓ} (xs : List A) (a : A) → get_elem? (xs ++ a ∷ []) (length xs) ≡ some a
get_elem?-last [] a = refl
get_elem?-last (x ∷ xs) a = get_elem?-last xs a

abbrev pub allocated : ℕ → Contents → GcHeap → Memory → GcHeap × Memory
allocated bytes c h m = (alloc bytes c h m).1

children-alloc :
    (bytes : ℕ) (c : Contents) (h : GcHeap) (m : Memory) (v : Value) (cs : List Value)
    → children m v ≡ some cs
    → children ((allocated bytes c h m).1) v ≡ some cs
unfolding alloc cell_contents next_id
children-alloc bytes c h m v cs found =
    let n = (allocated bytes c h m).1 in
    elim (Option-cases (key v)) [
      | inl no_key ↦ sym (children-unkeyed m n v no_key refl refl) ∙ found
      | inr (k, is_key) ↦ elim (Option-cases (get_elem? m.cells k)) [
        | inl gone ↦ absurd (let e = children-key m v k is_key in ground arith)
        | inr (cell, at) ↦
            children-key n v k is_key
            ∙ ap (λ o. o >>= (λ x. some x.contents) >>= (λ x. some (values_of x)))
                (get_elem?-append m.cells (record { id = h.next_id; contents = c } ∷ []) k cell at)
            ∙ ap (λ o. o >>= (λ x. some x.contents) >>= (λ x. some (values_of x))) (sym at)
            ∙ sym (children-key m v k is_key)
            ∙ found
      ]
    ]

-- What the program reaches after an allocation is the new value or was reached before.
Leads-alloc :
    (bytes : ℕ) (c : Contents) (h : GcHeap) (m : Memory) (roots : List Value) (w : Value)
    → ((v : Value) → Leads m roots v → InRange m v)
    → ((v : Value) → Memᴰ v (values_of c) → Leads m roots v)
    → key w ≡ some (length m.cells)
    → (v : Value) → Leads ((allocated bytes c h m).1) (w ∷ roots) v
    → (v ≡ w) ⊎ Leads m roots v
unfolding alloc cell_contents next_id
Leads-alloc bytes c h m roots w ranges held is_new v (root r) = elim (Memᴰ.cases_cons r) [
  | inl e ↦ inl e
  | inr old ↦ inr (root old)
]
Leads-alloc bytes c h m roots w ranges held is_new v (child {u} {cs = cs} leads found r) =
    elim (Leads-alloc bytes c h m roots w ranges held is_new u leads) [
      | inl e ↦
          let n = (allocated bytes c h m).1 in
          let of_new : children n w ≡ some (values_of c) =
            children-key n w (length m.cells) is_new
            ∙ ap (λ o. o >>= (λ x. some x.contents) >>= (λ x. some (values_of x)))
                (get_elem?-last m.cells (record { id = h.next_id; contents = c })) in
          let again : children n w ≡ some cs = subst (λ x. children n x ≡ some cs) e found in
          let same : cs ≡ values_of c = cc in inr (held v (subst (λ l. Memᴰ v l) same r))
      | inr before ↦
          let (ds, was) = ranges u before in
          let now = children-alloc bytes c h m u ds was in
          let same : cs ≡ ds = cc in inr (child before was (subst (λ l. Memᴰ v l) same r))
    ]

-- An allocation keeps the invariant that only tracked cells have their flag set and that the program
-- reaches tracked cells only, with the new value among the roots, if what the new cell holds was reached
-- from the roots and everything in reach is there.
pub alloc-Owns :
    (bytes : ℕ) (c : Contents) (h : GcHeap) (m : Memory) (roots : List Value) (w : Value)
    → Owns roots h m
    → ((v : Value) → Leads m roots v → InRange m v)
    → ((v : Value) → Memᴰ v (values_of c) → Leads m roots v)
    → key w ≡ some (length m.cells)
    → Owns (w ∷ roots) ((allocated bytes c h m).0) ((allocated bytes c h m).1)
unfolding alloc
alloc-Owns bytes c h m roots w (flags, owned) ranges held is_new = (
  (λ k is_marked. Memᴰ.append_left (length m.cells ∷ []) (flags k is_marked)),
  (λ k (v, (leads, is_key)). elim (Leads-alloc bytes c h m roots w ranges held is_new v leads) [
    | inl e ↦
        let of_w : key w ≡ some k = subst (λ x. key x ≡ some k) e is_key in
        let same : k ≡ length m.cells = cc in Memᴰ.append_right h.tracked (Memᴰ.head same)
    | inr before ↦ Memᴰ.append_left (length m.cells ∷ []) (owned k (v, (before, is_key)))
  ]),
)
