-- ===== src/Gc/Tests.antt =====
-- Runs of the collector on small memories.
use mathlib.Core.Path.{subst}
use mathlib.Core.List.{Memᴰ}
use mathlib.Core.List.Memᴰ
use raytask.Prelude.{
  ℕ, zero, suc, ◌≡◌, refl, sym, inl, inr, true, false, none, some, List, [], ◌∷◌, ◌↔◌, arith,
  get_elem?,
}
use raytask.Prelude.Options.{◌>>=◌}
use raytask.Prelude.Text.{codes}
use raytask.Value.{Value, no_values}
use raytask.Worklist.{done}
use raytask.Worklist.Found.{root, child}
use raytask.Gc
use raytask.Gc.{
  GcHeap, GcCell, Memory, Contents, ObjectInstance, GcConfig, default_config, items, entries,
  data_of, key, children, cell_contents, mark, collect, unfinalized,
}
use raytask.Gc.Marking.{Leads, Live, FlagsTracked, mark-Live}
use raytask.Gc.Collect.{collect-tracked, collect-keeps}
use raytask.Gc.Graph.{Owns, collect-Owns}
use raytask.Gc.Finalize.{collect-finalizers, collect-finalizes_empty}
use raytask.Gc.Alloc
use raytask.Gc.Alloc.{allocated, alloc-Owns}
use raytask.Gc.Ends.{InRange, ClosedMemory, collect-returns, collect-endless}

abbrev file : ObjectInstance
file = record {
  class_name = codes "File";
  fields = (codes "fd", Value.int 3) ∷ [];
  class_index = some 0;
  finalized = false;
}

-- An array and a dictionary that hold each other, and an object that nothing holds.
abbrev memory : Memory
memory = record {
  cells =
      record { id = 1; contents = items (Value.dict 1 ∷ []) }
      ∷ record { id = 2; contents = entries ((codes "up", Value.array 0) ∷ []) }
      ∷ record { id = 3; contents = data_of file }
      ∷ [];
  marked = [];
  upvalues = [];
  tasks = [];
}

abbrev heap : GcHeap
heap = record (Gc.new default_config) {
  tracked = 0 ∷ 1 ∷ 2 ∷ [];
  next_id = 4;
  allocated_bytes = 200;
}

abbrev roots : List Value
roots = Value.array 0 ∷ []

abbrev after : GcHeap × Memory
after = Gc.finish (1 ∷ 0 ∷ []) heap memory

collected : collect 5 roots heap memory ≡ some after
unfolding Gc.new default_config collect Gc.finish_marked mark Gc.unmark Gc.key Gc.children
    Gc.cell_contents Gc.values_of raytask.Worklist.walk raytask.Worklist.push_all
    raytask.Worklist.contains
collected = refl

heap_enabled : heap.config.enabled ≡ true
unfolding Gc.new default_config
heap_enabled = refl

no_flags : FlagsTracked heap memory
no_flags k x' = elim x' [ ]

memory_marks : mark 5 roots heap memory ≡ done (1 ∷ 0 ∷ [])
unfolding mark Gc.unmark Gc.key children cell_contents Gc.values_of raytask.Worklist.walk
    raytask.Worklist.push_all raytask.Worklist.contains
memory_marks = refl

heap-Owns : Owns roots heap memory
heap-Owns = (
  no_flags,
  (λ k live.
      elim (Memᴰ.cases_cons
        ((mark-Live 5 roots heap memory (1 ∷ 0 ∷ []) no_flags memory_marks k).1 live)) [
          | inl e ↦ Memᴰ.tail (Memᴰ.head e)
          | inr m ↦ Memᴰ.head (Memᴰ.eq_of_singleton m)
        ]),
)

array-Live : Live memory roots 0
unfolding key
array-Live = (Value.array 0, (root (Memᴰ.head refl), refl))

object_due : Memᴰ 2 (after.0.pending_finalizers)
unfolding Gc.finish Gc.finals unfinalized cell_contents raytask.Worklist.contains
object_due = Memᴰ.head refl

collect-tracked_example : Memᴰ 1 (after.0.tracked) ↔ (Memᴰ 1 heap.tracked × Live memory roots 1)
collect-tracked_example =
    collect-tracked 5 roots heap memory after heap_enabled no_flags collected 1

collect-keeps_example : get_elem? (after.1.cells) 0 ≡ get_elem? memory.cells 0
collect-keeps_example =
    collect-keeps 5 roots heap memory after heap_enabled no_flags collected 0 array-Live

collect-Owns_example : Owns roots (after.0) (after.1)
collect-Owns_example = collect-Owns 5 roots heap memory after heap_enabled heap-Owns collected

collect-finalizers_example : Memᴰ 2 (after.0.pending_finalizers) ↔ (
    Memᴰ 2 heap.tracked
    × ((Live memory roots 2 → ⊥) × (unfinalized (cell_contents memory 2) ≡ true)))
collect-finalizers_example =
    collect-finalizers 5 roots heap memory after heap_enabled no_flags collected 2

collect-finalizes_empty_example :
    (o : ObjectInstance) × ((cell_contents memory 2 ≡ some (data_of o))
      × (cell_contents (after.1) 2 ≡ some (data_of (record o { fields = [] }))))
collect-finalizes_empty_example =
    collect-finalizes_empty 5 roots heap memory after heap_enabled no_flags collected 2 object_due

abbrev Ranges : (cs : List Value) → Type 0
Ranges cs = (c : Value) → Memᴰ c cs → InRange memory c

array-InRange : InRange memory (Value.array 0)
unfolding children cell_contents Gc.values_of
array-InRange = (Value.dict 1 ∷ [], refl)

held_in_range :
    (n : ℕ) (cs : List Value)
    → (cell_contents memory n >>= (λ c. some (Gc.values_of c))) ≡ some cs
    → Ranges cs
unfolding children cell_contents Gc.values_of
held_in_range zero cs e c m =
    let same : cs ≡ Value.dict 1 ∷ [] = cc in
    subst (InRange memory) (sym (Memᴰ.eq_of_singleton (subst (Memᴰ c) same m)))
      (Value.array 0 ∷ [], refl)
held_in_range (suc zero) cs e c m =
    let same : cs ≡ Value.array 0 ∷ [] = cc in
    subst (InRange memory) (sym (Memᴰ.eq_of_singleton (subst (Memᴰ c) same m))) array-InRange
held_in_range (suc (suc zero)) cs e c m =
    let same : cs ≡ Value.int 3 ∷ [] = cc in
    subst (InRange memory) (sym (Memᴰ.eq_of_singleton (subst (Memᴰ c) same m))) ([], refl)
held_in_range (suc (suc (suc n))) cs e c m = ground arith

nothing_held : (cs : List Value) (c : Value) → some [] ≡ some cs → Memᴰ c cs → ⊥
nothing_held cs c e m = let same : cs ≡ [] = cc in elim (subst (Memᴰ c) same m) [ ]

unkeyed_holds_nothing :
    (v c : Value) (cs : List Value) → key v ≡ none → children memory v ≡ some cs → Memᴰ c cs → ⊥
unfolding key children Gc.upvalues_at
unkeyed_holds_nothing (Value.array n) c cs no_key e m = ground arith
unkeyed_holds_nothing (Value.dict n) c cs no_key e m = ground arith
unkeyed_holds_nothing (Value.object n) c cs no_key e m = ground arith
unkeyed_holds_nothing (Value.task n) c cs no_key e m = ground arith
unkeyed_holds_nothing (Value.function name i arity ds is_async []) c cs no_key e m =
    nothing_held cs c e m
unkeyed_holds_nothing (Value.function name i arity ds is_async (u ∷ us)) c cs no_key e m =
    ground arith
unkeyed_holds_nothing _ c cs no_key e m = nothing_held cs c e m

memory_closed : ClosedMemory memory
unfolding children key
memory_closed (Value.array n) c cs e m = held_in_range n cs e c m
memory_closed (Value.dict n) c cs e m = held_in_range n cs e c m
memory_closed (Value.object n) c cs e m = held_in_range n cs e c m
memory_closed v c cs e m = absurd (unkeyed_holds_nothing v c cs refl e m)

collect-returns_example :
    (fuel : ℕ) × ((r : GcHeap × Memory) × (collect fuel roots heap memory ≡ some r))
collect-returns_example =
    collect-returns roots heap memory (λ v. 0) heap_enabled
      (λ v m. subst (InRange memory) (sym (Memᴰ.eq_of_singleton m)) array-InRange) memory_closed
      (λ v c cs no_key e m. absurd (unkeyed_holds_nothing v c cs no_key e m))

all-InRange : (v : Value) → Leads memory roots v → InRange memory v
all-InRange v (root m) = subst (InRange memory) (sym (Memᴰ.eq_of_singleton m)) array-InRange
all-InRange v (child {u} {cs = cs} leads found m) = memory_closed u v cs found m

-- An array that holds the first one.
abbrev outer : GcHeap × Memory
outer = (Gc.Alloc.alloc_array 24 (Value.array 0 ∷ []) heap memory).1

outer_key : key (Value.array 3) ≡ some 3
unfolding key
outer_key = refl

array_held : (v : Value) → Memᴰ v (Gc.values_of (items (Value.array 0 ∷ []))) → Leads memory roots v
unfolding Gc.values_of
array_held v m = root m

outer_after : outer ≡ allocated 56 (items (Value.array 0 ∷ [])) heap memory
unfolding Gc.Alloc.alloc_array
outer_after = refl

alloc-Owns_example :
    Owns
      (Value.array 3 ∷ roots)
      ((allocated 56 (items (Value.array 0 ∷ [])) heap memory).0)
      ((allocated 56 (items (Value.array 0 ∷ [])) heap memory).1)
alloc-Owns_example =
    alloc-Owns 56 (items (Value.array 0 ∷ [])) heap memory roots (Value.array 3) heap-Owns
      all-InRange array_held outer_key

-- A closure whose captured variable holds the closure.
abbrev recursive : Value
recursive = Value.function (codes "loop") 1 0 no_values false (0 ∷ [])

abbrev knotted : Memory
knotted = record { cells = []; marked = []; upvalues = recursive ∷ []; tasks = [] }

recursive_holds : children knotted recursive ≡ some (recursive ∷ [])
unfolding children Gc.upvalues_at
recursive_holds = refl

recursive_unkeyed : key recursive ≡ none
unfolding key
recursive_unkeyed = refl

collect-endless_example : collect 7 (recursive ∷ []) heap knotted ≡ none
collect-endless_example =
    collect-endless (recursive ∷ []) heap knotted recursive (recursive ∷ []) heap_enabled
      (λ k x'. elim x' [ ]) (root (Memᴰ.head refl)) recursive_unkeyed recursive_holds
      (Memᴰ.head refl) 7
