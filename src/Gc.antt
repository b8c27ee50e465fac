-- ===== src/Gc.antt =====
-- src/gc.rs: the mark and sweep collector. A cell is what an `Rc` of an array, a dictionary or an object
-- points to, and a value names it by its number; the cells whose `marked` flag is set are a list of
-- their numbers. A `HashMap` is its entries in the order of its iteration. The counters do not overflow
-- except `next_id` and the doubled threshold, whose widths are written out.
pub mod Alloc
pub mod Sweep
pub mod Marking
pub mod Collect
pub mod Graph
pub mod Ends
pub mod Finalize
mod Tests
use Prim.Native.Nat.{min, max}
use raytask.Prelude.{
  ℕ, zero, suc, Bool, true, false, not, ◌&&◌, ◌||◌, Option, none, some, List, [], ◌∷◌, ◌++◌, ◌+◌,
  ◌-◌, ◌*◌, ◌%◌, ◌^◌, map, leb, ltb, if◌then◌else◌, length, get_elem?, modify,
}
use raytask.Prelude.Options.{◌>>=◌}
use raytask.Prelude.Text.{Str}
use raytask.Value.{Value}
use raytask.Async.{Store, TaskInner, TaskState, pending, ready, failed}
use raytask.Worklist.{contains, push_all, walk, Walked, done, panics, out_of_fuel}

pub record ObjectInstance : Type 0 where
  pub class_name : Str
  pub fields : List (Str × Value)
  pub class_index : Option ℕ
  pub finalized : Bool

pub data Contents : Type 0 where
  items : List Value → Contents
  entries : List (Str × Value) → Contents
  data_of : ObjectInstance → Contents

pub record GcCell : Type 0 where
  pub id : ℕ
  pub contents : Contents

-- What values refer to: the cells, the cells that are marked, the upvalue cells and the tasks.
pub record Memory : Type 0 where
  pub cells : List GcCell
  pub marked : List ℕ
  pub upvalues : List Value
  pub tasks : Store

pub record GcConfig : Type 0 where
  pub enabled : Bool
  pub threshold_bytes : ℕ
  pub stress : Bool

unfoldable pub default_config : GcConfig
default_config = record { enabled = true; threshold_bytes = 256 * 1024; stress = false }

pub record GcStats : Type 0 where
  pub collections : ℕ
  pub objects_freed : ℕ
  pub bytes_freed : ℕ
  pub live_objects : ℕ
  pub live_bytes : ℕ
  pub enabled : Bool

pub record GcHeap : Type 0 where
  pub config : GcConfig
  pub tracked : List ℕ
  pub next_id : ℕ
  pub allocated_bytes : ℕ
  pub collections : ℕ
  pub objects_freed : ℕ
  pub bytes_freed : ℕ
  pub pending_finalizers : List ℕ

unfoldable pub new : GcConfig → GcHeap
new config = record {
  config = config;
  tracked = [];
  next_id = 1;
  allocated_bytes = 0;
  collections = 0;
  objects_freed = 0;
  bytes_freed = 0;
  pending_finalizers = [];
}

unfoldable pub set_enabled : Bool → GcHeap → GcHeap
set_enabled enabled h = record h {
  config = record {
    enabled = enabled;
    threshold_bytes = h.config.threshold_bytes;
    stress = h.config.stress;
  };
}

unfoldable pub stats : GcHeap → GcStats
stats h = record {
  collections = h.collections;
  objects_freed = h.objects_freed;
  bytes_freed = h.bytes_freed;
  live_objects = length h.tracked;
  live_bytes = h.allocated_bytes;
  enabled = h.config.enabled;
}

-- What has a `marked` flag
unfoldable pub key : Value → Option ℕ
key (Value.array n) = some n
key (Value.dict n) = some n
key (Value.object n) = some n
key v = none

unfoldable pub values_of : Contents → List Value
values_of (items vs) = vs
values_of (entries kvs) = map (λ kv. kv.1) kvs
values_of (data_of o) = map (λ kv. kv.1) o.fields

-- The contents of a cell, upvalue or task; none of the numbers that the program holds is out of range.
unfoldable pub cell_contents : Memory → ℕ → Option Contents
cell_contents m n = get_elem? m.cells n >>= (λ c. some c.contents)

unfoldable pub upvalues_at : Memory → List ℕ → Option (List Value)
upvalues_at m [] = some []
upvalues_at m (n ∷ ns) = do v ← get_elem? m.upvalues n; vs ← upvalues_at m ns; some (v ∷ vs)

unfoldable pub ready_values : TaskState → List Value
ready_values pending = []
ready_values (ready inner) = inner ∷ []
ready_values (failed message) = []

-- What the arm of the marking loop puts on the stack.
unfoldable pub children : Memory → Value → Option (List Value)
children m (Value.array n) = cell_contents m n >>= (λ c. some (values_of c))
children m (Value.dict n) = cell_contents m n >>= (λ c. some (values_of c))
children m (Value.object n) = cell_contents m n >>= (λ c. some (values_of c))
children m (Value.task n) = get_elem? m.tasks n >>= (λ t. some (ready_values t.state))
children m (Value.function name chunk_index arity defaults is_async upvalues) =
    upvalues_at m upvalues
children m v = some []

-- The flags of the tracked cells are reset.
unfoldable pub unmark : (tracked marks : List ℕ) → List ℕ
unmark tracked [] = []
unmark tracked (k ∷ ks) = if contains tracked k then unmark tracked ks else k ∷ unmark tracked ks

unfoldable pub unfinalized : Option Contents → Bool
unfinalized (some (data_of o)) = not o.finalized
unfinalized c = false

-- The objects whose finalizer is due.
unfoldable pub finals : Memory → (marks tracked : List ℕ) → List ℕ
finals m marks [] = []
finals m marks (t ∷ ts) =
    if not (contains marks t) && unfinalized (cell_contents m t)
    then t ∷ finals m marks ts
    else finals m marks ts

unfoldable pub cleared : Contents → Contents
cleared (items vs) = items []
cleared (entries kvs) = entries []
cleared (data_of o) = data_of (record o { fields = [] })

unfoldable pub freed_size : Contents → ℕ
freed_size (items vs) = 32 + length vs * 16
freed_size (entries kvs) = 32 + length kvs * 32
freed_size (data_of o) = 48 + length o.fields * 32

unfoldable pub clear_cell : GcCell → GcCell
clear_cell c = record c { contents = cleared c.contents }

pub record Swept : Type 0 where
  pub alive : List ℕ
  pub cells : List GcCell
  pub freed : ℕ
  pub freed_bytes : ℕ

unfoldable pub size_at : List GcCell → ℕ → ℕ
size_at cells t = elim (get_elem? cells t) [ none ↦ 0 | some c ↦ freed_size c.contents ]

-- The loop over the tracked cells: a marked one stays, another one is emptied and counted.
unfoldable pub sweep : (marks tracked : List ℕ) → List GcCell → Swept
sweep marks [] cells = record { alive = []; cells = cells; freed = 0; freed_bytes = 0 }
sweep marks (t ∷ ts) cells = elim (contains marks t) [
  | true ↦ let rest = sweep marks ts cells in record rest { alive = t ∷ rest.alive }
  | false ↦
      let rest = sweep marks ts (modify t clear_cell cells) in
      record rest { freed = suc rest.freed; freed_bytes = size_at cells t + rest.freed_bytes }
]

unfoldable pub next_threshold : (allocated_bytes threshold_bytes : ℕ) → ℕ
next_threshold allocated_bytes threshold_bytes =
    if ltb threshold_bytes (16 * 1024 * 1024)
    then max (min (allocated_bytes * 2) (2 ^ 64 - 1)) (64 * 1024)
    else threshold_bytes

-- What follows the marking.
unfoldable pub finish : (marks : List ℕ) → GcHeap → Memory → GcHeap × Memory
finish marks h m =
    let swept = sweep marks h.tracked m.cells in
    let allocated_bytes = h.allocated_bytes - swept.freed_bytes in
    (
      record h {
        config = record {
          enabled = h.config.enabled;
          threshold_bytes = next_threshold allocated_bytes h.config.threshold_bytes;
          stress = h.config.stress;
        };
        tracked = swept.alive;
        allocated_bytes = allocated_bytes;
        collections = suc h.collections;
        objects_freed = h.objects_freed + swept.freed;
        bytes_freed = h.bytes_freed + swept.freed_bytes;
        pending_finalizers = finals m marks h.tracked;
      },
      record m { cells = swept.cells; marked = marks },
    )

-- The last item of the stack is on top: `roots.to_vec()` is popped from its end.
unfoldable pub mark : (fuel : ℕ) (roots : List Value) → GcHeap → Memory → Walked
mark fuel roots h m = walk key (children m) fuel (unmark h.tracked m.marked) (push_all roots [])

unfoldable pub finish_marked : GcHeap → Memory → Walked → Option (GcHeap × Memory)
finish_marked h m (done marks) = some (finish marks h m)
finish_marked h m panics = none
finish_marked h m out_of_fuel = none

-- `collect`; its result is `stats` of the heap that it leaves.
unfoldable pub collect :
    (fuel : ℕ) (roots : List Value) → GcHeap → Memory → Option (GcHeap × Memory)
collect fuel roots h m =
    if h.config.enabled then finish_marked h m (mark fuel roots h m) else some (h, m)

unfoldable pub maybe_collect :
    (fuel : ℕ) (roots : List Value) → GcHeap → Memory → Option (GcHeap × Memory)
maybe_collect fuel roots h m =
    if h.config.enabled && (h.config.stress || leb h.config.threshold_bytes h.allocated_bytes)
    then collect fuel roots h m
    else some (h, m)

unfoldable pub take_pending_finalizers : GcHeap → List ℕ × GcHeap
take_pending_finalizers h = (h.pending_finalizers, record h { pending_finalizers = [] })
