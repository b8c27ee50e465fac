-- ===== src/Layout/Laid.antt =====
-- The layout of a struct in src/abi.rs: its fields lie one behind the other, aligned and inside of it.
use Prim.Native.Nat.{max}
use raytask.Prelude.{
  ℕ, ◌+◌, ◌%◌, ◌^◌, ◌≤◌, ◌<◌, ◌≡◌, false, Option, none, some, List, [], ◌∷◌, arith,
}
use raytask.Prelude.Text.{Str}
use raytask.Value.{FfiStructLayout, FfiFields}
use raytask.Ast.{TypeRef, Member, StructDecl}
use raytask.Layout.{Layouts}
use raytask.Layout.Place.{
  align_up, layout_size_align, size_align_of, field_type, placed_type, member_name, Placed,
  place_one, place, at_least, layout_struct,
}
use raytask.Layout.Align.{PowerOfTwo, align_up-RoundedUp, max-PowerOfTwo}
use raytask.Layout.Powers.{AlignedLayouts, field_type-PowerOfTwo, one-PowerOfTwo}

-- The fields lie from `from` on and end by `to`: each begins, at a multiple of its alignment, where the one
-- before has ended or later.
unfoldable pub Laid : (from : ℕ) → FfiFields → (to : ℕ) → Type 0
Laid from FfiFields.no_fields to = from ≤ to
Laid from (FfiFields.field name offset ffi rest) to =
    (from ≤ offset)
    × ((offset % (size_align_of ffi).1 ≡ 0) × Laid (offset + (size_align_of ffi).0) rest to)

-- No more than what the fields take up, with what they skip, `others` being those behind.
abbrev pub room_of : Layouts → Option TypeRef → (others : ℕ) → ℕ
room_of known none others = others
room_of known (some ty) others =
    (size_align_of (field_type ty known)).0 + (size_align_of (field_type ty known)).1 + others

unfoldable pub room : Layouts → List Member → ℕ
room known [] = 0
room known (m ∷ ms) = room_of known (placed_type false m) (room known ms)

-- What is left by the loop from `offset` and `max_align` on.
pub record Fits (from from_align limit : ℕ) (done : Placed) : Type 0 where
  pub laid : (to : ℕ) → done.offset ≤ to → Laid from done.fields to
  pub bound : done.offset ≤ from + limit
  pub align_bound : done.max_align ≤ from_align + limit
  pub power : PowerOfTwo done.max_align

-- The loop goes on from each place with room.
abbrev Goes : (limit : ℕ) → (ℕ → ℕ → Placed) → Type 0
Goes limit rest =
    (offset max_align : ℕ)
    → PowerOfTwo max_align
    → offset + limit < 2 ^ 63
    → Fits offset max_align limit (rest offset max_align)

place_one-Goes :
    (known : Layouts) (name : Str) (ty : Option TypeRef) (limit : ℕ) (rest : ℕ → ℕ → Placed)
    → AlignedLayouts known
    → Goes limit rest
    → Goes (room_of known ty limit) (place_one false known name ty rest)
unfolding Laid
place_one-Goes known name none limit rest aligned go offset max_align p small =
    go offset max_align p small
place_one-Goes known name (some ty) limit rest aligned go offset max_align p small =
    let sz = (size_align_of (field_type ty known)).0 in
    let al = (size_align_of (field_type ty known)).1 in
    let power = field_type-PowerOfTwo ty known aligned in
    let up = align_up-RoundedUp offset al power (omega arith) in
    let fits : (align_up offset al + sz) % 2 ^ 64 ≡ align_up offset al + sz =
      omega (arith, up.least) in
    let after =
      go (align_up offset al + sz) (max max_align al) (max-PowerOfTwo max_align al p power)
        (omega (arith, up.least)) in
    rw fits record {
      laid = λ to h. (up.no_less, (up.multiple, after.laid to h));
      bound = omega (arith, after.bound, up.least);
      align_bound = omega (arith, after.align_bound);
      power = after.power;
    }

place-Goes :
    (known : Layouts) (ms : List Member)
    → AlignedLayouts known
    → Goes (room known ms) (place false known ms)
unfolding place room Laid
place-Goes known [] aligned = λ offset max_align p small. record {
  laid = λ to h. h;
  bound = omega arith;
  align_bound = omega arith;
  power = p;
}
place-Goes known (m ∷ ms) aligned =
    place_one-Goes known (member_name m) (placed_type false m) (room known ms)
      (place false known ms) aligned (place-Goes known ms aligned)

abbrev pub fields_of : FfiStructLayout → FfiFields
fields_of (FfiStructLayout.layout name size align packed places) = places

-- What a layout is to keep: its fields lie in it, its size is a multiple of its alignment, so that the
-- elements of an array are aligned too, and this is a power of two.
pub record Sound (l : FfiStructLayout) : Type 0 where
  pub inside : Laid 0 (fields_of l) ((layout_size_align l).0)
  pub whole : (layout_size_align l).0 % (layout_size_align l).1 ≡ 0
  pub power : PowerOfTwo ((layout_size_align l).1)

-- The alignment that a declaration asks for.
abbrev pub AsksPower : Option ℕ → Type 0
AsksPower none = Unit
AsksPower (some a) = PowerOfTwo a × (a < 2 ^ 32)

pub at_least-PowerOfTwo :
    (asked : Option ℕ) (n : ℕ)
    → AsksPower asked
    → PowerOfTwo n
    → PowerOfTwo (max (at_least asked n) 1)
at_least-PowerOfTwo none n h p = max-PowerOfTwo n 1 p one-PowerOfTwo
at_least-PowerOfTwo (some a) n h p =
    max-PowerOfTwo (max n a) 1 (max-PowerOfTwo n a p (h.0)) one-PowerOfTwo

pub at_least-bound :
    (asked : Option ℕ) (n : ℕ) → AsksPower asked → max (at_least asked n) 1 ≤ n + 2 ^ 32
at_least-bound none n h = omega arith
at_least-bound (some a) n h = omega (arith, h.1)

-- The layout of a struct that is not packed is sound, if the layouts it can refer to have alignments that
-- are powers of two, as is the one it asks for, and its fields do not fill the memory.
pub layout_struct-Sound :
    (s : StructDecl) (known : Layouts)
    → s.packed ≡ false
    → AlignedLayouts known
    → AsksPower (s.align)
    → room known (s.members) < 2 ^ 62
    → Sound (layout_struct s known)
unfolding layout_struct
layout_struct-Sound s known loose aligned asks small =
    let done = place-Goes known (s.members) aligned 0 1 one-PowerOfTwo (omega arith) in
    let top = (place false known (s.members) 0 1).max_align in
    let align = max (at_least (s.align) top) 1 in
    let power = at_least-PowerOfTwo (s.align) top asks (done.power) in
    let up =
      align_up-RoundedUp ((place false known (s.members) 0 1).offset) align power
        (omega (arith, done.bound, done.align_bound, at_least-bound (s.align) top asks)) in
    rw loose record { inside = done.laid _ (up.no_less); whole = up.multiple; power = power }
