-- ===== src/Layout/Packed.antt =====
-- Packed structs and unions in src/abi.rs: fields without gaps, and fields all at the start.
use Prim.Native.Nat.{max}
use raytask.Prelude.{
  ℕ, ◌+◌, ◌%◌, ◌^◌, ◌≤◌, ◌<◌, ◌≡◌, refl, true, false, Option, none, some, List, [], ◌∷◌, arith,
}
use raytask.Prelude.Text.{Str}
use raytask.Value.{FfiFields}
use raytask.Ast.{TypeRef, Member, StructDecl, UnionDecl}
use raytask.Layout.{Layouts}
use raytask.Layout.Place.{
  layout_size_align, size_align_of, field_type, placed_type, member_name, Placed, place_one, place,
  at_least, layout_struct, overlay_one, overlay, layout_union,
}
use raytask.Layout.Align.{PowerOfTwo, align_up-RoundedUp, max-PowerOfTwo}
use raytask.Layout.Powers.{AlignedLayouts, field_type-PowerOfTwo, one-PowerOfTwo}
use raytask.Layout.Laid.{room_of, room, fields_of, AsksPower, at_least-PowerOfTwo, at_least-bound}

-- The fields lie from `from` to `to` without a gap.
unfoldable pub Contiguous : (from : ℕ) → FfiFields → (to : ℕ) → Type 0
Contiguous from FfiFields.no_fields to = from ≡ to
Contiguous from (FfiFields.field name offset ffi rest) to =
    (offset ≡ from) × Contiguous (from + (size_align_of ffi).0) rest to

abbrev Packs : (limit : ℕ) → (ℕ → ℕ → Placed) → Type 0
Packs limit rest =
    (offset max_align : ℕ)
    → offset + limit < 2 ^ 64
    → Contiguous offset ((rest offset max_align).fields) ((rest offset max_align).offset)

place_one-Packs :
    (known : Layouts) (name : Str) (ty : Option TypeRef) (limit : ℕ) (rest : ℕ → ℕ → Placed)
    → Packs limit rest
    → Packs (room_of known ty limit) (place_one true known name ty rest)
unfolding Contiguous
place_one-Packs known name none limit rest go offset max_align small = go offset max_align small
place_one-Packs known name (some ty) limit rest go offset max_align small =
    let sz = (size_align_of (field_type ty known)).0 in
    let fits : (offset + sz) % 2 ^ 64 ≡ offset + sz = omega arith in
    (refl, rw fits (go (offset + sz) max_align (omega arith)))

place-Packs : (known : Layouts) (ms : List Member) → Packs (room known ms) (place true known ms)
unfolding place room Contiguous
place-Packs known [] = λ offset max_align small. refl
place-Packs known (m ∷ ms) =
    place_one-Packs known (member_name m) (placed_type false m) (room known ms)
      (place true known ms) (place-Packs known ms)

-- The fields of a packed struct lie one behind the other without a gap, and its size is where the last one
-- ends, if they do not fill the memory.
pub layout_struct-Contiguous :
    (s : StructDecl) (known : Layouts)
    → s.packed ≡ true
    → room known (s.members) < 2 ^ 64
    → Contiguous 0
        (fields_of (layout_struct s known))
        ((layout_size_align (layout_struct s known)).0)
unfolding layout_struct
layout_struct-Contiguous s known packed small =
    rw packed (place-Packs known (s.members) 0 1 (omega arith))

-- Every field is at the start, and no longer than `size`.
unfoldable pub Overlaid : FfiFields → (size : ℕ) → Type 0
Overlaid FfiFields.no_fields size = Unit
Overlaid (FfiFields.field name offset ffi rest) size =
    (offset ≡ 0) × (((size_align_of ffi).0 ≤ size) × Overlaid rest size)

record Covers (size from_align limit : ℕ) (done : Placed) : Type 0 where
  grows : size ≤ done.offset
  laid : (to : ℕ) → done.offset ≤ to → Overlaid done.fields to
  bound : done.offset ≤ size + limit
  align_bound : done.max_align ≤ from_align + limit
  power : PowerOfTwo done.max_align

abbrev CoversAll : (limit : ℕ) → (ℕ → ℕ → Placed) → Type 0
CoversAll limit rest =
    (size max_align : ℕ) → PowerOfTwo max_align → Covers size max_align limit (rest size max_align)

unfoldable pub union_room : Layouts → List Member → ℕ
union_room known [] = 0
union_room known (m ∷ ms) = room_of known (placed_type true m) (union_room known ms)

overlay_one-CoversAll :
    (known : Layouts) (name : Str) (ty : Option TypeRef) (limit : ℕ) (rest : ℕ → ℕ → Placed)
    → AlignedLayouts known
    → CoversAll limit rest
    → CoversAll (room_of known ty limit) (overlay_one false known name ty rest)
unfolding Overlaid
overlay_one-CoversAll known name none limit rest aligned go size max_align p = go size max_align p
overlay_one-CoversAll known name (some ty) limit rest aligned go size max_align p =
    let sz = (size_align_of (field_type ty known)).0 in
    let al = (size_align_of (field_type ty known)).1 in
    let power = field_type-PowerOfTwo ty known aligned in
    let after = go (max size sz) (max max_align al) (max-PowerOfTwo max_align al p power) in
    record {
      grows = omega (arith, after.grows);
      laid = λ to h. (refl, (omega (arith, after.grows), after.laid to h));
      bound = omega (arith, after.bound);
      align_bound = omega (arith, after.align_bound);
      power = after.power;
    }

overlay-CoversAll :
    (known : Layouts) (ms : List Member)
    → AlignedLayouts known
    → CoversAll (union_room known ms) (overlay false known ms)
unfolding overlay union_room Overlaid
overlay-CoversAll known [] aligned = λ size max_align p. record {
  grows = omega arith;
  laid = λ to h. tt;
  bound = omega arith;
  align_bound = omega arith;
  power = p;
}
overlay-CoversAll known (m ∷ ms) aligned =
    overlay_one-CoversAll known (member_name m) (placed_type true m) (union_room known ms)
      (overlay false known ms) aligned (overlay-CoversAll known ms aligned)

-- The fields of a union that is not packed are all at its start and fit into it, and its size is a multiple
-- of its alignment, if the alignments asked for are powers of two and the fields do not fill the memory.
pub layout_union-Overlaid :
    (u : UnionDecl) (known : Layouts)
    → u.packed ≡ false
    → AlignedLayouts known
    → AsksPower (u.align)
    → union_room known (u.members) < 2 ^ 62
    → Overlaid (fields_of (layout_union u known)) ((layout_size_align (layout_union u known)).0)
      × ((layout_size_align (layout_union u known)).0 % (layout_size_align (layout_union u known)).1
          ≡ 0)
unfolding layout_union
layout_union-Overlaid u known loose aligned asks small =
    let done = overlay-CoversAll known (u.members) aligned 0 1 one-PowerOfTwo in
    let top = (overlay false known (u.members) 0 1).max_align in
    let align = max (at_least (u.align) top) 1 in
    let up =
      align_up-RoundedUp ((overlay false known (u.members) 0 1).offset) align
        (at_least-PowerOfTwo (u.align) top asks (done.power))
        (omega (arith, done.bound, done.align_bound, at_least-bound (u.align) top asks)) in
    rw loose (done.laid _ (up.no_less), up.multiple)
