-- ===== src/Layout/Place.antt =====
-- The layout of structs and unions in src/abi.rs. A `usize` has 64 bits, and a sum wraps.
use Prim.Native.Nat.{max}
use raytask.Prelude.{
  ℕ, ◌+◌, ◌-◌, ◌^◌, ◌%◌, bit_and, Bool, true, false, ◌||◌, ◌&&◌, not, Option, none, some, List, [],
  ◌∷◌, ◌==◌, if◌then◌else◌,
}
use raytask.Prelude.Text.{Str}
use raytask.Value.{FfiType, FfiStructLayout, FfiFields}
use raytask.Ast.{TypeRef, Member, StructDecl, UnionDecl}
use raytask.Layout.{Layouts, named, get_layout, from_type_ref, primitive_size_align}

-- `!(align - 1)` on 64 bits is `2 ^ 64 - align`.
unfoldable pub align_up : (off align : ℕ) → ℕ
align_up off align =
    if align == 0 then off else bit_and ((off + align + (2 ^ 64 - 1)) % 2 ^ 64) (2 ^ 64 - align)

abbrev pub layout_size_align : FfiStructLayout → ℕ × ℕ
layout_size_align (FfiStructLayout.layout name size align packed places) = (size, align)

-- Sizes and alignments of the types of fields.
unfoldable pub size_align_of : FfiType → ℕ × ℕ
size_align_of FfiType.void = (0, 1)
size_align_of FfiType.bool = (1, 1)
size_align_of FfiType.i8 = (1, 1)
size_align_of FfiType.u8 = (1, 1)
size_align_of FfiType.i16 = (2, 2)
size_align_of FfiType.u16 = (2, 2)
size_align_of FfiType.i32 = (4, 4)
size_align_of FfiType.u32 = (4, 4)
size_align_of FfiType.f32 = (4, 4)
size_align_of FfiType.i64 = (8, 8)
size_align_of FfiType.u64 = (8, 8)
size_align_of FfiType.f64 = (8, 8)
size_align_of FfiType.ptr = (8, 8)
size_align_of FfiType.c_string = (8, 8)
size_align_of (FfiType.struct l) = layout_size_align l
size_align_of (FfiType.struct_ptr l) = layout_size_align l

abbrev pub is_ptr : FfiType → Bool
is_ptr FfiType.ptr = true
is_ptr _ = false

abbrev pub is_none : Option (ℕ × ℕ) → Bool
is_none none = true
is_none (some p) = false

abbrev pub unknown_or : Option FfiStructLayout → TypeRef → FfiType
unknown_or (some found) ty = FfiType.struct found
unknown_or none ty =
    if is_ptr (from_type_ref ty) && is_none (primitive_size_align (named ty))
    then FfiType.ptr
    else from_type_ref ty

-- The type of a field; its size and alignment, which the source's function gives with it, are
-- `size_align_of` it on every branch.
unfoldable pub field_type : TypeRef → Layouts → FfiType
field_type ty known = unknown_or (get_layout known (named ty)) ty

-- The fields that get a place: those with a type, and in structs (`statics` is false) not the static ones.
unfoldable pub placed_type : (statics : Bool) → Member → Option TypeRef
placed_type statics Member.code = none
placed_type statics (Member.field f) = if f.is_static && not statics then none else f.ty

abbrev pub member_name : Member → Str
member_name Member.code = []
member_name (Member.field f) = f.name

-- What the loop of `layout_struct` leaves in `fields`, `offset` and `max_align`.
pub record Placed : Type 0 where
  pub fields : FfiFields
  pub offset : ℕ
  pub max_align : ℕ

abbrev pub put : Str → (offset : ℕ) → FfiType → Placed → Placed
put name offset ffi rest = record rest { fields = FfiFields.field name offset ffi rest.fields }

-- One member, before the `rest` of the loop: one that has no type to place is skipped.
abbrev pub place_one :
    (packed : Bool)
    → Layouts
    → Str
    → Option TypeRef
    → (rest : ℕ → ℕ → Placed) → (offset max_align : ℕ) → Placed
place_one packed known name none rest offset max_align = rest offset max_align
place_one packed known name (some ty) rest offset max_align =
    let ffi = field_type ty known in
    let (sz, al) = size_align_of ffi in
    let here = if packed then offset else align_up offset al in
    put name here ffi (rest ((here + sz) % 2 ^ 64) (if packed then max_align else max max_align al))

unfoldable pub place : (packed : Bool) → Layouts → List Member → (offset max_align : ℕ) → Placed
place packed known [] offset max_align = record {
  fields = FfiFields.no_fields;
  offset = offset;
  max_align = max_align;
}
place packed known (m ∷ ms) offset max_align =
    place_one packed known (member_name m) (placed_type false m) (place packed known ms) offset
      max_align

abbrev pub at_least : Option ℕ → ℕ → ℕ
at_least none n = n
at_least (some a) n = max n a

unfoldable pub layout_struct : StructDecl → Layouts → FfiStructLayout
layout_struct s known =
    let done = place s.packed known s.members 0 1 in
    let align = max (at_least s.align done.max_align) 1 in
    FfiStructLayout.layout s.name (if s.packed then done.offset else align_up done.offset align)
      align s.packed done.fields

-- The loop of `layout_union`, with `size` in the place of `offset`.
abbrev pub overlay_one :
    (packed : Bool)
    → Layouts
    → Str
    → Option TypeRef
    → (rest : ℕ → ℕ → Placed) → (size max_align : ℕ) → Placed
overlay_one packed known name none rest size max_align = rest size max_align
overlay_one packed known name (some ty) rest size max_align =
    let ffi = field_type ty known in
    let (sz, al) = size_align_of ffi in
    put name 0 ffi (rest (max size sz) (max max_align (if packed then 1 else al)))

unfoldable pub overlay : (packed : Bool) → Layouts → List Member → (size max_align : ℕ) → Placed
overlay packed known [] size max_align = record {
  fields = FfiFields.no_fields;
  offset = size;
  max_align = max_align;
}
overlay packed known (m ∷ ms) size max_align =
    overlay_one packed known (member_name m) (placed_type true m) (overlay packed known ms) size
      max_align

unfoldable pub layout_union : UnionDecl → Layouts → FfiStructLayout
layout_union u known =
    let done = overlay u.packed known u.members 0 1 in
    let align = max (at_least u.align done.max_align) 1 in
    FfiStructLayout.layout u.name (if u.packed then done.offset else align_up done.offset align)
      align u.packed done.fields

-- A struct of this size is passed in an integer register.
unfoldable pub struct_fits_register : FfiStructLayout → Bool
struct_fits_register (FfiStructLayout.layout name size align packed places) =
    size == 1 || size == 2 || (size == 4 || size == 8)
