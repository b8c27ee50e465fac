-- ===== src/Layout/Powers.antt =====
-- The alignments that src/abi.rs gives to fields are powers of two.
use raytask.Prelude.{
  ◌≡◌, refl, false, ◌&&◌, Option, none, some, [], ◌∷◌, All, Bool-cases, inl, inr, arith,
}
use raytask.Prelude.Text.{Str, same_bytes}
use raytask.Value.{FfiType, FfiStructLayout}
use raytask.Ast.{TypeRef, TypeRefs}
use raytask.Layout.{
  Layouts, get_layout, named, args_of, pointer_names, one_of, scalar_of, pointer_to,
  from_type_ref_with, from_type_ref, primitive_size_align, is_struct,
}
use raytask.Layout.Place.{layout_size_align, size_align_of, field_type, unknown_or, is_ptr, is_none}
use raytask.Layout.Align.{PowerOfTwo}

-- The layouts of a table have such alignments.
abbrev pub AlignedLayouts : Layouts → Type 0
AlignedLayouts known = All (λ entry. PowerOfTwo ((layout_size_align (entry.1)).1)) known

pub one-PowerOfTwo : PowerOfTwo 1
one-PowerOfTwo = record { exponent = 0; others = 64; is_power = refl; fits = refl }

two-PowerOfTwo : PowerOfTwo 2
two-PowerOfTwo = record { exponent = 1; others = 63; is_power = refl; fits = refl }

four-PowerOfTwo : PowerOfTwo 4
four-PowerOfTwo = record { exponent = 2; others = 62; is_power = refl; fits = refl }

eight-PowerOfTwo : PowerOfTwo 8
eight-PowerOfTwo = record { exponent = 3; others = 61; is_power = refl; fits = refl }

scalar-PowerOfTwo : (ffi : FfiType) → is_struct ffi ≡ false → PowerOfTwo ((size_align_of ffi).1)
unfolding is_struct size_align_of
scalar-PowerOfTwo FfiType.void h = one-PowerOfTwo
scalar-PowerOfTwo FfiType.bool h = one-PowerOfTwo
scalar-PowerOfTwo FfiType.i8 h = one-PowerOfTwo
scalar-PowerOfTwo FfiType.u8 h = one-PowerOfTwo
scalar-PowerOfTwo FfiType.i16 h = two-PowerOfTwo
scalar-PowerOfTwo FfiType.u16 h = two-PowerOfTwo
scalar-PowerOfTwo FfiType.i32 h = four-PowerOfTwo
scalar-PowerOfTwo FfiType.u32 h = four-PowerOfTwo
scalar-PowerOfTwo FfiType.f32 h = four-PowerOfTwo
scalar-PowerOfTwo FfiType.i64 h = eight-PowerOfTwo
scalar-PowerOfTwo FfiType.u64 h = eight-PowerOfTwo
scalar-PowerOfTwo FfiType.f64 h = eight-PowerOfTwo
scalar-PowerOfTwo FfiType.ptr h = eight-PowerOfTwo
scalar-PowerOfTwo FfiType.c_string h = eight-PowerOfTwo
scalar-PowerOfTwo (FfiType.struct found) h = ground arith
scalar-PowerOfTwo (FfiType.struct_ptr found) h = ground arith

scalar_of-is_struct : (name : Str) → is_struct (scalar_of name) ≡ false
unfolding is_struct scalar_of
scalar_of-is_struct name = ground arith

pointer_to-is_struct : (args : TypeRefs) → is_struct (pointer_to [] args) ≡ false
unfolding is_struct pointer_to get_layout
pointer_to-is_struct TypeRefs.no_args = refl
pointer_to-is_struct (TypeRefs.arg inner rest) = refl

from_type_ref-is_struct : (ty : TypeRef) → is_struct (from_type_ref ty) ≡ false
unfolding from_type_ref from_type_ref_with get_layout
from_type_ref-is_struct ty = elim (Bool-cases (one_of (named ty) pointer_names)) [
  | inl e ↦ rw e (pointer_to-is_struct (args_of ty))
  | inr e ↦ rw e (scalar_of-is_struct (named ty))
]

abbrev AlignedIfKnown : Option FfiStructLayout → Type 0
AlignedIfKnown none = Unit
AlignedIfKnown (some found) = PowerOfTwo ((layout_size_align found).1)

get_layout-AlignedIfKnown :
    (known : Layouts) (name : Str) → AlignedLayouts known → AlignedIfKnown (get_layout known name)
unfolding get_layout
get_layout-AlignedIfKnown [] name aligned = tt
get_layout-AlignedIfKnown ((n, l) ∷ rest) name aligned = elim (Bool-cases (same_bytes n name)) [
  | inl e ↦ rw e (aligned.0)
  | inr e ↦ rw e (get_layout-AlignedIfKnown rest name (aligned.1))
]

unknown_or-PowerOfTwo :
    (found : Option FfiStructLayout) (ty : TypeRef)
    → AlignedIfKnown found
    → PowerOfTwo ((size_align_of (unknown_or found ty)).1)
unfolding size_align_of
unknown_or-PowerOfTwo (some found) ty h = h
unknown_or-PowerOfTwo none ty h =
    elim (Bool-cases (is_ptr (from_type_ref ty) && is_none (primitive_size_align (named ty)))) [
      | inl e ↦ rw e eight-PowerOfTwo
      | inr e ↦ rw e (scalar-PowerOfTwo (from_type_ref ty) (from_type_ref-is_struct ty))
    ]

pub field_type-PowerOfTwo :
    (ty : TypeRef) (known : Layouts)
    → AlignedLayouts known
    → PowerOfTwo ((size_align_of (field_type ty known)).1)
unfolding field_type
field_type-PowerOfTwo ty known aligned =
    unknown_or-PowerOfTwo (get_layout known (named ty)) ty
      (get_layout-AlignedIfKnown known (named ty) aligned)
