-- ===== src/Layout/Tests.antt =====
-- Layouts of src/abi.rs worked out.
use Prim.Native.String.{String}
use raytask.Prelude.{◌≡◌, refl, true, false, none, some, [], ◌∷◌, arith}
use raytask.Prelude.Text.{codes, same_bytes}
use raytask.Value.{FfiType, FfiStructLayout, FfiFields}
use raytask.Ast.{TypeRef, TypeRefs, Member, StructDecl, UnionDecl}
use raytask.Layout.{
  get_layout, one_of, scalar_of, pointer_to, from_type_ref_with, from_type_ref,
  primitive_size_align,
}
use raytask.Layout.Place.{
  layout_size_align, align_up, size_align_of, field_type, placed_type, place, layout_struct,
}
use raytask.Layout.Laid.{room, Sound, layout_struct-Sound}
use raytask.Layout.Sizes.{size_of}

abbrev plain : String → TypeRef
plain name = TypeRef.type_ref (codes name) TypeRefs.no_args false false 0

abbrev field_of : String → String → Member
field_of name ty =
    Member.field record { is_static = false; ty = some (plain ty); name = codes name }

abbrev header : StructDecl
header = record {
  name = codes "Header";
  members =
      field_of "tag" "byte"
      ∷ Member.code
      ∷ field_of "size" "int"
      ∷ field_of "at" "ptr"
      ∷ field_of "last" "byte"
      ∷ [];
  packed = false;
  align = none;
}

abbrev packed_header : StructDecl
packed_header = record header { packed = true }

abbrev word : UnionDecl
word = record {
  name = codes "Word";
  members = field_of "bytes" "short" ∷ field_of "whole" "double" ∷ field_of "low" "char" ∷ [];
  packed = false;
  align = none;
}

header-layout :
    layout_struct header []
    ≡ FfiStructLayout.layout (codes "Header") 24 8 false (
        FfiFields.field (codes "tag") 0 FfiType.i8 (
          FfiFields.field (codes "size") 4 FfiType.i32 (
            FfiFields.field
              (codes "at")
              8
              FfiType.ptr
              (FfiFields.field (codes "last") 16 FfiType.i8 FfiFields.no_fields))))
unfolding layout_struct place placed_type field_type get_layout from_type_ref from_type_ref_with
    one_of same_bytes scalar_of pointer_to primitive_size_align size_align_of align_up
header-layout = refl

-- With an alignment that is not a power of two, the size need not be a multiple of it.
odd_align : layout_size_align (layout_struct (record header { align = some 12 }) []) ≡ (20, 12)
unfolding layout_struct place placed_type field_type get_layout from_type_ref from_type_ref_with
    one_of same_bytes scalar_of pointer_to primitive_size_align size_align_of align_up
odd_align = refl

-- `sizeof(char)` is 2, and a field of that type takes 4 bytes.
char_sizes :
    (size_of [] (plain "char") ≡ 2) × ((size_align_of (field_type (plain "char") [])).0 ≡ 4)
unfolding size_of field_type get_layout from_type_ref from_type_ref_with one_of same_bytes scalar_of
    primitive_size_align size_align_of
char_sizes = (refl, refl)

layout_struct-Sound_example : Sound (layout_struct header [])
unfolding room placed_type field_type get_layout from_type_ref from_type_ref_with one_of same_bytes
    scalar_of pointer_to primitive_size_align size_align_of
layout_struct-Sound_example = layout_struct-Sound header [] refl tt tt (omega arith)
