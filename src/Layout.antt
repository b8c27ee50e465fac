-- ===== src/Layout.antt =====
-- src/abi.rs: where the fields of a C struct or union lie in memory, and how src/ffi.rs reads the types of
-- the fields. A `HashMap` of layouts is a list of its entries, of which the first counts.
pub mod Place
pub mod Align
pub mod Powers
pub mod Sizes
pub mod Laid
pub mod Packed
mod Tests
use Prim.Native.Nat.{max}
use raytask.Prelude.{
  ℕ, ◌+◌, ◌-◌, ◌^◌, ◌%◌, bit_and, Bool, true, false, not, ◌||◌, Option, none, some, List, [], ◌∷◌,
  ◌==◌, if◌then◌else◌,
}
use raytask.Prelude.Text.{Str, codes, same_bytes}
use raytask.Value.{FfiType, FfiStructLayout, FfiFields}
use raytask.Ast.{TypeRef, TypeRefs, FieldDecl, Member, StructDecl, UnionDecl}

abbrev pub Layouts : Type 0
Layouts = List (Str × FfiStructLayout)

unfoldable pub get_layout : Layouts → Str → Option FfiStructLayout
get_layout [] name = none
get_layout ((known, found) ∷ rest) name =
    let later = get_layout rest name in if same_bytes known name then some found else later

unfoldable pub one_of : Str → List Str → Bool
one_of name [] = false
one_of name (n ∷ ns) = same_bytes name n || one_of name ns

abbrev pub named : TypeRef → Str
named (TypeRef.type_ref name args nullable is_array dims) = name

abbrev pub args_of : TypeRef → TypeRefs
args_of (TypeRef.type_ref name args nullable is_array dims) = args

-- The types by their names.
unfoldable pub scalar_of : Str → FfiType
scalar_of name =
    if same_bytes name (codes "void")
    then FfiType.void
    else if same_bytes name (codes "bool")
    then FfiType.bool
    else if one_of name (codes "byte" ∷ codes "i8" ∷ codes "sbyte" ∷ [])
    then FfiType.i8
    else if one_of name (codes "short" ∷ codes "i16" ∷ [])
    then FfiType.i16
    else if one_of name (codes "int" ∷ codes "i32" ∷ [])
    then FfiType.i32
    else if one_of name (codes "long" ∷ codes "i64" ∷ [])
    then FfiType.i64
    else if one_of name (codes "ubyte" ∷ codes "u8" ∷ [])
    then FfiType.u8
    else if one_of name (codes "ushort" ∷ codes "u16" ∷ [])
    then FfiType.u16
    else if one_of name (codes "uint" ∷ codes "u32" ∷ [])
    then FfiType.u32
    else if one_of name (codes "ulong" ∷ codes "u64" ∷ [])
    then FfiType.u64
    else if one_of name (codes "float" ∷ codes "f32" ∷ [])
    then FfiType.f32
    else if one_of name (codes "double" ∷ codes "f64" ∷ [])
    then FfiType.f64
    else if one_of name (codes "string" ∷ codes "str" ∷ [])
    then FfiType.c_string
    else if same_bytes name (codes "char")
    then FfiType.i32
    else FfiType.ptr

-- `ptr<T>` for a struct `T` with a layout.
unfoldable pub pointer_to : Layouts → TypeRefs → FfiType
pointer_to layouts TypeRefs.no_args = FfiType.ptr
pointer_to layouts (TypeRefs.arg inner rest) = elim (get_layout layouts (named inner)) [
  | some found ↦ FfiType.struct_ptr found
  | none ↦ FfiType.ptr
]

abbrev pub pointer_names : List Str
pointer_names = codes "ptr" ∷ codes "pointer" ∷ []

unfoldable pub from_type_ref_with : Layouts → TypeRef → FfiType
from_type_ref_with layouts tr = elim (get_layout layouts (named tr)) [
  | some found ↦ FfiType.struct found
  | none ↦
      if one_of (named tr) pointer_names
      then pointer_to layouts (args_of tr)
      else scalar_of (named tr)
]

unfoldable pub from_type_ref : TypeRef → FfiType
from_type_ref tr = from_type_ref_with [] tr

unfoldable pub primitive_size_align : Str → Option (ℕ × ℕ)
primitive_size_align name =
    if same_bytes name (codes "void")
    then some (0, 1)
    else if same_bytes name (codes "bool")
    then some (1, 1)
    else if one_of name
        (codes "byte" ∷ codes "ubyte" ∷ codes "i8" ∷ codes "u8" ∷ codes "sbyte" ∷ [])
    then some (1, 1)
    else if one_of name (codes "short" ∷ codes "ushort" ∷ codes "i16" ∷ codes "u16" ∷ [])
    then some (2, 2)
    else if same_bytes name (codes "char")
    then some (2, 2)
    else if one_of name
        (codes "int" ∷ codes "uint" ∷ codes "i32" ∷ codes "u32" ∷ codes "float" ∷ codes "f32" ∷ [])
    then some (4, 4)
    else if one_of name (
        codes "long"
        ∷ codes "ulong"
        ∷ codes "i64"
        ∷ codes "u64"
        ∷ codes "double"
        ∷ codes "f64"
        ∷ [])
    then some (8, 8)
    else if one_of name (
        codes "ptr"
        ∷ codes "pointer"
        ∷ codes "nuint"
        ∷ codes "nint"
        ∷ codes "string"
        ∷ codes "str"
        ∷ [])
    then some (8, 8)
    else none

unfoldable pub is_float : FfiType → Bool
is_float FfiType.f32 = true
is_float FfiType.f64 = true
is_float _ = false

unfoldable pub is_struct : FfiType → Bool
is_struct (FfiType.struct found) = true
is_struct (FfiType.struct_ptr found) = true
is_struct _ = false
