-- ===== src/Types/FromRef.antt =====
-- `ty_from_ref` of src/types.rs: the type that a type expression of the syntax tree stands for.
use Prim.Native.Nat.{max}
use raytask.Prelude.{◌||◌, if◌then◌else◌}
use raytask.Prelude.Text.{Str, codes, same_bytes}
use raytask.Ast.{TypeRef, TypeRefs}
use raytask.Types.{Ty, Tys, make_nullable}

-- A name that is none of the built-in ones, with its arguments.
abbrev user_type : Str → Tys → Ty
user_type name Tys.no_types = Ty.named name
user_type name (Tys.type t ts) = Ty.generic name (Tys.type t ts)

-- `args.first()`, or `void`
abbrev first_or_void : Tys → Ty
first_or_void Tys.no_types = Ty.void
first_or_void (Tys.type t ts) = t

abbrev base_type : Str → Tys → Ty
base_type name args =
    if same_bytes name (codes "void")
    then Ty.void
    else if same_bytes name (codes "bool")
    then Ty.bool
    else if same_bytes name (codes "byte")
    then Ty.byte
    else if same_bytes name (codes "sbyte")
    then Ty.sbyte
    else if same_bytes name (codes "short")
    then Ty.short
    else if same_bytes name (codes "ushort")
    then Ty.ushort
    else if same_bytes name (codes "int")
    then Ty.int
    else if same_bytes name (codes "uint")
    then Ty.uint
    else if same_bytes name (codes "long")
    then Ty.long
    else if same_bytes name (codes "ulong")
    then Ty.ulong
    else if same_bytes name (codes "float")
    then Ty.float
    else if same_bytes name (codes "double")
    then Ty.double
    else if same_bytes name (codes "decimal")
    then Ty.decimal
    else if same_bytes name (codes "char")
    then Ty.char
    else if same_bytes name (codes "string")
    then Ty.string
    else if same_bytes name (codes "dyn") || same_bytes name (codes "var")
    then Ty.dyn
    else if same_bytes name (codes "ptr")
    then Ty.ptr (first_or_void args)
    else user_type name args

unfoldable mutual
  pub ty_from_ref : TypeRef → Ty
  ty_from_ref (TypeRef.type_ref name args nullable is_array array_dims) =
      let base = base_type name (tys_from_refs args) in
      let whole = if is_array then Ty.array base (max array_dims 1) else base in
      if nullable then make_nullable whole else whole

  pub tys_from_refs : TypeRefs → Tys
  tys_from_refs TypeRefs.no_args = Tys.no_types
  tys_from_refs (TypeRefs.arg ty rest) = Tys.type (ty_from_ref ty) (tys_from_refs rest)
