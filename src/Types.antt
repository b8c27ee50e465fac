-- ===== src/Types.antt =====
-- src/types.rs: the types of the language, and which values a variable may be given.
pub mod Assign
pub mod Unify
pub mod Rules
pub mod Semantic
pub mod Joined
pub mod FromRef
mod Tests
use mathlib.Core.Logic.{ite}
use native.Mathlib.Decide.{ℕ_discrete}
use raytask.Prelude.{
  ℕ, zero, suc, Bool, true, false, Option, none, some, List, [], ◌∷◌, ◌&&◌, ◌||◌, leb, ◌==◌,
  if◌then◌else◌,
}
use raytask.Prelude.Text.{Str, codes}

mutual
  pub data Ty : Type 0 where
    void bool byte sbyte short ushort int uint long ulong float double decimal char string : Ty
    dyn null error : Ty
    named type_param : Str → Ty
    generic : (name : Str) (args : Tys) → Ty
    array : (elem : Ty) (dims : ℕ) → Ty
    nullable ptr : Ty → Ty
    func : (params : Tys) (ret : Ty) → Ty

  -- `Vec<Ty>`
  pub data Tys : Type 0 where
    no_types : Tys
    type : Ty → Tys → Tys

pub Ty-discrete : Discrete Ty
Ty-discrete = hlevel ℕ_discrete

pub data TypeCategory : Type 0 where
  value reference nullable_type pointer dynamic type_parameter error_type : TypeCategory

unfoldable pub list : Ty → Ty
list elem = Ty.generic (codes "List") (Tys.type elem Tys.no_types)

unfoldable pub is_numeric : Ty → Bool
is_numeric Ty.byte = true
is_numeric Ty.sbyte = true
is_numeric Ty.short = true
is_numeric Ty.ushort = true
is_numeric Ty.int = true
is_numeric Ty.uint = true
is_numeric Ty.long = true
is_numeric Ty.ulong = true
is_numeric Ty.float = true
is_numeric Ty.double = true
is_numeric Ty.decimal = true
is_numeric Ty.dyn = true
is_numeric Ty.error = true
is_numeric _ = false

unfoldable pub is_integral : Ty → Bool
is_integral Ty.byte = true
is_integral Ty.sbyte = true
is_integral Ty.short = true
is_integral Ty.ushort = true
is_integral Ty.int = true
is_integral Ty.uint = true
is_integral Ty.long = true
is_integral Ty.ulong = true
is_integral Ty.dyn = true
is_integral Ty.error = true
is_integral _ = false

unfoldable pub is_floating : Ty → Bool
is_floating Ty.float = true
is_floating Ty.double = true
is_floating Ty.decimal = true
is_floating Ty.dyn = true
is_floating Ty.error = true
is_floating _ = false

unfoldable pub is_bool_like : Ty → Bool
is_bool_like Ty.bool = true
is_bool_like Ty.dyn = true
is_bool_like Ty.error = true
is_bool_like _ = false

unfoldable pub category : Ty → TypeCategory
category Ty.string = reference
category (Ty.named name) = reference
category (Ty.generic name args) = reference
category (Ty.array elem dims) = reference
category (Ty.func params ret) = reference
category (Ty.nullable inner) = nullable_type
category Ty.null = nullable_type
category (Ty.ptr inner) = pointer
category Ty.dyn = dynamic
category (Ty.type_param name) = type_parameter
category Ty.error = error_type
category _ = value

abbrev admits_null : TypeCategory → Bool
admits_null reference = true
admits_null nullable_type = true
admits_null pointer = true
admits_null dynamic = true
admits_null error_type = true
admits_null _ = false

unfoldable pub is_nullable : Ty → Bool
is_nullable t = admits_null (category t)

unfoldable pub unwrap_nullable : Ty → Ty
unwrap_nullable (Ty.nullable inner) = inner
unwrap_nullable other = other

unfoldable pub make_nullable : Ty → Ty
make_nullable (Ty.nullable inner) = Ty.nullable inner
make_nullable Ty.dyn = Ty.dyn
make_nullable Ty.null = Ty.null
make_nullable Ty.error = Ty.error
make_nullable other = Ty.nullable other

-- The rank of a numeric type for promotions.
unfoldable pub numeric_rank : Ty → Option ℕ
numeric_rank Ty.byte = some 1
numeric_rank Ty.sbyte = some 1
numeric_rank Ty.short = some 2
numeric_rank Ty.ushort = some 2
numeric_rank Ty.int = some 3
numeric_rank Ty.uint = some 3
numeric_rank Ty.long = some 4
numeric_rank Ty.ulong = some 4
numeric_rank Ty.float = some 5
numeric_rank Ty.double = some 6
numeric_rank Ty.decimal = some 7
numeric_rank Ty.dyn = some 100
numeric_rank Ty.error = some 100
numeric_rank _ = none

-- `matches!(t, Ty::Dyn)` and the like
unfoldable pub is_dyn : Ty → Bool
is_dyn Ty.dyn = true
is_dyn _ = false

unfoldable pub is_error : Ty → Bool
is_error Ty.error = true
is_error _ = false

unfoldable pub is_null : Ty → Bool
is_null Ty.null = true
is_null _ = false

abbrev pub higher : Ty → Ty → Option ℕ → Option ℕ → Option Ty
higher a b (some ra) (some rb) = if leb rb ra then some a else some b
higher a b _ _ = none

unfoldable pub promote_numeric : Ty → Ty → Option Ty
promote_numeric a b =
    if is_dyn a || is_dyn b
    then some Ty.dyn
    else if is_error a || is_error b
    then some Ty.error
    else higher a b (numeric_rank a) (numeric_rank b)
