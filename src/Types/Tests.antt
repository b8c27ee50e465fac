-- ===== src/Types/Tests.antt =====
-- The rules of src/types.rs at work.
use raytask.Prelude.{◌≡◌, refl, true, false, some, [], ◌∷◌}
use raytask.Prelude.Text.{codes, same_bytes}
use raytask.Ast.{TypeRef, TypeRefs}
use raytask.Types.FromRef.{ty_from_ref}
use raytask.Types.{
  Ty, Tys, Ty-discrete, list, numeric_rank, is_integral, is_dyn, is_error, is_null, make_nullable,
}
use raytask.Types.Assign.{is_assignable_to, unify, early, early_on, by_structure}
use raytask.Types.Semantic.{
  TypeChecker, TypeDefKind, type_category, can_accept_null, is_ancestor, is_subtype, first_tests,
  later_tests, last_tests, assignable_on, is_semantically_assignable,
}
use raytask.Types.Joined.{nullable_refused}

-- `int` and `null` are joined as `int?`.
unify-null : unify Ty.int Ty.null ≡ Ty.nullable Ty.int
unfolding unify Ty-discrete is_error is_dyn is_null make_nullable
unify-null = refl

-- A function that takes a `long` serves where an `int` is passed to it.
func-contravariant :
    is_assignable_to
      (Ty.func (Tys.type Ty.long Tys.no_types) Ty.int)
      (Ty.func (Tys.type Ty.int Tys.no_types) (Ty.nullable Ty.long))
    ≡ true
unfolding is_assignable_to early Ty-discrete is_dyn is_error is_null numeric_rank by_structure
    early_on
func-contravariant = refl

func-not_covariant :
    is_assignable_to
      (Ty.func (Tys.type Ty.int Tys.no_types) Ty.int)
      (Ty.func (Tys.type Ty.long Tys.no_types) Ty.int)
    ≡ false
unfolding is_assignable_to early Ty-discrete is_dyn is_error is_null numeric_rank by_structure
    early_on
func-not_covariant = refl

-- `List<int>[,]?`
list-nullable :
    ty_from_ref (
      TypeRef.type_ref
        (codes "List")
        (TypeRefs.arg
          (TypeRef.type_ref (codes "int") TypeRefs.no_args false false 0)
          TypeRefs.no_args)
        true
        true
        2)
    ≡ Ty.nullable (Ty.array (list Ty.int) 2)
unfolding ty_from_ref same_bytes make_nullable list
list-nullable = refl

abbrev tables : TypeChecker
tables = record {
  types = (codes "Point", TypeDefKind.struct) ∷ (codes "Shape", TypeDefKind.class) ∷ [];
  inheritance = (codes "Circle", codes "Shape" ∷ []) ∷ [];
}

-- A class goes where its base is asked for, an `int` for a `long` and back, and `null` for no struct.
circle_to_shape :
    is_semantically_assignable 3 tables (Ty.named (codes "Circle")) (Ty.named (codes "Shape"))
    ≡ some true
unfolding is_semantically_assignable assignable_on first_tests later_tests last_tests is_integral
    is_subtype is_ancestor is_assignable_to early by_structure Ty-discrete is_error is_dyn is_null
    numeric_rank same_bytes native.Mathlib.Decide.ℕ_discrete
circle_to_shape = refl

long_to_int : is_semantically_assignable 3 tables Ty.long Ty.int ≡ some true
unfolding is_semantically_assignable assignable_on first_tests later_tests is_integral is_error
    is_dyn is_null
long_to_int = refl

null_to_point : is_semantically_assignable 3 tables Ty.null (Ty.named (codes "Point")) ≡ some false
unfolding is_semantically_assignable assignable_on first_tests can_accept_null type_category
    is_error is_dyn is_null same_bytes
null_to_point = refl

-- Generic types are invariant here, though src/types.rs takes them as covariant.
lists_invariant : is_semantically_assignable 3 tables (list Ty.int) (list Ty.string) ≡ some false
unfolding is_semantically_assignable assignable_on first_tests later_tests last_tests is_integral
    is_subtype is_ancestor is_assignable_to early by_structure Ty-discrete is_error is_dyn is_null
    numeric_rank same_bytes list
lists_invariant = refl

nullable_refused_example :
    is_semantically_assignable 0 tables (Ty.nullable Ty.int) (Ty.nullable Ty.int) ≡ some false
unfolding is_dyn is_error
nullable_refused_example = nullable_refused 0 tables Ty.int Ty.int refl refl
