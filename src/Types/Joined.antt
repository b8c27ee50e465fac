-- ===== src/Types/Joined.antt =====
-- The types that `unify` of src/types.rs gives, under the checker's own test of assignments in src/sema.rs.
use raytask.Prelude.{ℕ, ◌≡◌, refl, Bool, true, false, Option, none, some, ◌||◌, arith}
use raytask.Types.{Ty, is_dyn, is_error, is_null}
use raytask.Types.Semantic.{
  TypeChecker, is_optional, first_tests, later_tests, assignable_on, is_semantically_assignable,
}

-- `matches!(t, Ty::Generic { .. })`
abbrev pub is_generic : Ty → Bool
is_generic (Ty.generic name args) = true
is_generic _ = false

-- Neither of the form `T?` nor generic.
abbrev pub IsPlain : Ty → Type 0
IsPlain t = (is_optional t ≡ false) × (is_generic t ≡ false)

module _ (fuel : ℕ) (self : TypeChecker) where
  abbrev Goes : Ty → Ty → Type 0
  Goes a b = assignable_on true fuel self a b ≡ some true

abbrev PlainSome : Option Ty → Type 0
PlainSome none = Unit
PlainSome (some p) = is_optional p ≡ false

module _ (fuel : ℕ) (self : TypeChecker) where
  abbrev BothGo : Ty → Ty → Ty → Type 0
  BothGo a b c = Goes fuel self a c × Goes fuel self b c

-- A value of a type `T?` cannot be assigned to any `U?`, not even to `T?` itself, if `U` is not itself of
-- that form, dynamic or the type of an error: the checker refuses it, whatever its tables are.
pub nullable_refused :
    (fuel : ℕ) (self : TypeChecker) (a b : Ty)
    → is_optional b ≡ false
    → (is_dyn b || is_error b) ≡ false
    → is_semantically_assignable fuel self (Ty.nullable a) (Ty.nullable b) ≡ some false
unfolding is_semantically_assignable assignable_on first_tests later_tests is_error is_dyn is_null
nullable_refused fuel self a (Ty.nullable b) o d = absurd (ground arith)
nullable_refused fuel self a Ty.dyn o d = absurd (ground arith)
nullable_refused fuel self a Ty.error o d = absurd (ground arith)
nullable_refused fuel self a b o d = refl
