-- ===== src/Types/Assign.antt =====
-- `is_assignable_to` and `unify` of src/types.rs.
use mathlib.Core.Logic.{ite}
use raytask.Prelude.{
  ℕ, Bool, true, false, not, Option, none, some, ◌&&◌, ◌||◌, leb, ◌==◌, if◌then◌else◌,
}
use raytask.Prelude.Text.{same_bytes}
use raytask.Types.{
  Ty, Tys, Ty-discrete, is_dyn, is_error, is_null, is_nullable, numeric_rank, make_nullable,
  promote_numeric,
}

abbrev widens : Option ℕ → Option ℕ → Bool
widens (some from) (some to) = leb from to
widens _ _ = false

-- The early returns of `from.is_assignable_to(to)`: equal types, dynamic ones, the null literal, and the
-- widening of numbers. The source tests the last after the nullable types, which have no rank.
unfoldable pub early : (from to : Ty) → Option Bool
early from to = ite (Ty-discrete from to) (some true) (
    if is_dyn to || is_error to || (is_dyn from || is_error from)
    then some true
    else if is_null from
    then some (is_nullable to)
    else if widens (numeric_rank from) (numeric_rank to)
    then some true
    else none)

abbrev return_or : Option Bool → Bool → Bool
return_or (some b) rest = b
return_or none rest = rest

-- `early` with the sides in their places: `forth` says that the first type is the one assigned from.
unfoldable pub early_on : (forth : Bool) → Ty → Ty → Option Bool
early_on true a b = early a b
early_on false a b = early b a

-- The rest of `is_assignable_to`, by the structure of both types. Where the source swaps its arguments,
-- for the parameters of functions, they keep their places here and `forth` is turned: so each call is
-- on a part of one type and no more than the other.
unfoldable mutual
  pub by_structure : (forth : Bool) → Ty → Ty → Bool
  -- `T?` to `U?`, as `T?` to `U` or as `T` to `U`
  by_structure true (Ty.nullable a) (Ty.nullable b) =
      return_or (early (Ty.nullable a) b) (by_structure true (Ty.nullable a) b)
      || return_or (early a b) (by_structure true a b)
  by_structure false (Ty.nullable a) (Ty.nullable b) =
      return_or (early (Ty.nullable b) a) (by_structure false a (Ty.nullable b))
      || return_or (early b a) (by_structure false a b)
  -- `T` to `U?`, as `T` to `U`
  by_structure true a (Ty.nullable b) = return_or (early a b) (by_structure true a b)
  by_structure false (Ty.nullable a) b = return_or (early b a) (by_structure false a b)
  by_structure forth (Ty.array a da) (Ty.array b db) =
      da == db && return_or (early_on forth a b) (by_structure forth a b)
  by_structure forth (Ty.generic na as') (Ty.generic nb bs) =
      same_bytes na nb && all_assignable forth as' bs
  by_structure forth (Ty.ptr a) (Ty.ptr b) = return_or (early_on forth a b) (by_structure forth a b)
  by_structure forth (Ty.func as' ra) (Ty.func bs rb) =
      all_assignable (not forth) as' bs
      && return_or (early_on forth ra rb) (by_structure forth ra rb)
  by_structure _ _ _ = false

  -- `len() == len()`, and `all` on the pairs
  pub all_assignable : (forth : Bool) → Tys → Tys → Bool
  all_assignable forth Tys.no_types Tys.no_types = true
  all_assignable forth (Tys.type a as') (Tys.type b bs) =
      return_or (early_on forth a b) (by_structure forth a b) && all_assignable forth as' bs
  all_assignable _ _ _ = false

unfoldable pub is_assignable_to : (from to : Ty) → Bool
is_assignable_to from to = return_or (early from to) (by_structure true from to)

abbrev pub join : Ty → Ty → Option Ty → Ty
join a b (some p) = p
join a b none = if is_assignable_to a b then b else if is_assignable_to b a then a else Ty.dyn

-- The type of a conditional with branches of types `a` and `b`.
unfoldable pub unify : Ty → Ty → Ty
unify a b = ite (Ty-discrete a b) a (
    if is_error a
    then b
    else if is_error b
    then a
    else if is_dyn a || is_dyn b
    then Ty.dyn
    else if is_null a
    then make_nullable b
    else if is_null b
    then make_nullable a
    else join a b (promote_numeric a b))
