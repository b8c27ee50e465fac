-- ===== src/Types/Semantic.antt =====
-- `is_semantically_assignable` of src/sema.rs, by which the checker decides on assignments. The tables of
-- the checker are association lists, of which the first entry of a name counts. `none` is a search of the
-- base types that the fuel does not suffice for: in the source it has no end if a type is its own base.
use raytask.Prelude.{
  ℕ, zero, suc, Bool, true, false, not, Option, none, some, List, [], ◌∷◌, ◌&&◌, ◌||◌,
  if◌then◌else◌,
}
use raytask.Prelude.Text.{Str, same_bytes}
use raytask.Types.{Ty, Tys, TypeCategory, category, is_dyn, is_error, is_null, is_integral}
use raytask.Types.Assign.{is_assignable_to}

pub data TypeDefKind : Type 0 where
  class struct interface : TypeDefKind

-- Of `TypeChecker`: `types`, of each type its kind, and `inheritance`.
pub record TypeChecker : Type 0 where
  pub types : List (Str × TypeDefKind)
  pub inheritance : List (Str × List Str)

abbrev pub get {ℓ} : {A : Type ℓ} → Str → List (Str × A) → Option A
get name [] = none
get name ((k, x) ∷ entries) = if same_bytes k name then some x else get name entries

abbrev kind_category : TypeDefKind → TypeCategory
kind_category struct = TypeCategory.value
kind_category class = TypeCategory.reference
kind_category interface = TypeCategory.reference

abbrev or_category : TypeCategory → Option TypeDefKind → TypeCategory
or_category other none = other
or_category other (some kind) = kind_category kind

unfoldable pub type_category : TypeChecker → Ty → TypeCategory
type_category self (Ty.named name) = or_category (category (Ty.named name)) (get name self.types)
type_category self (Ty.generic name args) =
    or_category (category (Ty.generic name args)) (get name self.types)
type_category self other = category other

abbrev accepts_null : TypeCategory → Bool
accepts_null TypeCategory.reference = true
accepts_null TypeCategory.nullable_type = true
accepts_null TypeCategory.pointer = true
accepts_null TypeCategory.dynamic = true
accepts_null TypeCategory.error_type = true
accepts_null _ = false

unfoldable pub can_accept_null : TypeChecker → Ty → Bool
can_accept_null self ty = accepts_null (type_category self ty)

-- `||` and `&&` of tests that may not end
abbrev pub or_else : Option Bool → Option Bool → Option Bool
or_else (some true) rest = some true
or_else (some false) rest = rest
or_else none rest = none

abbrev pub and_then : Option Bool → Option Bool → Option Bool
and_then (some true) rest = rest
and_then (some false) rest = some false
and_then none rest = none

abbrev bases_of : Option (List Str) → List Str
bases_of none = []
bases_of (some bases) = bases

-- The loop over the bases.
abbrev any_base : (Str → Option Bool) → List Str → Option Bool
any_base test [] = some false
any_base test (b ∷ bases) = or_else (test b) (any_base test bases)

unfoldable pub is_ancestor : (fuel : ℕ) → TypeChecker → (ancestor node : Str) → Option Bool
is_ancestor zero self ancestor node = none
is_ancestor (suc fuel) self ancestor node =
    or_else (some (same_bytes ancestor node))
      (any_base (λ b. is_ancestor fuel self ancestor b) (bases_of (get node self.inheritance)))

unfoldable pub is_subtype : (fuel : ℕ) → TypeChecker → (child parent : Ty) → Option Bool
is_subtype fuel self (Ty.named c) (Ty.named p) = is_ancestor fuel self p c
is_subtype fuel self (Ty.generic c args) (Ty.named p) = is_ancestor fuel self p c
is_subtype fuel self (Ty.generic c as') (Ty.generic p bs) = is_ancestor fuel self p c
is_subtype fuel self _ _ = some false

-- `matches!(t, Ty::Nullable(_))`
abbrev pub is_optional : Ty → Bool
is_optional (Ty.nullable inner) = true
is_optional _ = false

abbrev float_and_double : Ty → Ty → Bool
float_and_double Ty.float Ty.double = true
float_and_double Ty.double Ty.float = true
float_and_double _ _ = false

-- The early returns before the test for a nullable target.
unfoldable pub first_tests : TypeChecker → (from to : Ty) → Option Bool
first_tests self from to =
    if is_error from || is_error to
    then some true
    else if is_dyn to || is_error to || (is_dyn from || is_error from)
    then some true
    else if is_null from
    then some (can_accept_null self to)
    else none

-- The early returns behind it.
unfoldable pub later_tests : (from to : Ty) → Option Bool
later_tests from to =
    if is_optional from && not (is_optional to || is_dyn to || is_error to)
    then some false
    else if is_integral from && is_integral to
    then some true
    else if float_and_double from to
    then some true
    else none

abbrev pub decided : Option Bool → Option Bool → Option Bool
decided none rest = rest
decided (some b) rest = some b

unfoldable pub last_tests : (fuel : ℕ) → TypeChecker → (from to : Ty) → Option Bool
last_tests fuel self from to =
    or_else (some (is_assignable_to from to)) (is_subtype fuel self from to)

-- The tests with the sides in their places: `forth` says that the first type is the one assigned from.
abbrev pub tests_on : (forth : Bool) → TypeChecker → Ty → Ty → Option Bool → Option Bool
tests_on true self a b rest = decided (first_tests self a b) (decided (later_tests a b) rest)
tests_on false self a b rest = decided (first_tests self b a) (decided (later_tests b a) rest)

abbrev pub last_on : (forth : Bool) → (fuel : ℕ) → TypeChecker → Ty → Ty → Option Bool
last_on true fuel self a b = last_tests fuel self a b
last_on false fuel self a b = last_tests fuel self b a

abbrev same_count : Tys → Tys → Bool
same_count Tys.no_types Tys.no_types = true
same_count (Tys.type a as') (Tys.type b bs) = same_count as' bs
same_count _ _ = false

-- Where the source swaps its arguments, they keep their places here and `forth` is turned.
unfoldable mutual
  pub assignable_on : (forth : Bool) → (fuel : ℕ) → TypeChecker → Ty → Ty → Option Bool
  assignable_on true fuel self a (Ty.nullable b) =
      decided (first_tests self a (Ty.nullable b))
        (or_else (assignable_on true fuel self a b) (some (is_null a)))
  assignable_on false fuel self (Ty.nullable a) b =
      decided (first_tests self b (Ty.nullable a))
        (or_else (assignable_on false fuel self a b) (some (is_null b)))
  assignable_on forth fuel self (Ty.generic na as') (Ty.generic nb bs) =
      tests_on forth self (Ty.generic na as') (Ty.generic nb bs) (
        if same_bytes na nb && same_count as' bs
        then all_both forth fuel self as' bs
        else last_on forth fuel self (Ty.generic na as') (Ty.generic nb bs))
  assignable_on forth fuel self a b = tests_on forth self a b (last_on forth fuel self a b)

  -- `all` on the pairs of arguments, which are to be assignable both ways
  pub all_both : (forth : Bool) → (fuel : ℕ) → TypeChecker → Tys → Tys → Option Bool
  all_both forth fuel self (Tys.type a as') (Tys.type b bs) =
      and_then
        (and_then (assignable_on forth fuel self a b) (assignable_on (not forth) fuel self a b))
        (all_both forth fuel self as' bs)
  all_both forth fuel self _ _ = some true

unfoldable pub is_semantically_assignable : (fuel : ℕ) → TypeChecker → (from to : Ty) → Option Bool
is_semantically_assignable fuel self from to = assignable_on true fuel self from to
