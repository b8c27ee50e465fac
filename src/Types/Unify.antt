-- ===== src/Types/Unify.antt =====
-- `unify` of src/types.rs gives a type that both branches can be assigned to.
use mathlib.Core.Logic.{if_pos, if_neg}
use raytask.Prelude.{
  ℕ, ◌≤◌, ◌≡◌, refl, sym, ap, ◌∙◌, true, false, Option, none, some, ◌||◌, leb, arith, if◌then◌else◌,
  Bool-cases, inl, inr,
}
use raytask.Types.{
  Ty, Ty-discrete, is_dyn, is_error, is_null, is_nullable, category, numeric_rank, make_nullable,
  higher, promote_numeric,
}
use raytask.Types.Assign.{early, by_structure, is_assignable_to, join, unify}

pub assignable_refl : (a : Ty) → is_assignable_to a a ≡ true
unfolding is_assignable_to early
assignable_refl a = rw (if_pos (Ty-discrete a a) refl) refl

pub rank_not_null : (a : Ty) (n : ℕ) → numeric_rank a ≡ some n → is_null a ≡ false
unfolding numeric_rank is_null
rank_not_null Ty.null n h = ground arith
rank_not_null _ n h = refl

-- Numbers widen by their ranks.
pub assignable_rank :
    (a b : Ty) (m n : ℕ)
    → numeric_rank a ≡ some m
    → numeric_rank b ≡ some n
    → m ≤ n
    → is_assignable_to a b ≡ true
unfolding is_assignable_to early
assignable_rank a b m n ha hb h = ground (arith, rank_not_null a m ha)

-- Dynamic types take everything and go everywhere.
assignable_dynamic :
    (a b : Ty)
    → (is_dyn b || is_error b || (is_dyn a || is_error a)) ≡ true
    → is_assignable_to a b ≡ true
unfolding is_assignable_to early
assignable_dynamic a b h = ground arith

make_nullable-is_nullable : (b : Ty) → is_nullable (make_nullable b) ≡ true
unfolding is_nullable make_nullable category
make_nullable-is_nullable Ty.void = refl
make_nullable-is_nullable _ = refl

assignable_null : (a b : Ty) → is_null a ≡ true → is_assignable_to a (make_nullable b) ≡ true
unfolding is_assignable_to early
assignable_null a b h = ground (arith, make_nullable-is_nullable b)

-- The step from `T` to `T?`.
assignable_nullable :
    (b : Ty)
    → is_null b ≡ false
    → by_structure true b (Ty.nullable b) ≡ true
    → is_assignable_to b (Ty.nullable b) ≡ true
unfolding is_assignable_to early
assignable_nullable b h g = ground arith

assignable-make_nullable : (b : Ty) → is_assignable_to b (make_nullable b) ≡ true
unfolding make_nullable by_structure is_assignable_to is_null
assignable-make_nullable (Ty.nullable b) = assignable_refl (Ty.nullable b)
assignable-make_nullable Ty.dyn = assignable_refl Ty.dyn
assignable-make_nullable Ty.null = assignable_refl Ty.null
assignable-make_nullable Ty.error = assignable_refl Ty.error
assignable-make_nullable Ty.void = assignable_nullable Ty.void refl (assignable_refl Ty.void)
assignable-make_nullable b = assignable_nullable b refl (assignable_refl b)

abbrev pub Both : Ty → Ty → Ty → Type 0
Both a b c = (is_assignable_to a c ≡ true) × (is_assignable_to b c ≡ true)

abbrev pub BothSome : Ty → Ty → Option Ty → Type 0
BothSome a b (some p) = Both a b p
BothSome a b none = Unit

pub higher-Both :
    (a b : Ty) (ra rb : Option ℕ)
    → numeric_rank a ≡ ra
    → numeric_rank b ≡ rb
    → BothSome a b (higher a b ra rb)
higher-Both a b (some m) (some n) ha hb = elim (Bool-cases (leb n m)) [
  | inl e ↦ rw e (assignable_refl a, assignable_rank b a n m hb ha (ground arith))
  | inr e ↦ rw e (assignable_rank a b m n ha hb (ground arith), assignable_refl b)
]
higher-Both a b (some m) none ha hb = tt
higher-Both a b none rb ha hb = tt

to_dynamic : (a b p : Ty) → (is_dyn p || is_error p) ≡ true → Both a b p
to_dynamic a b p h = (assignable_dynamic a p (ground arith), assignable_dynamic b p (ground arith))

-- The numeric types that `promote_numeric` gives.
pub promote_numeric-Both : (a b : Ty) → BothSome a b (promote_numeric a b)
unfolding promote_numeric is_dyn is_error
promote_numeric-Both a b = elim (Bool-cases (is_dyn a || is_dyn b)) [
  | inl e ↦ rw e (to_dynamic a b Ty.dyn refl)
  | inr e ↦ elim (Bool-cases (is_error a || is_error b)) [
    | inl f ↦ rw (e, f) (to_dynamic a b Ty.error refl)
    | inr f ↦ rw (e, f) (higher-Both a b (numeric_rank a) (numeric_rank b) refl refl)
  ]
]

pub join-Both : (a b : Ty) (p : Option Ty) → BothSome a b p → Both a b (join a b p)
unfolding is_dyn
join-Both a b (some p) h = h
join-Both a b none h = elim (Bool-cases (is_assignable_to a b)) [
  | inl e ↦ rw e (e, assignable_refl b)
  | inr e ↦ elim (Bool-cases (is_assignable_to b a)) [
    | inl f ↦ rw (e, f) (assignable_refl a, f)
    | inr f ↦ rw (e, f) (to_dynamic a b Ty.dyn refl)
  ]
]

-- `unify` after its test for equal types.
abbrev pub unify_distinct : Ty → Ty → Ty
unify_distinct a b =
    if is_error a
    then b
    else if is_error b
    then a
    else if is_dyn a || is_dyn b
    then Ty.dyn
    else if is_null a
    then make_nullable b
    else if is_null b
    then make_nullable a
    else join a b (promote_numeric a b)

unify_distinct-Both : (a b : Ty) → Both a b (unify_distinct a b)
unfolding is_dyn
unify_distinct-Both a b = elim (Bool-cases (is_error a)) [
  | inl e ↦ rw e (assignable_dynamic a b (ground arith), assignable_refl b)
  | inr e ↦ elim (Bool-cases (is_error b)) [
    | inl f ↦ rw (e, f) (assignable_refl a, assignable_dynamic b a (ground arith))
    | inr f ↦ elim (Bool-cases (is_dyn a || is_dyn b)) [
      | inl g ↦ rw (e, f, g) (to_dynamic a b Ty.dyn refl)
      | inr g ↦ elim (Bool-cases (is_null a)) [
        | inl n ↦ rw (e, f, g, n) (assignable_null a b n, assignable-make_nullable b)
        | inr n ↦ elim (Bool-cases (is_null b)) [
          | inl o ↦ rw (e, f, g, n, o) (assignable-make_nullable a, assignable_null b a o)
          | inr o ↦
              rw (e, f, g, n, o) (join-Both a b (promote_numeric a b) (promote_numeric-Both a b))
        ]
      ]
    ]
  ]
]

-- In the sense of src/types.rs, which takes generic types as covariant, the branches of a conditional can
-- both be assigned to the type that `unify` gives it.
pub unify-Both :
    (a b : Ty) → (is_assignable_to a (unify a b) ≡ true) × (is_assignable_to b (unify a b) ≡ true)
unfolding unify
unify-Both a b = elim (Ty-discrete a b) [
  | yes p ↦
      rw (if_pos (Ty-discrete a b) p)
        (assignable_refl a, ap (λ t. is_assignable_to t a) (sym p) ∙ assignable_refl a)
  | no p ↦ rw (if_neg (Ty-discrete a b) p) (unify_distinct-Both a b)
]
