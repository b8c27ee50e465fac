-- ===== src/Types/Rules.antt =====
-- What `is_assignable_to` of src/types.rs refuses: the value that may be missing, and the narrowing of numbers.
use mathlib.Core.Logic.{if_neg}
use raytask.Prelude.{
  ℕ, ◌<◌, ◌≡◌, ◌≢◌, refl, sym, ap, ◌∙◌, true, false, some, ◌||◌, ◌⊎◌, leb, arith, inl, inr,
  Bool-cases,
}
use raytask.Types.{Ty, Ty-discrete, TypeCategory, is_dyn, is_error, is_null, category, numeric_rank}
use raytask.Types.Unify.{assignable_rank, rank_not_null}
use raytask.Types.Assign.{early, by_structure, is_assignable_to}

abbrev MayBeMissing : Ty → Type 0
MayBeMissing b =
    (category b ≡ TypeCategory.nullable_type)
    ⊎ ((category b ≡ TypeCategory.dynamic) ⊎ (category b ≡ TypeCategory.error_type))

-- A value of type `T?` can only be assigned to a nullable type, a dynamic one or the type of an error.
pub nullable_to : (a b : Ty) → is_assignable_to (Ty.nullable a) b ≡ true → MayBeMissing b
unfolding is_assignable_to early by_structure category is_dyn is_error is_null numeric_rank
nullable_to a (Ty.nullable b) h = inl refl
nullable_to a Ty.null h = inl refl
nullable_to a Ty.dyn h = inr (inl refl)
nullable_to a Ty.error h = inr (inr refl)
nullable_to a Ty.int h = ground arith
nullable_to a b h = ground arith

number_not_dynamic :
    (a : Ty) (m : ℕ) → numeric_rank a ≡ some m → m < 100 → (is_dyn a || is_error a) ≡ false
unfolding numeric_rank is_dyn is_error
number_not_dynamic Ty.dyn m h l = ground arith
number_not_dynamic Ty.error m h l = ground arith
number_not_dynamic _ m h l = refl

-- The structure of types says nothing of a number.
by_structure-number :
    (a b : Ty) (m n : ℕ)
    → numeric_rank a ≡ some m
    → numeric_rank b ≡ some n
    → by_structure true a b ≡ false
unfolding by_structure numeric_rank
by_structure-number a (Ty.nullable b) m n ha hb = ground arith
by_structure-number Ty.byte Ty.byte m n ha hb = refl
by_structure-number a b m n ha hb = ground arith

ranks_agree :
    (a b : Ty) (m n : ℕ)
    → numeric_rank a ≡ some m
    → numeric_rank b ≡ some n
    → a ≡ b
    → leb m n ≡ true
ranks_agree a b m n ha hb p = ground (arith, sym ha ∙ ap numeric_rank p ∙ hb)

numbers_by_rank :
    (a b : Ty) (m n : ℕ)
    → numeric_rank a ≡ some m
    → numeric_rank b ≡ some n
    → a ≢ b
    → (is_dyn a || is_error a) ≡ false
    → (is_dyn b || is_error b) ≡ false
    → is_assignable_to a b ≡ leb m n
unfolding is_assignable_to early
numbers_by_rank a b m n ha hb d da db =
    rw (if_neg (Ty-discrete a b) d)
      (ground (arith, rank_not_null a m ha, by_structure-number a b m n ha hb))

-- Among the numeric types but the dynamic ones, a value goes where the rank is no lower.
pub is_assignable_to-numeric :
    (a b : Ty) (m n : ℕ)
    → numeric_rank a ≡ some m
    → numeric_rank b ≡ some n
    → m < 100
    → n < 100
    → is_assignable_to a b ≡ leb m n
is_assignable_to-numeric a b m n ha hb hm hn = elim (Bool-cases (leb m n)) [
  | inl e ↦ assignable_rank a b m n ha hb (ground arith) ∙ sym e
  | inr e ↦
      numbers_by_rank a b m n ha hb (λ p. ground (arith, ranks_agree a b m n ha hb p))
        (number_not_dynamic a m ha hm) (number_not_dynamic b n hb hn)
]
