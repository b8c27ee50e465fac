-- ===== src/Fold/Tests.antt =====
-- Constants folded by src/ssa/passes/const_fold.rs.
use raytask.Prelude.{◌^◌, ◌-◌, ◌≡◌, refl, false, some, none, ltb, leb}
use raytask.Prelude.Text.{codes}
use raytask.Value.{Value}
use raytask.Value.Kinds.{BinOpKind, UnOpKind}
use raytask.Value.Words.{Outcome, wrapping_add, wrapping_sub, wrapping_mul, wrapping_neg}
use raytask.Value.Ops.{Machine, as_float, binary_op, unary_op}
use raytask.Fold.{
  ConstValue, value_of, Folded, fold_ints, fold_bin, fold_un, algebraic, try_fold_bin,
}
use raytask.Fold.Agrees.{IsResult, folds-IsResult}

-- A machine with simple functions in the place of those on `f64`, which shows every value as 0.
abbrev simple : Machine
simple = record {
  f_add = wrapping_add;
  f_sub = wrapping_sub;
  f_mul = wrapping_mul;
  f_div = λ a b. a;
  f_neg = wrapping_neg;
  f_less = ltb;
  f_less_or_equal = leb;
  f_of_int = λ n. n;
  f_of_uint = λ n. n;
  int_of_f = λ n. none;
  is_empty_array = λ a. false;
  as_string = λ v. codes "0";
  function_of = λ id. (codes "f", 0);
}

-- -7 / 2 and its remainder
truncated :
    (fold_ints BinOpKind.div (2 ^ 64 - 7) 2 ≡ Folded.folded (ConstValue.int (2 ^ 64 - 3)))
    × (fold_ints BinOpKind.modulo (2 ^ 64 - 7) 2 ≡ Folded.folded (ConstValue.int (2 ^ 64 - 1)))
unfolding fold_ints
truncated = (refl, refl)

least_quotient : fold_ints BinOpKind.div (2 ^ 63) (2 ^ 64 - 1) ≡ Folded.panics
unfolding fold_ints
least_quotient = refl

-- A text with 0 added is folded to the text, where the machine appends the digit.
text_and_zero :
    (try_fold_bin simple BinOpKind.add
        (some (ConstValue.string (codes "ab")))
        (some (ConstValue.int 0))
      ≡ Folded.folded (ConstValue.string (codes "ab")))
    × (binary_op simple BinOpKind.add (Value.string (codes "ab")) (Value.int 0)
        ≡ Outcome.ok (Value.string (codes "ab0")))
unfolding try_fold_bin fold_bin algebraic binary_op
text_and_zero = (refl, refl)

-- What is not known is folded to 0 when it is multiplied by 0, be it a text or an `f64`.
any_times_zero :
    (try_fold_bin simple BinOpKind.mul none (some (ConstValue.int 0))
      ≡ Folded.folded (ConstValue.int 0))
    × (binary_op simple BinOpKind.mul (Value.float 5) (Value.int 0) ≡ Outcome.ok (Value.float 0))
unfolding try_fold_bin algebraic binary_op as_float
any_times_zero = (refl, refl)

folds-IsResult_example :
    IsResult simple
      (binary_op simple BinOpKind.div
        (value_of simple (ConstValue.int 7))
        (value_of simple (ConstValue.int 2)))
      (fold_bin simple BinOpKind.div (ConstValue.int 7) (ConstValue.int 2))
    × IsResult simple
        (unary_op simple UnOpKind.neg (value_of simple (ConstValue.int 7)))
        (fold_un simple UnOpKind.neg (ConstValue.int 7))
folds-IsResult_example =
    folds-IsResult simple BinOpKind.div UnOpKind.neg (ConstValue.int 7) (ConstValue.int 2)
