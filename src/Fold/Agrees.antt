-- ===== src/Fold/Agrees.antt =====
-- What src/ssa/passes/const_fold.rs folds is what the machine computes.
use raytask.Prelude.{ℕ, ◌%◌, ◌^◌, ◌≡◌, refl, ap, ◌*◌, Bool, true, false, ◌==◌, if◌then◌else◌, arith}
use raytask.Value.{Value}
use raytask.Value.Equality.{same_float, same_constant}
use raytask.Value.Words.{RuntimeError, Outcome, ◌>>=◌, int_div, int_rem, shifted, word, int_of}
use raytask.Value.Kinds.{BinOpKind, UnOpKind}
use raytask.Value.Ops.{Machine, as_int, as_float, is_truthy, equals, binary_op, unary_op}
use raytask.Fold.{
  ConstValue, value_of, Folded, int_result, fold_ints, fold_bools, fold_floats, fold_bin, fold_un,
}

-- A result is the machine's, and the pass panics only where the machine does.
abbrev pub IsResult : Machine → Outcome Value → Folded → Type 0
IsResult m run (Folded.folded c) = run ≡ Outcome.ok (value_of m c)
IsResult m run Folded.unknown = Unit
IsResult m run Folded.panics = run ≡ Outcome.panic

-- A quotient is folded if the divisor is not zero.
quotient-IsResult :
    (m : Machine) (is_zero : Bool) (q : Outcome ℕ)
    → IsResult m
        (if is_zero
          then Outcome.error RuntimeError.division_by_zero
          else (q >>= λ n. Outcome.ok (Value.int n)))
        (if is_zero then Folded.unknown else int_result q)
unfolding value_of
quotient-IsResult m true q = tt
quotient-IsResult m false (Outcome.ok n) = refl
quotient-IsResult m false (Outcome.error e) = tt
quotient-IsResult m false Outcome.panic = refl

fold_ints-IsResult :
    (m : Machine) (op : BinOpKind) (a b : ℕ)
    → IsResult m (binary_op m op (Value.int a) (Value.int b)) (fold_ints op a b)
unfolding fold_ints binary_op as_int equals same_constant value_of
fold_ints-IsResult m BinOpKind.div a b = quotient-IsResult m (b == 0) (int_div a b)
fold_ints-IsResult m BinOpKind.modulo a b = quotient-IsResult m (b == 0) (int_rem a b)
fold_ints-IsResult m BinOpKind.shl a b =
    let low : b % 64 ≡ b % 2 ^ 32 % 64 = omega arith in
    ap (λ s. Outcome.ok (Value.int (a * 2 ^ s % 2 ^ 64))) low
fold_ints-IsResult m BinOpKind.shr a b =
    let low : b % 64 ≡ b % 2 ^ 32 % 64 = omega arith in
    ap (λ s. Outcome.ok (Value.int (word (shifted (int_of a) s)))) low
fold_ints-IsResult m BinOpKind.and a b = tt
fold_ints-IsResult m BinOpKind.or a b = tt
fold_ints-IsResult m BinOpKind.null_coalesce a b = tt
fold_ints-IsResult m _ a b = refl

fold_bools-IsResult :
    (m : Machine) (op : BinOpKind) (a b : Bool)
    → IsResult m (binary_op m op (Value.bool a) (Value.bool b)) (fold_bools op a b)
unfolding fold_bools binary_op is_truthy value_of
fold_bools-IsResult m BinOpKind.and a b = refl
fold_bools-IsResult m BinOpKind.or a b = refl
fold_bools-IsResult m _ a b = tt

float_quotient-IsResult :
    (m : Machine) (is_zero : Bool) (q : ℕ)
    → IsResult m
        (Outcome.ok (Value.float q))
        (if is_zero then Folded.unknown else Folded.folded (ConstValue.float q))
unfolding value_of
float_quotient-IsResult m true q = tt
float_quotient-IsResult m false q = refl

fold_floats-IsResult :
    (m : Machine) (op : BinOpKind) (a b : ℕ)
    → IsResult m (binary_op m op (Value.float a) (Value.float b)) (fold_floats m op a b)
unfolding fold_floats binary_op as_float value_of
fold_floats-IsResult m BinOpKind.add a b = refl
fold_floats-IsResult m BinOpKind.sub a b = refl
fold_floats-IsResult m BinOpKind.mul a b = refl
fold_floats-IsResult m BinOpKind.div a b = float_quotient-IsResult m (same_float b 0) (m.f_div a b)
fold_floats-IsResult m _ a b = tt

fold_bin-IsResult :
    (m : Machine) (op : BinOpKind) (l r : ConstValue)
    → IsResult m (binary_op m op (value_of m l) (value_of m r)) (fold_bin m op l r)
unfolding fold_bin value_of
fold_bin-IsResult m op (ConstValue.int a) (ConstValue.int b) = fold_ints-IsResult m op a b
fold_bin-IsResult m op (ConstValue.bool a) (ConstValue.bool b) = fold_bools-IsResult m op a b
fold_bin-IsResult m op (ConstValue.float a) (ConstValue.float b) = fold_floats-IsResult m op a b
fold_bin-IsResult m op l r = tt

fold_un-IsResult :
    (m : Machine) (op : UnOpKind) (c : ConstValue)
    → IsResult m (unary_op m op (value_of m c)) (fold_un m op c)
unfolding fold_un unary_op value_of as_int is_truthy
fold_un-IsResult m UnOpKind.neg (ConstValue.int n) = refl
fold_un-IsResult m UnOpKind.neg (ConstValue.float n) = refl
fold_un-IsResult m UnOpKind.neg c = tt
fold_un-IsResult m UnOpKind.not_ (ConstValue.bool b) = refl
fold_un-IsResult m UnOpKind.not_ c = tt
fold_un-IsResult m UnOpKind.bit_not (ConstValue.int n) = refl
fold_un-IsResult m UnOpKind.bit_not c = tt
fold_un-IsResult m UnOpKind.is_null ConstValue.null = refl
fold_un-IsResult m UnOpKind.is_null c = refl
fold_un-IsResult m UnOpKind.to_string c = tt

-- What the pass makes of an operator on constants is what the machine computes from their values, and the
-- pass panics only where the machine does; this leaves out the algebraic rules.
pub folds-IsResult :
    (m : Machine) (op : BinOpKind) (un : UnOpKind) (l r : ConstValue)
    → IsResult m (binary_op m op (value_of m l) (value_of m r)) (fold_bin m op l r)
      × IsResult m (unary_op m un (value_of m l)) (fold_un m un l)
folds-IsResult m op un l r = (fold_bin-IsResult m op l r, fold_un-IsResult m un l)
