-- ===== src/Fold.antt =====
-- src/ssa/passes/const_fold.rs: what is known of an instruction of the SSA form (src/ssa/ir.rs) whose
-- arguments are constants. That the pass panics, where a quotient overflows, is a case of its own.
pub mod Agrees
mod Tests
use raytask.Prelude.{
  ℕ, ◌-◌, ◌%◌, ◌^◌, bit_and, bit_or, bit_xor, Bool, true, false, not, ◌&&◌, ◌||◌, Option, none,
  some, [], ◌==◌, if◌then◌else◌,
}
use raytask.Prelude.Text.{Str}
use raytask.Value.{Value, Values}
use raytask.Value.Equality.{same_bool, same_float}
use raytask.Value.Words.{
  Outcome, wrapping_add, wrapping_sub, wrapping_mul, wrapping_neg, int_div, int_rem, int_shl,
  int_shr, int_less,
}
use raytask.Value.Kinds.{BinOpKind, UnOpKind}
use raytask.Value.Ops.{Machine}

pub data ConstValue : Type 0 where
  null : ConstValue
  bool : Bool → ConstValue
  int float : ℕ → ConstValue
  string : Str → ConstValue
  func_ref native : ℕ → ConstValue
  type_module : Str → ConstValue

-- The value that the emitted code pushes for a constant.
unfoldable pub value_of : Machine → ConstValue → Value
value_of m ConstValue.null = Value.null
value_of m (ConstValue.bool b) = Value.bool b
value_of m (ConstValue.int n) = Value.int n
value_of m (ConstValue.float n) = Value.float n
value_of m (ConstValue.string s) = Value.string s
value_of m (ConstValue.func_ref id) =
    let (name, arity) = m.function_of id in Value.function name id arity Values.no_values false []
value_of m (ConstValue.native id) = Value.native id
value_of m (ConstValue.type_module name) = Value.type_module name

pub data Folded : Type 0 where
  folded : ConstValue → Folded
  unknown panics : Folded

abbrev pub int_result : Outcome ℕ → Folded
int_result (Outcome.ok n) = Folded.folded (ConstValue.int n)
int_result (Outcome.error e) = Folded.unknown
int_result Outcome.panic = Folded.panics

abbrev fold_int : ℕ → Folded
fold_int n = Folded.folded (ConstValue.int n)

abbrev fold_bool : Bool → Folded
fold_bool b = Folded.folded (ConstValue.bool b)

abbrev fold_float : ℕ → Folded
fold_float n = Folded.folded (ConstValue.float n)

-- `a.wrapping_shl(b as u32)` takes the low bits of the 32-bit number.
unfoldable pub fold_ints : BinOpKind → ℕ → ℕ → Folded
fold_ints BinOpKind.add a b = fold_int (wrapping_add a b)
fold_ints BinOpKind.sub a b = fold_int (wrapping_sub a b)
fold_ints BinOpKind.mul a b = fold_int (wrapping_mul a b)
fold_ints BinOpKind.div a b = if b == 0 then Folded.unknown else int_result (int_div a b)
fold_ints BinOpKind.modulo a b = if b == 0 then Folded.unknown else int_result (int_rem a b)
fold_ints BinOpKind.eq a b = fold_bool (a == b)
fold_ints BinOpKind.ne a b = fold_bool (not (a == b))
fold_ints BinOpKind.lt a b = fold_bool (int_less a b)
fold_ints BinOpKind.le a b = fold_bool (not (int_less b a))
fold_ints BinOpKind.gt a b = fold_bool (int_less b a)
fold_ints BinOpKind.ge a b = fold_bool (not (int_less a b))
fold_ints BinOpKind.bit_and a b = fold_int (bit_and a b)
fold_ints BinOpKind.bit_or a b = fold_int (bit_or a b)
fold_ints BinOpKind.bit_xor a b = fold_int (bit_xor a b)
fold_ints BinOpKind.shl a b = fold_int (int_shl a (b % 2 ^ 32))
fold_ints BinOpKind.shr a b = fold_int (int_shr a (b % 2 ^ 32))
fold_ints _ a b = Folded.unknown

unfoldable pub fold_bools : BinOpKind → Bool → Bool → Folded
fold_bools BinOpKind.and a b = fold_bool (a && b)
fold_bools BinOpKind.or a b = fold_bool (a || b)
fold_bools _ a b = Folded.unknown

unfoldable pub fold_floats : Machine → BinOpKind → ℕ → ℕ → Folded
fold_floats m BinOpKind.add a b = fold_float (m.f_add a b)
fold_floats m BinOpKind.sub a b = fold_float (m.f_sub a b)
fold_floats m BinOpKind.mul a b = fold_float (m.f_mul a b)
fold_floats m BinOpKind.div a b =
    if same_float b 0 then Folded.unknown else fold_float (m.f_div a b)
fold_floats m _ a b = Folded.unknown

unfoldable pub fold_bin : Machine → BinOpKind → ConstValue → ConstValue → Folded
fold_bin m op (ConstValue.int a) (ConstValue.int b) = fold_ints op a b
fold_bin m op (ConstValue.bool a) (ConstValue.bool b) = fold_bools op a b
fold_bin m op (ConstValue.float a) (ConstValue.float b) = fold_floats m op a b
fold_bin m op l r = Folded.unknown

abbrev is_null_constant : ConstValue → Bool
is_null_constant ConstValue.null = true
is_null_constant _ = false

unfoldable pub fold_un : Machine → UnOpKind → ConstValue → Folded
fold_un m UnOpKind.neg (ConstValue.int n) = fold_int (wrapping_neg n)
fold_un m UnOpKind.neg (ConstValue.float n) = fold_float (m.f_neg n)
fold_un m UnOpKind.not_ (ConstValue.bool b) = fold_bool (not b)
fold_un m UnOpKind.bit_not (ConstValue.int n) = fold_int (2 ^ 64 - 1 - n)
fold_un m UnOpKind.is_null c = fold_bool (is_null_constant c)
fold_un m _ c = Folded.unknown

abbrev is_int : ℕ → Option ConstValue → Bool
is_int n (some (ConstValue.int k)) = k == n
is_int n _ = false

abbrev known : Option ConstValue → Folded
known none = Folded.unknown
known (some c) = Folded.folded c

-- The algebraic rules, on what `const_of` gives for the two arguments.
unfoldable pub algebraic : BinOpKind → (l r : Option ConstValue) → Folded
algebraic BinOpKind.add l r =
    if is_int 0 r then known l else if is_int 0 l then known r else Folded.unknown
algebraic BinOpKind.mul l r =
    if is_int 1 r
    then known l
    else if is_int 1 l
    then known r
    else if is_int 0 r || is_int 0 l
    then fold_int 0
    else Folded.unknown
algebraic op l r = Folded.unknown

abbrev or_else : Folded → Folded → Folded
or_else Folded.unknown other = other
or_else found other = found

-- `try_fold` on a `BinOp`
unfoldable pub try_fold_bin : Machine → BinOpKind → (l r : Option ConstValue) → Folded
try_fold_bin m op (some l) (some r) = or_else (fold_bin m op l r) (algebraic op (some l) (some r))
try_fold_bin m op l r = algebraic op l r
