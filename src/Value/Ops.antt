-- ===== src/Value/Ops.antt =====
-- The operators of the machine: `binary_op` of src/value.rs, with the conversions it uses, and the unary
-- instructions of src/vm.rs. Arithmetic on `i64` wraps, as in a release build; a quotient that overflows
-- panics there too. What the processor does on `f64`, and what is read from the heap, is a parameter.
use raytask.Prelude.{
  ℕ, ◌-◌, ◌^◌, bit_and, bit_or, bit_xor, Bool, true, false, not, ◌&&◌, ◌||◌, Option, none, some, [],
  ◌++◌, ltb, ◌==◌, if◌then◌else◌,
}
use raytask.Value.Kinds.{BinOpKind, UnOpKind}
use raytask.Value.Words.{
  RuntimeError, Outcome, ◌>>=◌, wrapping_add, wrapping_sub, wrapping_mul, wrapping_neg, int_div,
  int_rem, int_shl, int_shr, int_less,
}
use raytask.Prelude.Text.{Str}
use raytask.Value.{Value}
use raytask.Value.Equality.{same_float, same_constant}

pub record Machine : Type 0 where
  pub f_add : ℕ → ℕ → ℕ
  pub f_sub : ℕ → ℕ → ℕ
  pub f_mul : ℕ → ℕ → ℕ
  pub f_div : ℕ → ℕ → ℕ
  pub f_neg : ℕ → ℕ
  pub f_less : ℕ → ℕ → Bool
  pub f_less_or_equal : ℕ → ℕ → Bool
  pub f_of_int : ℕ → ℕ
  pub f_of_uint : ℕ → ℕ
  -- `none` where the value is too large for an `i64`
  pub int_of_f : ℕ → Option ℕ
  pub is_empty_array : ℕ → Bool
  pub as_string : Value → Str
  -- The function of the module with this number.
  pub function_of : ℕ → Str × ℕ

abbrev or_type_error : Option ℕ → Outcome ℕ
or_type_error none = Outcome.error RuntimeError.type_error
or_type_error (some n) = Outcome.ok n

unfoldable pub as_int : Machine → Value → Outcome ℕ
as_int m (Value.int n) = Outcome.ok n
as_int m (Value.uint n) =
    if ltb n (2 ^ 63) then Outcome.ok n else Outcome.error RuntimeError.type_error
as_int m (Value.float n) = or_type_error (m.int_of_f n)
as_int m (Value.bool b) = Outcome.ok (if b then 1 else 0)
as_int m (Value.char c) = Outcome.ok c
as_int m _ = Outcome.error RuntimeError.type_error

unfoldable pub as_float : Machine → Value → Outcome ℕ
as_float m (Value.float n) = Outcome.ok n
as_float m (Value.int n) = Outcome.ok (m.f_of_int n)
as_float m (Value.uint n) = Outcome.ok (m.f_of_uint n)
as_float m _ = Outcome.error RuntimeError.type_error

unfoldable pub is_truthy : Machine → Value → Bool
is_truthy m Value.null = false
is_truthy m (Value.bool b) = b
is_truthy m (Value.int n) = not (n == 0)
is_truthy m (Value.uint n) = not (n == 0)
is_truthy m (Value.float n) = not (same_float n 0)
is_truthy m (Value.string []) = false
is_truthy m (Value.array a) = not (m.is_empty_array a)
is_truthy m _ = true

unfoldable pub equals : Machine → Value → Value → Bool
equals m (Value.int a) (Value.uint b) = ltb a (2 ^ 63) && a == b
equals m (Value.uint a) (Value.int b) = ltb b (2 ^ 63) && a == b
equals m (Value.float a) (Value.int b) = same_float a (m.f_of_int b)
equals m (Value.int a) (Value.float b) = same_float (m.f_of_int a) b
equals m a b = same_constant a b

abbrev is_float : Value → Bool
is_float (Value.float n) = true
is_float _ = false

abbrev is_uint : Value → Bool
is_uint (Value.uint n) = true
is_uint _ = false

abbrev floats : Machine → (ℕ → ℕ → Value) → Value → Value → Outcome Value
floats m f l r = do x ← as_float m l; y ← as_float m r; Outcome.ok (f x y)

abbrev ints : Machine → (ℕ → ℕ → Value) → Value → Value → Outcome Value
ints m f l r = do x ← as_int m l; y ← as_int m r; Outcome.ok (f x y)

abbrev numbers : Machine → (floating integral : ℕ → ℕ → Value) → Value → Value → Outcome Value
numbers m floating integral l r =
    if is_float l || is_float r then floats m floating l r else ints m integral l r

abbrev sum : Machine → Value → Value → Outcome Value
sum m (Value.string a) b = Outcome.ok (Value.string (a ++ m.as_string b))
sum m a (Value.string b) = Outcome.ok (Value.string (m.as_string a ++ b))
sum m a b = numbers m (λ x y. Value.float (m.f_add x y)) (λ x y. Value.int (wrapping_add x y)) a b

-- The divisor is converted first.
abbrev divided : Machine → (ℕ → ℕ → Outcome ℕ) → Value → Value → Outcome Value
divided m f l r = do
  y ← as_int m r
  if y == 0
      then Outcome.error RuntimeError.division_by_zero
      else do x ← as_int m l; q ← f x y; Outcome.ok (Value.int q)

abbrev uint_rem : ℕ → ℕ → Outcome ℕ
uint_rem l r =
    if ltb l (2 ^ 63) && ltb r (2 ^ 63)
    then int_rem l r
    else do k ← int_rem l r; int_rem (wrapping_add k r) r

abbrev coalesce : Value → Value → Value
coalesce Value.null r = r
coalesce l r = l

unfoldable pub binary_op : Machine → BinOpKind → Value → Value → Outcome Value
binary_op m BinOpKind.add l r = sum m l r
binary_op m BinOpKind.sub l r =
    numbers m (λ x y. Value.float (m.f_sub x y)) (λ x y. Value.int (wrapping_sub x y)) l r
binary_op m BinOpKind.mul l r =
    numbers m (λ x y. Value.float (m.f_mul x y)) (λ x y. Value.int (wrapping_mul x y)) l r
binary_op m BinOpKind.div l r =
    if is_float l || is_float r
    then floats m (λ x y. Value.float (m.f_div x y)) l r
    else divided m int_div l r
binary_op m BinOpKind.modulo l r =
    if is_uint l || is_uint r then divided m uint_rem l r else divided m int_rem l r
binary_op m BinOpKind.eq l r = Outcome.ok (Value.bool (equals m l r))
binary_op m BinOpKind.ne l r = Outcome.ok (Value.bool (not (equals m l r)))
binary_op m BinOpKind.lt l r =
    numbers m (λ x y. Value.bool (m.f_less x y)) (λ x y. Value.bool (int_less x y)) l r
binary_op m BinOpKind.le l r =
    numbers m (λ x y. Value.bool (m.f_less_or_equal x y)) (λ x y. Value.bool (not (int_less y x))) l
      r
binary_op m BinOpKind.gt l r =
    numbers m (λ x y. Value.bool (m.f_less y x)) (λ x y. Value.bool (int_less y x)) l r
binary_op m BinOpKind.ge l r =
    numbers m (λ x y. Value.bool (m.f_less_or_equal y x)) (λ x y. Value.bool (not (int_less x y))) l
      r
binary_op m BinOpKind.and l r = Outcome.ok (Value.bool (is_truthy m l && is_truthy m r))
binary_op m BinOpKind.or l r = Outcome.ok (Value.bool (is_truthy m l || is_truthy m r))
binary_op m BinOpKind.bit_and l r = ints m (λ x y. Value.int (bit_and x y)) l r
binary_op m BinOpKind.bit_or l r = ints m (λ x y. Value.int (bit_or x y)) l r
binary_op m BinOpKind.bit_xor l r = ints m (λ x y. Value.int (bit_xor x y)) l r
binary_op m BinOpKind.shl l r = ints m (λ x y. Value.int (int_shl x y)) l r
binary_op m BinOpKind.shr l r = ints m (λ x y. Value.int (int_shr x y)) l r
binary_op m BinOpKind.null_coalesce l r = Outcome.ok (coalesce l r)

abbrev negated : Machine → Value → Outcome Value
negated m (Value.float n) = Outcome.ok (Value.float (m.f_neg n))
negated m v = do n ← as_int m v; Outcome.ok (Value.int (wrapping_neg n))

abbrev is_null_value : Value → Bool
is_null_value Value.null = true
is_null_value _ = false

unfoldable pub unary_op : Machine → UnOpKind → Value → Outcome Value
unary_op m UnOpKind.neg v = negated m v
unary_op m UnOpKind.not_ v = Outcome.ok (Value.bool (not (is_truthy m v)))
unary_op m UnOpKind.bit_not v = do n ← as_int m v; Outcome.ok (Value.int (2 ^ 64 - 1 - n))
unary_op m UnOpKind.is_null v = Outcome.ok (Value.bool (is_null_value v))
unary_op m UnOpKind.to_string v = Outcome.ok (Value.string (m.as_string v))
