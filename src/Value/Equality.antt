-- ===== src/Value/Equality.antt =====
-- `Value::equals` of src/value.rs on two values of one variant, as `add_constant` of src/bytecode.rs
-- compares constants.
use raytask.Prelude.{
  ℕ, ◌*◌, ◌%◌, ◌^◌, Bool, true, false, Option, none, some, List, [], ◌∷◌, ◌&&◌, ◌||◌, ltb, ◌==◌,
  if◌then◌else◌,
}
use raytask.Prelude.Text.{Str, same_bytes}
use raytask.Value.{TypeHandle, Value}

unfoldable pub same_bool : Bool → Bool → Bool
same_bool true b = b
same_bool false true = false
same_bool false false = true

-- An `f64` that is not a number: all bits of the exponent, and one of the fraction.
unfoldable pub is_nan : ℕ → Bool
is_nan n = ltb (0x7ff * 2 ^ 52) (n % 2 ^ 63)

-- `==` on `f64`, on the bit patterns: no NaN is equal to anything, and the zeros are equal.
unfoldable pub same_float : ℕ → ℕ → Bool
same_float a b =
    if is_nan a || is_nan b
    then false
    else if a % 2 ^ 63 == 0 && b % 2 ^ 63 == 0
    then true
    else a == b

unfoldable pub same_index : Option ℕ → Option ℕ → Bool
same_index none none = true
same_index (some a) (some b) = a == b
same_index _ _ = false

unfoldable pub same_texts : List Str → List Str → Bool
same_texts [] [] = true
same_texts (a ∷ as') (b ∷ bs) = same_bytes a b && same_texts as' bs
same_texts _ _ = false

-- The derived `PartialEq` of `TypeHandle`
unfoldable pub same_type : TypeHandle → TypeHandle → Bool
same_type a b =
    same_bytes a.name b.name
    && (same_bytes a.kind b.kind
        && (same_index a.class_index b.class_index
            && (same_texts a.fields b.fields
                && (same_texts a.field_types b.field_types && same_texts a.methods b.methods))))

-- `discriminant(c) == discriminant(&value) && c == &value`
unfoldable pub same_constant : Value → Value → Bool
same_constant Value.null Value.null = true
same_constant (Value.bool a) (Value.bool b) = same_bool a b
same_constant (Value.int a) (Value.int b) = a == b
same_constant (Value.uint a) (Value.uint b) = a == b
same_constant (Value.float a) (Value.float b) = same_float a b
same_constant (Value.char a) (Value.char b) = a == b
same_constant (Value.string a) (Value.string b) = same_bytes a b
same_constant (Value.ptr a) (Value.ptr b) = a == b
same_constant (Value.type a) (Value.type b) = same_type a b
same_constant (Value.type_module a) (Value.type_module b) = same_bytes a b
same_constant (Value.array a) (Value.array b) = a == b
same_constant (Value.dict a) (Value.dict b) = a == b
same_constant (Value.object a) (Value.object b) = a == b
same_constant _ _ = false
