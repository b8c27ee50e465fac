-- ===== src/Rtbc/Deserialize/Values.antt =====
-- `read_value_v8`, `read_value_v9`, `read_value_v10` and `read_ffi_type` of src/bytecode_format.rs.
use raytask.Prelude.{
  ℕ, zero, suc, Bool, true, false, Option, none, some, List, ◌==◌, ltb, ◌&&◌, ◌||◌, if◌then◌else◌,
  length,
}
use raytask.Prelude.Text.{Str}
use raytask.Value.{FfiAbi, FfiType, FfiStructLayout, FfiFields, Value, Values}
use raytask.Rtbc.Reader.{
  Read, ◌>>=◌, pure, fail, u8, u32, u64, i64, f64, str, var_u32, var_u64, var_i64, var_str, repeat,
  Error,
}

-- How a version of the format stores counts, texts and 64-bit integers.
pub record Wire : Type 0 where
  pub count : Read ℕ
  pub text : Read Str
  pub int : Read ℕ
  pub uint : Read ℕ

-- Version 8: words of fixed width.
unfoldable pub fixed : Wire
fixed = record { count = u32; text = str; int = i64; uint = u64 }

-- Versions 9 and 10: variable-length integers.
unfoldable pub varint : Wire
varint = record { count = var_u32; text = var_str; int = var_i64; uint = var_u64 }

-- `b != 0`
unfoldable pub nonzero : ℕ → Bool
nonzero b = if b == 0 then false else true

-- `r.u8()? != 0`
unfoldable pub flag : Read Bool
flag = do b ← u8; pure (nonzero b)

-- `if r.u8()? == 1 { Some(m?) } else { None }`
unfoldable pub when_one {ℓ} : {A : Type ℓ} → Read A → ℕ → Read (Option A)
when_one m b = if b == 1 then (do a ← m; pure (some a)) else pure none

unfoldable pub optional {ℓ} : {A : Type ℓ} → Read A → Read (Option A)
optional m = do b ← u8; when_one m b

-- `let n = count? as usize; for _ in 0..n { v.push(m?) }`
unfoldable pub counted {ℓ} : {A : Type ℓ} → Read ℕ → Read A → Read (List A)
counted count m = do n ← count; repeat n m

-- `FfiType::from_u8`
unfoldable pub from_u8 : ℕ → FfiType
from_u8 v =
    if v == 0
    then FfiType.void
    else if v == 1
    then FfiType.bool
    else if v == 2
    then FfiType.i8
    else if v == 3
    then FfiType.i16
    else if v == 4
    then FfiType.i32
    else if v == 5
    then FfiType.i64
    else if v == 6
    then FfiType.u8
    else if v == 7
    then FfiType.u16
    else if v == 8
    then FfiType.u32
    else if v == 9
    then FfiType.u64
    else if v == 10
    then FfiType.f32
    else if v == 11
    then FfiType.f64
    else if v == 12
    then FfiType.ptr
    else if v == 13
    then FfiType.c_string
    else FfiType.ptr

-- The loop over the fields of a layout; `ty` is the recursive call.
unfoldable pub read_fields : Read FfiType → ℕ → Read FfiFields
read_fields ty zero = pure FfiFields.no_fields
read_fields ty (suc n) = do
  name ← var_str
  offset ← var_u32
  t ← ty
  rest ← read_fields ty n
  pure (FfiFields.field name offset t rest)

unfoldable pub read_layout : Read FfiType → Read FfiStructLayout
read_layout ty = do
  name ← var_str
  size ← var_u32
  align ← var_u32
  packed ← flag
  n ← var_u32
  fields ← read_fields ty n
  pure (FfiStructLayout.layout name size align packed fields)

unfoldable pub ffi_type_of_tag : Read FfiType → ℕ → Read FfiType
ffi_type_of_tag ty t =
    if t == 14
    then (do l ← read_layout ty; pure (FfiType.struct l))
    else if t == 15
    then (do l ← read_layout ty; pure (FfiType.struct_ptr l))
    else pure (from_u8 t)

-- The recursion of `read_ffi_type`, on fuel.
unfoldable pub read_ffi_type_within : ℕ → Read FfiType
read_ffi_type_within zero = fail Error.out_of_fuel
read_ffi_type_within (suc fuel) = do t ← u8; ffi_type_of_tag (read_ffi_type_within fuel) t

-- Each level takes a byte, so the bytes that are left bound the depth.
unfoldable pub read_ffi_type : Read FfiType
read_ffi_type bs = read_ffi_type_within (suc (length bs)) bs

unfoldable pub abi_of : ℕ → FfiAbi
abi_of b = if b == 1 then FfiAbi.stdcall else if b == 2 then FfiAbi.system else FfiAbi.cdecl

unfoldable pub read_abi : Read FfiAbi
read_abi = do b ← u8; pure (abi_of b)

unfoldable pub read_ffi : Wire → Read Value
read_ffi w = do
  name ← w.text
  library ← w.text
  symbol ← w.text
  abi ← read_abi
  ret ← read_ffi_type
  params ← counted w.count read_ffi_type
  pure (
      Value.ffi (record {
        name = name;
        library = library;
        symbol = symbol;
        abi = abi;
        params = params;
        ret = ret;
      }))

-- The loop over the defaults of a function; `v` is the recursive call.
unfoldable pub read_values : Read Value → ℕ → Read Values
read_values v zero = pure Values.no_values
read_values v (suc n) = do a ← v; rest ← read_values v n; pure (Values.value a rest)

unfoldable pub read_function : Wire → Read Value → Read Value
read_function w v = do
  name ← w.text
  chunk_index ← w.count
  arity ← w.count
  is_async ← flag
  n ← w.count
  defaults ← read_values v n
  pure (Value.function name chunk_index arity defaults is_async List.[])

-- `char::from_u32(cp).unwrap_or('\0')`
unfoldable pub char_of : ℕ → ℕ
char_of cp = if ltb cp 0xd800 || (ltb 0xdfff cp && ltb cp 0x110000) then cp else 0

-- The arms of the three functions' `match`; `other` is what the version does with a tag above 11.
unfoldable pub value_of_tag : Wire → (ℕ → Read Value) → Read Value → ℕ → Read Value
value_of_tag w other v t =
    if t == 0
    then pure Value.null
    else if t == 1
    then (do b ← flag; pure (Value.bool b))
    else if t == 2
    then (do n ← w.int; pure (Value.int n))
    else if t == 3
    then (do n ← w.uint; pure (Value.uint n))
    else if t == 4
    then (do n ← f64; pure (Value.float n))
    else if t == 5
    then (do cp ← w.count; pure (Value.char (char_of cp)))
    else if t == 6
    then (do s ← w.text; pure (Value.string s))
    else if t == 7
    then read_function w v
    else if t == 8
    then (do id ← w.count; pure (Value.native id))
    else if t == 9
    then (do p ← w.uint; pure (Value.ptr p))
    else if t == 10
    then (do name ← w.text; pure (Value.type_module name))
    else if t == 11
    then read_ffi w
    else other t

unfoldable pub unknown_tag : ℕ → Read Value
unknown_tag t = fail (Error.unknown_value_tag t)

unfoldable pub read_type_handle : Read Value
read_type_handle = do
  name ← var_str
  kind ← var_str
  class_index ← optional var_u32
  fields ← counted var_u32 var_str
  field_types ← counted var_u32 var_str
  methods ← counted var_u32 var_str
  pure (
      Value.type (record {
        name = name;
        kind = kind;
        class_index = class_index;
        fields = fields;
        field_types = field_types;
        methods = methods;
      }))

-- Version 10 adds tag 12.
unfoldable pub type_tag : ℕ → Read Value
type_tag t = if t == 12 then read_type_handle else unknown_tag t

-- The recursion of the three functions, on fuel.
unfoldable pub read_value_within : Wire → (ℕ → Read Value) → ℕ → Read Value
read_value_within w other zero = fail Error.out_of_fuel
read_value_within w other (suc fuel) = do
  t ← u8
  value_of_tag w other (read_value_within w other fuel) t

unfoldable pub read_value_v8 : Read Value
read_value_v8 bs = read_value_within fixed unknown_tag (suc (length bs)) bs

unfoldable pub read_value_v9 : Read Value
read_value_v9 bs = read_value_within varint unknown_tag (suc (length bs)) bs

unfoldable pub read_value_v10 : Read Value
read_value_v10 bs = read_value_within varint type_tag (suc (length bs)) bs
