-- ===== src/Rtbc/RoundTrip/Values.antt =====
-- `read_value_v10` against `write_value` of src/bytecode_format.rs.
use mathlib.Core.Path.{subst}
use raytask.Prelude.{
  ℕ, zero, suc, ◌^◌, ◌<◌, ◌≤◌, ◌≡◌, refl, true, ◌||◌, ◌&&◌, [], ◌++◌, arith, length, length-append,
  All, ltb,
}
use raytask.Value.{FfiAbi, FfiFunction, TypeHandle, Value, Values}
use raytask.Rtbc.Writer
use raytask.Rtbc.Writer.{Writer, ◌>>◌}
use raytask.Rtbc.Reader
use raytask.Rtbc.Reader.{Read, ◌>>=◌, pure}
use raytask.Rtbc.Serialize.Values.{
  abi_tag, write_ffi, write_type_handle, values_len, write_value, write_values,
}
use raytask.Rtbc.Deserialize.Values.{
  varint, abi_of, read_abi, read_ffi, read_values, read_function, char_of, value_of_tag, type_tag,
  read_type_handle, read_value_within, read_value_v10,
}
use raytask.Rtbc.Decodes.{
  Decodes, Decodes-bind, Decodes-last, Decodes-step, Decodes-pure, Decodes-u8, Decodes-var_u32,
  Decodes-var_u64, Decodes-var_i64, Decodes-f64, Decodes-var_str, Decodes-flag, Decodes-list,
  Decodes-strs, Decodes-index, IsStr, AreStrs, IndexFits, length->>,
}
use raytask.Rtbc.RoundTrip.FfiTypes.{FitsFfiType, Decodes-ffi_type}

-- What a constant is after it has been stored: references to the heap become null, and a function loses
-- its captured variables.
unfoldable mutual
  pub stored : Value → Value
  stored (Value.array a) = Value.null
  stored (Value.dict d) = Value.null
  stored (Value.object o) = Value.null
  stored (Value.task t) = Value.null
  stored (Value.function name chunk_index arity defaults is_async upvalues) =
      Value.function name chunk_index arity (stored_values defaults) is_async []
  stored v = v

  pub stored_values : Values → Values
  stored_values Values.no_values = Values.no_values
  stored_values (Values.value v rest) = Values.value (stored v) (stored_values rest)

-- A Unicode scalar value, as a Rust `char` is.
abbrev pub IsChar : ℕ → Type 0
IsChar c = (ltb c 0xd800 || (ltb 0xdfff c && ltb c 0x110000)) ≡ true

pub record FitsFfi (f : FfiFunction) : Type 0 where
  pub name : IsStr f.name
  pub library : IsStr f.library
  pub symbol : IsStr f.symbol
  pub ret : FitsFfiType f.ret
  pub arity : length f.params < 2 ^ 32
  pub params : All FitsFfiType f.params

pub record FitsHandle (t : TypeHandle) : Type 0 where
  pub name : IsStr t.name
  pub kind : IsStr t.kind
  pub class_index : IndexFits t.class_index
  pub fields : AreStrs t.fields
  pub field_types : AreStrs t.field_types
  pub methods : AreStrs t.methods

-- Texts are texts, and the numbers fit the words that hold them in Rust or store them in the file.
unfoldable mutual
  pub FitsValue : Value → Type 0
  FitsValue (Value.int n) = n < 2 ^ 64
  FitsValue (Value.uint n) = n < 2 ^ 64
  FitsValue (Value.float n) = n < 2 ^ 64
  FitsValue (Value.char c) = IsChar c
  FitsValue (Value.string s) = IsStr s
  FitsValue (Value.function name chunk_index arity defaults is_async upvalues) =
      IsStr name
      × (chunk_index < 2 ^ 32)
      × (arity < 2 ^ 32)
      × (values_len defaults < 2 ^ 32)
      × FitsValues defaults
  FitsValue (Value.native id) = id < 2 ^ 32
  FitsValue (Value.ptr p) = p < 2 ^ 64
  FitsValue (Value.type_module name) = IsStr name
  FitsValue (Value.type t) = FitsHandle t
  FitsValue (Value.ffi f) = FitsFfi f
  FitsValue _ = Unit

  pub FitsValues : Values → Type 0
  FitsValues Values.no_values = Unit
  FitsValues (Values.value v rest) = FitsValue v × FitsValues rest

Decodes-abi : (a : FfiAbi) → Decodes read_abi (Writer.u8 (abi_tag a)) a
unfolding read_abi abi_tag abi_of
Decodes-abi FfiAbi.cdecl = Decodes-last abi_of (Decodes-u8 0)
Decodes-abi FfiAbi.stdcall = Decodes-last abi_of (Decodes-u8 1)
Decodes-abi FfiAbi.system = Decodes-last abi_of (Decodes-u8 2)

Decodes-ffi : (f : FfiFunction) → FitsFfi f → Decodes (read_ffi varint) (write_ffi f) (Value.ffi f)
unfolding read_ffi varint write_ffi
Decodes-ffi f h = Decodes-bind _ (Decodes-var_str h.name) (
    Decodes-bind _ (Decodes-var_str h.library) (
      Decodes-bind _ (Decodes-var_str h.symbol) (
        Decodes-bind _ (Decodes-abi f.abi) (
          Decodes-bind _ (Decodes-ffi_type f.ret h.ret)
            (Decodes-last _ (Decodes-list Decodes-ffi_type f.params h.arity h.params))))))

Decodes-type_handle :
    (t : TypeHandle) → FitsHandle t → Decodes read_type_handle (write_type_handle t) (Value.type t)
unfolding read_type_handle write_type_handle
Decodes-type_handle t h = Decodes-bind _ (Decodes-var_str h.name) (
    Decodes-bind _ (Decodes-var_str h.kind) (
      Decodes-bind _ (Decodes-index t.class_index h.class_index) (
        Decodes-bind _ (Decodes-strs t.fields h.fields) (
          Decodes-bind _ (Decodes-strs t.field_types h.field_types)
            (Decodes-last _ (Decodes-strs t.methods h.methods))))))

Decodes-char :
    (c : ℕ)
    → IsChar c
    → Decodes
        (Reader.var_u32 >>= λ cp. pure (Value.char (char_of cp)))
        (Writer.var_u32 c)
        (Value.char c)
unfolding char_of
Decodes-char c h =
    subst
      (λ n.
        Decodes (Reader.var_u32 >>= λ cp. pure (Value.char (char_of cp))) (Writer.var_u32 c)
          (Value.char n))
      (rw h) (Decodes-last (λ cp. Value.char (char_of cp)) (Decodes-var_u32 c (ground arith)))

length-u8 : (b : ℕ) → length (Writer.u8 b) ≡ 1
unfolding Writer.u8
length-u8 b = refl

one-le-length-write_value : (v : Value) → 1 ≤ length (write_value v)
unfolding write_value Writer.u8 Writer.◌>>◌
one-le-length-write_value Value.null = omega arith
one-le-length-write_value _ = omega arith

mutual
  unfolding varint FitsValue stored write_value values_len read_value_within value_of_tag
      read_function read_values type_tag

  value-Decodes :
      (v : Value) (fuel : ℕ)
      → length (write_value v) ≤ fuel
      → FitsValue v
      → Decodes (read_value_within varint type_tag fuel) (write_value v) (stored v)
  value-Decodes v zero h f = absurd (omega (arith, one-le-length-write_value v))
  value-Decodes Value.null (suc fuel) h f = Decodes-step _ (Decodes-u8 0) (Decodes-pure _)
  value-Decodes (Value.bool b) (suc fuel) h f =
      Decodes-bind _ (Decodes-u8 1) (Decodes-last Value.bool (Decodes-flag b))
  value-Decodes (Value.int n) (suc fuel) h f =
      Decodes-bind _ (Decodes-u8 2) (Decodes-last Value.int (Decodes-var_i64 n f))
  value-Decodes (Value.uint n) (suc fuel) h f =
      Decodes-bind _ (Decodes-u8 3) (Decodes-last Value.uint (Decodes-var_u64 n f))
  value-Decodes (Value.float n) (suc fuel) h f =
      Decodes-bind _ (Decodes-u8 4) (Decodes-last Value.float (Decodes-f64 n f))
  value-Decodes (Value.char c) (suc fuel) h f = Decodes-bind _ (Decodes-u8 5) (Decodes-char c f)
  value-Decodes (Value.string s) (suc fuel) h f =
      Decodes-bind _ (Decodes-u8 6) (Decodes-last Value.string (Decodes-var_str f))
  value-Decodes (Value.function name chunk_index arity defaults is_async upvalues) (suc fuel) h f =
      Decodes-bind _ (Decodes-u8 7) (
        Decodes-bind _ (Decodes-var_str f.0) (
          Decodes-bind _ (Decodes-var_u32 chunk_index f.1) (
            Decodes-bind _ (Decodes-var_u32 arity f.2) (
              Decodes-bind _ (Decodes-flag is_async) (
                Decodes-bind _ (Decodes-var_u32 (values_len defaults) f.3) (
                  Decodes-last _
                    (values-Decodes defaults fuel (omega (arith, length->>, length-u8 7)) f.4)))))))
  value-Decodes (Value.native id) (suc fuel) h f =
      Decodes-bind _ (Decodes-u8 8) (Decodes-last Value.native (Decodes-var_u32 id f))
  value-Decodes (Value.ptr p) (suc fuel) h f =
      Decodes-bind _ (Decodes-u8 9) (Decodes-last Value.ptr (Decodes-var_u64 p f))
  value-Decodes (Value.type_module name) (suc fuel) h f =
      Decodes-bind _ (Decodes-u8 10) (Decodes-last Value.type_module (Decodes-var_str f))
  value-Decodes (Value.ffi f') (suc fuel) h f = Decodes-bind _ (Decodes-u8 11) (Decodes-ffi f' f)
  value-Decodes (Value.type t) (suc fuel) h f =
      Decodes-bind _ (Decodes-u8 12) (Decodes-type_handle t f)
  -- What lives on the heap only.
  value-Decodes v (suc fuel) h f = Decodes-step _ (Decodes-u8 0) (Decodes-pure _)

  values-Decodes :
      (vs : Values) (fuel : ℕ)
      → length (write_values vs) ≤ fuel
      → FitsValues vs
      → Decodes
          (read_values (read_value_within varint type_tag fuel) (values_len vs))
          (write_values vs)
          (stored_values vs)
  values-Decodes Values.no_values fuel h f = Decodes-pure _
  values-Decodes (Values.value v rest) fuel h f =
      Decodes-bind _ (value-Decodes v fuel (omega (arith, length->>)) f.0) (
        Decodes-last (Values.value (stored v))
          (values-Decodes rest fuel (omega (arith, length->>)) f.1))

-- A constant that fits the format is read back as it is stored, whatever follows it in the file: heap
-- references become null, and functions lose their captured variables, at any depth of defaults.
pub Decodes-value : (v : Value) → FitsValue v → Decodes read_value_v10 (write_value v) (stored v)
unfolding read_value_v10
Decodes-value v f = record {
  at = λ rest.
      (value-Decodes v (suc (length (write_value v ++ rest)))
          (omega (arith, length-append (write_value v) rest)) f).at
        rest;
}
