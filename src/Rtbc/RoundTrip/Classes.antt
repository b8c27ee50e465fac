-- ===== src/Rtbc/RoundTrip/Classes.antt =====
-- The class table: `read_class_info_v10` against the loop over `module.classes` in `serialize_module`
-- of src/bytecode_format.rs.
use mathlib.Core.Path.{subst}
use raytask.Prelude.{ℕ, ◌-◌, ◌^◌, ◌<◌, ◌≤◌, ◌≡◌, List, arith, length, All}
use raytask.Prelude.Text.{Str}
use raytask.Bytecode
use raytask.Bytecode.{ClassKind, ClassInfo}
use raytask.Rtbc.Writer
use raytask.Rtbc.Serialize.{write_method, write_class}
use raytask.Rtbc.Deserialize.{
  read_method, pad_types, read_field_types, read_kind, read_class_info_v10,
}
use raytask.Rtbc.Deserialize.Values.{varint}
use raytask.Rtbc.Decodes.{
  Decodes, Decodes-bind, Decodes-last, Decodes-u8, Decodes-var_u32, Decodes-var_str, Decodes-list,
  Decodes-strs, Decodes-index, IsStr, AreStrs, IndexFits,
}

abbrev pub MethodFits : Str × ℕ → Type 0
MethodFits m = IsStr m.0 × (m.1 < 2 ^ 32)

-- `typed`: the class has a type for each of its fields, as the compiler gives it.
pub record ClassFits (c : ClassInfo) : Type 0 where
  pub name : IsStr c.name
  pub fields : AreStrs c.fields
  pub field_types : AreStrs c.field_types
  pub typed : length c.fields ≤ length c.field_types
  pub few_methods : length c.methods < 2 ^ 32
  pub methods : All MethodFits c.methods
  pub constructor : IndexFits c.constructor
  pub base : IndexFits c.base
  pub destructor : IndexFits c.destructor

Decodes-kind : (k : ClassKind) → Decodes read_kind (Writer.u8 (Bytecode.to_u8 k)) k
unfolding read_kind Bytecode.to_u8 Bytecode.from_u8
Decodes-kind ClassKind.class = Decodes-last Bytecode.from_u8 (Decodes-u8 0)
Decodes-kind ClassKind.struct = Decodes-last Bytecode.from_u8 (Decodes-u8 1)
Decodes-kind ClassKind.union = Decodes-last Bytecode.from_u8 (Decodes-u8 2)

Decodes-method : (m : Str × ℕ) → MethodFits m → Decodes (read_method varint) (write_method m) m
unfolding read_method write_method varint
Decodes-method (name, idx) h =
    Decodes-bind _ (Decodes-var_str h.0) (Decodes-last (λ i. (name, i)) (Decodes-var_u32 idx h.1))

pad_types-enough :
    (n : ℕ) (types : List Str) → n ≤ length types → pad_types (n - length types) types ≡ types
unfolding pad_types
pad_types-enough n types h = let e : n - length types ≡ 0 = omega arith in rw e

Decodes-field_types :
    (n : ℕ) (types : List Str)
    → AreStrs types
    → n ≤ length types
    → Decodes (read_field_types n) (Writer.counted types Writer.var_str) types
unfolding read_field_types varint
Decodes-field_types n types h enough =
    subst (λ l. Decodes (read_field_types n) (Writer.counted types Writer.var_str) l)
      (pad_types-enough n types enough)
      (Decodes-last (λ l. pad_types (n - length l) l) (Decodes-strs types h))

-- A class is read back as it was written, if it fits the format and each field has its type.
pub Decodes-class : (c : ClassInfo) → ClassFits c → Decodes read_class_info_v10 (write_class c) c
unfolding read_class_info_v10 write_class varint
Decodes-class c h = Decodes-bind _ (Decodes-var_str h.name) (
    Decodes-bind _ (Decodes-kind c.kind) (
      Decodes-bind _ (Decodes-strs c.fields h.fields) (
        Decodes-bind _ (Decodes-field_types (length c.fields) c.field_types h.field_types h.typed) (
          Decodes-bind _ (Decodes-list Decodes-method c.methods h.few_methods h.methods) (
            Decodes-bind _ (Decodes-index c.constructor h.constructor) (
              Decodes-bind _ (Decodes-index c.base h.base)
                (Decodes-last _ (Decodes-index c.destructor h.destructor))))))))
