-- ===== src/Rtbc/Tests.antt =====
-- Runs of src/bytecode_format.rs on a small module, and the theorems at it.
use raytask.Prelude.{
  ℕ, ◌-◌, ◌^◌, ◌≡◌, ◌≢◌, refl, inl, true, false, none, some, List, [], ◌∷◌, ◌++◌, length, arith,
  ◌&&◌, ltb,
}
use raytask.Prelude.Text.{Str, codes, is_utf8}
use raytask.Value.{FfiType, FfiStructLayout, FfiFields, Value, Values}
use raytask.Bytecode.{Chunk, ClassKind, ClassInfo, Module}
use raytask.Rtbc.Writer
use raytask.Rtbc.Writer.{le_bytes}
use raytask.Rtbc.Reader
use raytask.Rtbc.Reader.{ok, err, Error}
use raytask.Rtbc.Serialize.{usize_max, serialize_module}
use raytask.Rtbc.Serialize.Values.{fields_len, values_len, write_value}
use raytask.Rtbc.Deserialize.{deserialize_module}
use raytask.Rtbc.Deserialize.Values.{read_value_v10}
use raytask.Rtbc.Decodes.{Decodes, IsStr}
use raytask.Rtbc.Varint.{unzigzag-zigzag}
use raytask.Rtbc.Total.{deserialize_module_has_fuel}
use raytask.Rtbc.App.{panicked, payload, app_magic, package_app, extract_app_payload}
use raytask.Rtbc.App.Payload.{extract_app_payload-package_app, extract_app_payload_panics}
use raytask.Rtbc.RoundTrip.FfiTypes.{FitsFfiType}
use raytask.Rtbc.RoundTrip.Values.{stored, FitsValue, Decodes-value}
use raytask.Rtbc.RoundTrip.Classes.{ClassFits}
use raytask.Rtbc.RoundTrip.Chunks.{ChunkFits}
use raytask.Rtbc.RoundTrip.Modules.{ModuleFits, stored_module, deserialize_module-serialize_module}

abbrev point_type : FfiType
point_type = FfiType.struct (
    FfiStructLayout.layout (codes "Point") 8 4 false (
      FfiFields.field (codes "x") 0 FfiType.i32 (
        FfiFields.field (codes "next") 4
          (FfiType.struct_ptr (FfiStructLayout.layout (codes "P") 0 1 true FfiFields.no_fields))
          FfiFields.no_fields)))

abbrev area : Value
area =
    Value.function (codes "area") 1 2
      (Values.value (Value.int (2 ^ 64 - 3)) (Values.value (Value.array 4) Values.no_values)) false
      (0 ∷ [])

abbrev main_chunk : Chunk
main_chunk = record {
  name = codes "main";
  code = 1 ∷ 0 ∷ 0 ∷ 57 ∷ [];
  constants = area ∷ Value.string ((104 ∷ 0xc3 ∷ 0xa9 ∷ [])) ∷ Value.char 0x20ac ∷ [];
  lines = 3 ∷ 3 ∷ 3 ∷ 4 ∷ [];
  arity = 0;
  local_count = 1;
  is_async = true;
  local_debug = record { name = codes "n"; slot = 0; start_ip = 0; end_ip = usize_max } ∷ [];
  source = some (codes "a.rt");
}

abbrev point_class : ClassInfo
point_class = record {
  name = codes "Point";
  kind = ClassKind.struct;
  fields = codes "x" ∷ [];
  field_types = codes "int" ∷ [];
  methods = (codes "len", 1) ∷ [];
  constructor = some 1;
  base = none;
  destructor = none;
}

abbrev sample : Module
sample = record {
  chunks = main_chunk ∷ [];
  main_chunk = 0;
  globals = codes "g" ∷ [];
  classes = point_class ∷ [];
  ffi = record {
    includes = codes "m.h" ∷ [];
    links = [];
    embeds = record { source = codes "int f;"; lib_name = codes "m" } ∷ [];
  };
  stdlib_enabled = true;
}

text : (s : Str) → (ltb (length s) (2 ^ 32) && is_utf8 s) ≡ true → IsStr s
text s h = record { short = ground arith; valid = ground arith }

point_type-FitsFfiType : FitsFfiType point_type
unfolding FitsFfiType is_utf8 fields_len
point_type-FitsFfiType = (
  text _ refl,
  omega arith,
  omega arith,
  omega arith,
  (
    text _ refl,
    omega arith,
    tt,
    (text _ refl, omega arith, (text _ refl, omega arith, omega arith, omega arith, tt), tt),
  ),
)

area-FitsValue : FitsValue area
unfolding FitsValue is_utf8 values_len
area-FitsValue = (text _ refl, omega arith, omega arith, omega arith, (omega arith, (tt, tt)))

main_chunk-ChunkFits : ChunkFits main_chunk
unfolding is_utf8 FitsValue
main_chunk-ChunkFits = record {
  name = text _ refl;
  arity = omega arith;
  local_count = omega arith;
  code = omega arith;
  line_count = omega arith;
  lines = (omega arith, (omega arith, (omega arith, (omega arith, tt))));
  few_constants = omega arith;
  constants = (area-FitsValue, (text _ refl, (refl, tt)));
  few_locals = omega arith;
  local_debug = (record { name = text _ refl; start_ip = omega arith; end_ip = inl refl }, tt);
  source = text _ refl;
}

point_class-ClassFits : ClassFits point_class
unfolding is_utf8
point_class-ClassFits = record {
  name = text _ refl;
  fields = (omega arith, (text _ refl, tt));
  field_types = (omega arith, (text _ refl, tt));
  typed = omega arith;
  few_methods = omega arith;
  methods = ((text _ refl, omega arith), tt);
  constructor = omega arith;
  base = tt;
  destructor = tt;
}

sample-ModuleFits : ModuleFits sample
unfolding is_utf8
sample-ModuleFits = record {
  main_chunk = omega arith;
  globals = (omega arith, (text _ refl, tt));
  few_classes = omega arith;
  classes = (point_class-ClassFits, tt);
  few_chunks = omega arith;
  chunks = (main_chunk-ChunkFits, tt);
  includes = (omega arith, (text _ refl, tt));
  links = (omega arith, tt);
  few_embeds = omega arith;
  embeds = ((text _ refl, text _ refl), tt);
}

deserialize_module-serialize_module_example :
    deserialize_module (serialize_module sample ++ 1 ∷ 2 ∷ []) ≡ ok (stored_module sample)
deserialize_module-serialize_module_example =
    deserialize_module-serialize_module sample (1 ∷ 2 ∷ []) sample-ModuleFits

Decodes-value_example : Decodes read_value_v10 (write_value area) (stored area)
Decodes-value_example = Decodes-value area area-FitsValue

-- A function with a struct type cut off in the middle.
abbrev cut_off : List ℕ
cut_off = b'R' ∷ b'T' ∷ b'B' ∷ b'C' ∷ 10 ∷ 0 ∷ 0 ∷ 1 ∷ 0x80 ∷ []

deserialize_module_has_fuel_example : deserialize_module cut_off ≢ err Error.out_of_fuel
deserialize_module_has_fuel_example = deserialize_module_has_fuel cut_off

unzigzag-zigzag_example : Reader.unzigzag (Writer.zigzag (2 ^ 64 - 5)) ≡ 2 ^ 64 - 5
unzigzag-zigzag_example = unzigzag-zigzag (2 ^ 64 - 5) (omega arith)

extract_app_payload-package_app_example :
    extract_app_payload (package_app (77 ∷ 90 ∷ []) (1 ∷ 2 ∷ 3 ∷ [])) ≡ payload (1 ∷ 2 ∷ 3 ∷ [])
extract_app_payload-package_app_example =
    extract_app_payload-package_app (77 ∷ 90 ∷ []) (1 ∷ 2 ∷ 3 ∷ []) (omega arith)

extract_app_payload_panics_example :
    extract_app_payload ((1 ∷ []) ++ (le_bytes 8 (2 ^ 64 - 16) ++ app_magic)) ≡ panicked
extract_app_payload_panics_example =
    extract_app_payload_panics (1 ∷ []) (2 ^ 64 - 16) (omega arith) (omega arith) (omega arith)
