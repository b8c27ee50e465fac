-- ===== src/Rtbc/Deserialize.antt =====
-- `deserialize_module` of src/bytecode_format.rs, with the readers of versions 8, 9 and 10.
pub mod Values
use raytask.Prelude.{
  ℕ, zero, suc, ◌-◌, Bool, true, false, List, [], ◌∷◌, ◌++◌, map, ◌==◌, ◌&&◌, ◌||◌, if◌then◌else◌,
  length, replicate,
}
use raytask.Prelude.Text.{Str, codes}
use raytask.Bytecode
use raytask.Bytecode.{LocalDebug, Chunk, ClassInfo, ClassKind, FfiEmbed, FfiModuleInfo, Module}
use raytask.Value.{Value}
use raytask.Rtbc.Reader.{
  Read, Result, ok, err, ◌>>=◌, pure, fail, bytes, u8, u16, var_u32, repeat, Error,
}
use raytask.Rtbc.Serialize.{rtbc_magic, rtbc_version, usize_max, u32_max}
use Values.{
  Wire, fixed, varint, flag, optional, counted, read_value_v8, read_value_v9, read_value_v10,
}

unfoldable pub read_run : Read (ℕ × ℕ)
read_run = do line ← var_u32; len ← var_u32; pure (line, len)

-- The loop of `read_lines`, with the lines so far.
unfoldable pub read_runs : ℕ → List ℕ → Read (List ℕ)
read_runs zero lines = pure lines
read_runs (suc n) lines = do run ← read_run; read_runs n (lines ++ replicate run.1 run.0)

unfoldable pub check_lines : ℕ → List ℕ → Read (List ℕ)
check_lines total lines =
    if length lines == total then pure lines else fail Error.corrupt_line_table

unfoldable pub read_lines : Read (List ℕ)
read_lines = do
  total ← var_u32
  n_runs ← var_u32
  lines ← read_runs n_runs []
  check_lines total lines

-- `u32::MAX` stands for a local that is still in scope.
unfoldable pub read_end_ip : Wire → Read ℕ
read_end_ip w = do end_raw ← w.count; pure (if end_raw == u32_max then usize_max else end_raw)

unfoldable pub read_local_debug : Wire → Read LocalDebug
read_local_debug w = do
  name ← w.text
  slot ← u8
  start_ip ← w.count
  end_ip ← read_end_ip w
  pure (record { name = name; slot = slot; start_ip = start_ip; end_ip = end_ip })

unfoldable pub read_method : Wire → Read (Str × ℕ)
read_method w = do name ← w.text; idx ← w.count; pure (name, idx)

-- The class record of versions 8 and 9: the types of the fields are not stored.
unfoldable pub read_class_info_legacy : Wire → Read ClassInfo
read_class_info_legacy w = do
  name ← w.text
  fields ← counted w.count w.text
  methods ← counted w.count (read_method w)
  constructor ← optional w.count
  base ← optional w.count
  destructor ← optional w.count
  pure (record {
    name = name;
    kind = ClassKind.class;
    fields = fields;
    field_types = map (λ _. codes "dyn") fields;
    methods = methods;
    constructor = constructor;
    base = base;
    destructor = destructor;
  })

-- `while field_types.len() < fields.len() { field_types.push("dyn") }`
unfoldable pub pad_types : ℕ → List Str → List Str
pad_types zero types = types
pad_types (suc missing) types = pad_types missing (types ++ codes "dyn" ∷ [])

unfoldable pub read_field_types : ℕ → Read (List Str)
read_field_types n_fields = do
  types ← counted varint.count varint.text
  pure (pad_types (n_fields - length types) types)

unfoldable pub read_kind : Read ClassKind
read_kind = do b ← u8; pure (Bytecode.from_u8 b)

unfoldable pub read_class_info_v10 : Read ClassInfo
read_class_info_v10 = do
  name ← varint.text
  kind ← read_kind
  fields ← counted varint.count varint.text
  field_types ← read_field_types (length fields)
  methods ← counted varint.count (read_method varint)
  constructor ← optional varint.count
  base ← optional varint.count
  destructor ← optional varint.count
  pure (record {
    name = name;
    kind = kind;
    fields = fields;
    field_types = field_types;
    methods = methods;
    constructor = constructor;
    base = base;
    destructor = destructor;
  })

-- The body of the loop over the chunks; the versions differ in the line table and in the constants.
unfoldable pub read_chunk : Wire → Read (List ℕ) → Read Value → Read Chunk
read_chunk w lines value = do
  name ← w.text
  arity ← w.count
  local_count ← w.count
  is_async ← flag
  code_len ← w.count
  code ← bytes code_len
  table ← lines
  constants ← counted w.count value
  local_debug ← counted w.count (read_local_debug w)
  source ← optional w.text
  pure (record {
    name = name;
    code = code;
    constants = constants;
    lines = table;
    arity = arity;
    local_count = local_count;
    is_async = is_async;
    local_debug = local_debug;
    source = source;
  })

unfoldable pub read_embed : Wire → Read FfiEmbed
read_embed w = do
  lib_name ← w.text
  source ← w.text
  pure (record { source = source; lib_name = lib_name })

unfoldable pub read_module : Wire → Read ClassInfo → Read Chunk → Read Module
read_module w class chunk = do
  main_chunk ← w.count
  stdlib_enabled ← flag
  globals ← counted w.count w.text
  classes ← counted w.count class
  chunks ← counted w.count chunk
  includes ← counted w.count w.text
  links ← counted w.count w.text
  embeds ← counted w.count (read_embed w)
  pure (record {
    chunks = chunks;
    main_chunk = main_chunk;
    globals = globals;
    classes = classes;
    ffi = record { includes = includes; links = links; embeds = embeds };
    stdlib_enabled = stdlib_enabled;
  })

unfoldable pub deserialize_module_v8 : Read Module
deserialize_module_v8 =
    read_module fixed (read_class_info_legacy fixed)
      (read_chunk fixed (counted fixed.count fixed.count) read_value_v8)

unfoldable pub deserialize_module_v9 : Read Module
deserialize_module_v9 =
    read_module varint (read_class_info_legacy varint) (read_chunk varint read_lines read_value_v9)

unfoldable pub deserialize_module_v10 : Read Module
deserialize_module_v10 =
    read_module varint read_class_info_v10 (read_chunk varint read_lines read_value_v10)

-- `magic != RTBC_MAGIC`
unfoldable pub is_magic : List ℕ → Bool
is_magic (a ∷ b ∷ c ∷ d ∷ []) = a == b'R' && (b == b'T' && (c == b'B' && d == b'C'))
is_magic _ = false

unfoldable pub module_of_version : ℕ → Read Module
module_of_version v =
    if v == 8
    then deserialize_module_v8
    else if v == 9
    then deserialize_module_v9
    else if v == rtbc_version
    then deserialize_module_v10
    else fail (Error.unsupported_version v)

unfoldable pub check_version : Bool → Read Module
check_version true = do version ← u16; module_of_version version
check_version false = fail Error.invalid_magic

unfoldable pub read_file : Read Module
read_file = do magic ← bytes 4; check_version (is_magic magic)

abbrev pub value_of {ℓ} : {A : Type ℓ} → Result (A × List ℕ) → Result A
value_of (ok (a, rest)) = ok a
value_of (err e) = err e

-- The reader is dropped at the end: bytes after the module are not looked at.
unfoldable pub deserialize_module : List ℕ → Result Module
deserialize_module bs = value_of (read_file bs)
