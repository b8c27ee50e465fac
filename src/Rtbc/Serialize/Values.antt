-- ===== src/Rtbc/Serialize/Values.antt =====
-- `write_value` and `write_ffi_type` of src/bytecode_format.rs.
use raytask.Prelude.{ℕ, suc, []}
use raytask.Value.{
  FfiAbi, FfiType, FfiStructLayout, FfiFields, FfiFunction, TypeHandle, Value, Values,
}
use raytask.Rtbc.Writer.{
  Writer, ◌>>◌, u8, f64, var_u32, var_u64, var_i64, var_str, flag, counted, optional,
}

-- `FfiType::tag`
unfoldable pub tag : FfiType → ℕ
tag FfiType.void = 0
tag FfiType.bool = 1
tag FfiType.i8 = 2
tag FfiType.i16 = 3
tag FfiType.i32 = 4
tag FfiType.i64 = 5
tag FfiType.u8 = 6
tag FfiType.u16 = 7
tag FfiType.u32 = 8
tag FfiType.u64 = 9
tag FfiType.f32 = 10
tag FfiType.f64 = 11
tag FfiType.ptr = 12
tag FfiType.c_string = 13
tag (FfiType.struct s) = 14
tag (FfiType.struct_ptr s) = 15

-- `s.fields.len()`
unfoldable pub fields_len : FfiFields → ℕ
fields_len FfiFields.no_fields = 0
fields_len (FfiFields.field name offset ty rest) = suc (fields_len rest)

unfoldable mutual
  pub write_ffi_type : FfiType → Writer
  write_ffi_type (FfiType.struct s) = do u8 14; write_layout s
  write_ffi_type (FfiType.struct_ptr s) = do u8 15; write_layout s
  write_ffi_type ty = u8 (tag ty)

  pub write_layout : FfiStructLayout → Writer
  write_layout (FfiStructLayout.layout name size align packed fields) = do
    var_str name
    var_u32 size
    var_u32 align
    flag packed
    var_u32 (fields_len fields)
    write_fields fields

  pub write_fields : FfiFields → Writer
  write_fields FfiFields.no_fields = []
  write_fields (FfiFields.field name offset ty rest) = do
    var_str name
    var_u32 offset
    write_ffi_type ty
    write_fields rest

unfoldable pub abi_tag : FfiAbi → ℕ
abi_tag FfiAbi.cdecl = 0
abi_tag FfiAbi.stdcall = 1
abi_tag FfiAbi.system = 2

unfoldable pub write_ffi : FfiFunction → Writer
write_ffi f = do
  var_str f.name
  var_str f.library
  var_str f.symbol
  u8 (abi_tag f.abi)
  write_ffi_type f.ret
  counted f.params write_ffi_type

unfoldable pub write_type_handle : TypeHandle → Writer
write_type_handle t = do
  var_str t.name
  var_str t.kind
  optional t.class_index var_u32
  counted t.fields var_str
  counted t.field_types var_str
  counted t.methods var_str

unfoldable pub values_len : Values → ℕ
values_len Values.no_values = 0
values_len (Values.value v rest) = suc (values_len rest)

unfoldable mutual
  pub write_value : Value → Writer
  write_value Value.null = u8 0
  write_value (Value.bool b) = do u8 1; flag b
  write_value (Value.int n) = do u8 2; var_i64 n
  write_value (Value.uint n) = do u8 3; var_u64 n
  write_value (Value.float n) = do u8 4; f64 n
  write_value (Value.char c) = do u8 5; var_u32 c
  write_value (Value.string s) = do u8 6; var_str s
  write_value (Value.function name chunk_index arity defaults is_async upvalues) = do
    u8 7
    var_str name
    var_u32 chunk_index
    var_u32 arity
    flag is_async
    var_u32 (values_len defaults)
    write_values defaults
  write_value (Value.native id) = do u8 8; var_u32 id
  write_value (Value.ptr p) = do u8 9; var_u64 p
  write_value (Value.type_module name) = do u8 10; var_str name
  write_value (Value.ffi f) = do u8 11; write_ffi f
  write_value (Value.type t) = do u8 12; write_type_handle t
  -- Arrays, dictionaries, objects and tasks exist at run time only: null stands for them.
  write_value (Value.array a) = u8 0
  write_value (Value.dict d) = u8 0
  write_value (Value.object o) = u8 0
  write_value (Value.task t) = u8 0

  pub write_values : Values → Writer
  write_values Values.no_values = []
  write_values (Values.value v rest) = do write_value v; write_values rest
