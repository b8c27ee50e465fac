-- ===== src/Rtbc/Serialize.antt =====
-- `serialize_module` of src/bytecode_format.rs and what it calls.
pub mod Values
use raytask.Prelude.{
  ℕ, zero, suc, ◌+◌, ◌%◌, ◌^◌, ◌-◌, true, false, List, [], ◌∷◌, ◌==◌, if◌then◌else◌, length,
}
use raytask.Prelude.Text.{Str}
use raytask.Bytecode
use raytask.Bytecode.{LocalDebug, Chunk, ClassInfo, FfiEmbed, Module}
use raytask.Rtbc.Writer.{Writer, ◌>>◌, raw, u8, u16, var_u32, var_str, flag, counted, optional}
use Values.{write_value}

-- b"RTBC"
abbrev pub rtbc_magic : List ℕ
rtbc_magic = b'R' ∷ b'T' ∷ b'B' ∷ b'C' ∷ []

abbrev pub rtbc_version : ℕ
rtbc_version = 10

-- The loop of `write_lines` over `lines[1..]`, with the run that is open.
unfoldable pub runs : (current len : ℕ) → List ℕ → List (ℕ × ℕ)
runs current len [] = (current, len) ∷ []
runs current len (line ∷ lines) = elim (line % 2 ^ 32 == current) [
  | true ↦ runs current ((len + 1) % 2 ^ 32) lines
  | false ↦ (current, len) ∷ runs (line % 2 ^ 32) 1 lines
]

unfoldable pub write_run : ℕ × ℕ → Writer
write_run (line, len) = do var_u32 line; var_u32 len

unfoldable pub write_lines : List ℕ → Writer
write_lines [] = do var_u32 0; var_u32 0
write_lines (line ∷ lines) = do
  var_u32 (length (line ∷ lines))
  counted (runs (line % 2 ^ 32) 1 lines) write_run

abbrev pub usize_max : ℕ
usize_max = 2 ^ 64 - 1

abbrev pub u32_max : ℕ
u32_max = 2 ^ 32 - 1

unfoldable pub write_local_debug : LocalDebug → Writer
write_local_debug ld = do
  var_str ld.name
  u8 ld.slot
  var_u32 ld.start_ip
  var_u32 (if ld.end_ip == usize_max then u32_max else ld.end_ip)

unfoldable pub write_method : Str × ℕ → Writer
write_method (name, idx) = do var_str name; var_u32 idx

unfoldable pub write_class : ClassInfo → Writer
write_class c = do
  var_str c.name
  u8 (Bytecode.to_u8 c.kind)
  counted c.fields var_str
  counted c.field_types var_str
  counted c.methods write_method
  optional c.constructor var_u32
  optional c.base var_u32
  optional c.destructor var_u32

unfoldable pub write_chunk : Chunk → Writer
write_chunk chunk = do
  var_str chunk.name
  var_u32 chunk.arity
  var_u32 chunk.local_count
  flag chunk.is_async
  var_u32 (length chunk.code)
  raw chunk.code
  write_lines chunk.lines
  counted chunk.constants write_value
  counted chunk.local_debug write_local_debug
  optional chunk.source var_str

unfoldable pub write_embed : FfiEmbed → Writer
write_embed e = do var_str e.lib_name; var_str e.source

-- `serialize_module` from the main chunk on.
unfoldable pub write_body : Module → Writer
write_body m = do
  var_u32 m.main_chunk
  flag m.stdlib_enabled
  counted m.globals var_str
  counted m.classes write_class
  counted m.chunks write_chunk
  counted m.ffi.includes var_str
  counted m.ffi.links var_str
  counted m.ffi.embeds write_embed

unfoldable pub serialize_module : Module → List ℕ
serialize_module m = do raw rtbc_magic; u16 rtbc_version; write_body m
