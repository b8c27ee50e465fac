-- ===== src/Rtbc/RoundTrip/Chunks.antt =====
-- Chunks: `read_chunk` for version 10 against the loop over `module.chunks` in `serialize_module` of
-- src/bytecode_format.rs.
use mathlib.Core.Path.{subst}
use raytask.Prelude.{ℕ, ◌^◌, ◌<◌, ◌≡◌, ◌⊎◌, map, arith, ◌==◌, if◌then◌else◌, length, All}
use raytask.Bytecode.{LocalDebug, Chunk}
use raytask.Rtbc.Writer
use raytask.Rtbc.Serialize.{usize_max, u32_max, write_local_debug, write_chunk}
use raytask.Rtbc.Deserialize.{read_end_ip, read_local_debug, read_lines, read_chunk}
use raytask.Rtbc.Deserialize.Values.{varint, read_value_v10}
use raytask.Rtbc.Decodes.{
  Decodes, Decodes-bind, Decodes-last, Decodes-u8, Decodes-bytes, Decodes-flag, Decodes-var_u32,
  Decodes-var_str, Decodes-list, Decodes-counted, Decodes-optional, IsStr, OnSome,
}
use raytask.Rtbc.RoundTrip.Lines.{Decodes-lines}
use raytask.Rtbc.RoundTrip.Values.{stored, FitsValue, Decodes-value}

-- The end of a live range is `usize::MAX`, or below `u32::MAX`, which stands for it in the file.
pub record LocalFits (ld : LocalDebug) : Type 0 where
  pub name : IsStr ld.name
  pub start_ip : ld.start_ip < 2 ^ 32
  pub end_ip : (ld.end_ip ≡ usize_max) ⊎ (ld.end_ip < u32_max)

pub record ChunkFits (c : Chunk) : Type 0 where
  pub name : IsStr c.name
  pub arity : c.arity < 2 ^ 32
  pub local_count : c.local_count < 2 ^ 32
  pub code : length c.code < 2 ^ 32
  pub line_count : length c.lines < 2 ^ 32
  pub lines : All (λ n. n < 2 ^ 32) c.lines
  pub few_constants : length c.constants < 2 ^ 32
  pub constants : All FitsValue c.constants
  pub few_locals : length c.local_debug < 2 ^ 32
  pub local_debug : All LocalFits c.local_debug
  pub source : OnSome IsStr c.source

-- A chunk with its constants as the file keeps them.
unfoldable pub stored_chunk : Chunk → Chunk
stored_chunk c = record c { constants = map stored c.constants }

Decodes-end_ip :
    (n : ℕ)
    → (n ≡ usize_max) ⊎ (n < u32_max)
    → Decodes (read_end_ip varint) (Writer.var_u32 (if n == usize_max then u32_max else n)) n
unfolding read_end_ip varint
Decodes-end_ip n h =
    subst
      (λ e. Decodes (read_end_ip varint) (Writer.var_u32 (if n == usize_max then u32_max else n)) e)
      (ground arith)
      (Decodes-last (λ raw. if raw == u32_max then usize_max else raw)
        (Decodes-var_u32 (if n == usize_max then u32_max else n) (ground arith)))

Decodes-local :
    (ld : LocalDebug) → LocalFits ld → Decodes (read_local_debug varint) (write_local_debug ld) ld
unfolding read_local_debug write_local_debug varint
Decodes-local ld h = Decodes-bind _ (Decodes-var_str h.name) (
    Decodes-bind _ (Decodes-u8 ld.slot) (
      Decodes-bind _ (Decodes-var_u32 ld.start_ip h.start_ip)
        (Decodes-last _ (Decodes-end_ip ld.end_ip h.end_ip))))

-- A chunk is read back with its constants as they are stored, and all else as it was written.
pub Decodes-chunk :
    (c : Chunk)
    → ChunkFits c
    → Decodes (read_chunk varint read_lines read_value_v10) (write_chunk c) (stored_chunk c)
unfolding read_chunk write_chunk varint stored_chunk
Decodes-chunk c h = Decodes-bind _ (Decodes-var_str h.name) (
    Decodes-bind _ (Decodes-var_u32 c.arity h.arity) (
      Decodes-bind _ (Decodes-var_u32 c.local_count h.local_count) (
        Decodes-bind _ (Decodes-flag c.is_async) (
          Decodes-bind _ (Decodes-var_u32 (length c.code) h.code) (
            Decodes-bind _ (Decodes-bytes c.code) (
              Decodes-bind _ (Decodes-lines c.lines h.line_count h.lines) (
                Decodes-bind _
                  (Decodes-counted Decodes-value c.constants h.few_constants h.constants)
                  (Decodes-bind _
                    (Decodes-list Decodes-local c.local_debug h.few_locals h.local_debug)
                    (Decodes-last _
                      (Decodes-optional (λ s. Decodes-var_str) c.source h.source))))))))))
