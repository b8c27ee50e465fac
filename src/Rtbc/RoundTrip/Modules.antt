-- ===== src/Rtbc/RoundTrip/Modules.antt =====
-- Whole files: `deserialize_module` against `serialize_module` of src/bytecode_format.rs.
use raytask.Prelude.{ℕ, ◌^◌, ◌<◌, ◌≡◌, List, ◌++◌, map, arith, length, All}
use raytask.Bytecode.{FfiEmbed, Module}
use raytask.Rtbc.Reader.{ok}
use raytask.Rtbc.Serialize.{rtbc_magic, rtbc_version, write_embed, write_body, serialize_module}
use raytask.Rtbc.Deserialize.{
  read_embed, read_module, deserialize_module_v10, is_magic, module_of_version, check_version,
  read_file, deserialize_module,
}
use raytask.Rtbc.Deserialize.Values.{varint}
use raytask.Rtbc.Decodes.{
  Decodes, Decodes-bind, Decodes-last, Decodes-bytes, Decodes-u16, Decodes-flag, Decodes-var_u32,
  Decodes-var_str, Decodes-list, Decodes-counted, Decodes-strs, IsStr, AreStrs,
}
use raytask.Rtbc.RoundTrip.Classes.{ClassFits, Decodes-class}
use raytask.Rtbc.RoundTrip.Chunks.{ChunkFits, stored_chunk, Decodes-chunk}

abbrev pub EmbedFits : FfiEmbed → Type 0
EmbedFits e = IsStr e.lib_name × IsStr e.source

-- What a module has to be to fit the format: its texts are texts, and its numbers and counts fit the
-- fields that store them.
pub record ModuleFits (m : Module) : Type 0 where
  pub main_chunk : m.main_chunk < 2 ^ 32
  pub globals : AreStrs m.globals
  pub few_classes : length m.classes < 2 ^ 32
  pub classes : All ClassFits m.classes
  pub few_chunks : length m.chunks < 2 ^ 32
  pub chunks : All ChunkFits m.chunks
  pub includes : AreStrs m.ffi.includes
  pub links : AreStrs m.ffi.links
  pub few_embeds : length m.ffi.embeds < 2 ^ 32
  pub embeds : All EmbedFits m.ffi.embeds

-- A module with its constants as the file keeps them.
unfoldable pub stored_module : Module → Module
stored_module m = record m { chunks = map stored_chunk m.chunks }

Decodes-embed : (e : FfiEmbed) → EmbedFits e → Decodes (read_embed varint) (write_embed e) e
unfolding read_embed write_embed varint
Decodes-embed e h =
    Decodes-bind _ (Decodes-var_str h.0)
      (Decodes-last (λ s. record { source = s; lib_name = e.lib_name }) (Decodes-var_str h.1))

Decodes-v10 :
    (m : Module) → ModuleFits m → Decodes deserialize_module_v10 (write_body m) (stored_module m)
unfolding deserialize_module_v10 read_module write_body stored_module varint
Decodes-v10 m h = Decodes-bind _ (Decodes-var_u32 m.main_chunk h.main_chunk) (
    Decodes-bind _ (Decodes-flag m.stdlib_enabled) (
      Decodes-bind _ (Decodes-strs m.globals h.globals) (
        Decodes-bind _ (Decodes-list Decodes-class m.classes h.few_classes h.classes) (
          Decodes-bind _ (Decodes-counted Decodes-chunk m.chunks h.few_chunks h.chunks) (
            Decodes-bind _ (Decodes-strs m.ffi.includes h.includes) (
              Decodes-bind _ (Decodes-strs m.ffi.links h.links) (
                Decodes-last _
                  (Decodes-list Decodes-embed m.ffi.embeds h.few_embeds h.embeds))))))))

Decodes-file :
    (m : Module) → ModuleFits m → Decodes read_file (serialize_module m) (stored_module m)
unfolding read_file check_version is_magic module_of_version serialize_module
Decodes-file m h =
    Decodes-bind _ (Decodes-bytes rtbc_magic)
      (Decodes-bind _ (Decodes-u16 rtbc_version (omega arith)) (Decodes-v10 m h))

-- A module that fits the format is read back as it is stored, whatever bytes follow it.
pub deserialize_module-serialize_module :
    (m : Module) (rest : List ℕ)
    → ModuleFits m
    → deserialize_module (serialize_module m ++ rest) ≡ ok (stored_module m)
unfolding deserialize_module
deserialize_module-serialize_module m rest h = rw ((Decodes-file m h).at rest)
