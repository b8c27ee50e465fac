-- ===== src/Bytecode.antt =====
-- src/bytecode.rs: chunks, classes and modules.
pub mod Op
pub mod Emit
mod Tests
use raytask.Prelude.{ℕ, zero, suc, Bool, List, Option}
use raytask.Prelude.Text.{Str}
use raytask.Value.{Value}

pub record LocalDebug : Type 0 where
  pub name : Str
  pub slot : ℕ
  pub start_ip : ℕ
  pub end_ip : ℕ

pub record Chunk : Type 0 where
  pub name : Str
  pub code : List ℕ
  pub constants : List Value
  pub lines : List ℕ
  pub arity : ℕ
  pub local_count : ℕ
  pub is_async : Bool
  pub local_debug : List LocalDebug
  pub source : Option Str

pub data ClassKind : Type 0 where
  class struct union : ClassKind

-- `kind as u8`
unfoldable pub to_u8 : ClassKind → ℕ
to_u8 class = 0
to_u8 struct = 1
to_u8 union = 2

unfoldable pub from_u8 : ℕ → ClassKind
from_u8 (suc zero) = struct
from_u8 (suc (suc zero)) = union
from_u8 _ = class

pub record ClassInfo : Type 0 where
  pub name : Str
  pub kind : ClassKind
  pub fields : List Str
  pub field_types : List Str
  pub methods : List (Str × ℕ)
  pub constructor : Option ℕ
  pub base : Option ℕ
  pub destructor : Option ℕ

-- `FfiEmbed` and `FfiModuleInfo` of src/ffi.rs
pub record FfiEmbed : Type 0 where
  pub source : Str
  pub lib_name : Str

pub record FfiModuleInfo : Type 0 where
  pub includes : List Str
  pub links : List Str
  pub embeds : List FfiEmbed

pub record Module : Type 0 where
  pub chunks : List Chunk
  pub main_chunk : ℕ
  pub globals : List Str
  pub classes : List ClassInfo
  pub ffi : FfiModuleInfo
  pub stdlib_enabled : Bool
