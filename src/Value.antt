-- ===== src/Value.antt =====
-- src/value.rs and the type descriptions of src/ffi.rs: the values of the virtual machine.
-- An `i64` and an `f64` are their 64-bit patterns, a `char` its scalar value, a `String` its bytes.
-- What the machine keeps behind an `Rc` (arrays, dictionaries, objects, tasks, upvalue cells) is the
-- number of its cell.
pub mod Equality
pub mod Words
pub mod Kinds
pub mod Ops
use raytask.Prelude.{ℕ, Bool, List, Option}
use raytask.Prelude.Text.{Str}

pub data FfiAbi : Type 0 where
  cdecl stdcall system : FfiAbi

mutual
  pub data FfiType : Type 0 where
    void bool i8 i16 i32 i64 u8 u16 u32 u64 f32 f64 ptr c_string : FfiType
    struct struct_ptr : FfiStructLayout → FfiType

  pub data FfiStructLayout : Type 0 where
    layout : (name : Str) (size align : ℕ) (packed : Bool) → FfiFields → FfiStructLayout

  -- `Vec<FfiFieldLayout>`
  pub data FfiFields : Type 0 where
    no_fields : FfiFields
    field : (name : Str) (offset : ℕ) → FfiType → FfiFields → FfiFields

pub record FfiFunction : Type 0 where
  pub name : Str
  pub library : Str
  pub symbol : Str
  pub abi : FfiAbi
  pub params : List FfiType
  pub ret : FfiType

pub record TypeHandle : Type 0 where
  pub name : Str
  pub kind : Str
  pub class_index : Option ℕ
  pub fields : List Str
  pub field_types : List Str
  pub methods : List Str

mutual
  pub data Value : Type 0 where
    null : Value
    bool : Bool → Value
    int uint float char : ℕ → Value
    string : Str → Value
    array dict object : ℕ → Value
    function :
        (name : Str) (chunk_index arity : ℕ) (defaults : Values) (is_async : Bool)
        (upvalues : List ℕ)
        → Value
    native : ℕ → Value
    type_module : Str → Value
    type : TypeHandle → Value
    task : ℕ → Value
    ffi : FfiFunction → Value
    ptr : ℕ → Value

  -- `Vec<Value>`
  pub data Values : Type 0 where
    no_values : Values
    value : Value → Values → Values
