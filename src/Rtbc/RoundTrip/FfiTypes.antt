-- ===== src/Rtbc/RoundTrip/FfiTypes.antt =====
-- `read_ffi_type` against `write_ffi_type` of src/bytecode_format.rs.
use raytask.Prelude.{ℕ, zero, suc, ◌^◌, ◌<◌, ◌≤◌, ◌++◌, arith, length, length-append}
use raytask.Value.{FfiType, FfiStructLayout, FfiFields}
use raytask.Rtbc.Writer
use raytask.Rtbc.Serialize.Values.{tag, fields_len, write_ffi_type, write_layout, write_fields}
use raytask.Rtbc.Deserialize.Values.{
  read_fields, read_layout, from_u8, ffi_type_of_tag, read_ffi_type_within, read_ffi_type,
}
use raytask.Rtbc.Decodes.{
  Decodes, Decodes-bind, Decodes-last, Decodes-step, Decodes-pure, Decodes-u8, Decodes-var_u32,
  Decodes-var_str, Decodes-flag, IsStr, length->>,
}

-- Names are texts, and sizes, offsets and counts fit the 32 bits that store them.
unfoldable mutual
  pub FitsFfiType : FfiType → Type 0
  FitsFfiType (FfiType.struct s) = FitsLayout s
  FitsFfiType (FfiType.struct_ptr s) = FitsLayout s
  FitsFfiType _ = Unit

  pub FitsLayout : FfiStructLayout → Type 0
  FitsLayout (FfiStructLayout.layout name size align packed fields) =
      IsStr name
      × (size < 2 ^ 32)
      × (align < 2 ^ 32)
      × (fields_len fields < 2 ^ 32)
      × FitsFields fields

  pub FitsFields : FfiFields → Type 0
  FitsFields FfiFields.no_fields = Unit
  FitsFields (FfiFields.field name offset ty rest) =
      IsStr name × (offset < 2 ^ 32) × FitsFfiType ty × FitsFields rest

one-le-length-write_ffi_type : (t : FfiType) → 1 ≤ length (write_ffi_type t)
unfolding write_ffi_type Writer.u8
one-le-length-write_ffi_type (FfiType.struct s) =
    omega (arith, length->> (Writer.u8 14) (write_layout s))
one-le-length-write_ffi_type (FfiType.struct_ptr s) =
    omega (arith, length->> (Writer.u8 15) (write_layout s))
one-le-length-write_ffi_type _ = omega arith

mutual
  unfolding FitsFfiType write_ffi_type tag read_ffi_type_within ffi_type_of_tag from_u8 read_layout
      read_fields fields_len Writer.u8

  ffi_type-Decodes :
      (t : FfiType) (fuel : ℕ)
      → length (write_ffi_type t) ≤ fuel
      → FitsFfiType t
      → Decodes (read_ffi_type_within fuel) (write_ffi_type t) t
  ffi_type-Decodes t zero h f = absurd (omega (arith, one-le-length-write_ffi_type t))
  ffi_type-Decodes (FfiType.struct s) (suc fuel) h f = Decodes-bind _ (Decodes-u8 14) (
      Decodes-last FfiType.struct
        (layout-Decodes s fuel (omega (arith, length->> (Writer.u8 14) (write_layout s))) f))
  ffi_type-Decodes (FfiType.struct_ptr s) (suc fuel) h f = Decodes-bind _ (Decodes-u8 15) (
      Decodes-last FfiType.struct_ptr
        (layout-Decodes s fuel (omega (arith, length->> (Writer.u8 15) (write_layout s))) f))
  ffi_type-Decodes t (suc fuel) h f = Decodes-step _ (Decodes-u8 (tag t)) (Decodes-pure t)

  layout-Decodes :
      (s : FfiStructLayout) (fuel : ℕ)
      → length (write_layout s) ≤ fuel
      → FitsLayout s
      → Decodes (read_layout (read_ffi_type_within fuel)) (write_layout s) s
  layout-Decodes (FfiStructLayout.layout name size align packed fields) fuel h f =
      Decodes-bind _ (Decodes-var_str f.0) (
        Decodes-bind _ (Decodes-var_u32 size f.1) (
          Decodes-bind _ (Decodes-var_u32 align f.2) (
            Decodes-bind _ (Decodes-flag packed) (
              Decodes-bind _ (Decodes-var_u32 (fields_len fields) f.3) (
                Decodes-last (FfiStructLayout.layout name size align packed)
                  (fields-Decodes fields fuel (omega (arith, length->>)) f.4))))))

  fields-Decodes :
      (fs : FfiFields) (fuel : ℕ)
      → length (write_fields fs) ≤ fuel
      → FitsFields fs
      → Decodes (read_fields (read_ffi_type_within fuel) (fields_len fs)) (write_fields fs) fs
  fields-Decodes FfiFields.no_fields fuel h f = Decodes-pure _
  fields-Decodes (FfiFields.field name offset ty rest) fuel h f =
      Decodes-bind _ (Decodes-var_str f.0) (
        Decodes-bind _ (Decodes-var_u32 offset f.1) (
          Decodes-bind _ (ffi_type-Decodes ty fuel (omega (arith, length->>)) f.2) (
            Decodes-last (FfiFields.field name offset ty)
              (fields-Decodes rest fuel (omega (arith, length->>)) f.3))))

-- A type description is read back as it was written, whatever follows it.
pub Decodes-ffi_type : (t : FfiType) → FitsFfiType t → Decodes read_ffi_type (write_ffi_type t) t
unfolding read_ffi_type
Decodes-ffi_type t f = record {
  at = λ rest.
      (ffi_type-Decodes t (suc (length (write_ffi_type t ++ rest)))
          (omega (arith, length-append (write_ffi_type t) rest)) f).at
        rest;
}
