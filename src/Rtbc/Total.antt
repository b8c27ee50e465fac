-- ===== src/Rtbc/Total.antt =====
-- The model's fuel is enough for every input, of every version of the format, corrupt ones included:
-- `deserialize_module` of src/bytecode_format.rs returns a module or one of its errors.
mod Values
use native.Mathlib.Nat.{le_refl}
use raytask.Prelude.{
  ℕ, zero, suc, ◌≡◌, ◌≢◌, refl, Bool, true, false, List, [], ◌==◌, length, replicate, ◌++◌, arith,
}
use raytask.Prelude.Text.{Str}
use raytask.Bytecode.{Chunk, ClassInfo, Module}
use raytask.Value.{Value}
use raytask.Rtbc.Reader.{Read, Result, ok, err, Error, ◌>>=◌, pure, fail}
use raytask.Rtbc.Serialize.{rtbc_version}
use raytask.Rtbc.Deserialize.{
  read_run, read_runs, check_lines, read_lines, read_end_ip, read_local_debug, read_method,
  read_class_info_legacy, read_field_types, read_kind, read_class_info_v10, read_chunk, read_embed,
  read_module, deserialize_module_v8, deserialize_module_v9, deserialize_module_v10,
  module_of_version, check_version, read_file, value_of, is_magic, deserialize_module,
}
use raytask.Rtbc.Deserialize.Values.{Wire, fixed, varint}
use raytask.Rtbc.Settles.{
  Settled, Settles, Settles-pure, Settles-fail, Settles-if, Settles-bind, Settles-bytes, Settles-u8,
  Settles-u16, Settles-var_u32,
}
use Values.{
  WireSettles, fixed-WireSettles, varint-WireSettles, Settles-optional, Settles-counted,
  Settles-flag, Settles-value_v8, Settles-value_v9, Settles-value_v10,
}

Settles-run : {n : ℕ} → Settles n read_run
unfolding read_run
Settles-run = Settles-bind Settles-var_u32 (λ _. Settles-bind Settles-var_u32 (λ _. Settles-pure _))

Settles-runs : {n : ℕ} (k : ℕ) (lines : List ℕ) → Settles n (read_runs k lines)
unfolding read_runs
Settles-runs zero lines = Settles-pure lines
Settles-runs (suc k) lines =
    Settles-bind Settles-run (λ run. Settles-runs k (lines ++ replicate run.1 run.0))

Settles-lines : {n : ℕ} → Settles n read_lines
unfolding read_lines check_lines
Settles-lines = Settles-bind Settles-var_u32 (λ total. Settles-bind Settles-var_u32 (λ k.
    Settles-bind (Settles-runs k [])
      (λ lines. Settles-if (length lines == total) (Settles-pure lines) (Settles-fail (λ e. cc)))))

module _ {n : ℕ} {w : Wire} (h : WireSettles w) where
  Settles-end_ip : Settles n (read_end_ip w)
  unfolding read_end_ip
  Settles-end_ip = Settles-bind (h.count n) (λ _. Settles-pure _)

  Settles-local_debug : Settles n (read_local_debug w)
  unfolding read_local_debug
  Settles-local_debug = Settles-bind (h.text n) (λ _.
      Settles-bind Settles-u8
        (λ _. Settles-bind (h.count n) (λ _. Settles-bind Settles-end_ip (λ _. Settles-pure _))))

  Settles-method : Settles n (read_method w)
  unfolding read_method
  Settles-method = Settles-bind (h.text n) (λ _. Settles-bind (h.count n) (λ _. Settles-pure _))

  Settles-class_info_legacy : Settles n (read_class_info_legacy w)
  unfolding read_class_info_legacy
  Settles-class_info_legacy =
      let index = Settles-optional (h.count n) in
      Settles-bind (h.text n) (λ _. Settles-bind (Settles-counted (h.count n) (h.text n)) (λ _.
        Settles-bind (Settles-counted (h.count n) Settles-method) (λ _.
          Settles-bind index
            (λ _. Settles-bind index (λ _. Settles-bind index (λ _. Settles-pure _))))))

  Settles-chunk :
      {lines : Read (List ℕ)} {value : Read Value}
      → Settles n lines
      → Settles n value
      → Settles n (read_chunk w lines value)
  unfolding read_chunk
  Settles-chunk hl hv = Settles-bind (h.text n) (λ _. Settles-bind (h.count n) (λ _.
      Settles-bind (h.count n) (λ _. Settles-bind Settles-flag (λ _. Settles-bind (h.count n) (λ k.
        Settles-bind (Settles-bytes k) (λ _. Settles-bind hl (λ _.
          Settles-bind (Settles-counted (h.count n) hv) (λ _.
            Settles-bind (Settles-counted (h.count n) Settles-local_debug)
              (λ _. Settles-bind (Settles-optional (h.text n)) (λ _. Settles-pure _))))))))))

  Settles-embed : Settles n (read_embed w)
  unfolding read_embed
  Settles-embed = Settles-bind (h.text n) (λ _. Settles-bind (h.text n) (λ _. Settles-pure _))

  Settles-module :
      {class : Read ClassInfo} {chunk : Read Chunk}
      → Settles n class
      → Settles n chunk
      → Settles n (read_module w class chunk)
  unfolding read_module
  Settles-module hc hk =
      let strs = Settles-counted (h.count n) (h.text n) in
      Settles-bind (h.count n) (λ _. Settles-bind Settles-flag (λ _. Settles-bind strs (λ _.
        Settles-bind (Settles-counted (h.count n) hc) (λ _.
          Settles-bind (Settles-counted (h.count n) hk) (λ _. Settles-bind strs (λ _.
            Settles-bind strs (λ _.
              Settles-bind (Settles-counted (h.count n) Settles-embed) (λ _. Settles-pure _))))))))

Settles-field_types : {n : ℕ} (k : ℕ) → Settles n (read_field_types k)
unfolding read_field_types
Settles-field_types {n} k =
    let h = varint-WireSettles in
    Settles-bind (Settles-counted (h.count n) (h.text n)) (λ _. Settles-pure _)

Settles-kind : {n : ℕ} → Settles n read_kind
unfolding read_kind
Settles-kind = Settles-bind Settles-u8 (λ _. Settles-pure _)

Settles-class_info_v10 : {n : ℕ} → Settles n read_class_info_v10
unfolding read_class_info_v10
Settles-class_info_v10 {n} =
    let h = varint-WireSettles in
    let index = Settles-optional (h.count n) in
    Settles-bind (h.text n) (λ _. Settles-bind Settles-kind (λ _.
      Settles-bind (Settles-counted (h.count n) (h.text n)) (λ fields.
        Settles-bind (Settles-field_types (length fields)) (λ _.
          Settles-bind (Settles-counted (h.count n) (Settles-method h)) (λ _.
            Settles-bind index
              (λ _. Settles-bind index (λ _. Settles-bind index (λ _. Settles-pure _))))))))

Settles-v8 : {n : ℕ} → Settles n deserialize_module_v8
unfolding deserialize_module_v8
Settles-v8 {n} =
    let h = fixed-WireSettles in
    let lines = Settles-counted (h.count n) (h.count n) in
    Settles-module h (Settles-class_info_legacy h) (Settles-chunk h lines Settles-value_v8)

Settles-v9 : {n : ℕ} → Settles n deserialize_module_v9
unfolding deserialize_module_v9
Settles-v9 =
    let h = varint-WireSettles in
    Settles-module h (Settles-class_info_legacy h) (Settles-chunk h Settles-lines Settles-value_v9)

Settles-v10 : {n : ℕ} → Settles n deserialize_module_v10
unfolding deserialize_module_v10
Settles-v10 =
    let h = varint-WireSettles in
    Settles-module h Settles-class_info_v10 (Settles-chunk h Settles-lines Settles-value_v10)

Settles-module_of_version : {n : ℕ} (v : ℕ) → Settles n (module_of_version v)
unfolding module_of_version
Settles-module_of_version v = Settles-if (v == 8) Settles-v8 (
    Settles-if (v == 9) Settles-v9
      (Settles-if (v == rtbc_version) Settles-v10 (Settles-fail (λ e. cc))))

Settles-check_version : {n : ℕ} (b : Bool) → Settles n (check_version b)
unfolding check_version
Settles-check_version true = Settles-bind Settles-u16 (λ v. Settles-module_of_version v)
Settles-check_version false = Settles-fail (λ e. cc)

Settles-file : {n : ℕ} → Settles n read_file
unfolding read_file
Settles-file = Settles-bind (Settles-bytes 4) (λ magic. Settles-check_version (is_magic magic))

value_of-Settled :
    (bs : List ℕ) (r : Result (Module × List ℕ)) → Settled bs r → value_of r ≢ err Error.out_of_fuel
value_of-Settled bs (ok (m, rest)) h = λ e. cc
value_of-Settled bs (err x) h = λ e. h cc

-- On every list of numbers, `deserialize_module` returns a module or an error of the source: no
-- recursion and no loop of any of the three versions runs out of the fuel the model gives it.
pub deserialize_module_has_fuel : (bs : List ℕ) → deserialize_module bs ≢ err Error.out_of_fuel
unfolding deserialize_module
deserialize_module_has_fuel bs = value_of-Settled bs (read_file bs) (Settles-file.at bs (le_refl _))
