-- ===== src/Rtbc/Total/Values.antt =====
-- Constants and type descriptions: `read_value_v8`, `read_value_v9`, `read_value_v10` and `read_ffi_type`
-- of src/bytecode_format.rs never run out of the model's fuel.
use native.Mathlib.Nat.{le_refl}
use raytask.Prelude.{ℕ, zero, suc, ◌≡◌, refl, List, ◌==◌, arith, length}
use raytask.Value.{FfiType, Value}
use raytask.Rtbc.Reader.{Read, ◌>>=◌, pure}
use raytask.Rtbc.Deserialize.Values.{
  Wire, fixed, varint, when_one, optional, counted, flag, read_fields, read_layout, ffi_type_of_tag,
  read_ffi_type_within, read_ffi_type, read_abi, read_ffi, read_values, read_function, value_of_tag,
  unknown_tag, read_type_handle, type_tag, read_value_within, read_value_v8, read_value_v9,
  read_value_v10,
}
use raytask.Rtbc.Settles.{
  Settles, Settles-pure, Settles-fail, Settles-if, Settles-bind, Settles-u8, Settles-after-u8,
  Settles-repeat, Settles-u32, Settles-u64, Settles-f64, Settles-str, Settles-var_u32,
  Settles-var_u64, Settles-var_i64, Settles-var_str,
}

pub record WireSettles (w : Wire) : Type 0 where
  pub count : (n : ℕ) → Settles n w.count
  pub text : (n : ℕ) → Settles n w.text
  pub int : (n : ℕ) → Settles n w.int
  pub uint : (n : ℕ) → Settles n w.uint

pub fixed-WireSettles : WireSettles fixed
unfolding fixed raytask.Rtbc.Reader.i64
fixed-WireSettles = record {
  count = λ n. Settles-u32;
  text = λ n. Settles-str;
  int = λ n. Settles-u64;
  uint = λ n. Settles-u64;
}

pub varint-WireSettles : WireSettles varint
unfolding varint
varint-WireSettles = record {
  count = λ n. Settles-var_u32;
  text = λ n. Settles-var_str;
  int = λ n. Settles-var_i64;
  uint = λ n. Settles-var_u64;
}

pub Settles-optional {ℓ} : {A : Type ℓ} {n : ℕ} {m : Read A} → Settles n m → Settles n (optional m)
unfolding optional when_one
Settles-optional h =
    Settles-bind Settles-u8
      (λ b. Settles-if (b == 1) (Settles-bind h (λ a. Settles-pure _)) (Settles-pure _))

pub Settles-counted {ℓ} :
    {A : Type ℓ} {n : ℕ} {count : Read ℕ} {m : Read A}
    → Settles n count
    → Settles n m
    → Settles n (counted count m)
unfolding counted
Settles-counted hc hm = Settles-bind hc (λ k. Settles-repeat k hm)

pub Settles-flag : {n : ℕ} → Settles n flag
unfolding flag
Settles-flag = search (Settles-bind, Settles-u8, Settles-pure)

Settles-fields : {n : ℕ} {ty : Read FfiType} (k : ℕ) → Settles n ty → Settles n (read_fields ty k)
unfolding read_fields
Settles-fields zero h = Settles-pure _
Settles-fields (suc k) h = Settles-bind Settles-var_str (λ _.
    Settles-bind Settles-var_u32
      (λ _. Settles-bind h (λ _. Settles-bind (Settles-fields k h) (λ _. Settles-pure _))))

Settles-layout : {n : ℕ} {ty : Read FfiType} → Settles n ty → Settles n (read_layout ty)
unfolding read_layout
Settles-layout h = Settles-bind Settles-var_str (λ _. Settles-bind Settles-var_u32 (λ _.
    Settles-bind Settles-var_u32 (λ _. Settles-bind Settles-flag (λ _.
      Settles-bind Settles-var_u32
        (λ k. Settles-bind (Settles-fields k h) (λ _. Settles-pure _))))))

Settles-ffi_type_of_tag :
    {n : ℕ} {ty : Read FfiType} (t : ℕ) → Settles n ty → Settles n (ffi_type_of_tag ty t)
unfolding ffi_type_of_tag
Settles-ffi_type_of_tag t h =
    Settles-if (t == 14) (Settles-bind (Settles-layout h) (λ _. Settles-pure _)) (
      Settles-if (t == 15) (Settles-bind (Settles-layout h) (λ _. Settles-pure _)) (Settles-pure _))

-- No input has fewer than no bytes.
Settles-zero {ℓ} : {A : Type ℓ} {m : Read A} → Settles 0 m
Settles-zero = record { at = λ bs h. absurd (omega arith) }

Settles-ffi_type_within : (fuel : ℕ) → Settles fuel (read_ffi_type_within fuel)
unfolding read_ffi_type_within
Settles-ffi_type_within zero = Settles-zero
Settles-ffi_type_within (suc fuel) =
    Settles-after-u8 (λ t. Settles-ffi_type_of_tag t (Settles-ffi_type_within fuel))

pub Settles-ffi_type : {n : ℕ} → Settles n read_ffi_type
unfolding read_ffi_type
Settles-ffi_type = record {
  at = λ bs h. (Settles-ffi_type_within (suc (length bs))).at bs (le_refl _);
}

Settles-abi : {n : ℕ} → Settles n read_abi
unfolding read_abi
Settles-abi = Settles-bind Settles-u8 (λ _. Settles-pure _)

Settles-ffi : {n : ℕ} {w : Wire} → WireSettles w → Settles n (read_ffi w)
unfolding read_ffi
Settles-ffi {n} h = Settles-bind (h.text n) (λ _. Settles-bind (h.text n) (λ _.
    Settles-bind (h.text n) (λ _. Settles-bind Settles-abi (λ _.
      Settles-bind Settles-ffi_type
        (λ _. Settles-bind (Settles-counted (h.count n) Settles-ffi_type) (λ _. Settles-pure _))))))

Settles-values : {n : ℕ} {v : Read Value} (k : ℕ) → Settles n v → Settles n (read_values v k)
unfolding read_values
Settles-values zero h = Settles-pure _
Settles-values (suc k) h =
    Settles-bind h (λ _. Settles-bind (Settles-values k h) (λ _. Settles-pure _))

Settles-function :
    {n : ℕ} {w : Wire} {v : Read Value}
    → WireSettles w
    → Settles n v
    → Settles n (read_function w v)
unfolding read_function
Settles-function {n} h hv = Settles-bind (h.text n) (λ _. Settles-bind (h.count n) (λ _.
    Settles-bind (h.count n) (λ _. Settles-bind Settles-flag (λ _.
      Settles-bind (h.count n) (λ k. Settles-bind (Settles-values k hv) (λ _. Settles-pure _))))))

Settles-type_handle : {n : ℕ} → Settles n read_type_handle
unfolding read_type_handle
Settles-type_handle =
    let strs = Settles-counted Settles-var_u32 Settles-var_str in
    Settles-bind Settles-var_str (λ _. Settles-bind Settles-var_str (λ _.
      Settles-bind (Settles-optional Settles-var_u32) (λ _.
        Settles-bind strs (λ _. Settles-bind strs (λ _. Settles-bind strs (λ _. Settles-pure _))))))

Settles-unknown_tag : {n : ℕ} (t : ℕ) → Settles n (unknown_tag t)
unfolding unknown_tag
Settles-unknown_tag t = Settles-fail (λ e. cc)

Settles-type_tag : {n : ℕ} (t : ℕ) → Settles n (type_tag t)
unfolding type_tag
Settles-type_tag t = Settles-if (t == 12) Settles-type_handle (Settles-unknown_tag t)

module _ {n : ℕ} {w : Wire} {other : ℕ → Read Value} (hw : WireSettles w)
    (ho : (m t : ℕ) → Settles m (other t)) where
  Settles-value_of_tag :
      {v : Read Value} (t : ℕ) → Settles n v → Settles n (value_of_tag w other v t)
  unfolding value_of_tag
  Settles-value_of_tag t hv = Settles-if (t == 0) (Settles-pure _) (
      Settles-if (t == 1) (Settles-bind Settles-flag (λ _. Settles-pure _)) (
        Settles-if (t == 2) (Settles-bind (hw.int n) (λ _. Settles-pure _)) (
          Settles-if (t == 3) (Settles-bind (hw.uint n) (λ _. Settles-pure _)) (
            Settles-if (t == 4) (Settles-bind Settles-f64 (λ _. Settles-pure _)) (
              Settles-if (t == 5) (Settles-bind (hw.count n) (λ _. Settles-pure _)) (
                Settles-if (t == 6) (Settles-bind (hw.text n) (λ _. Settles-pure _)) (
                  Settles-if (t == 7) (Settles-function hw hv) (
                    Settles-if (t == 8) (Settles-bind (hw.count n) (λ _. Settles-pure _)) (
                      Settles-if (t == 9) (Settles-bind (hw.uint n) (λ _. Settles-pure _)) (
                        Settles-if (t == 10) (Settles-bind (hw.text n) (λ _. Settles-pure _))
                          (Settles-if (t == 11) (Settles-ffi hw) (ho n t))))))))))))

module _ {w : Wire} {other : ℕ → Read Value} (hw : WireSettles w)
    (ho : (m t : ℕ) → Settles m (other t)) where
  Settles-value_within : (fuel : ℕ) → Settles fuel (read_value_within w other fuel)
  unfolding read_value_within
  Settles-value_within zero = Settles-zero
  Settles-value_within (suc fuel) =
      Settles-after-u8 (λ t. Settles-value_of_tag hw ho t (Settles-value_within fuel))

  Settles-value :
      {n : ℕ} {m : Read Value}
      → ((bs : List ℕ) → m bs ≡ read_value_within w other (suc (length bs)) bs)
      → Settles n m
  Settles-value e = record {
    at = λ bs h. rw (e bs) ((Settles-value_within (suc (length bs))).at bs (le_refl _));
  }

pub Settles-value_v8 : {n : ℕ} → Settles n read_value_v8
unfolding read_value_v8
Settles-value_v8 = Settles-value fixed-WireSettles (λ _ t. Settles-unknown_tag t) (λ bs. refl)

pub Settles-value_v9 : {n : ℕ} → Settles n read_value_v9
unfolding read_value_v9
Settles-value_v9 = Settles-value varint-WireSettles (λ _ t. Settles-unknown_tag t) (λ bs. refl)

pub Settles-value_v10 : {n : ℕ} → Settles n read_value_v10
unfolding read_value_v10
Settles-value_v10 = Settles-value varint-WireSettles (λ _ t. Settles-type_tag t) (λ bs. refl)
