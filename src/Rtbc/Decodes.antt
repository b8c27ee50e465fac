-- ===== src/Rtbc/Decodes.antt =====
-- `Decodes m w a`: reading with `m` takes exactly the bytes `w`, whatever follows them, and gives `a`.
-- One rule for each way to build a writer and a reader, so that a round trip is a chain of rules.
use mathlib.Core.List.{append_assoc}
use mathlib.Core.Path.{subst}
use raytask.Prelude.{
  ℕ, ◌+◌, ◌%◌, ◌^◌, ◌<◌, ◌≡◌, refl, ap, ◌∙◌, Bool, true, false, Option, none, some, List, [], ◌∷◌,
  ◌++◌, map, arith, length, length-append, All, le→leb, take-append, drop-append,
}
use raytask.Prelude.Text.{Str, is_utf8}
use raytask.Rtbc.Writer
use raytask.Rtbc.Writer.{Writer, ◌>>◌}
use raytask.Rtbc.Reader
use raytask.Rtbc.Reader.{Read, ok, ◌>>=◌, pure}
use raytask.Rtbc.Deserialize.Values
use raytask.Rtbc.Deserialize.Values.{varint, nonzero}
use raytask.Rtbc.Varint.{loop-loop, unzigzag-zigzag, zigzag_bound}

pub record Decodes {ℓ} {A : Type ℓ} (m : Read A) (w : Writer) (a : A) : Type ℓ where
  pub at : (rest : List ℕ) → m (w ++ rest) ≡ ok (a, rest)

pub length->> : (a b : Writer) → length (a >> b) ≡ length a + length b
unfolding ◌>>◌
length->> a b = length-append a b

module _ {ℓ κ} {A : Type ℓ} {B : Type κ} where
  -- A step of a block, then the rest of the block.
  pub Decodes-bind :
      {m : Read A} (k : A → Read B) {w v : Writer} {a : A} {b : B}
      → Decodes m w a
      → Decodes (k a) v b
      → Decodes (m >>= k) (w >> v) b
  unfolding ◌>>=◌ ◌>>◌
  Decodes-bind {m} k {w} {v} {a} {b} h g = record {
    at = λ rest. rw (append_assoc, h.at (v ++ rest)) (g.at rest);
  }

  -- The last step: what is returned writes nothing.
  pub Decodes-last :
      {m : Read A} (f : A → B) {w : Writer} {a : A}
      → Decodes m w a
      → Decodes (m >>= λ x. pure (f x)) w (f a)
  unfolding ◌>>=◌ pure
  Decodes-last f h = record { at = λ rest. rw (h.at rest) }

  -- A step that gives what the rest of the block then reads.
  pub Decodes-step :
      {m : Read A} (k : A → Read B) {w : Writer} {a : A} {b : B}
      → Decodes m w a
      → Decodes (k a) [] b
      → Decodes (m >>= k) w b
  unfolding ◌>>=◌
  Decodes-step k h g = record { at = λ rest. rw (h.at rest) (g.at rest) }

pub Decodes-pure {ℓ} : {A : Type ℓ} (a : A) → Decodes (pure a) [] a
unfolding pure
Decodes-pure a = record { at = λ rest. refl }

pub Decodes-u8 : (v : ℕ) → Decodes Reader.u8 (Writer.u8 v) v
unfolding Reader.u8 Writer.u8 Reader.bytes ◌>>=◌ pure Reader.from_le_bytes
Decodes-u8 v = record { at = λ rest. ground arith }

pub Decodes-bytes : (b : List ℕ) → Decodes (Reader.bytes (length b)) (Writer.raw b) b
unfolding Reader.bytes Writer.raw
Decodes-bytes b = record {
  at = λ rest.
      rw (le→leb (length b) (length (b ++ rest)) (omega (arith, length-append b rest)))
        (rw (take-append (length b) b rest refl, drop-append (length b) b rest refl) refl);
}

Decodes-var_loop : (v : ℕ) → v < 2 ^ 64 → Decodes Reader.var_u64 (Writer.var_loop v v) v
unfolding Reader.var_u64
Decodes-var_loop v h = record {
  at = λ rest.
      loop-loop 9 v v 0 0 rest (omega arith) (omega arith) (omega arith) (omega arith) (omega arith)
      ∙ ap (λ t. ok (t, rest)) (omega arith);
}

pub Decodes-var_u64 : (v : ℕ) → v < 2 ^ 64 → Decodes Reader.var_u64 (Writer.var_u64 v) v
unfolding Writer.var_u64
Decodes-var_u64 v h = Decodes-var_loop v h

pub Decodes-var_u32 : (v : ℕ) → v < 2 ^ 32 → Decodes Reader.var_u32 (Writer.var_u32 v) v
unfolding Reader.var_u32 Writer.var_u32
Decodes-var_u32 v h =
    subst (λ n. Decodes Reader.var_u32 (Writer.var_loop (v % 2 ^ 32) (v % 2 ^ 32)) n) (omega arith)
      (Decodes-last (λ n. n % 2 ^ 32) (Decodes-var_loop (v % 2 ^ 32) (omega arith)))

pub Decodes-var_i64 : (v : ℕ) → v < 2 ^ 64 → Decodes Reader.var_i64 (Writer.var_i64 v) v
unfolding Reader.var_i64 Writer.var_i64
Decodes-var_i64 v h =
    subst (λ n. Decodes Reader.var_i64 (Writer.var_i64 v) n) (unzigzag-zigzag v h)
      (Decodes-last Reader.unzigzag (Decodes-var_u64 (Writer.zigzag v) (zigzag_bound v h)))

-- A text that a Rust `String` can hold, of a length that fits the field that stores it.
pub record IsStr (s : Str) : Type 0 where
  pub short : length s < 2 ^ 32
  pub valid : is_utf8 s ≡ true

Decodes-from_utf8 : (s : Str) → is_utf8 s ≡ true → Decodes (Reader.from_utf8 s) [] s
unfolding Reader.from_utf8
Decodes-from_utf8 s h = rw h (Decodes-pure s)

pub Decodes-var_str : {s : Str} → IsStr s → Decodes Reader.var_str (Writer.var_str s) s
unfolding Reader.var_str Writer.var_str
Decodes-var_str {s} h =
    Decodes-bind _ (Decodes-var_u32 (length s) h.short)
      (Decodes-step _ (Decodes-bytes s) (Decodes-from_utf8 s h.valid))

pub Decodes-u16 : (v : ℕ) → v < 2 ^ 16 → Decodes Reader.u16 (Writer.u16 v) v
unfolding Reader.u16 Writer.u16 Reader.bytes ◌>>=◌ pure Reader.from_le_bytes Writer.raw
    Writer.le_bytes
Decodes-u16 v h = record { at = λ rest. ground arith }

pub Decodes-f64 : (v : ℕ) → v < 2 ^ 64 → Decodes Reader.f64 (Writer.f64 v) v
unfolding Reader.f64 Writer.f64 Reader.u64 Reader.bytes ◌>>=◌ pure Reader.from_le_bytes Writer.raw
    Writer.le_bytes
Decodes-f64 v h = record { at = λ rest. ground arith }

pub Decodes-flag : (b : Bool) → Decodes Values.flag (Writer.flag b) b
unfolding Values.flag Writer.flag nonzero
Decodes-flag true = Decodes-last nonzero (Decodes-u8 1)
Decodes-flag false = Decodes-last nonzero (Decodes-u8 0)

abbrev pub OnSome {ℓ κ} : {A : Type ℓ} → (A → Type κ) → Option A → Type κ
OnSome P none = Unit
OnSome P (some a) = P a

-- A loop of reads takes what a loop of writes wrote, element by element.
module _ {ℓ κ μ} {A : Type ℓ} {B : Type κ} {m : Read B} {body : A → Writer} {g : A → B}
    {P : A → Type μ} (each : (a : A) → P a → Decodes m (body a) (g a)) where
  pub Decodes-repeat :
      (xs : List A)
      → All P xs
      → Decodes (Reader.repeat (length xs) m) (Writer.for_each xs body) (map g xs)
  unfolding Reader.repeat Writer.for_each
  Decodes-repeat [] h = Decodes-pure []
  Decodes-repeat (x ∷ xs) h =
      Decodes-bind _ (each x h.0) (Decodes-last (λ l. g x ∷ l) (Decodes-repeat xs h.1))

  pub Decodes-counted :
      (xs : List A)
      → length xs < 2 ^ 32
      → All P xs
      → Decodes (Values.counted Reader.var_u32 m) (Writer.counted xs body) (map g xs)
  unfolding Values.counted Writer.counted
  Decodes-counted xs short h =
      Decodes-bind _ (Decodes-var_u32 (length xs) short) (Decodes-repeat xs h)

map_id {ℓ} : {A : Type ℓ} (xs : List A) → map (λ x. x) xs ≡ xs
map_id [] = refl
map_id (x ∷ xs) = ap (λ l. x ∷ l) (map_id xs)

-- The same where what is read is what was written.
module _ {ℓ κ} {A : Type ℓ} {m : Read A} {body : A → Writer} {P : A → Type κ}
    (each : (a : A) → P a → Decodes m (body a) a) where
  pub Decodes-list :
      (xs : List A)
      → length xs < 2 ^ 32
      → All P xs
      → Decodes (Values.counted Reader.var_u32 m) (Writer.counted xs body) xs
  Decodes-list xs short h =
      subst (λ l. Decodes (Values.counted Reader.var_u32 m) (Writer.counted xs body) l) (map_id xs)
        (Decodes-counted each xs short h)

  pub Decodes-optional :
      (o : Option A) → OnSome P o → Decodes (Values.optional m) (Writer.optional o body) o
  unfolding Values.optional Values.when_one Writer.optional
  Decodes-optional none h = Decodes-step _ (Decodes-u8 0) (Decodes-pure none)
  Decodes-optional (some a) h = Decodes-bind _ (Decodes-u8 1) (Decodes-last some (each a h))

-- A vector of texts, and an optional index.
abbrev pub AreStrs : List Str → Type 0
AreStrs ss = (length ss < 2 ^ 32) × All IsStr ss

pub Decodes-strs :
    (ss : List Str)
    → AreStrs ss
    → Decodes (Values.counted Reader.var_u32 Reader.var_str) (Writer.counted ss Writer.var_str) ss
Decodes-strs ss h = Decodes-list (λ s. Decodes-var_str) ss h.0 h.1

abbrev pub IndexFits : Option ℕ → Type 0
IndexFits o = OnSome (λ i. i < 2 ^ 32) o

pub Decodes-index :
    (o : Option ℕ)
    → IndexFits o
    → Decodes (Values.optional Reader.var_u32) (Writer.optional o Writer.var_u32) o
Decodes-index o h = Decodes-optional Decodes-var_u32 o h
