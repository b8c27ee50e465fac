-- ===== src/Rtbc/Settles.antt =====
-- `Settles n m`: on fewer than `n` bytes the reader `m` does not run out of the model's fuel, and leaves
-- no more bytes than it was given. One rule for each way to build a reader.
use raytask.Prelude.{
  ℕ, zero, suc, ◌+◌, ◌*◌, ◌<◌, ◌≤◌, ◌≡◌, ◌≢◌, refl, inl, inr, Bool, true, false, List, [], ◌∷◌,
  arith, leb, ltb, ◌==◌, bit_and, if◌then◌else◌, Bool-cases, length, length-drop,
}
use raytask.Prelude.Text.{is_utf8}
use raytask.Rtbc.Reader
use raytask.Rtbc.Reader.{Read, Result, ok, err, Error, and_then, ◌>>=◌, pure, fail}

abbrev pub Settled {ℓ} : {A : Type ℓ} → List ℕ → Result (A × List ℕ) → Type 0
Settled bs (ok (a, rest)) = length rest ≤ length bs
Settled bs (err e) = e ≢ Error.out_of_fuel

pub record Settles {ℓ} {A : Type ℓ} (n : ℕ) (m : Read A) : Type ℓ where
  pub at : (bs : List ℕ) → length bs < n → Settled bs (m bs)

module _ {ℓ} {A : Type ℓ} {n : ℕ} where
  pub Settles-pure : (a : A) → Settles n (pure a)
  unfolding pure
  Settles-pure a = record { at = λ bs h. omega arith }

  pub Settles-fail : {e : Error} → e ≢ Error.out_of_fuel → Settles n (fail {A = A} e)
  unfolding fail
  Settles-fail h = record { at = λ bs _. h }

  pub Settles-if :
      (b : Bool) {m m' : Read A} → Settles n m → Settles n m' → Settles n (if b then m else m')
  Settles-if true h h' = h
  Settles-if false h h' = h'

  -- Either branch, with what its test has found.
  pub Settles-cases :
      (b : Bool) {m m' : Read A}
      → (b ≡ true → Settles n m)
      → (b ≡ false → Settles n m')
      → Settles n (if b then m else m')
  Settles-cases true h h' = h refl
  Settles-cases false h h' = h' refl

module _ {ℓ} {A : Type ℓ} where
  Settled-weaken :
      (bs cs : List ℕ) (r : Result (A × List ℕ))
      → length cs ≤ length bs
      → Settled cs r
      → Settled bs r
  Settled-weaken bs cs (ok (a, rest)) h s = omega arith
  Settled-weaken bs cs (err e) h s = s

module _ {ℓ κ} {A : Type ℓ} {B : Type κ} where
  -- What is left after a step is fewer than `n` bytes.
  Settled-then :
      {n : ℕ} (k : A → Read B) (bs : List ℕ) (r : Result (A × List ℕ))
      → length bs < n
      → Settled bs r
      → ((a : A) → Settles n (k a))
      → Settled bs (and_then r k)
  Settled-then k bs (ok (a, rest)) h s hk =
      Settled-weaken bs rest (k a rest) s ((hk a).at rest (omega arith))
  Settled-then k bs (err e) h s hk = s

  pub Settles-bind :
      {n : ℕ} {m : Read A} {k : A → Read B}
      → Settles n m
      → ((a : A) → Settles n (k a))
      → Settles n (m >>= k)
  unfolding ◌>>=◌
  Settles-bind {n} {m} {k} hm hk = record {
    at = λ bs h. Settled-then k bs (m bs) h (hm.at bs h) hk;
  }

pub Settles-bytes : {n : ℕ} (k : ℕ) → Settles n (Reader.bytes k)
unfolding Reader.bytes
Settles-bytes k = record {
  at = λ bs h. elim (Bool-cases (leb k (length bs))) [
    | inl enough ↦ rw (enough, Settled) (omega (arith, length-drop k bs))
    | inr few ↦ rw (few, Settled) (λ e. cc)
  ];
}

pub Settles-u8 : {n : ℕ} → Settles n Reader.u8
unfolding Reader.u8
Settles-u8 = Settles-bind (Settles-bytes 1) (λ b. Settles-pure (Reader.from_le_bytes b))

u8-cons : (b : ℕ) (bs : List ℕ) → Reader.u8 (b ∷ bs) ≡ ok (b, bs)
unfolding Reader.u8 Reader.bytes Reader.from_le_bytes ◌>>=◌ pure
u8-cons b bs = ground arith

u8-nil : Reader.u8 [] ≡ err Error.truncated
unfolding Reader.u8 Reader.bytes ◌>>=◌
u8-nil = refl

-- A byte that is read leaves one less: this is how a recursion pays for its fuel.
pub Settles-after-u8 {ℓ} :
    {A : Type ℓ} {n : ℕ} {k : ℕ → Read A}
    → ((b : ℕ) → Settles n (k b))
    → Settles (suc n) (Reader.u8 >>= k)
unfolding ◌>>=◌
Settles-after-u8 {n} {k} h = record { at = at }
  where
    at : (bs : List ℕ) → length bs < suc n → Settled bs ((Reader.u8 >>= k) bs)
    at [] s = rw u8-nil (λ e. cc)
    at (b ∷ bs) s =
        rw u8-cons (Settled-weaken (b ∷ bs) bs (k b bs) (omega arith) ((h b).at bs (omega arith)))

pub Settles-repeat {ℓ} :
    {A : Type ℓ} {n : ℕ} {m : Read A} (k : ℕ) → Settles n m → Settles n (Reader.repeat k m)
unfolding Reader.repeat
Settles-repeat zero h = Settles-pure []
Settles-repeat (suc k) h =
    Settles-bind h (λ a. Settles-bind (Settles-repeat k h) (λ rest. Settles-pure (a ∷ rest)))

-- The guard on `shift` ends the loop before the tenth round is over.
pub Settles-var_loop :
    {n : ℕ} (fuel shift value : ℕ)
    → 63 < shift + 7 * fuel
    → shift ≤ 63
    → Settles n (Reader.var_loop fuel shift value)
unfolding Reader.var_loop
Settles-var_loop zero shift value h s = absurd (omega arith)
Settles-var_loop (suc fuel) shift value h s = Settles-bind Settles-u8 λ byte.
    Settles-if (bit_and byte 0x80 == 0) (Settles-pure _) (
      Settles-cases (ltb 63 (shift + 7)) (λ _. Settles-fail (λ e. cc))
        (λ e. Settles-var_loop fuel (shift + 7) _ (omega arith) (ground arith)))

pub Settles-var_u64 : {n : ℕ} → Settles n Reader.var_u64
unfolding Reader.var_u64
Settles-var_u64 = Settles-var_loop 10 0 0 (omega arith) (omega arith)

pub Settles-var_u32 : {n : ℕ} → Settles n Reader.var_u32
unfolding Reader.var_u32
Settles-var_u32 = search (Settles-bind, Settles-var_u64, Settles-pure)

pub Settles-var_i64 : {n : ℕ} → Settles n Reader.var_i64
unfolding Reader.var_i64
Settles-var_i64 = search (Settles-bind, Settles-var_u64, Settles-pure)

Settles-from_utf8 : {n : ℕ} (b : List ℕ) → Settles n (Reader.from_utf8 b)
unfolding Reader.from_utf8
Settles-from_utf8 b = Settles-if (is_utf8 b) (Settles-pure b) (Settles-fail (λ e. cc))

pub Settles-u16 : {n : ℕ} → Settles n Reader.u16
unfolding Reader.u16
Settles-u16 = search (Settles-bind, Settles-bytes, Settles-pure)

pub Settles-u32 : {n : ℕ} → Settles n Reader.u32
unfolding Reader.u32
Settles-u32 = search (Settles-bind, Settles-bytes, Settles-pure)

pub Settles-u64 : {n : ℕ} → Settles n Reader.u64
unfolding Reader.u64
Settles-u64 = search (Settles-bind, Settles-bytes, Settles-pure)

pub Settles-f64 : {n : ℕ} → Settles n Reader.f64
unfolding Reader.f64
Settles-f64 = Settles-u64

pub Settles-var_str : {n : ℕ} → Settles n Reader.var_str
unfolding Reader.var_str
Settles-var_str = search (Settles-bind, Settles-var_u32, Settles-bytes, Settles-from_utf8)

pub Settles-str : {n : ℕ} → Settles n Reader.str
unfolding Reader.str
Settles-str = search (Settles-bind, Settles-u32, Settles-bytes, Settles-from_utf8)
