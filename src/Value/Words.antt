-- ===== src/Value/Words.antt =====
-- The arithmetic of `i64` that src/value.rs and src/ssa/passes/const_fold.rs use, on bit patterns, and its errors.
use raytask.Prelude.{ℕ, ◌+◌, ◌-◌, ◌*◌, ◌/◌, ◌%◌, ◌^◌, Bool, ◌&&◌, ◌==◌, if◌then◌else◌}
use raytask.Prelude.Ints.{ℤ, negate, quot, rem, ltb_ℤ, magnitude, as_i64}

pub data RuntimeError : Type 0 where
  type_error division_by_zero : RuntimeError

pub data Outcome {ℓ} (A : Type ℓ) : Type ℓ where
  ok : A → Outcome A
  error : RuntimeError → Outcome A
  panic : Outcome A

infixl 5 ◌>>=◌
abbrev pub ◌>>=◌ {ℓ κ} : {A : Type ℓ} {B : Type κ} → Outcome A → (A → Outcome B) → Outcome B
Outcome.ok a >>= f = f a
Outcome.error e >>= f = Outcome.error e
Outcome.panic >>= f = Outcome.panic

-- The pattern of an `i64`.
abbrev pub word : ℤ → ℕ
word (ℤ.pos n) = n % 2 ^ 64
word (ℤ.negsuc n) = (2 ^ 64 - (n + 1) % 2 ^ 64) % 2 ^ 64

abbrev pub int_of : ℕ → ℤ
int_of n = as_i64 (ℤ.pos n)

abbrev pub wrapping_add : ℕ → ℕ → ℕ
wrapping_add a b = (a + b) % 2 ^ 64

abbrev pub wrapping_sub : ℕ → ℕ → ℕ
wrapping_sub a b = (a + (2 ^ 64 - b)) % 2 ^ 64

abbrev pub wrapping_mul : ℕ → ℕ → ℕ
wrapping_mul a b = a * b % 2 ^ 64

abbrev quotient : ℤ → ℤ → ℤ
quotient x (ℤ.pos n) = quot x n
quotient x (ℤ.negsuc n) = negate (quot x (n + 1))

-- `i64::MIN / -1` and `i64::MIN % -1`
abbrev pub overflows : ℕ → ℕ → Bool
overflows a b = a == 2 ^ 63 && b == 2 ^ 64 - 1

abbrev pub int_div : ℕ → ℕ → Outcome ℕ
int_div a b =
    if overflows a b then Outcome.panic else Outcome.ok (word (quotient (int_of a) (int_of b)))

abbrev pub int_rem : ℕ → ℕ → Outcome ℕ
int_rem a b =
    if overflows a b
    then Outcome.panic
    else Outcome.ok (word (rem (int_of a) (magnitude (int_of b))))

-- The shifts take the low six bits of the number.
abbrev pub int_shl : ℕ → ℕ → ℕ
int_shl a b = a * 2 ^ (b % 64) % 2 ^ 64

abbrev pub shifted : ℤ → ℕ → ℤ
shifted (ℤ.pos n) s = ℤ.pos (n / 2 ^ s)
shifted (ℤ.negsuc n) s = ℤ.negsuc (n / 2 ^ s)

abbrev pub int_shr : ℕ → ℕ → ℕ
int_shr a b = word (shifted (int_of a) (b % 64))

abbrev pub int_less : ℕ → ℕ → Bool
int_less a b = ltb_ℤ (int_of a) (int_of b)

abbrev pub wrapping_neg : ℕ → ℕ
wrapping_neg n = (2 ^ 64 - n) % 2 ^ 64
