-- ===== src/Prelude/Ints.antt =====
-- The signed integers of the program, over the native ℕ: `/` and `%` of Rust round towards zero.
use raytask.Prelude.{
  ℕ, zero, suc, ◌+◌, ◌-◌, ◌*◌, ◌/◌, ◌%◌, ◌^◌, ◌<◌, ◌≡◌, Bool, true, false, leb, ltb, if◌then◌else◌,
  arith,
}

pub data ℤ : Type 0 where
  pos negsuc : ℕ → ℤ

-- `- n`
abbrev pub neg : ℕ → ℤ
neg zero = ℤ.pos zero
neg (suc n) = ℤ.negsuc n

-- `m - n`
abbrev pub minus : ℕ → ℕ → ℤ
minus m n = if leb n m then ℤ.pos (m - n) else neg (n - m)

infixl 60 ◌+ℤ◌
abbrev pub ◌+ℤ◌ : ℤ → ℤ → ℤ
ℤ.pos m +ℤ ℤ.pos n = ℤ.pos (m + n)
ℤ.pos m +ℤ ℤ.negsuc n = minus m (suc n)
ℤ.negsuc m +ℤ ℤ.pos n = minus n (suc m)
ℤ.negsuc m +ℤ ℤ.negsuc n = ℤ.negsuc (suc (m + n))

abbrev pub negate : ℤ → ℤ
negate (ℤ.pos n) = neg n
negate (ℤ.negsuc n) = ℤ.pos (suc n)

infixl 60 ◌-ℤ◌
abbrev pub ◌-ℤ◌ : ℤ → ℤ → ℤ
a -ℤ b = a +ℤ negate b

-- The product with a positive number.
abbrev pub times : ℤ → ℕ → ℤ
times (ℤ.pos m) n = ℤ.pos (m * n)
times (ℤ.negsuc m) n = neg (suc m * n)

abbrev pub quot : ℤ → ℕ → ℤ
quot (ℤ.pos m) n = ℤ.pos (m / n)
quot (ℤ.negsuc m) n = neg (suc m / n)

abbrev pub rem : ℤ → ℕ → ℤ
rem (ℤ.pos m) n = ℤ.pos (m % n)
rem (ℤ.negsuc m) n = neg (suc m % n)

-- `a < n`
abbrev pub below : ℤ → ℕ → Bool
below (ℤ.pos m) n = ltb m n
below (ℤ.negsuc m) n = true

abbrev pub pos_part : ℤ → ℕ
pos_part (ℤ.pos m) = m
pos_part (ℤ.negsuc m) = 0

abbrev pub magnitude : ℤ → ℕ
magnitude (ℤ.pos m) = m
magnitude (ℤ.negsuc m) = suc m

-- The value that is left in an `i64`.
abbrev signed : ℕ → ℤ
signed w = if ltb w (2 ^ 63) then ℤ.pos w else neg (2 ^ 64 - w)

abbrev pub as_i64 : ℤ → ℤ
as_i64 (ℤ.pos n) = signed (n % 2 ^ 64)
as_i64 (ℤ.negsuc n) = signed ((2 ^ 64 - suc n % 2 ^ 64) % 2 ^ 64)

pub as_i64-pos : (n : ℕ) → n < 2 ^ 63 → as_i64 (ℤ.pos n) ≡ ℤ.pos n
as_i64-pos n h = ground arith

abbrev pub ltb_ℤ : ℤ → ℤ → Bool
ltb_ℤ (ℤ.pos m) (ℤ.pos n) = ltb m n
ltb_ℤ (ℤ.pos m) (ℤ.negsuc n) = false
ltb_ℤ (ℤ.negsuc m) (ℤ.pos n) = true
ltb_ℤ (ℤ.negsuc m) (ℤ.negsuc n) = ltb n m
