-- ===== src/Layout/Align.antt =====
-- `align_up` of src/abi.rs rounds up to a multiple of a power of two.
use Prim.Native.Nat.{max}
use native.Mathlib.Nat.{one-le-pow, div-mul-le_self, mul-mod_left, lt-div-mul-add}
use raytask.Prelude.{
  ℕ, zero, suc, ◌+◌, ◌-◌, ◌*◌, ◌/◌, ◌%◌, ◌^◌, ◌≤◌, ◌<◌, ◌≡◌, false, ◌==◌, arith, leb, Bool-cases,
  inl, inr,
}
use raytask.Prelude.Bits.{bit_and_high}
use raytask.Layout.Place.{align_up}

-- A power of two among the 64-bit words.
pub record PowerOfTwo (n : ℕ) : Type 0 where
  pub exponent : ℕ
  pub others : ℕ
  pub is_power : n ≡ 2 ^ exponent
  pub fits : 2 ^ others * 2 ^ exponent ≡ 2 ^ 64

minus_one_times : (a p : ℕ) → 1 ≤ a → (a - 1) * p ≡ a * p - p
minus_one_times zero p h = absurd (omega arith)
minus_one_times (suc a) p h = let back : suc a - 1 ≡ a = omega arith in rw back (grind arith)

align_up-multiple :
    (off k m : ℕ)
    → 2 ^ m * 2 ^ k ≡ 2 ^ 64
    → off + 2 ^ k ≤ 2 ^ 64
    → align_up off (2 ^ k) ≡ (off + 2 ^ k - 1) / 2 ^ k * 2 ^ k
unfolding align_up
align_up-multiple off k m whole room =
    let p = 2 ^ k in
    let positive : 1 ≤ p = one-le-pow k 2 (omega arith) in
    let nonzero : (p == 0) ≡ false = ground arith in
    let wraps : (off + p + (2 ^ 64 - 1)) % 2 ^ 64 ≡ off + p - 1 = omega arith in
    let mask : 2 ^ 64 - p ≡ (2 ^ m - 1) * p =
      omega (arith, minus_one_times (2 ^ m) p (one-le-pow m 2 (omega arith))) in
    rw (nonzero, wraps, mask) (bit_and_high k m (off + p - 1) (omega arith))

-- The least multiple of the alignment that is no less than the offset.
pub record RoundedUp (off al up : ℕ) : Type 0 where
  pub positive : 1 ≤ al
  pub no_less : off ≤ up
  pub least : up < off + al
  pub multiple : up % al ≡ 0

rounded : (off p : ℕ) → 1 ≤ p → RoundedUp off p ((off + p - 1) / p * p)
rounded off p h = record {
  positive = h;
  no_less = omega (arith, lt-div-mul-add {a = off + p - 1} {b = p} (omega arith));
  least = omega (arith, div-mul-le_self (off + p - 1) p);
  multiple = mul-mod_left ((off + p - 1) / p) p;
}

-- An offset with room for one more alignment is rounded up to the next multiple of a power of two.
pub align_up-RoundedUp :
    (off al : ℕ) → PowerOfTwo al → off + al ≤ 2 ^ 64 → RoundedUp off al (align_up off al)
align_up-RoundedUp off al p room =
    let same = align_up-multiple off (p.exponent) (p.others) (p.fits) (omega arith) in
    rw (p.is_power, same) (rounded off (2 ^ p.exponent) (one-le-pow (p.exponent) 2 (omega arith)))

pub max-PowerOfTwo : (a b : ℕ) → PowerOfTwo a → PowerOfTwo b → PowerOfTwo (max a b)
max-PowerOfTwo a b p q = elim (Bool-cases (leb a b)) [
  | inl e ↦ let top : max a b ≡ b = ground arith in rw top q
  | inr e ↦ let top : max a b ≡ a = ground arith in rw top p
]
