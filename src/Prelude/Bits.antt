-- ===== src/Prelude/Bits.antt =====
-- `|`, `^` and `&` on words as arithmetic. The native operations stand for a recursion on binary
-- digits with fuel; here the fuel is dropped, and the masks that the program uses are worked out.
use Prim.Native.Nat.{
  ℕ, zero, suc, ◌+◌, ◌-◌, ◌*◌, ◌/◌, ◌%◌, ◌^◌, ◌≤◌, ◌<◌, min, max, differ, bit_and, bit_or, bit_xor,
  digits, bitwise, bit_and-bitwise, bit_or-bitwise, bit_xor-bitwise,
}
use mathlib.Core.Path.{◌≡◌, refl, sym, ap, ◌∙◌}
use mathlib.Core.Bool.{Bool, true, ◌&&◌}
use native.Mathlib.Nat.{le_refl, pow-suc, one-le-pow, div-div-eq-div-mul}
use native.Mathlib.Omega.{arith}
use raytask.Prelude.Tests.{◌==◌, ==_iff}

module _ (other : ℕ → ℕ) (one : ℕ → ℕ → ℕ) where
  -- Fuel that covers the first argument gives the value of the operation.
  digits-bitwise :
      (top fuel x y : ℕ) → fuel ≤ top → x ≤ fuel → digits other one fuel x y ≡ bitwise other one x y
  digits-bitwise top zero x y small covers =
      let none_left : x ≡ 0 = omega arith in rw none_left refl
  digits-bitwise top (suc fuel) zero y small covers = refl
  digits-bitwise zero (suc fuel) (suc x) y small covers = absurd (omega arith)
  digits-bitwise (suc top) (suc fuel) (suc x) y small covers =
      let half = suc x / 2 in
      rw
        (
          digits-bitwise top fuel half (y / 2) (omega arith) (omega arith),
          digits-bitwise top x half (y / 2) (omega arith) (omega arith),
        )
        refl

  lowest :
      (x y : ℕ)
      → bitwise other one (suc x) y
        ≡ one (suc x % 2) (y % 2) + 2 * bitwise other one (suc x / 2) (y / 2)
  lowest x y = omega (arith, digits-bitwise x x (suc x / 2) (y / 2) (le_refl x) (omega arith))

bit_or_lowest : (x y : ℕ) → bit_or x y ≡ max (x % 2) (y % 2) + 2 * bit_or (x / 2) (y / 2)
bit_or_lowest zero y = simp bit_or-bitwise (omega arith)
bit_or_lowest (suc x) y = simp bit_or-bitwise (lowest (λ w. w) max x y)

bit_and_lowest : (x y : ℕ) → bit_and x y ≡ min (x % 2) (y % 2) + 2 * bit_and (x / 2) (y / 2)
bit_and_lowest zero y = simp bit_and-bitwise (omega arith)
bit_and_lowest (suc x) y = simp bit_and-bitwise (lowest (λ w. 0) min x y)

bit_xor_lowest : (x y : ℕ) → bit_xor x y ≡ differ (x % 2) (y % 2) + 2 * bit_xor (x / 2) (y / 2)
bit_xor_lowest zero y = simp bit_xor-bitwise (omega arith)
bit_xor_lowest (suc x) y = simp bit_xor-bitwise (lowest (λ w. w) differ x y)

-- `x | (g << s)` is a sum when `x` fits the low `s` bits.
pub bit_or_shifted : (s x g : ℕ) → x < 2 ^ s → bit_or x (g * 2 ^ s) ≡ x + g * 2 ^ s
bit_or_shifted zero zero g fits = omega (arith, bit_or-bitwise 0 (g * 1))
bit_or_shifted zero (suc x) g fits = absurd (omega arith)
bit_or_shifted (suc s) x g fits = ground (
  arith,
  bit_or_lowest x (g * 2 ^ suc s),
  ap (λ (t : ℕ). g * t) (pow-suc 2 s),
  pow-suc 2 s,
  bit_or_shifted s (x / 2) g (omega arith),
)

differ-zero : (d : ℕ) → differ d 0 ≡ d
differ-zero zero = refl
differ-zero (suc d) = refl

-- `x ^ 0`, and `x ^ m` for a mask of ones: the complement.
bit_xor-zero_below : (n x : ℕ) → x ≤ n → bit_xor x 0 ≡ x
bit_xor-zero_below n zero h = bit_xor-bitwise 0 0
bit_xor-zero_below zero (suc x) h = absurd (omega arith)
bit_xor-zero_below (suc n) (suc x) h = ground (
  arith,
  bit_xor_lowest (suc x) 0,
  differ-zero (suc x % 2),
  bit_xor-zero_below n (suc x / 2) (omega arith),
)

pub bit_xor-zero : (x : ℕ) → bit_xor x 0 ≡ x
bit_xor-zero x = bit_xor-zero_below x x (le_refl x)

differ_one : (d : ℕ) → d < 2 → differ d 1 ≡ 1 - d
differ_one zero h = refl
differ_one (suc zero) h = refl
differ_one (suc (suc d)) h = absurd (omega arith)

pub bit_xor_ones : (k x : ℕ) → x < 2 ^ k → bit_xor x (2 ^ k - 1) ≡ 2 ^ k - 1 - x
bit_xor_ones zero zero h = bit_xor-bitwise 0 0
bit_xor_ones zero (suc x) h = absurd (omega arith)
bit_xor_ones (suc k) x h = ground (
  arith,
  bit_xor_lowest x (2 ^ suc k - 1),
  differ_one (x % 2) (omega arith),
  pow-suc 2 k,
  one-le-pow k 2 (omega arith),
  bit_xor_ones k (x / 2) (omega (arith, pow-suc 2 k)),
)

bit_and-zero_below : (n x : ℕ) → x ≤ n → bit_and x 0 ≡ 0
bit_and-zero_below n zero h = bit_and-bitwise 0 0
bit_and-zero_below zero (suc x) h = absurd (omega arith)
bit_and-zero_below (suc n) (suc x) h =
    ground (arith, bit_and_lowest (suc x) 0, bit_and-zero_below n (suc x / 2) (omega arith))

-- `x & 1`
pub bit_and_one : (x : ℕ) → bit_and x 1 ≡ x % 2
bit_and_one x = ground (arith, bit_and_lowest x 1, bit_and-zero_below (x / 2) (x / 2) (le_refl _))

-- A law of one byte, from a table of its values.
unfoldable pub holds_below : ℕ → (ℕ → Bool) → Bool
holds_below zero p = true
holds_below (suc n) p = p n && holds_below n p

pub holds_below-elim : (n : ℕ) (p : ℕ → Bool) (x : ℕ) → holds_below n p ≡ true → x < n → p x ≡ true
unfolding holds_below
holds_below-elim zero p x h lt = absurd (omega arith)
holds_below-elim (suc n) p x h lt = ground (arith, holds_below-elim n p x)

low_table : holds_below 256 (λ b. bit_and b 0x7f == b % 128) ≡ true
unfolding holds_below
low_table = refl

top_table : holds_below 256 (λ b. bit_and b 0x80 == b / 128 * 128) ≡ true
unfolding holds_below
top_table = refl

set_table : holds_below 256 (λ b. bit_or b 0x80 == b % 128 + 128) ≡ true
unfolding holds_below
set_table = refl

pub bit_and_0x7f : (b : ℕ) → b < 256 → bit_and b 0x7f ≡ b % 128
bit_and_0x7f b h = (==_iff _ _).0 (holds_below-elim 256 _ b low_table h)

pub bit_and_0x80 : (b : ℕ) → b < 256 → bit_and b 0x80 ≡ b / 128 * 128
bit_and_0x80 b h = (==_iff _ _).0 (holds_below-elim 256 _ b top_table h)

pub bit_or_0x80 : (b : ℕ) → b < 256 → bit_or b 0x80 ≡ b % 128 + 128
bit_or_0x80 b h = (==_iff _ _).0 (holds_below-elim 256 _ b set_table h)

bit_or_comm_below : (n x y : ℕ) → x ≤ n → y ≤ n → bit_or x y ≡ bit_or y x
bit_or_comm_below zero x y h k =
    let left : x ≡ 0 = omega arith in let right : y ≡ 0 = omega arith in rw (left, right) refl
bit_or_comm_below (suc n) x y h k = ground (
  arith,
  bit_or_lowest x y,
  bit_or_lowest y x,
  bit_or_comm_below n (x / 2) (y / 2) (omega arith) (omega arith),
)

-- A word from its high part and its low byte.
pub bit_or_bytes : (hi lo : ℕ) → lo < 256 → bit_or (hi * 2 ^ 8) lo ≡ hi * 256 + lo
bit_or_bytes hi lo h =
    bit_or_comm_below (hi * 2 ^ 8 + lo) (hi * 2 ^ 8) lo (omega arith) (omega arith)
    ∙ bit_or_shifted 8 lo hi h
    ∙ omega arith

min_one : (d : ℕ) → d < 2 → min d 1 ≡ d
min_one zero h = refl
min_one (suc zero) h = refl
min_one (suc (suc d)) h = absurd (omega arith)

bit_and_ones : (m x : ℕ) → x < 2 ^ m → bit_and x (2 ^ m - 1) ≡ x
bit_and_ones zero zero h = bit_and-bitwise 0 0
bit_and_ones zero (suc x) h = absurd (omega arith)
bit_and_ones (suc m) x h = ground (
  arith,
  bit_and_lowest x (2 ^ suc m - 1),
  min_one (x % 2) (omega arith),
  pow-suc 2 m,
  one-le-pow m 2 (omega arith),
  bit_and_ones m (x / 2) (omega (arith, pow-suc 2 m)),
)

-- A mask of ones above the low `k` bits clears these.
pub bit_and_high :
    (k m x : ℕ) → x < 2 ^ m * 2 ^ k → bit_and x ((2 ^ m - 1) * 2 ^ k) ≡ x / 2 ^ k * 2 ^ k
bit_and_high zero m x h =
    ap (bit_and x) (omega arith) ∙ bit_and_ones m x (omega arith) ∙ omega arith
bit_and_high (suc k) m x h =
    let mask = (2 ^ m - 1) * 2 ^ k in
    let double : (w : ℕ) → w * 2 ^ suc k ≡ 2 * (w * 2 ^ k) =
      λ w. ap (λ p. w * p) (pow-suc 2 k) ∙ grind arith in
    let div : x / 2 ^ suc k ≡ x / 2 / 2 ^ k =
      ap (λ w. x / w) (pow-suc 2 k ∙ omega arith) ∙ sym (div-div-eq-div-mul x 2 (2 ^ k)) in
    let even : 2 * mask % 2 ≡ 0 = omega arith in
    let half : 2 * mask / 2 ≡ mask = omega arith in
    let rest = bit_and_high k m (x / 2) (omega (arith, double (2 ^ m))) in
    rw (double (2 ^ m - 1), div, bit_and_lowest x (2 * mask), even, half, rest)
      (omega (arith, double (x / 2 / 2 ^ k)))
