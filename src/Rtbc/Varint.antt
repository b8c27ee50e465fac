-- ===== src/Rtbc/Varint.antt =====
-- The variable-length integers of src/bytecode_format.rs, byte by byte: what one round of
-- `Writer::var_u64` writes and what one round of `Reader::var_u64` makes of it.
use native.Mathlib.Numerals.{towards_suc}
use native.Mathlib.Nat.{div-add-mod, pow-suc}
use native.Mathlib.Decide.{dec_lt}
use raytask.Prelude.{
  ℕ, zero, suc, ◌+◌, ◌-◌, ◌*◌, ◌/◌, ◌%◌, ◌^◌, ◌≤◌, ◌<◌, ◌≡◌, ap, ◌∙◌, List, [], ◌∷◌, ◌++◌, arith,
}
use raytask.Prelude.Bits.{
  bit_or_shifted, bit_and_0x7f, bit_and_0x80, bit_or_0x80, bit_xor-zero, bit_xor_ones, bit_and_one,
}
use raytask.Rtbc.Writer
use raytask.Rtbc.Reader
use raytask.Rtbc.Reader.{ok}

write_last : (fuel v : ℕ) → v ≤ fuel → v < 128 → Writer.var_loop fuel v ≡ v ∷ []
unfolding Writer.var_loop Writer.u8 Writer.◌>>◌
write_last zero v h s = ground arith
write_last (suc fuel) v h s = ground arith

write_more :
    (fuel v : ℕ)
    → 128 ≤ v
    → Writer.var_loop (suc fuel) v ≡ (v % 128 + 128) ∷ Writer.var_loop fuel (v / 128)
unfolding Writer.var_loop Writer.u8 Writer.◌>>◌
write_more fuel v h = ground (arith, bit_or_0x80 (v % 256) (omega arith))

read_last :
    (k s x b : ℕ) (rest : List ℕ)
    → b < 128
    → x < 2 ^ s
    → b * 2 ^ s < 2 ^ 64
    → Reader.var_loop (suc k) s x (b ∷ rest) ≡ ok (x + b * 2 ^ s, rest)
unfolding Reader.var_loop Reader.u8 Reader.bytes Reader.from_le_bytes Reader.◌>>=◌ Reader.pure
read_last k s x b rest hb hx fits =
    ground
      (arith, bit_and_0x7f b (omega arith), bit_and_0x80 b (omega arith), bit_or_shifted s x b hx)

read_more :
    (k s x g : ℕ) (rest : List ℕ)
    → g < 128
    → x < 2 ^ s
    → g * 2 ^ s < 2 ^ 64
    → s + 7 ≤ 63
    → Reader.var_loop (suc k) s x ((g + 128) ∷ rest)
      ≡ Reader.var_loop k (s + 7) (x + g * 2 ^ s) rest
unfolding Reader.var_loop Reader.u8 Reader.bytes Reader.from_le_bytes Reader.◌>>=◌ Reader.pure
read_more k s x g rest hg hx fits hs = ground (
  arith,
  bit_and_0x7f (g + 128) (omega arith),
  bit_and_0x80 (g + 128) (omega arith),
  bit_or_shifted s x g hx,
)

seven_more : (s : ℕ) → 2 ^ (s + 7) ≡ 128 * 2 ^ s
seven_more s = simp towards_suc (omega arith)

-- `v << s` is its lowest group of seven bits and the rest.
lowest_group : (v s : ℕ) → v * 2 ^ s ≡ v % 128 * 2 ^ s + v / 128 * 2 ^ (s + 7)
lowest_group v s = omega (
  arith,
  ap (λ (t : ℕ). t * 2 ^ s) (div-add-mod v 128),
  ap (λ (t : ℕ). v / 128 * t) (seven_more s),
)

group_fits : (v s x : ℕ) → x < 2 ^ s → x + v % 128 * 2 ^ s < 2 ^ (s + 7)
group_fits v s x h = rw (seven_more s) (omega (arith, scaled))
  where
    scaled : v % 128 * 2 ^ s ≤ 127 * 2 ^ s
    scaled = grind arith

rest_fits : (k v : ℕ) → v < 128 ^ suc (suc k) → v / 128 < 128 ^ suc k
rest_fits k v h = omega (arith, pow-suc 128 (suc k))

-- The reader's loop undoes the writer's, whatever follows: `x` is what has been read, below bit `s`,
-- and `v` is what the writer has still to write.
pub loop-loop :
    (k fuel v s x : ℕ) (rest : List ℕ)
    → v ≤ fuel
    → v < 128 ^ suc k
    → x < 2 ^ s
    → x + v * 2 ^ s < 2 ^ 64
    → s + 7 * k ≤ 63
    → Reader.var_loop (suc k) s x (Writer.var_loop fuel v ++ rest) ≡ ok (x + v * 2 ^ s, rest)
loop-loop zero fuel v s x rest hf hv hx fits hs =
    rw (write_last fuel v hf (omega arith)) (read_last 0 s x v rest (omega arith) hx (omega arith))
loop-loop (suc k) zero v s x rest hf hv hx fits hs =
    rw (write_last 0 v hf (omega arith))
      (read_last (suc k) s x v rest (omega arith) hx (omega arith))
loop-loop (suc k) (suc fuel) v s x rest hf hv hx fits hs = elim (dec_lt v 128) [
  | yes small ↦
      rw (write_last (suc fuel) v hf small) (read_last (suc k) s x v rest small hx (omega arith))
  | no large ↦ rw (write_more fuel v (omega arith)) (
      read_more (suc k) s x (v % 128) _ (omega arith) hx (omega (arith, lowest_group v s))
        (omega arith)
      ∙ loop-loop k fuel (v / 128) (s + 7) (x + v % 128 * 2 ^ s) rest (omega arith)
          (rest_fits k v hv) (group_fits v s x hx) (omega (arith, lowest_group v s)) (omega arith)
      ∙ ap (λ t. ok (t, rest)) (omega (arith, lowest_group v s)))
]

zigzag_plus : (v : ℕ) → v < 2 ^ 63 → Writer.zigzag v ≡ 2 * v
unfolding Writer.zigzag Writer.sign_mask
zigzag_plus v h = ground (arith, bit_xor-zero (v * 2 % 2 ^ 64))

zigzag_minus : (v : ℕ) → 2 ^ 63 ≤ v → v < 2 ^ 64 → Writer.zigzag v ≡ 2 * (2 ^ 64 - 1 - v) + 1
unfolding Writer.zigzag Writer.sign_mask
zigzag_minus v h fits = ground (arith, bit_xor_ones 64 (v * 2 % 2 ^ 64) (omega arith))

unzigzag_even : (m : ℕ) → Reader.unzigzag (2 * m) ≡ m
unfolding Reader.unzigzag
unzigzag_even m = ground (arith, bit_and_one (2 * m), bit_xor-zero (2 * m / 2))

unzigzag_odd : (m : ℕ) → m < 2 ^ 64 → Reader.unzigzag (2 * m + 1) ≡ 2 ^ 64 - 1 - m
unfolding Reader.unzigzag
unzigzag_odd m h = ground (arith, bit_and_one (2 * m + 1), bit_xor_ones 64 m h)

-- `unzigzag` undoes `zigzag` on every 64-bit pattern.
pub unzigzag-zigzag : (v : ℕ) → v < 2 ^ 64 → Reader.unzigzag (Writer.zigzag v) ≡ v
unzigzag-zigzag v h = elim (dec_lt v (2 ^ 63)) [
  | yes plus ↦ rw (zigzag_plus v plus) (unzigzag_even v)
  | no minus ↦
      rw (zigzag_minus v (omega arith) h)
        (unzigzag_odd (2 ^ 64 - 1 - v) (omega arith) ∙ omega arith)
]

-- A zigzag number is a word again.
pub zigzag_bound : (v : ℕ) → v < 2 ^ 64 → Writer.zigzag v < 2 ^ 64
zigzag_bound v h = elim (dec_lt v (2 ^ 63)) [
  | yes plus ↦ omega (arith, zigzag_plus v plus)
  | no minus ↦ omega (arith, zigzag_minus v (omega arith) h)
]
