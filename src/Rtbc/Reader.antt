-- ===== src/Rtbc/Reader.antt =====
-- `Reader` of src/bytecode_format.rs. Its state is the rest of the input, `data[pos..]`.
use raytask.Prelude.{
  ℕ, zero, suc, ◌+◌, ◌-◌, ◌*◌, ◌/◌, ◌%◌, ◌^◌, List, [], ◌∷◌, bit_and, bit_or, bit_xor, leb, ltb,
  ◌==◌, if◌then◌else◌, length, take, drop,
}
use raytask.Prelude.Text.{Str, is_utf8}

-- The messages of `CompileError::Io`. `out_of_fuel` is no error of the source: a recursion of the model
-- ran out of rounds.
pub data Error : Type 0 where
  truncated corrupt_varint corrupt_line_table invalid_magic invalid_utf8 out_of_fuel : Error
  unsupported_version unknown_value_tag : ℕ → Error

pub data Result {ℓ} (A : Type ℓ) : Type ℓ where
  ok : A → Result A
  err : Error → Result A

abbrev pub Read {ℓ} : Type ℓ → Type ℓ
Read A = List ℕ → Result (A × List ℕ)

abbrev pub and_then {ℓ κ} :
    {A : Type ℓ} {B : Type κ} → Result (A × List ℕ) → (A → Read B) → Result (B × List ℕ)
and_then (ok (a, rest)) f = f a rest
and_then (err e) f = err e

infixl 5 ◌>>=◌
unfoldable pub ◌>>=◌ {ℓ κ} : {A : Type ℓ} {B : Type κ} → Read A → (A → Read B) → Read B
◌>>=◌ m f bs = and_then (m bs) f

unfoldable pub pure {ℓ} : {A : Type ℓ} → A → Read A
pure a bs = ok (a, bs)

unfoldable pub fail {ℓ} : {A : Type ℓ} → Error → Read A
fail e bs = err e

-- `need` and the slice of `bytes`
unfoldable pub bytes : ℕ → Read (List ℕ)
bytes n bs = if leb n (length bs) then ok (take n bs, drop n bs) else err truncated

-- `from_le_bytes`
unfoldable pub from_le_bytes : List ℕ → ℕ
from_le_bytes [] = 0
from_le_bytes (b ∷ bs) = b + 256 * from_le_bytes bs

unfoldable pub u8 : Read ℕ
u8 = do b ← bytes 1; pure (from_le_bytes b)

unfoldable pub u16 : Read ℕ
u16 = do b ← bytes 2; pure (from_le_bytes b)

unfoldable pub u32 : Read ℕ
u32 = do b ← bytes 4; pure (from_le_bytes b)

unfoldable pub u64 : Read ℕ
u64 = do b ← bytes 8; pure (from_le_bytes b)

-- `as i64` and `f64::from_le_bytes` keep the bits.
unfoldable pub i64 : Read ℕ
i64 = u64

unfoldable pub f64 : Read ℕ
f64 = u64

-- The loop of `var_u64` on its variables; ten rounds take `shift` from 0 past 63.
unfoldable pub var_loop : (fuel shift value : ℕ) → Read ℕ
var_loop zero shift value = fail Error.out_of_fuel
var_loop (suc fuel) shift value = do
  byte ← u8
  let value' = bit_or value (bit_and byte 0x7f * 2 ^ shift % 2 ^ 64)
  let more = var_loop fuel (shift + 7) value'
  if bit_and byte 0x80 == 0
      then pure value'
      else if ltb 63 (shift + 7)
      then fail Error.corrupt_varint
      else more

unfoldable pub var_u64 : Read ℕ
var_u64 = var_loop 10 0 0

unfoldable pub var_u32 : Read ℕ
var_u32 = do v ← var_u64; pure (v % 2 ^ 32)

-- `((n >> 1) as i64) ^ (-((n & 1) as i64))`
unfoldable pub unzigzag : ℕ → ℕ
unzigzag n = bit_xor (n / 2) ((2 ^ 64 - bit_and n 1) % 2 ^ 64)

unfoldable pub var_i64 : Read ℕ
var_i64 = do n ← var_u64; pure (unzigzag n)

unfoldable pub from_utf8 : List ℕ → Read Str
from_utf8 b = if is_utf8 b then pure b else fail Error.invalid_utf8

unfoldable pub str : Read Str
str = do len ← u32; b ← bytes len; from_utf8 b

unfoldable pub var_str : Read Str
var_str = do len ← var_u32; b ← bytes len; from_utf8 b

-- `for _ in 0..n { v.push(m?) }`
unfoldable pub repeat {ℓ} : {A : Type ℓ} → ℕ → Read A → Read (List A)
repeat zero m = pure []
repeat (suc n) m = do a ← m; rest ← repeat n m; pure (a ∷ rest)
