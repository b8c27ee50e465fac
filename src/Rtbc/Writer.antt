-- ===== src/Rtbc/Writer.antt =====
-- `Writer` of src/bytecode_format.rs. The source's writer only ever appends, so an operation here is the
-- bytes that it appends, and `a; b` in the source is `a; b` in a `do` block.
use raytask.Prelude.{
  ℕ, zero, suc, ◌-◌, ◌*◌, ◌/◌, ◌%◌, ◌^◌, Bool, Option, none, some, List, [], ◌∷◌, ◌++◌, bit_or,
  bit_xor, leb, if◌then◌else◌, length,
}
use raytask.Prelude.Text.{Str}

abbrev pub Writer : Type 0
Writer = List ℕ

infixr 5 ◌>>◌
unfoldable pub ◌>>◌ : Writer → Writer → Writer
a >> b = a ++ b

-- A `for` loop over a slice.
unfoldable pub for_each {ℓ} : {A : Type ℓ} → List A → (A → Writer) → Writer
for_each [] body = []
for_each (x ∷ xs) body = do body x; for_each xs body

unfoldable pub raw : List ℕ → Writer
raw b = b

unfoldable pub u8 : ℕ → Writer
u8 v = v ∷ []

-- `to_le_bytes` of a word of `n` bytes
unfoldable pub le_bytes : ℕ → ℕ → List ℕ
le_bytes zero v = []
le_bytes (suc n) v = v % 256 ∷ le_bytes n (v / 256)

unfoldable pub u16 : ℕ → Writer
u16 v = raw (le_bytes 2 v)

unfoldable pub f64 : ℕ → Writer
f64 v = raw (le_bytes 8 v)

-- `while v >= 0x80 { … v >>= 7 }` and the last byte. The first argument is fuel; `v` itself is enough,
-- since `v / 128 < v` while the loop goes on.
unfoldable pub var_loop : ℕ → ℕ → Writer
var_loop zero v = u8 (v % 256)
var_loop (suc fuel) v =
    let more = u8 (bit_or (v % 256) 0x80) >> var_loop fuel (v / 128) in
    if leb 0x80 v then more else u8 (v % 256)

unfoldable pub var_u64 : ℕ → Writer
var_u64 v = var_loop v v

-- The argument is cast by `as u32` at every call.
unfoldable pub var_u32 : ℕ → Writer
var_u32 v = let w = v % 2 ^ 32 in var_loop w w

-- `v >> 63` on an `i64`: all ones if it is negative.
unfoldable pub sign_mask : ℕ → ℕ
sign_mask v = if leb (2 ^ 63) v then 2 ^ 64 - 1 else 0

-- `((v << 1) ^ (v >> 63)) as u64`
unfoldable pub zigzag : ℕ → ℕ
zigzag v = bit_xor (v * 2 % 2 ^ 64) (sign_mask v)

unfoldable pub var_i64 : ℕ → Writer
var_i64 v = var_u64 (zigzag v)

unfoldable pub var_str : Str → Writer
var_str s = do var_u32 (length s); raw s

-- `if b { 1 } else { 0 }`
unfoldable pub flag : Bool → Writer
flag b = u8 (if b then 1 else 0)

-- Each loop of the form `w.var_u32(v.len()); for x in v { … }`.
unfoldable pub counted {ℓ} : {A : Type ℓ} → List A → (A → Writer) → Writer
counted xs body = do var_u32 (length xs); for_each xs body

-- `Some(i) => { w.u8(1); … }`, `None => w.u8(0)`
unfoldable pub optional {ℓ} : {A : Type ℓ} → Option A → (A → Writer) → Writer
optional none body = u8 0
optional (some a) body = do u8 1; body a
