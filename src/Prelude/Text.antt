-- ===== src/Prelude/Text.antt =====
-- Rust's `String` as its UTF-8 bytes, and the check that `String::from_utf8` makes.
use Prim.Native.Char.{code}
use Prim.Native.String.{String}
use raytask.Prelude.{
  ℕ, zero, suc, Bool, true, false, ◌&&◌, List, [], ◌∷◌, leb, ltb, ◌==◌, if◌then◌else◌,
}

abbrev pub Str : Type 0
Str = List ℕ

-- The bytes of a text of ASCII characters.
abbrev pub codes : String → Str
codes String.[] = []
codes (String.◌∷◌ c s) = code c ∷ codes s

-- What may follow: `more` continuation bytes, the first of them from `lo` to `hi`.
pub record Pending : Type 0 where
  pub more : ℕ
  pub lo : ℕ
  pub hi : ℕ

abbrev pending : ℕ → ℕ → ℕ → Pending
pending more lo hi = record { more = more; lo = lo; hi = hi }

-- After a byte that fits nowhere: a byte from 1 to 0 is wanted, so this state is never left.
abbrev rejected : Pending
rejected = pending 1 1 0

-- The table of well-formed byte sequences, by the first byte.
abbrev lead : ℕ → Pending
lead b =
    if ltb b 0x80
    then pending 0 0x80 0xbf
    else if ltb b 0xc2
    then rejected
    else if ltb b 0xe0
    then pending 1 0x80 0xbf
    else if b == 0xe0
    then pending 2 0xa0 0xbf
    else if b == 0xed
    then pending 2 0x80 0x9f
    else if ltb b 0xf0
    then pending 2 0x80 0xbf
    else if b == 0xf0
    then pending 3 0x90 0xbf
    else if ltb b 0xf4
    then pending 3 0x80 0xbf
    else if b == 0xf4
    then pending 3 0x80 0x8f
    else rejected

abbrev utf8_step : ℕ → ℕ → Pending → Pending
utf8_step b zero p = lead b
utf8_step b (suc n) p = if leb p.lo b && leb b p.hi then pending n 0x80 0xbf else rejected

utf8_from : Pending → List ℕ → Bool
utf8_from p [] = p.more == 0
utf8_from p (b ∷ bs) = utf8_from (utf8_step b p.more p) bs

unfoldable pub is_utf8 : List ℕ → Bool
unfolding utf8_from
is_utf8 bs = utf8_from (pending 0 0x80 0xbf) bs

-- `==` on byte slices
unfoldable pub same_bytes : List ℕ → List ℕ → Bool
same_bytes [] [] = true
same_bytes [] (b ∷ bs) = false
same_bytes (a ∷ as') [] = false
same_bytes (a ∷ as') (b ∷ bs) = a == b && same_bytes as' bs
