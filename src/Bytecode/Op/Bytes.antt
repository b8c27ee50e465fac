-- ===== src/Bytecode/Op/Bytes.antt =====
-- The byte of an instruction in src/bytecode.rs names it and no other.
use mathlib.Core.Path.{subst}
use raytask.Prelude.{ℕ, ◌<◌, ◌≡◌, ◌↔◌, refl, Bool, true, Option, none, some, ◌==◌, ==_iff}
use raytask.Prelude.Bits.{holds_below, holds_below-elim}
use raytask.Bytecode.Op.{Op, to_byte, from_byte}

pub from_byte-to_byte : (op : Op) → from_byte (to_byte op) ≡ some op
unfolding from_byte to_byte
from_byte-to_byte Op.constant = refl
from_byte-to_byte _ = refl

-- What `from_byte` makes of a byte has this byte.
abbrev agrees : ℕ → Option Op → Bool
agrees byte none = true
agrees byte (some op) = to_byte op == byte

agrees_table : holds_below 256 (λ byte. agrees byte (from_byte byte)) ≡ true
unfolding holds_below from_byte to_byte
agrees_table = refl

-- On bytes, `from_byte` and `to_byte` are inverse: a byte is read as an instruction exactly if it is the
-- byte of that instruction.
pub from_byte_iff :
    (byte : ℕ) (op : Op) → byte < 256 → (from_byte byte ≡ some op) ↔ (to_byte op ≡ byte)
from_byte_iff byte op h = (
  λ e.
      (==_iff _ _).0
        (subst (λ r. agrees byte r ≡ true) e (holds_below-elim 256 _ byte agrees_table h)),
  λ e. subst (λ b. from_byte b ≡ some op) e (from_byte-to_byte op),
)
