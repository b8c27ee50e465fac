-- ===== src/Bytecode/Emit.antt =====
-- `impl Chunk` of src/bytecode.rs: how the compiler emits instructions, and how the jumps of
-- src/vm.rs read them. A function that can panic gives an option.
pub mod Jumps
pub mod Constants
pub mod Built
use raytask.Prelude.{
  ℕ, zero, suc, ◌+◌, ◌-◌, ◌*◌, ◌/◌, ◌%◌, ◌^◌, Bool, true, false, Option, none, some, List, [], ◌∷◌,
  ◌++◌, bit_or, ltb, leb, ◌==◌, if◌then◌else◌, length, get_elem?,
}
use raytask.Prelude.Options.{◌>>=◌}
use raytask.Prelude.Text.{Str}
use raytask.Value.{Value}
use raytask.Value.Equality.{same_constant}
use raytask.Bytecode.{Chunk}
use raytask.Bytecode.Op.{Op, to_byte}

unfoldable pub new : Str → Chunk
new name = record {
  name = name;
  code = [];
  constants = [];
  lines = [];
  arity = 0;
  local_count = 0;
  is_async = false;
  local_debug = [];
  source = none;
}

unfoldable pub emit_byte : (byte line : ℕ) → Chunk → Chunk
emit_byte byte line c = record c { code = c.code ++ byte ∷ []; lines = c.lines ++ line ∷ [] }

unfoldable pub emit_op : Op → (line : ℕ) → Chunk → Chunk
emit_op op line c = record c { code = c.code ++ to_byte op ∷ []; lines = c.lines ++ line ∷ [] }

-- `(value >> 8) as u8`, then `(value & 0xff) as u8`
unfoldable pub emit_u16 : (value line : ℕ) → Chunk → Chunk
emit_u16 value line c = emit_byte (value % 2 ^ 8) line (emit_byte (value / 2 ^ 8 % 2 ^ 8) line c)

-- The chunk, and the offset of the operand.
unfoldable pub emit_jump : Op → (line : ℕ) → Chunk → Chunk × ℕ
emit_jump op line c =
    let c' = emit_byte 0xff line (emit_byte 0xff line (emit_op op line c)) in
    (c', length c'.code - 2)

-- `code[i] = byte`
unfoldable pub set_at : (i byte : ℕ) → List ℕ → List ℕ
set_at i byte [] = []
set_at zero byte (b ∷ bs) = byte ∷ bs
set_at (suc i) byte (b ∷ bs) = b ∷ set_at i byte bs

-- A subtraction that overflows ends in a panic as well: in a release build it wraps to a jump that is
-- too large.
unfoldable pub patch_jump : (offset : ℕ) → Chunk → Option Chunk
patch_jump offset c =
    let jump = (length c.code + 2 ^ 64 - offset - 2) % 2 ^ 64 in
    if ltb 0xffff jump
    then none
    else some (record c {
      code = set_at (offset + 1) (jump % 2 ^ 8) (set_at offset (jump / 2 ^ 8 % 2 ^ 8) c.code);
    })

-- The distance on 64-bit words; `jump as u16` keeps its low 16 bits.
unfoldable pub emit_loop : (loop_start line : ℕ) → Chunk → Chunk
emit_loop loop_start line c =
    let c' = emit_op Op.loop line c in
    emit_u16 ((length c'.code + 2 ^ 64 - loop_start + 2) % 2 ^ 64 % 2 ^ 16) line c'

-- The loop of `add_constant` from index `i` on.
unfoldable pub find_constant : Value → List Value → (i : ℕ) → Option ℕ
find_constant value [] i = none
find_constant value (c ∷ cs) i =
    let later = find_constant value cs (suc i) in if same_constant c value then some i else later

unfoldable pub known_or_new : Value → Chunk → Option ℕ → Option (Chunk × ℕ)
known_or_new value c (some i) = some (c, i % 2 ^ 16)
known_or_new value c none =
    let idx = length c.constants in
    if ltb 0xffff idx then none else some (record c { constants = c.constants ++ value ∷ [] }, idx)

unfoldable pub add_constant : Value → Chunk → Option (Chunk × ℕ)
add_constant value c = known_or_new value c (find_constant value c.constants 0)

-- The instruction with an index of one byte, if that is enough, or the one with two.
unfoldable pub emit_indexed : (short wide : Op) → (idx line : ℕ) → Chunk → Chunk
emit_indexed short wide idx line c =
    if leb idx 0xff
    then emit_byte (idx % 2 ^ 8) line (emit_op short line c)
    else emit_u16 idx line (emit_op wide line c)

unfoldable pub emit_constant : Value → (line : ℕ) → Chunk → Option Chunk
emit_constant value line c = do
  added ← add_constant value c
  some (emit_indexed Op.constant Op.constant16 added.1 line added.0)

unfoldable pub emit_get_global : (idx line : ℕ) → Chunk → Chunk
emit_get_global = emit_indexed Op.get_global Op.get_global16

unfoldable pub emit_set_global : (idx line : ℕ) → Chunk → Chunk
emit_set_global = emit_indexed Op.set_global Op.set_global16

unfoldable pub emit_define_global : (idx line : ℕ) → Chunk → Chunk
emit_define_global = emit_indexed Op.define_global Op.define_global16

unfoldable pub read_u16 : Chunk → (ip : ℕ) → Option ℕ
read_u16 c ip = do
  hi ← get_elem? c.code ip
  lo ← get_elem? c.code (ip + 1)
  some (bit_or (hi * 2 ^ 8) lo)

-- Where `Op::Jump` goes, from the offset of its operand: past the operand and on by it.
unfoldable pub jump : Chunk → (ip : ℕ) → Option ℕ
jump c ip = do offset ← read_u16 c ip; some (ip + 2 + offset)

-- Where `Op::Loop` goes: `ip -= offset`, whose overflow wraps in a release build.
unfoldable pub loop : Chunk → (ip : ℕ) → Option ℕ
loop c ip = do offset ← read_u16 c ip; some ((ip + 2 + 2 ^ 64 - offset) % 2 ^ 64)

-- The constant that `Op::Constant` or `Op::Constant16` at `ip` pushes; `none` is another instruction
-- or a panic.
unfoldable pub constant_at : Chunk → (ip : ℕ) → Option Value
constant_at c ip = do
  op ← get_elem? c.code ip
  idx ← elim (op == to_byte Op.constant) [
    | true ↦ get_elem? c.code (ip + 1)
    | false ↦ elim (op == to_byte Op.constant16) [ true ↦ read_u16 c (ip + 1) | false ↦ none ]
  ]
  get_elem? c.constants idx
