-- ===== src/Bytecode/Tests.antt =====
-- Runs of src/bytecode.rs on small chunks, and the theorems at them.
use raytask.Prelude.{
  ℕ, ◌+◌, ◌-◌, ◌*◌, ◌/◌, ◌^◌, ◌≡◌, ◌↔◌, refl, false, some, none, [], ◌∷◌, ◌++◌, arith, leb,
  if◌then◌else◌, length, replicate, length-replicate,
}
use raytask.Prelude.Options.{◌>>=◌}
use raytask.Prelude.Text.{codes}
use raytask.Value.{Value}
use raytask.Bytecode.{Chunk}
use raytask.Bytecode.Op.{Op, to_byte, from_byte}
use raytask.Bytecode.Op.Bytes.{from_byte_iff}
use raytask.Bytecode.Emit.{
  new, emit_byte, emit_op, emit_jump, patch_jump, emit_loop, emit_constant, constant_at, jump, loop,
}
use raytask.Bytecode.Emit.Jumps.{patch_jump_lands, loop-emit_loop}
use raytask.Bytecode.Emit.Built
use raytask.Bytecode.Emit.Built.{WellFormed, Built-WellFormed}
use raytask.Bytecode.Emit.Constants.{Pushes, emit_constant-Pushes}

abbrev start : Chunk
start = record {
  name = codes "main";
  code = 2 ∷ [];
  constants = Value.int 7 ∷ Value.float 0 ∷ [];
  lines = 1 ∷ [];
  arity = 0;
  local_count = 0;
  is_async = false;
  local_debug = [];
  source = none;
}

-- A jump over two instructions.
abbrev before_patch : Chunk
before_patch = record start {
  code = 2 ∷ 37 ∷ 0xff ∷ 0xff ∷ 5 ∷ 5 ∷ [];
  lines = 1 ∷ 1 ∷ 1 ∷ 1 ∷ 2 ∷ 2 ∷ [];
}

patch_jump_run :
    patch_jump 2 before_patch ≡ some (record before_patch { code = 2 ∷ 37 ∷ 0 ∷ 2 ∷ 5 ∷ 5 ∷ [] })
unfolding patch_jump raytask.Bytecode.Emit.set_at
patch_jump_run = refl

-- The program takes -0.0 for the 0.0 that is in the pool.
emit_constant_run :
    emit_constant (Value.float (2 ^ 63)) 1 start
    ≡ some (record start { code = 2 ∷ 1 ∷ 1 ∷ []; lines = 1 ∷ 1 ∷ 1 ∷ [] })
unfolding emit_constant raytask.Bytecode.Emit.add_constant raytask.Bytecode.Emit.find_constant
    raytask.Bytecode.Emit.known_or_new raytask.Bytecode.Emit.emit_indexed emit_byte emit_op to_byte
    raytask.Value.Equality.same_constant raytask.Value.Equality.same_float
    raytask.Value.Equality.is_nan
emit_constant_run = refl

from_byte_iff_example : (from_byte 40 ≡ some Op.loop) ↔ (to_byte Op.loop ≡ 40)
from_byte_iff_example = from_byte_iff 40 Op.loop (omega arith)

patch_jump_lands_example :
    (patch_jump (emit_jump Op.jump 1 start).1 before_patch >>= λ p.
    jump p (emit_jump Op.jump 1 start).1)
    ≡ (if leb (length {A = ℕ} (5 ∷ 5 ∷ [])) 0xffff then some (length before_patch.code) else none)
patch_jump_lands_example =
    patch_jump_lands Op.jump 1 start before_patch (5 ∷ 5 ∷ []) same (omega arith)
  where
    same : before_patch.code ≡ (emit_jump Op.jump 1 start).0.code ++ 5 ∷ 5 ∷ []
    same = unfold emit_jump emit_byte emit_op to_byte in refl

-- A loop with a long body.
abbrev long : Chunk
long = record start { code = replicate 65533 5; lines = replicate 65533 1 }

loop-emit_loop_example :
    loop (emit_loop 0 3 long) (length long.code + 1)
    ≡ some (0 + (length long.code - 0 + 3) / 2 ^ 16 * 2 ^ 16)
loop-emit_loop_example =
    loop-emit_loop 0 3 long (omega arith) (omega (arith, length-replicate {A = ℕ} 65533 5))

Built-WellFormed_example : WellFormed (emit_loop 0 4 (emit_op Op.pop 3 (new (codes "f"))))
Built-WellFormed_example =
    Built-WellFormed (Built.back 0 4 (Built.op Op.pop 3 (Built.empty (codes "f"))))

emit_constant-Pushes_example : Pushes (Value.string (codes "a")) 2 start
emit_constant-Pushes_example = emit_constant-Pushes (Value.string (codes "a")) 2 start (omega arith)
