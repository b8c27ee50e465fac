-- ===== src/Bytecode/Emit/Built.antt =====
-- The chunks that the operations of `Chunk` in src/bytecode.rs can build.
use raytask.Prelude.{
  ℕ, zero, suc, ◌+◌, ◌-◌, ◌%◌, ◌^◌, ◌<◌, ◌≤◌, ◌≡◌, refl, ap, ◌∙◌, Option, none, some, List, [], ◌∷◌,
  arith, leb, ltb, length, length-append, All, All-append, Bool-cases, inl, inr,
}
use mathlib.Core.Path.{subst}
use raytask.Prelude.Options.{◌>>=◌}
use raytask.Prelude.Text.{Str}
use raytask.Value.{Value}
use raytask.Bytecode.{Chunk}
use raytask.Bytecode.Op.{Op, to_byte}
use raytask.Bytecode.Emit.{
  new, emit_byte, emit_op, emit_u16, emit_jump, set_at, patch_jump, emit_loop, find_constant,
  known_or_new, add_constant, emit_indexed, emit_constant, emit_get_global, emit_set_global,
  emit_define_global,
}

abbrev pub IsByte : ℕ → Type 0
IsByte b = b < 256

-- Each byte of the code has its source line, is a byte, and each constant has an index of 16 bits.
pub record WellFormed (c : Chunk) : Type 0 where
  pub lined : length c.code ≡ length c.lines
  pub bytes : All IsByte c.code
  pub indexed : length c.constants ≤ 2 ^ 16

to_byte-IsByte : (op : Op) → IsByte (to_byte op)
unfolding to_byte
to_byte-IsByte Op.constant = omega arith
to_byte-IsByte _ = omega arith

WellFormed-emit_byte :
    (byte line : ℕ) (c : Chunk) → IsByte byte → WellFormed c → WellFormed (emit_byte byte line c)
unfolding emit_byte
WellFormed-emit_byte byte line c b h = record {
  lined =
      omega (arith, h.lined, length-append c.code (byte ∷ []), length-append c.lines (line ∷ []));
  bytes = All-append IsByte c.code (byte ∷ []) h.bytes (b, tt);
  indexed = h.indexed;
}

WellFormed-emit_op :
    (op : Op) (line : ℕ) (c : Chunk) → WellFormed c → WellFormed (emit_op op line c)
unfolding emit_op
WellFormed-emit_op op line c h = record {
  lined =
      omega
        (arith, h.lined, length-append c.code (to_byte op ∷ []), length-append c.lines (line ∷ []));
  bytes = All-append IsByte c.code (to_byte op ∷ []) h.bytes (to_byte-IsByte op, tt);
  indexed = h.indexed;
}

WellFormed-emit_u16 :
    (value line : ℕ) (c : Chunk) → WellFormed c → WellFormed (emit_u16 value line c)
unfolding emit_u16
WellFormed-emit_u16 value line c h =
    WellFormed-emit_byte _ line _ (omega arith) (WellFormed-emit_byte _ line c (omega arith) h)

WellFormed-emit_jump :
    (op : Op) (line : ℕ) (c : Chunk) → WellFormed c → WellFormed (emit_jump op line c).0
unfolding emit_jump
WellFormed-emit_jump op line c h =
    WellFormed-emit_byte 0xff line _ (omega arith)
      (WellFormed-emit_byte 0xff line _ (omega arith) (WellFormed-emit_op op line c h))

WellFormed-emit_loop :
    (loop_start line : ℕ) (c : Chunk) → WellFormed c → WellFormed (emit_loop loop_start line c)
unfolding emit_loop
WellFormed-emit_loop loop_start line c h =
    WellFormed-emit_u16 _ line _ (WellFormed-emit_op Op.loop line c h)

length-set_at : (i b : ℕ) (xs : List ℕ) → length (set_at i b xs) ≡ length xs
unfolding set_at
length-set_at i b [] = refl
length-set_at zero b (x ∷ xs) = refl
length-set_at (suc i) b (x ∷ xs) = ap suc (length-set_at i b xs)

All-set_at : (i b : ℕ) (xs : List ℕ) → IsByte b → All IsByte xs → All IsByte (set_at i b xs)
unfolding set_at
All-set_at i b [] hb h = tt
All-set_at zero b (x ∷ xs) hb h = (hb, h.1)
All-set_at (suc i) b (x ∷ xs) hb h = (h.0, All-set_at i b xs hb h.1)

-- What an operation that may panic leaves.
abbrev pub Leaves {ℓ} : {A : Type ℓ} → (A → Type 0) → Option A → Type 0
Leaves P none = Unit
Leaves P (some a) = P a

WellFormed-patch_jump :
    (offset : ℕ) (c : Chunk) → WellFormed c → Leaves WellFormed (patch_jump offset c)
unfolding patch_jump
WellFormed-patch_jump offset c h =
    elim (Bool-cases (ltb 0xffff ((length c.code + 2 ^ 64 - offset - 2) % 2 ^ 64))) [
      | inl far ↦ rw (far, Leaves) tt
      | inr near ↦
          rw (near, Leaves)
            (record {
              lined = length-set_at _ _ _ ∙ length-set_at _ _ c.code ∙ h.lined;
              bytes = All-set_at _ _ _ (omega arith) (All-set_at _ _ c.code (omega arith) h.bytes);
              indexed = h.indexed;
            })
    ]

WellFormed-known_or_new :
    (value : Value) (c : Chunk) (found : Option ℕ)
    → WellFormed c
    → Leaves (λ r. WellFormed r.0) (known_or_new value c found)
unfolding known_or_new
WellFormed-known_or_new value c (some i) h = h
WellFormed-known_or_new value c none h = elim (Bool-cases (ltb 0xffff (length c.constants))) [
  | inl full ↦ rw (full, Leaves) tt
  | inr room ↦
      rw (room, Leaves)
        (record {
          lined = h.lined;
          bytes = h.bytes;
          indexed = ground (arith, length-append c.constants (value ∷ []));
        })
]

WellFormed-emit_indexed :
    (short wide : Op) (idx line : ℕ) (c : Chunk)
    → WellFormed c
    → WellFormed (emit_indexed short wide idx line c)
unfolding emit_indexed
WellFormed-emit_indexed short wide idx line c h = elim (Bool-cases (leb idx 0xff)) [
  | inl small ↦
      rw small (WellFormed-emit_byte _ line _ (omega arith) (WellFormed-emit_op short line c h))
  | inr large ↦ rw large (WellFormed-emit_u16 idx line _ (WellFormed-emit_op wide line c h))
]

WellFormed-emit_constant :
    (value : Value) (line : ℕ) (c : Chunk)
    → WellFormed c
    → Leaves WellFormed (emit_constant value line c)
unfolding emit_constant add_constant
WellFormed-emit_constant value line c h =
    emitted (known_or_new value c (find_constant value c.constants 0))
      (WellFormed-known_or_new value c _ h)
  where
    emitted :
        (added : Option (Chunk × ℕ))
        → Leaves (λ r. WellFormed r.0) added
        → Leaves WellFormed
            (added >>= λ r. some (emit_indexed Op.constant Op.constant16 r.1 line r.0))
    emitted none h = tt
    emitted (some r) h = WellFormed-emit_indexed Op.constant Op.constant16 r.1 line r.0 h

WellFormed-new : (name : Str) → WellFormed (new name)
unfolding new
WellFormed-new name = record { lined = refl; bytes = tt; indexed = omega arith }

-- What the operations can build from a new chunk, in any order.
pub data Built : Chunk → Type 0 where
  empty : (name : Str) → Built (new name)
  byte : {c : Chunk} (b line : ℕ) → IsByte b → Built c → Built (emit_byte b line c)
  op : {c : Chunk} (o : Op) (line : ℕ) → Built c → Built (emit_op o line c)
  word : {c : Chunk} (value line : ℕ) → Built c → Built (emit_u16 value line c)
  jump : {c : Chunk} (o : Op) (line : ℕ) → Built c → Built (emit_jump o line c).0
  patch : {c p : Chunk} (offset : ℕ) → patch_jump offset c ≡ some p → Built c → Built p
  back : {c : Chunk} (loop_start line : ℕ) → Built c → Built (emit_loop loop_start line c)
  known :
      {c p : Chunk} (value : Value) (idx : ℕ)
      → add_constant value c ≡ some (p, idx)
      → Built c
      → Built p
  constant :
      {c p : Chunk} (value : Value) (line : ℕ)
      → emit_constant value line c ≡ some p
      → Built c
      → Built p
  get_global : {c : Chunk} (idx line : ℕ) → Built c → Built (emit_get_global idx line c)
  set_global : {c : Chunk} (idx line : ℕ) → Built c → Built (emit_set_global idx line c)
  define_global : {c : Chunk} (idx line : ℕ) → Built c → Built (emit_define_global idx line c)

-- Every chunk that the operations can build has one line for each byte of its code, holds bytes only,
-- and has no constant beyond the reach of a 16-bit index.
pub Built-WellFormed : {c : Chunk} → Built c → WellFormed c
unfolding emit_get_global emit_set_global emit_define_global add_constant
Built-WellFormed (empty name) = WellFormed-new name
Built-WellFormed (byte b line hb built) = WellFormed-emit_byte b line _ hb (Built-WellFormed built)
Built-WellFormed (op o line built) = WellFormed-emit_op o line _ (Built-WellFormed built)
Built-WellFormed (word value line built) = WellFormed-emit_u16 value line _ (Built-WellFormed built)
Built-WellFormed (jump o line built) = WellFormed-emit_jump o line _ (Built-WellFormed built)
Built-WellFormed (patch {c} offset e built) =
    subst (Leaves WellFormed) e (WellFormed-patch_jump offset c (Built-WellFormed built))
Built-WellFormed (back loop_start line built) =
    WellFormed-emit_loop loop_start line _ (Built-WellFormed built)
Built-WellFormed (known {c} value idx e built) =
    subst (Leaves (λ r. WellFormed r.0)) e
      (WellFormed-known_or_new value c _ (Built-WellFormed built))
Built-WellFormed (constant {c} value line e built) =
    subst (Leaves WellFormed) e (WellFormed-emit_constant value line c (Built-WellFormed built))
Built-WellFormed (get_global idx line built) =
    WellFormed-emit_indexed Op.get_global Op.get_global16 idx line _ (Built-WellFormed built)
Built-WellFormed (set_global idx line built) =
    WellFormed-emit_indexed Op.set_global Op.set_global16 idx line _ (Built-WellFormed built)
Built-WellFormed (define_global idx line built) =
    WellFormed-emit_indexed Op.define_global Op.define_global16 idx line _ (Built-WellFormed built)
