-- ===== src/Bytecode/Emit/Constants.antt =====
-- The constant pool of src/bytecode.rs: `add_constant` and `emit_constant`.
use mathlib.Core.Path.{subst}
use mathlib.Core.List.{append_assoc, append-nil}
use raytask.Prelude.{
  ℕ, suc, ◌+◌, ◌-◌, ◌*◌, ◌%◌, ◌/◌, ◌^◌, ◌<◌, ◌≤◌, ◌≡◌, ◌⊎◌, refl, sym, ap, ◌∙◌, Option, none, some,
  List, [], ◌∷◌, ◌++◌, arith, leb, ltb, length, length-append, take, take-append, get_elem?,
  Bool-cases, inl, inr, true, false,
}
use raytask.Value.{Value}
use raytask.Value.Equality.{same_constant}
use raytask.Bytecode.{Chunk}
use raytask.Bytecode.Op.{Op, to_byte}
use raytask.Bytecode.Emit.{
  emit_byte, emit_op, emit_u16, find_constant, known_or_new, add_constant, emit_indexed,
  emit_constant, constant_at, read_u16,
}
use raytask.Bytecode.Emit.Jumps.{get_elem?-append, get_elem?-append_second, read_u16_lem}

-- The pool holds the value at the index, or a value that the program takes for it.
pub record Holds (value : Value) (cs : List Value) (idx : ℕ) : Type 0 where
  pub found : Value
  pub at : get_elem? cs idx ≡ some found
  pub same : (found ≡ value) ⊎ (same_constant found value ≡ true)

abbrev Found : Value → List Value → ℕ → Option ℕ → Type 0
Found value cs i none = Unit
Found value cs i (some j) = (i ≤ j) × (j < i + length cs) × Holds value cs (j - i)

find_constant-Found :
    (value : Value) (cs : List Value) (i : ℕ) → Found value cs i (find_constant value cs i)
unfolding find_constant
find_constant-Found value [] i = tt
find_constant-Found value (c ∷ cs) i = elim (Bool-cases (same_constant c value)) [
  | inl same ↦
      let here : i - i ≡ 0 = omega arith in
      rw (same, Found)
        (
          omega arith,
          omega arith,
          record { found = c; at = ap (get_elem? (c ∷ cs)) here; same = inr same },
        )
  | inr other ↦
      rw (other, Found)
        (later (find_constant value cs (suc i)) (find_constant-Found value cs (suc i)))
]
  where
    later : (o : Option ℕ) → Found value cs (suc i) o → Found value (c ∷ cs) i o
    later none h = tt
    later (some j) h =
        let shift : j - i ≡ suc (j - suc i) = omega arith in
        (
          omega arith,
          omega arith,
          record {
            found = h.2.found;
            at = ap (get_elem? (c ∷ cs)) shift ∙ h.2.at;
            same = h.2.same;
          },
        )

-- `add_constant` returned a chunk and an index of it.
pub record Added (value : Value) (c : Chunk) : Type 0 where
  pub chunk : Chunk
  pub idx : ℕ
  pub returned : add_constant value c ≡ some (chunk, idx)
  pub word : idx < 2 ^ 16
  pub holds : Holds value chunk.constants idx
  pub code : chunk.code ≡ c.code
  -- Earlier constants keep their indices.
  pub kept : take (length c.constants) chunk.constants ≡ c.constants

add_constant-known :
    (value : Value) (c : Chunk) (j : ℕ)
    → find_constant value c.constants 0 ≡ some j
    → j < 2 ^ 16
    → add_constant value c ≡ some (c, j)
unfolding add_constant known_or_new
add_constant-known value c j e h = rw e (ap (λ i. some (c, i)) (omega arith))

add_constant-new :
    (value : Value) (c : Chunk)
    → find_constant value c.constants 0 ≡ none
    → length c.constants < 2 ^ 16
    → add_constant value c
      ≡ some (record c { constants = c.constants ++ value ∷ [] }, length c.constants)
unfolding add_constant known_or_new
add_constant-new value c e h =
    let room : ltb 0xffff (length c.constants) ≡ false = ground arith in rw (e, room) refl

-- `add_constant` returns an index of the value, or of one that the program takes for it, while the pool
-- has room; it leaves the code alone, and the constants that were there keep their indices.
pub add_constant-Added : (value : Value) (c : Chunk) → length c.constants < 2 ^ 16 → Added value c
add_constant-Added value c room =
    from (find_constant value c.constants 0) refl (find_constant-Found value c.constants 0)
  where
    from :
        (o : Option ℕ)
        → find_constant value c.constants 0 ≡ o
        → Found value c.constants 0 o
        → Added value c
    from none e h = record {
      chunk = record c { constants = c.constants ++ value ∷ [] };
      idx = length c.constants;
      returned = add_constant-new value c e room;
      word = room;
      holds = record {
        found = value;
        at = get_elem?-append (length c.constants) c.constants value [] refl;
        same = inl refl;
      };
      code = refl;
      kept = take-append (length c.constants) c.constants (value ∷ []) refl;
    }
    from (some j) e h = record {
      chunk = c;
      idx = j;
      returned = add_constant-known value c j e (omega (arith, h.1));
      word = omega (arith, h.1);
      holds = subst (Holds value c.constants) (omega arith) h.2;
      code = refl;
      kept =
          ap (take (length c.constants)) (sym (append-nil c.constants))
          ∙ take-append (length c.constants) c.constants [] refl;
    }

constant_at-short :
    (p : Chunk) (front : List ℕ) (idx : ℕ)
    → p.code ≡ front ++ to_byte Op.constant ∷ idx ∷ []
    → constant_at p (length front) ≡ get_elem? p.constants idx
unfolding constant_at to_byte
constant_at-short p front idx e =
    let first : get_elem? p.code (length front) ≡ some 1 =
      ap (λ l. get_elem? l (length front)) e
      ∙ get_elem?-append (length front) front 1 (idx ∷ []) refl in
    let second : get_elem? p.code (length front + 1) ≡ some idx =
      ap (λ l. get_elem? l (length front + 1)) e ∙ get_elem?-append_second front 1 idx [] in
    rw first (rw second refl)

constant_at-wide :
    (p : Chunk) (front : List ℕ) (hi lo : ℕ)
    → p.code ≡ front ++ to_byte Op.constant16 ∷ hi ∷ lo ∷ []
    → lo < 256
    → constant_at p (length front) ≡ get_elem? p.constants (hi * 256 + lo)
unfolding constant_at to_byte
constant_at-wide p front hi lo e h =
    let operand : read_u16 p (length front + 1) ≡ some (hi * 256 + lo) =
      read_u16_lem p (length front + 1) (front ++ 60 ∷ []) [] hi lo
        (e ∙ sym (append_assoc front (60 ∷ []) (hi ∷ lo ∷ [])))
        (omega (arith, length-append front (60 ∷ []))) h in
    let first : get_elem? p.code (length front) ≡ some 60 =
      ap (λ l. get_elem? l (length front)) e
      ∙ get_elem?-append (length front) front 60 (hi ∷ lo ∷ []) refl in
    rw first (rw operand refl)

-- The index in an instruction with one byte, or with two.
constant_at-emit_indexed :
    (idx line : ℕ) (c : Chunk)
    → idx < 2 ^ 16
    → constant_at (emit_indexed Op.constant Op.constant16 idx line c) (length c.code)
      ≡ get_elem? c.constants idx
unfolding emit_indexed emit_u16 emit_byte emit_op
constant_at-emit_indexed idx line c h = elim (Bool-cases (leb idx 0xff)) [
  | inl small ↦
      let byte : idx % 2 ^ 8 ≡ idx = ground arith in
      rw (small, byte) (constant_at-short _ c.code idx (append_assoc c.code _ _))
  | inr large ↦
      let word : idx / 2 ^ 8 % 2 ^ 8 * 256 + idx % 2 ^ 8 ≡ idx = omega arith in
      rw large (
        constant_at-wide _ c.code _ _
          (append_assoc (c.code ++ _ ∷ []) _ _ ∙ append_assoc c.code _ _) (omega arith)
        ∙ ap (get_elem? c.constants) word)
]

-- `emit_constant` returned a chunk whose new instruction pushes the value, or one that the program takes
-- for it.
pub record Pushes (value : Value) (line : ℕ) (c : Chunk) : Type 0 where
  pub chunk : Chunk
  pub returned : emit_constant value line c ≡ some chunk
  pub found : Value
  pub pushed : constant_at chunk (length c.code) ≡ some found
  pub same : (found ≡ value) ⊎ (same_constant found value ≡ true)

-- While the pool has room, `emit_constant` emits an instruction, with an index of one byte or of two,
-- that pushes the value it was given, or one that the program takes for it.
pub emit_constant-Pushes :
    (value : Value) (line : ℕ) (c : Chunk) → length c.constants < 2 ^ 16 → Pushes value line c
unfolding emit_constant
emit_constant-Pushes value line c room =
    let a = add_constant-Added value c room in
    record {
      chunk = emit_indexed Op.constant Op.constant16 a.idx line a.chunk;
      returned = rw a.returned refl;
      found = a.holds.found;
      pushed =
          ap
            (λ l.
              constant_at (emit_indexed Op.constant Op.constant16 a.idx line a.chunk) (length l))
            (sym a.code)
          ∙ constant_at-emit_indexed a.idx line a.chunk a.word
          ∙ a.holds.at;
      same = a.holds.same;
    }
