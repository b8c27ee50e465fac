-- ===== src/Bytecode/Emit/Jumps.antt =====
-- Jumps of src/bytecode.rs: what `emit_jump` and `patch_jump` write, and `emit_loop`, read as the
-- virtual machine reads them.
use mathlib.Core.List.{append_assoc}
use raytask.Prelude.{
  ℕ, zero, suc, ◌+◌, ◌-◌, ◌*◌, ◌/◌, ◌%◌, ◌^◌, ◌<◌, ◌≤◌, ◌≡◌, refl, sym, ap, ◌∙◌, none, some, List,
  [], ◌∷◌, ◌++◌, arith, leb, if◌then◌else◌, length, length-append, get_elem?, Bool-cases, inl, inr,
  true, false, ltb,
}
use raytask.Prelude.Bits.{bit_or_bytes}
use raytask.Prelude.Options.{◌>>=◌}
use raytask.Bytecode.{Chunk}
use raytask.Bytecode.Op.{Op, to_byte}
use raytask.Bytecode.Emit.{
  emit_byte, emit_op, emit_u16, emit_jump, set_at, patch_jump, emit_loop, read_u16, jump, loop,
}

module _ {ℓ} {A : Type ℓ} where
  pub get_elem?-append :
      (i : ℕ) (xs : List A) (a : A) (ys : List A)
      → length xs ≡ i
      → get_elem? (xs ++ a ∷ ys) i ≡ some a
  get_elem?-append zero [] a ys h = refl
  get_elem?-append zero (x ∷ xs) a ys h = absurd (omega arith)
  get_elem?-append (suc i) [] a ys h = absurd (omega arith)
  get_elem?-append (suc i) (x ∷ xs) a ys h = get_elem?-append i xs a ys (omega arith)

  pub get_elem?-append_second :
      (xs : List A) (a b : A) (ys : List A) → get_elem? (xs ++ a ∷ b ∷ ys) (length xs + 1) ≡ some b
  get_elem?-append_second xs a b ys =
      ap (λ l. get_elem? l (length xs + 1)) (sym (append_assoc xs (a ∷ []) (b ∷ ys)))
      ∙ get_elem?-append (length xs + 1) (xs ++ a ∷ []) b ys
          (omega (arith, length-append xs (a ∷ [])))

set_at-append :
    (i b : ℕ) (xs : List ℕ) (a : ℕ) (ys : List ℕ)
    → length xs ≡ i
    → set_at i b (xs ++ a ∷ ys) ≡ xs ++ b ∷ ys
unfolding set_at
set_at-append zero b [] a ys h = refl
set_at-append zero b (x ∷ xs) a ys h = absurd (omega arith)
set_at-append (suc i) b [] a ys h = absurd (omega arith)
set_at-append (suc i) b (x ∷ xs) a ys h = ap (λ l. x ∷ l) (set_at-append i b xs a ys (omega arith))

pub read_u16_lem :
    (c : Chunk) (ip : ℕ) (front rest : List ℕ) (hi lo : ℕ)
    → c.code ≡ front ++ hi ∷ lo ∷ rest
    → length front ≡ ip
    → lo < 256
    → read_u16 c ip ≡ some (hi * 256 + lo)
unfolding read_u16
read_u16_lem c ip front rest hi lo e h small =
    rw (e, get_elem?-append ip front hi (lo ∷ rest) h)
      (rw (← h, get_elem?-append_second front hi lo rest) (ap some (bit_or_bytes hi lo small)))

-- The bytes that an operand is written as.
two_bytes : ℕ → List ℕ
two_bytes v = v / 2 ^ 8 % 2 ^ 8 ∷ v % 2 ^ 8 ∷ []

code-emit_u16 : (v line : ℕ) (c : Chunk) → (emit_u16 v line c).code ≡ c.code ++ two_bytes v
unfolding emit_u16 emit_byte two_bytes
code-emit_u16 v line c = append_assoc c.code _ _

code-emit_op :
    (op : Op) (line : ℕ) (c : Chunk) → (emit_op op line c).code ≡ c.code ++ to_byte op ∷ []
unfolding emit_op
code-emit_op op line c = refl

length-emit_op :
    (op : Op) (line : ℕ) (c : Chunk) → length (emit_op op line c).code ≡ length c.code + 1
unfolding emit_op
length-emit_op op line c = length-append c.code _

-- Read back, the instruction that emit_loop appends leads to the start of the loop plus all the multiples
-- of 2^16 in the distance from behind the instruction to the start: to the start exactly if the distance
-- is less than 2^16. The start lies in the code, which is shorter than 2^64 - 3 bytes.
pub loop-emit_loop :
    (loop_start line : ℕ) (c : Chunk)
    → loop_start ≤ length c.code
    → length c.code + 3 < 2 ^ 64
    → loop (emit_loop loop_start line c) (length c.code + 1)
      ≡ some (loop_start + (length c.code - loop_start + 3) / 2 ^ 16 * 2 ^ 16)
unfolding loop emit_loop
loop-emit_loop loop_start line c h fits =
    let before = emit_op Op.loop line c in
    let d : ℕ = (length before.code + 2 ^ 64 - loop_start + 2) % 2 ^ 64 % 2 ^ 16 in
    let written : (emit_u16 d line before).code
        ≡ before.code ++ d / 2 ^ 8 % 2 ^ 8 ∷ d % 2 ^ 8 ∷ [] =
      unfold two_bytes in code-emit_u16 d line before in
    rw
      (read_u16_lem (emit_u16 d line before) (length c.code + 1) before.code [] _ _ written
        (length-emit_op Op.loop line c) (omega arith))
      (ap some (omega (arith, length-emit_op Op.loop line c)))

code-emit_jump :
    (op : Op) (line : ℕ) (c : Chunk)
    → (emit_jump op line c).0.code ≡ (c.code ++ to_byte op ∷ []) ++ 0xff ∷ 0xff ∷ []
unfolding emit_jump emit_byte emit_op
code-emit_jump op line c = append_assoc (c.code ++ to_byte op ∷ []) (0xff ∷ []) (0xff ∷ [])

offset-emit_jump : (op : Op) (line : ℕ) (c : Chunk) → (emit_jump op line c).1 ≡ length c.code + 1
offset-emit_jump op line c =
    let size : length (emit_jump op line c).0.code ≡ length c.code + 3 =
      ap length (code-emit_jump op line c)
      ∙ omega (
        arith,
        length-append (c.code ++ to_byte op ∷ []) (0xff ∷ 0xff ∷ []),
        length-append c.code (to_byte op ∷ []),
      ) in
    unfold emit_jump in omega arith

-- A patch of an operand that stands between `front` and `body`.
module _ (c : Chunk) (offset : ℕ) (front body : List ℕ) (e : c.code ≡ front ++ 0xff ∷ 0xff ∷ body)
    (h : length front ≡ offset) (fits : offset + length body + 2 < 2 ^ 64) where
  patched : Chunk
  patched = record c { code = front ++ length body / 2 ^ 8 % 2 ^ 8 ∷ length body % 2 ^ 8 ∷ body }

  far : (length c.code + 2 ^ 64 - offset - 2) % 2 ^ 64 ≡ length body
  far =
      let size : length c.code ≡ offset + length body + 2 =
        ap length e ∙ omega (arith, length-append front (0xff ∷ 0xff ∷ body)) in
      omega arith

  set_both :
      (hi lo : ℕ) → set_at (offset + 1) lo (set_at offset hi c.code) ≡ front ++ hi ∷ lo ∷ body
  set_both hi lo =
      ap (λ l. set_at (offset + 1) lo (set_at offset hi l)) e
      ∙ ap (λ l. set_at (offset + 1) lo l)
          (set_at-append offset hi front 0xff _ h
            ∙ sym (append_assoc front (hi ∷ []) (0xff ∷ body)))
      ∙ set_at-append (offset + 1) lo (front ++ hi ∷ []) 0xff body
          (omega (arith, length-append front (hi ∷ [])))
      ∙ append_assoc front (hi ∷ []) (lo ∷ body)

  patch_jump_near : length body ≤ 0xffff → patch_jump offset c ≡ some patched
  unfolding patch_jump patched
  patch_jump_near near =
      let test : ltb 0xffff (length body) ≡ false = ground arith in
      rw (far, test) (ap (λ l. some (record c { code = l })) (set_both _ _))

  patch_jump_far : 0xffff < length body → patch_jump offset c ≡ none
  unfolding patch_jump
  patch_jump_far away =
      let test : ltb 0xffff (length body) ≡ true = ground arith in rw (far, test) refl

-- The code that follows a patched jump: the jump leads past it, and an operand that does not fit two
-- bytes is a panic.
pub patch_jump_lands :
    (op : Op) (line : ℕ) (c later : Chunk) (body : List ℕ)
    → later.code ≡ (emit_jump op line c).0.code ++ body
    → length later.code < 2 ^ 64
    → (patch_jump (emit_jump op line c).1 later >>= λ p. jump p (emit_jump op line c).1)
      ≡ (if leb (length body) 0xffff then some (length later.code) else none)
unfolding jump patched
patch_jump_lands op line c later body e fits =
    rw (offset-emit_jump op line c) (elim (Bool-cases (leb (length body) 0xffff)) [
      | inl near ↦
          rw (near, patch_jump_near later offset front body code size room (ground arith))
            (rw
              (read_u16_lem (patched later offset front body code size room) offset front body _ _
                refl size (omega arith))
              (ap some (ground (arith, whole))))
      | inr away ↦
          rw (away, patch_jump_far later offset front body code size room (ground arith)) refl
    ])
  where
    offset : ℕ
    offset = length c.code + 1

    front : List ℕ
    front = c.code ++ to_byte op ∷ []

    code : later.code ≡ front ++ 0xff ∷ 0xff ∷ body
    code =
        e
        ∙ ap (λ l. l ++ body) (code-emit_jump op line c)
        ∙ append_assoc front (0xff ∷ 0xff ∷ []) body

    size : length front ≡ offset
    size = omega (arith, length-append c.code (to_byte op ∷ []))

    whole : length later.code ≡ offset + length body + 2
    whole = ap length code ∙ omega (arith, size, length-append front (0xff ∷ 0xff ∷ body))

    room : offset + length body + 2 < 2 ^ 64
    room = omega (arith, whole)
