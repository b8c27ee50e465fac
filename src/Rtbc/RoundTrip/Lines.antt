-- ===== src/Rtbc/RoundTrip/Lines.antt =====
-- The run-length coded line table: `read_lines` against `write_lines` of src/bytecode_format.rs.
use mathlib.Core.List.{append_assoc, append-nil}
use native.Mathlib.Numerals.{add-one}
use raytask.Prelude.{
  ℕ, zero, suc, ◌+◌, ◌%◌, ◌^◌, ◌<◌, ◌≤◌, ◌≡◌, refl, ap, ◌∙◌, inl, inr, List, [], ◌∷◌, ◌++◌, arith,
  ◌==◌, ==_iff, Bool-cases, length, All, replicate,
}
use raytask.Rtbc.Writer
use raytask.Rtbc.Writer.{◌>>◌}
use raytask.Rtbc.Serialize.{runs, write_run, write_lines}
use raytask.Rtbc.Deserialize.{read_run, read_runs, check_lines, read_lines}
use raytask.Rtbc.Decodes.{
  Decodes, Decodes-bind, Decodes-last, Decodes-step, Decodes-pure, Decodes-var_u32,
}

-- The lines that runs stand for.
abbrev spread : List (ℕ × ℕ) → List ℕ
spread [] = []
spread ((line, len) ∷ rest) = replicate len line ++ spread rest

abbrev RunFits : ℕ × ℕ → Type 0
RunFits r = (r.0 < 2 ^ 32) × (r.1 < 2 ^ 32)

abbrev IsLine : ℕ → Type 0
IsLine n = n < 2 ^ 32

-- One more line in the open run.
replicate-snoc : (n a : ℕ) (rest : List ℕ) → replicate (n + 1) a ++ rest ≡ replicate n a ++ a ∷ rest
replicate-snoc n a rest = rw (add-one n) (go n)
  where
    go : (n : ℕ) → replicate (suc n) a ++ rest ≡ replicate n a ++ a ∷ rest
    go zero = refl
    go (suc n) = ap (λ l. a ∷ l) (go n)

spread-runs :
    (current len : ℕ) (lines : List ℕ)
    → len + length lines < 2 ^ 32
    → All IsLine lines
    → spread (runs current len lines) ≡ replicate len current ++ lines
unfolding runs
spread-runs current len [] h f = refl
spread-runs current len (line ∷ lines) h f = elim (Bool-cases (line % 2 ^ 32 == current)) [
  | inl same ↦
      let fits : (len + 1) % 2 ^ 32 ≡ len + 1 = omega arith in
      let here : current ≡ line = omega (arith, (==_iff _ _).0 same) in
      rw (same, spread)
        (spread-runs current ((len + 1) % 2 ^ 32) lines (omega arith) f.1
          ∙ ap (λ n. replicate n current ++ lines) fits
          ∙ replicate-snoc len current lines
          ∙ ap (λ c. replicate len current ++ c ∷ lines) here)
  | inr new ↦
      rw (new, spread)
        (ap (λ l. replicate len current ++ l)
          (spread-runs (line % 2 ^ 32) 1 lines (omega arith) f.1
            ∙ ap (λ n. n ∷ lines) (omega arith)))
]

RunFits-runs :
    (current len : ℕ) (lines : List ℕ)
    → current < 2 ^ 32
    → len < 2 ^ 32
    → All RunFits (runs current len lines)
unfolding runs
RunFits-runs current len [] hc hl = ((hc, hl), tt)
RunFits-runs current len (line ∷ lines) hc hl = elim (Bool-cases (line % 2 ^ 32 == current)) [
  | inl same ↦ rw (same, All) (RunFits-runs current ((len + 1) % 2 ^ 32) lines hc (omega arith))
  | inr new ↦
      rw (new, All) ((hc, hl), RunFits-runs (line % 2 ^ 32) 1 lines (omega arith) (omega arith))
]

length-runs-le :
    (current len : ℕ) (lines : List ℕ) → length (runs current len lines) ≤ suc (length lines)
unfolding runs
length-runs-le current len [] = omega arith
length-runs-le current len (line ∷ lines) = ground (
  arith,
  length-runs-le current ((len + 1) % 2 ^ 32) lines,
  length-runs-le (line % 2 ^ 32) 1 lines,
)

Decodes-run :
    (line len : ℕ)
    → line < 2 ^ 32
    → len < 2 ^ 32
    → Decodes read_run (write_run (line, len)) (line, len)
unfolding read_run write_run
Decodes-run line len h k =
    Decodes-bind _ (Decodes-var_u32 line h) (Decodes-last (λ l. (line, l)) (Decodes-var_u32 len k))

Decodes-runs :
    (rs : List (ℕ × ℕ)) (lines : List ℕ)
    → All RunFits rs
    → Decodes (read_runs (length rs) lines) (Writer.for_each rs write_run) (lines ++ spread rs)
unfolding read_runs Writer.for_each write_run
Decodes-runs [] lines h = rw append-nil (Decodes-pure lines)
Decodes-runs ((line, len) ∷ rs) lines h = rw (← append_assoc) (
    Decodes-bind _ (Decodes-run line len h.0.0 h.0.1)
      (Decodes-runs rs (lines ++ replicate len line) h.1))

Decodes-check :
    (total : ℕ) (lines : List ℕ) → length lines ≡ total → Decodes (check_lines total lines) [] lines
unfolding check_lines
Decodes-check total lines e = rw ((==_iff _ _).1 e) (Decodes-pure lines)

-- A line table is read back as it was written, if its lines and its length fit 32 bits.
pub Decodes-lines :
    (lines : List ℕ)
    → length lines < 2 ^ 32
    → All IsLine lines
    → Decodes read_lines (write_lines lines) lines
unfolding read_lines write_lines Writer.counted Writer.for_each
Decodes-lines [] h f = Decodes-bind _ (Decodes-var_u32 0 (omega arith)) (
    Decodes-step _ (Decodes-var_u32 0 (omega arith))
      (Decodes-step _ (Decodes-runs [] [] tt) (Decodes-check 0 [] refl)))
Decodes-lines (line ∷ lines) h f =
    let rs = runs (line % 2 ^ 32) 1 lines in
    let e : spread rs ≡ line ∷ lines =
      spread-runs (line % 2 ^ 32) 1 lines (omega arith) f.1 ∙ ap (λ n. n ∷ lines) (omega arith) in
    Decodes-bind _ (Decodes-var_u32 (length (line ∷ lines)) h) (
      Decodes-bind _
        (Decodes-var_u32 (length rs) (omega (arith, length-runs-le (line % 2 ^ 32) 1 lines)))
        (Decodes-step _
          (Decodes-runs rs [] (RunFits-runs (line % 2 ^ 32) 1 lines (omega arith) (omega arith)))
          (rw e (Decodes-check (length (line ∷ lines)) (line ∷ lines) refl))))
