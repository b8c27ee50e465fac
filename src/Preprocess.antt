-- ===== src/Preprocess.antt =====
-- src/preprocess.rs: `#if`, `#elif`, `#else`, `#endif` and `#pragma`. A text is the list of its
-- characters here, each a Unicode scalar value; the set of definitions is a list.
pub mod Blocks
mod Tests
use Prim.Native.Char.{code}
use Prim.Native.String.{String}
use raytask.Prelude.{
  ℕ, ◌+◌, Bool, true, false, not, ◌&&◌, ◌||◌, Option, none, some, List, [], ◌∷◌, ◌++◌, map, drop,
  leb, ltb, ◌==◌, if◌then◌else◌,
}
use raytask.Prelude.Text.{same_bytes}

abbrev pub Chars : Type 0
Chars = List ℕ

abbrev pub chars : String → Chars
chars String.[] = []
chars (String.◌∷◌ c s) = code c ∷ chars s

-- `char::is_whitespace`, the property White_Space of Unicode
unfoldable pub is_whitespace : ℕ → Bool
is_whitespace c =
    leb 9 c && leb c 13
    || (c == 32 || c == 0x85 || (c == 0xa0 || c == 0x1680))
    || (leb 0x2000 c && leb c 0x200a)
    || (c == 0x2028 || c == 0x2029 || (c == 0x202f || c == 0x205f || c == 0x3000))

unfoldable pub trim_start : Chars → Chars
trim_start [] = []
trim_start (c ∷ cs) = let rest = trim_start cs in if is_whitespace c then rest else c ∷ cs

-- A character is kept if one follows that is.
abbrev before_end : ℕ → Chars → Chars
before_end c [] = if is_whitespace c then [] else c ∷ []
before_end c (d ∷ ds) = c ∷ d ∷ ds

unfoldable pub trim_end : Chars → Chars
trim_end [] = []
trim_end (c ∷ cs) = before_end c (trim_end cs)

unfoldable pub trim : Chars → Chars
trim cs = trim_end (trim_start cs)

unfoldable pub starts_with : Chars → (prefix : Chars) → Bool
starts_with cs [] = true
starts_with [] (p ∷ ps) = false
starts_with (c ∷ cs) (p ∷ ps) = c == p && starts_with cs ps

abbrev to_ascii_lowercase : ℕ → ℕ
to_ascii_lowercase c = if leb 65 c && leb c 90 then c + 32 else c

unfoldable pub eq_ignore_ascii_case : Chars → Chars → Bool
eq_ignore_ascii_case as' bs = same_bytes (map to_ascii_lowercase as') (map to_ascii_lowercase bs)

-- `strip_prefix` for one character
abbrev pub strip_prefix : ℕ → Chars → Option Chars
strip_prefix p [] = none
strip_prefix p (c ∷ cs) = if c == p then some cs else none

abbrev add_to_first : ℕ → List Chars → List Chars
add_to_first c [] = (c ∷ []) ∷ []
add_to_first c (l ∷ ls) = (c ∷ l) ∷ ls

-- `str::lines`: a line ends with a line feed or a carriage return and a line feed, the last one with the text.
unfoldable pub lines : Chars → List Chars
lines [] = []
lines (c ∷ cs) =
    let rest = lines cs in
    if c == 10
    then [] ∷ rest
    else if c == 13 && starts_with cs (10 ∷ [])
    then rest
    else add_to_first c rest

unfoldable pub contains : List Chars → Chars → Bool
contains [] name = false
contains (d ∷ defs) name = same_bytes d name || contains defs name

abbrev is_defined : List Chars → (whole : Chars) → (negated : Option Chars) → Bool
is_defined defs whole (some rest) = not (contains defs (trim rest))
is_defined defs whole none = contains defs whole

unfoldable pub eval_cond : Chars → (defs : List Chars) → Bool
eval_cond cond defs = is_defined defs (trim cond) (strip_prefix 33 (trim cond))

-- What the tests of the loop make of a line. An unknown directive is text.
pub data Directive : Type 0 where
  when elif : (cond : Chars) → Directive
  otherwise endif pragma : Directive
  text : (line : Chars) → Directive

abbrev directive_after_hash : (line rest : Chars) → Directive
directive_after_hash line rest =
    if starts_with rest (chars "if ") || starts_with rest (chars "IF ")
    then Directive.when (trim (drop 3 rest))
    else if starts_with rest (chars "elif ") || starts_with rest (chars "ELIF ")
    then Directive.elif (trim (drop 5 rest))
    else if eq_ignore_ascii_case rest (chars "else")
    then Directive.otherwise
    else if eq_ignore_ascii_case rest (chars "endif")
    then Directive.endif
    else if starts_with rest (chars "pragma ")
    then Directive.pragma
    else Directive.text line

abbrev hashed : (line : Chars) → Option Chars → Directive
hashed line none = Directive.text line
hashed line (some rest) = directive_after_hash line (trim_start rest)

unfoldable pub directive_of : Chars → Directive
directive_of line = hashed line (strip_prefix 35 (trim_start line))

pub record IfState : Type 0 where
  pub parent_emitting : Bool
  pub branch_taken : Bool

pub record State : Type 0 where
  pub stack : List IfState
  pub emitting : Bool

abbrev state : List IfState → Bool → State
state stack emitting = record { stack = stack; emitting = emitting }

-- `#elif` and `#else` on the innermost block: `active` is the condition, if it is evaluated.
abbrev next_branch : (active : Bool) → List IfState → (emitting : Bool) → State
next_branch active [] emitting = state [] emitting
next_branch active (s ∷ ss) emitting =
    if s.parent_emitting && not s.branch_taken
    then state (record s { branch_taken = active } ∷ ss) active
    else state (s ∷ ss) false

abbrev leave : List IfState → (emitting : Bool) → State
leave [] emitting = state [] emitting
leave (s ∷ ss) emitting = state ss s.parent_emitting

unfoldable pub step : (defs : List Chars) → Directive → List IfState → (emitting : Bool) → State
step defs (Directive.when cond) stack emitting =
    let active = emitting && eval_cond cond defs in
    state (record { parent_emitting = emitting; branch_taken = active } ∷ stack) active
step defs (Directive.elif cond) stack emitting = next_branch (eval_cond cond defs) stack emitting
step defs Directive.otherwise stack emitting = next_branch true stack emitting
step defs Directive.endif stack emitting = leave stack emitting
step defs _ stack emitting = state stack emitting

unfoldable pub kept : Directive → (emitting : Bool) → List Chars
kept (Directive.text line) emitting = if emitting then line ∷ [] else []
kept _ emitting = []

-- The loop over the lines, and the lines that it puts out.
unfoldable pub run :
    (defs : List Chars) → List Directive → List IfState → (emitting : Bool) → List Chars
run defs [] stack emitting = []
run defs (d ∷ ds) stack emitting =
    let next = step defs d stack emitting in kept d emitting ++ run defs ds next.stack next.emitting

unfoldable pub unlines : List Chars → Chars
unlines [] = []
unlines (l ∷ ls) = l ++ (10 ∷ unlines ls)

unfoldable pub preprocess : (source : Chars) (defs : List Chars) → Chars
preprocess source defs = unlines (run defs (map directive_of (lines source)) [] true)
