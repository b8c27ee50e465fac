-- ===== src/Preprocess/Tests.antt =====
-- src/preprocess.rs on a small source.
use raytask.Prelude.{◌≡◌, refl, [], ◌∷◌, ◌++◌}
use raytask.Prelude.Text.{same_bytes}
use raytask.Preprocess.{
  Chars, chars, is_whitespace, trim_start, trim_end, trim, starts_with, eq_ignore_ascii_case, lines,
  contains, eval_cond, directive_of, unlines, preprocess, run, step, kept,
}
use raytask.Preprocess.Blocks.{
  Part, Parts, Branches, written, all_written, branches_written, all_selected, preprocess-selected,
}

abbrev newline : Chars
newline = 10 ∷ []

abbrev source : Chars
source =
    chars "a"
    ++ newline
    ++ chars "#if X"
    ++ newline
    ++ chars "b"
    ++ newline
    ++ chars " # elif !Y"
    ++ newline
    ++ chars "c"
    ++ newline
    ++ chars "#Else"
    ++ newline
    ++ chars "d"
    ++ newline
    ++ chars "#endif"
    ++ newline
    ++ chars "e"

abbrev one : Chars → Parts
one l = Parts.part (Part.line l) Parts.no_parts

abbrev blocks : Parts
blocks = Parts.part (Part.line (chars "a")) (
    Parts.part
      (Part.block (chars "X") (one (chars "b")) (
        Branches.elif_branch (chars "!Y") (one (chars "c"))
          (Branches.else_branch (one (chars "d")))))
      (one (chars "e")))

preprocess-selected_example : preprocess source [] ≡ unlines (all_selected [] blocks)
unfolding directive_of lines starts_with trim trim_start trim_end is_whitespace eq_ignore_ascii_case
    same_bytes written all_written branches_written
preprocess-selected_example = preprocess-selected source [] blocks refl

-- The lines of the blocks are gone, so that those behind are counted from a smaller number on.
second_branch :
    preprocess source [] ≡ chars "a" ++ newline ++ chars "c" ++ newline ++ chars "e" ++ newline
unfolding preprocess run step kept unlines directive_of lines starts_with trim trim_start trim_end
    is_whitespace eq_ignore_ascii_case same_bytes eval_cond contains
second_branch = refl
