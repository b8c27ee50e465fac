-- ===== src/Preprocess/Blocks.antt =====
-- What conditional blocks mean, apart from the state machine of src/preprocess.rs, and that it implements it.
use mathlib.Core.List.{append_assoc, append-nil}
use raytask.Prelude.{
  ◌≡◌, refl, sym, ap, ◌∙◌, Bool, true, false, not, ◌&&◌, List, [], ◌∷◌, ◌++◌, map, if◌then◌else◌,
}
use raytask.Preprocess.{
  Chars, eval_cond, lines, Directive, directive_of, IfState, step, kept, run, unlines, preprocess,
}

-- A text with blocks that are closed, each with its `#elif` branches before at most one `#else`.
mutual
  pub data Part : Type 0 where
    line : Chars → Part
    pragma : Part
    block : (cond : Chars) (body : Parts) (others : Branches) → Part

  pub data Parts : Type 0 where
    no_parts : Parts
    part : Part → Parts → Parts

  pub data Branches : Type 0 where
    no_branches : Branches
    elif_branch : (cond : Chars) (body : Parts) (others : Branches) → Branches
    else_branch : (body : Parts) → Branches

-- The lines of a text with blocks.
unfoldable mutual
  pub written : Part → List Directive
  written (Part.line l) = Directive.text l ∷ []
  written Part.pragma = Directive.pragma ∷ []
  written (Part.block cond body others) =
      Directive.when cond ∷ (all_written body ++ branches_written others)

  pub all_written : Parts → List Directive
  all_written Parts.no_parts = []
  all_written (Parts.part p ps) = written p ++ all_written ps

  pub branches_written : Branches → List Directive
  branches_written Branches.no_branches = Directive.endif ∷ []
  branches_written (Branches.elif_branch cond body others) =
      Directive.elif cond ∷ (all_written body ++ branches_written others)
  branches_written (Branches.else_branch body) =
      Directive.otherwise ∷ (all_written body ++ (Directive.endif ∷ []))

-- The lines that are in force: of each block those of the first branch whose condition holds, or of `#else`.
unfoldable mutual
  pub selected : (defs : List Chars) → Part → List Chars
  selected defs (Part.line l) = l ∷ []
  selected defs Part.pragma = []
  selected defs (Part.block cond body others) =
      if eval_cond cond defs then all_selected defs body else branch_selected defs others

  pub all_selected : (defs : List Chars) → Parts → List Chars
  all_selected defs Parts.no_parts = []
  all_selected defs (Parts.part p ps) = selected defs p ++ all_selected defs ps

  pub branch_selected : (defs : List Chars) → Branches → List Chars
  branch_selected defs Branches.no_branches = []
  branch_selected defs (Branches.elif_branch cond body others) =
      if eval_cond cond defs then all_selected defs body else branch_selected defs others
  branch_selected defs (Branches.else_branch body) = all_selected defs body

abbrev if_emitting : Bool → List Chars → List Chars
if_emitting emitting ls = if emitting then ls else []

abbrev in_block : (parent taken : Bool) → List IfState → List IfState
in_block parent taken stack = record { parent_emitting = parent; branch_taken = taken } ∷ stack

-- The first branch, and those behind it if it was not taken.
first_or_others :
    (e c : Bool) (xs ys zs : List Chars)
    → if_emitting (e && c) xs ++ (if_emitting (e && not (e && c)) ys ++ zs)
      ≡ if_emitting e (if c then xs else ys) ++ zs
first_or_others true true xs ys zs = refl
first_or_others true false xs ys zs = refl
first_or_others false c xs ys zs = refl

one_by_one :
    (e : Bool) (xs ys zs : List Chars)
    → if_emitting e xs ++ (if_emitting e ys ++ zs) ≡ if_emitting e (xs ++ ys) ++ zs
one_by_one true xs ys zs = sym (append_assoc xs ys zs)
one_by_one false xs ys zs = refl

abbrev PartsRun : (defs : List Chars) → Parts → Type 0
PartsRun defs ps =
    (rest : List Directive) (stack : List IfState) (emitting : Bool)
    → run defs (all_written ps ++ rest) stack emitting
      ≡ if_emitting emitting (all_selected defs ps) ++ run defs rest stack emitting

abbrev BranchesRun : (defs : List Chars) → Branches → Type 0
BranchesRun defs bs =
    (rest : List Directive) (stack : List IfState) (parent taken emitting : Bool)
    → run defs (branches_written bs ++ rest) (in_block parent taken stack) emitting
      ≡ if_emitting (parent && not taken) (branch_selected defs bs) ++ run defs rest stack parent

-- A branch and those behind it.
run-body :
    (defs : List Chars) (body : Parts) (others : Branches)
    → PartsRun defs body
    → BranchesRun defs others
    → (rest : List Directive) (stack : List IfState) (parent taken emitting : Bool)
    → run defs
        ((all_written body ++ branches_written others) ++ rest)
        (in_block parent taken stack)
        emitting
      ≡ if_emitting emitting (all_selected defs body)
        ++ (if_emitting (parent && not taken) (branch_selected defs others)
            ++ run defs rest stack parent)
run-body defs body others inner outer rest stack parent taken emitting =
    ap (λ ds. run defs ds (in_block parent taken stack) emitting)
      (append_assoc (all_written body) (branches_written others) rest)
    ∙ inner (branches_written others ++ rest) (in_block parent taken stack) emitting
    ∙ ap (λ ls. if_emitting emitting (all_selected defs body) ++ ls)
        (outer rest stack parent taken emitting)

-- The branch of `#else`.
run-last :
    (defs : List Chars) (body : Parts)
    → PartsRun defs body
    → (rest : List Directive) (stack : List IfState) (parent taken emitting : Bool)
    → run defs
        ((all_written body ++ (Directive.endif ∷ [])) ++ rest)
        (in_block parent taken stack)
        emitting
      ≡ if_emitting emitting (all_selected defs body) ++ run defs rest stack parent
unfolding run step kept
run-last defs body inner rest stack parent taken emitting =
    ap (λ ds. run defs ds (in_block parent taken stack) emitting)
      (append_assoc (all_written body) (Directive.endif ∷ []) rest)
    ∙ inner (Directive.endif ∷ rest) (in_block parent taken stack) emitting

-- A part is put out if the lines around it are, and leaves the state as it was.
mutual
  unfolding written all_written branches_written selected all_selected branch_selected run step kept

  run-part :
      (defs : List Chars) (p : Part) (rest : List Directive) (stack : List IfState)
      (emitting : Bool)
      → run defs (written p ++ rest) stack emitting
        ≡ if_emitting emitting (selected defs p) ++ run defs rest stack emitting
  run-part defs (Part.line l) rest stack true = refl
  run-part defs (Part.line l) rest stack false = refl
  run-part defs Part.pragma rest stack true = refl
  run-part defs Part.pragma rest stack false = refl
  run-part defs (Part.block cond body others) rest stack emitting =
      let active = emitting && eval_cond cond defs in
      run-body defs body others (run-parts defs body) (run-branches defs others) rest stack emitting
        active active
      ∙ first_or_others emitting (eval_cond cond defs) (all_selected defs body)
          (branch_selected defs others) _

  run-parts : (defs : List Chars) (ps : Parts) → PartsRun defs ps
  run-parts defs Parts.no_parts rest stack true = refl
  run-parts defs Parts.no_parts rest stack false = refl
  run-parts defs (Parts.part p ps) rest stack emitting =
      ap (λ ds. run defs ds stack emitting) (append_assoc (written p) (all_written ps) rest)
      ∙ run-part defs p (all_written ps ++ rest) stack emitting
      ∙ ap (λ ls. if_emitting emitting (selected defs p) ++ ls)
          (run-parts defs ps rest stack emitting)
      ∙ one_by_one emitting (selected defs p) (all_selected defs ps) _

  run-branches : (defs : List Chars) (bs : Branches) → BranchesRun defs bs
  run-branches defs Branches.no_branches rest stack true true emitting = refl
  run-branches defs Branches.no_branches rest stack true false emitting = refl
  run-branches defs Branches.no_branches rest stack false taken emitting = refl
  run-branches defs (Branches.elif_branch cond body others) rest stack true true emitting =
      run-body defs body others (run-parts defs body) (run-branches defs others) rest stack true
        true false
  run-branches defs (Branches.elif_branch cond body others) rest stack true false emitting =
      let active = eval_cond cond defs in
      run-body defs body others (run-parts defs body) (run-branches defs others) rest stack true
        active active
      ∙ first_or_others true active (all_selected defs body) (branch_selected defs others) _
  run-branches defs (Branches.elif_branch cond body others) rest stack false taken emitting =
      run-body defs body others (run-parts defs body) (run-branches defs others) rest stack false
        taken false
  run-branches defs (Branches.else_branch body) rest stack true true emitting =
      run-last defs body (run-parts defs body) rest stack true true false
  run-branches defs (Branches.else_branch body) rest stack true false emitting =
      run-last defs body (run-parts defs body) rest stack true true true
  run-branches defs (Branches.else_branch body) rest stack false taken emitting =
      run-last defs body (run-parts defs body) rest stack false taken false

-- A source whose lines are a text with closed blocks is turned into the lines that are in force.
pub preprocess-selected :
    (source : Chars) (defs : List Chars) (ps : Parts)
    → map directive_of (lines source) ≡ all_written ps
    → preprocess source defs ≡ unlines (all_selected defs ps)
unfolding preprocess run
preprocess-selected source defs ps h =
    ap (λ ds. unlines (run defs ds [] true)) (h ∙ sym (append-nil (all_written ps)))
    ∙ ap unlines (run-parts defs ps [] [] true ∙ append-nil (all_selected defs ps))
