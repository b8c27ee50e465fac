-- ===== src/Ssa/Uses.antt =====
-- The values that an instruction uses: `replace_uses` of src/ssa/ir.rs, which renames one of them, and
-- `mark_uses` of src/ssa/passes/dce.rs, which lists them.
use mathlib.Core.Path.{subst}
use mathlib.Core.List.{Memᴰ}
use raytask.Prelude.{
  ℕ, ◌≡◌, ◌≢◌, refl, ap, ◌==◌, none, some, List, [], ◌∷◌, ◌++◌, map, if◌then◌else◌, arith,
}
use raytask.Ssa.{
  InstKind, load, store, bin_op, un_op, call, set_global, define_global, get_property, set_property,
  get_index, set_index, new_object, new_array, print, dup, await, set_upvalue, make_closure, phi,
  Inst, Terminator, cond_br, return, throw, BasicBlock, Blocks,
}

unfoldable pub rewrite : (from to v : ℕ) → ℕ
rewrite from to v = if v == from then to else v

unfoldable pub rewrite_incomings : (from to : ℕ) → List (ℕ × ℕ) → List (ℕ × ℕ)
rewrite_incomings from to [] = []
rewrite_incomings from to ((bb, v) ∷ is) = (bb, rewrite from to v) ∷ rewrite_incomings from to is

unfoldable pub rewrite_inst_uses : (from to : ℕ) → InstKind → InstKind
rewrite_inst_uses from to (load ptr) = load (rewrite from to ptr)
rewrite_inst_uses from to (store ptr value) = store (rewrite from to ptr) (rewrite from to value)
rewrite_inst_uses from to (bin_op op lhs rhs) =
    bin_op op (rewrite from to lhs) (rewrite from to rhs)
rewrite_inst_uses from to (un_op op arg) = un_op op (rewrite from to arg)
rewrite_inst_uses from to (call callee args effectful) =
    call (rewrite from to callee) (map (rewrite from to) args) effectful
rewrite_inst_uses from to (set_global index value) = set_global index (rewrite from to value)
rewrite_inst_uses from to (define_global index value) = define_global index (rewrite from to value)
rewrite_inst_uses from to (get_property object name) =
    get_property (rewrite from to object) (rewrite from to name)
rewrite_inst_uses from to (set_property object name value) =
    set_property (rewrite from to object) (rewrite from to name) (rewrite from to value)
rewrite_inst_uses from to (get_index object index) =
    get_index (rewrite from to object) (rewrite from to index)
rewrite_inst_uses from to (set_index object index value) =
    set_index (rewrite from to object) (rewrite from to index) (rewrite from to value)
rewrite_inst_uses from to (new_object class_index (some name)) =
    new_object class_index (some (rewrite from to name))
rewrite_inst_uses from to (new_array elems) = new_array (map (rewrite from to) elems)
rewrite_inst_uses from to (print value) = print (rewrite from to value)
rewrite_inst_uses from to (dup value) = dup (rewrite from to value)
rewrite_inst_uses from to (await value) = await (rewrite from to value)
rewrite_inst_uses from to (set_upvalue index value) = set_upvalue index (rewrite from to value)
rewrite_inst_uses from to (make_closure proto captures) =
    make_closure (rewrite from to proto) captures
rewrite_inst_uses from to (phi incomings) = phi (rewrite_incomings from to incomings)
rewrite_inst_uses from to kind = kind

unfoldable pub rewrite_term : (from to : ℕ) → Terminator → Terminator
rewrite_term from to (cond_br cond then_bb else_bb) = cond_br (rewrite from to cond) then_bb else_bb
rewrite_term from to (return (some v)) = return (some (rewrite from to v))
rewrite_term from to (throw v) = throw (rewrite from to v)
rewrite_term from to term = term

abbrev rewrite_inst : (from to : ℕ) → Inst → Inst
rewrite_inst from to i = record i { kind = rewrite_inst_uses from to i.kind }

unfoldable pub rewrite_block : (from to : ℕ) → BasicBlock → BasicBlock
rewrite_block from to b = record b {
  insts = map (rewrite_inst from to) b.insts;
  term = rewrite_term from to b.term;
}

unfoldable pub replace_uses : (from to : ℕ) → Blocks → Blocks
replace_uses from to [] = []
replace_uses from to ((k, b) ∷ bs) = (k, rewrite_block from to b) ∷ replace_uses from to bs

abbrev incoming_values : List (ℕ × ℕ) → List ℕ
incoming_values [] = []
incoming_values ((bb, v) ∷ is) = v ∷ incoming_values is

-- What `mark_uses` inserts.
unfoldable pub mark_uses : InstKind → List ℕ
mark_uses (load ptr) = ptr ∷ []
mark_uses (store ptr value) = ptr ∷ value ∷ []
mark_uses (bin_op op lhs rhs) = lhs ∷ rhs ∷ []
mark_uses (un_op op arg) = arg ∷ []
mark_uses (call callee args effectful) = callee ∷ args
mark_uses (set_global index value) = value ∷ []
mark_uses (define_global index value) = value ∷ []
mark_uses (get_property object name) = object ∷ name ∷ []
mark_uses (set_property object name value) = object ∷ name ∷ value ∷ []
mark_uses (get_index object index) = object ∷ index ∷ []
mark_uses (set_index object index value) = object ∷ index ∷ value ∷ []
mark_uses (new_object class_index (some name)) = name ∷ []
mark_uses (new_array elems) = elems
mark_uses (print value) = value ∷ []
mark_uses (dup value) = value ∷ []
mark_uses (await value) = value ∷ []
mark_uses (set_upvalue index value) = value ∷ []
mark_uses (make_closure proto captures) = proto ∷ []
mark_uses (phi incomings) = incoming_values incomings
mark_uses kind = []

-- The values that the terminator uses.
unfoldable pub term_uses : Terminator → List ℕ
term_uses (cond_br cond then_bb else_bb) = cond ∷ []
term_uses (return (some v)) = v ∷ []
term_uses (throw v) = v ∷ []
term_uses term = []

incoming_values-rewrite :
    (from to : ℕ) (is : List (ℕ × ℕ))
    → incoming_values (rewrite_incomings from to is) ≡ map (rewrite from to) (incoming_values is)
unfolding rewrite_incomings
incoming_values-rewrite from to [] = refl
incoming_values-rewrite from to ((bb, v) ∷ is) =
    ap (λ vs. rewrite from to v ∷ vs) (incoming_values-rewrite from to is)

-- The renaming is of all the values that the instruction uses, in their order.
pub mark_uses-rewrite :
    (from to : ℕ) (kind : InstKind)
    → mark_uses (rewrite_inst_uses from to kind) ≡ map (rewrite from to) (mark_uses kind)
unfolding mark_uses rewrite_inst_uses
mark_uses-rewrite from to (new_object class_index none) = refl
mark_uses-rewrite from to (new_object class_index (some name)) = refl
mark_uses-rewrite from to (phi incomings) = incoming_values-rewrite from to incomings
mark_uses-rewrite from to _ = refl

term_uses-rewrite :
    (from to : ℕ) (term : Terminator)
    → term_uses (rewrite_term from to term) ≡ map (rewrite from to) (term_uses term)
unfolding term_uses rewrite_term
term_uses-rewrite from to (return none) = refl
term_uses-rewrite from to (return (some v)) = refl
term_uses-rewrite from to _ = refl

abbrev pub inst_uses : List Inst → List ℕ
inst_uses [] = []
inst_uses (i ∷ is) = mark_uses i.kind ++ inst_uses is

-- The values that the instructions and terminators use, block by block.
unfoldable pub uses : Blocks → List ℕ
uses [] = []
uses ((k, b) ∷ bs) = (inst_uses b.insts ++ term_uses b.term) ++ uses bs

map-append {ℓ κ} :
    {A : Type ℓ} {B : Type κ} (f : A → B) (xs ys : List A) → map f (xs ++ ys) ≡ map f xs ++ map f ys
map-append f [] ys = refl
map-append f (x ∷ xs) ys = ap (λ l. f x ∷ l) (map-append f xs ys)

inst_uses-rewrite :
    (from to : ℕ) (is : List Inst)
    → inst_uses (map (rewrite_inst from to) is) ≡ map (rewrite from to) (inst_uses is)
inst_uses-rewrite from to [] = refl
inst_uses-rewrite from to (i ∷ is) =
    rw
      (
        mark_uses-rewrite from to i.kind,
        inst_uses-rewrite from to is,
        map-append (rewrite from to) (mark_uses i.kind) (inst_uses is),
      )
      refl

-- replace_uses renames the value in each place where an instruction or a terminator uses one, as dead code
-- elimination counts the uses, and changes no other.
pub uses-replace_uses :
    (from to : ℕ) (bs : Blocks) → uses (replace_uses from to bs) ≡ map (rewrite from to) (uses bs)
unfolding uses replace_uses rewrite_block
uses-replace_uses from to [] = refl
uses-replace_uses from to ((k, b) ∷ bs) =
    rw
      (
        inst_uses-rewrite from to b.insts,
        term_uses-rewrite from to b.term,
        uses-replace_uses from to bs,
        map-append (rewrite from to) (inst_uses b.insts ++ term_uses b.term) (uses bs),
        map-append (rewrite from to) (inst_uses b.insts) (term_uses b.term),
      )
      refl

rewrite-gone : (from to : ℕ) (vs : List ℕ) → from ≢ to → Memᴰ from (map (rewrite from to) vs) → ⊥
unfolding rewrite
rewrite-gone from to [] h x' = elim x' [ ]
rewrite-gone from to (v ∷ vs) h (Memᴰ.head e) = ground arith
rewrite-gone from to (v ∷ vs) h (Memᴰ.tail m) = rewrite-gone from to vs h m

-- The renamed value is used nowhere afterwards.
pub replace_uses-gone :
    (from to : ℕ) (bs : Blocks) → from ≢ to → Memᴰ from (uses (replace_uses from to bs)) → ⊥
replace_uses-gone from to bs h m =
    rewrite-gone from to (uses bs) h (subst (Memᴰ from) (uses-replace_uses from to bs) m)
