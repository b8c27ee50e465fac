-- ===== src/Bytecode/Op/Names.antt =====
-- `Op::name` of src/bytecode.rs.
use mathlib.Core.Option.{some-injective}
use raytask.Prelude.{◌≡◌, refl, sym, ap, ◌∙◌, Option, none, some, List, [], ◌∷◌, if◌then◌else◌}
use raytask.Prelude.Text.{Str, codes, same_bytes}
use raytask.Bytecode.Op.{Op}

unfoldable pub name : Op → Str
name Op.constant = codes "Constant"
name Op.null = codes "Null"
name Op.true = codes "True"
name Op.false = codes "False"
name Op.pop = codes "Pop"
name Op.get_local = codes "GetLocal"
name Op.set_local = codes "SetLocal"
name Op.get_global = codes "GetGlobal"
name Op.set_global = codes "SetGlobal"
name Op.define_global = codes "DefineGlobal"
name Op.get_property = codes "GetProperty"
name Op.set_property = codes "SetProperty"
name Op.get_index = codes "GetIndex"
name Op.set_index = codes "SetIndex"
name Op.add = codes "Add"
name Op.sub = codes "Sub"
name Op.mul = codes "Mul"
name Op.div = codes "Div"
name Op.modulo = codes "Mod"
name Op.eq = codes "Eq"
name Op.ne = codes "Ne"
name Op.lt = codes "Lt"
name Op.le = codes "Le"
name Op.gt = codes "Gt"
name Op.ge = codes "Ge"
name Op.and = codes "And"
name Op.or = codes "Or"
name Op.bit_and = codes "BitAnd"
name Op.bit_or = codes "BitOr"
name Op.bit_xor = codes "BitXor"
name Op.shl = codes "Shl"
name Op.shr = codes "Shr"
name Op.neg = codes "Neg"
name Op.not = codes "Not"
name Op.bit_not = codes "BitNot"
name Op.null_coalesce = codes "NullCoalesce"
name Op.jump = codes "Jump"
name Op.jump_if_false = codes "JumpIfFalse"
name Op.jump_if_true = codes "JumpIfTrue"
name Op.loop = codes "Loop"
name Op.call = codes "Call"
name Op.return = codes "Return"
name Op.new_object = codes "NewObject"
name Op.new_array = codes "NewArray"
name Op.print = codes "Print"
name Op.dup = codes "Dup"
name Op.halt = codes "Halt"
name Op.throw = codes "Throw"
name Op.try_begin = codes "TryBegin"
name Op.try_end = codes "TryEnd"
name Op.is_null = codes "IsNull"
name Op.to_string = codes "ToString"
name Op.inc_local = codes "IncLocal"
name Op.dec_local = codes "DecLocal"
name Op.make_closure = codes "MakeClosure"
name Op.await = codes "Await"
name Op.get_upvalue = codes "GetUpvalue"
name Op.set_upvalue = codes "SetUpvalue"
name Op.is_instance = codes "IsInstance"
name Op.constant16 = codes "Constant16"
name Op.get_global16 = codes "GetGlobal16"
name Op.set_global16 = codes "SetGlobal16"
name Op.define_global16 = codes "DefineGlobal16"
name Op.string_starts_with = codes "StringStartsWith"

abbrev all_ops : List Op
all_ops =
    Op.constant ∷ Op.null ∷ Op.true ∷ Op.false ∷ Op.pop ∷ Op.get_local ∷ Op.set_local
    ∷ Op.get_global ∷ Op.set_global ∷ Op.define_global ∷ Op.get_property ∷ Op.set_property
    ∷ Op.get_index ∷ Op.set_index ∷ Op.add ∷ Op.sub ∷ Op.mul ∷ Op.div ∷ Op.modulo ∷ Op.eq ∷ Op.ne
    ∷ Op.lt ∷ Op.le ∷ Op.gt ∷ Op.ge ∷ Op.and ∷ Op.or ∷ Op.bit_and ∷ Op.bit_or ∷ Op.bit_xor ∷ Op.shl
    ∷ Op.shr ∷ Op.neg ∷ Op.not ∷ Op.bit_not ∷ Op.null_coalesce ∷ Op.jump ∷ Op.jump_if_false
    ∷ Op.jump_if_true ∷ Op.loop ∷ Op.call ∷ Op.return ∷ Op.new_object ∷ Op.new_array ∷ Op.print
    ∷ Op.dup ∷ Op.halt ∷ Op.throw ∷ Op.try_begin ∷ Op.try_end ∷ Op.is_null ∷ Op.to_string
    ∷ Op.inc_local ∷ Op.dec_local ∷ Op.make_closure ∷ Op.await ∷ Op.get_upvalue ∷ Op.set_upvalue
    ∷ Op.is_instance ∷ Op.constant16 ∷ Op.get_global16 ∷ Op.set_global16 ∷ Op.define_global16
    ∷ Op.string_starts_with ∷ []

-- The first instruction of this name.
first_named : Str → List Op → Option Op
first_named text [] = none
first_named text (op ∷ ops) =
    let later = first_named text ops in if same_bytes (name op) text then some op else later

first_named-name : (op : Op) → first_named (name op) all_ops ≡ some op
unfolding name first_named same_bytes
first_named-name Op.constant = refl
first_named-name _ = refl

-- Different instructions have different names.
pub name-injective : (a b : Op) → name a ≡ name b → a ≡ b
name-injective a b e =
    some-injective a b
      (sym (first_named-name a) ∙ ap (λ text. first_named text all_ops) e ∙ first_named-name b)
