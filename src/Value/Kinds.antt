-- ===== src/Value/Kinds.antt =====
-- The operators of the SSA form (src/ssa/ir.rs), one for each instruction of the machine.
-- One for each text that `binary_op` of src/value.rs takes.
pub data BinOpKind : Type 0 where
  add sub mul div modulo eq ne lt le gt ge and or bit_and bit_or bit_xor shl shr null_coalesce :
      BinOpKind

pub data UnOpKind : Type 0 where
  neg not_ bit_not is_null to_string : UnOpKind
