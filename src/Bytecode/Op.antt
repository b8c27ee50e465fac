-- ===== src/Bytecode/Op.antt =====
-- `Op` of src/bytecode.rs: the instructions and their bytes.
pub mod Bytes
pub mod Names
use raytask.Prelude.{ℕ, Option, none, some, ◌==◌, if◌then◌else◌}

pub data Op : Type 0 where
  constant null true false pop get_local set_local get_global set_global define_global : Op
  get_property set_property get_index set_index add sub mul div modulo eq ne lt le gt ge and or : Op
  bit_and bit_or bit_xor shl shr neg not bit_not null_coalesce jump jump_if_false jump_if_true : Op
  loop call return new_object new_array print dup halt throw try_begin try_end is_null : Op
  to_string inc_local dec_local make_closure await get_upvalue set_upvalue is_instance : Op
  constant16 get_global16 set_global16 define_global16 string_starts_with : Op

-- `op as u8`
unfoldable pub to_byte : Op → ℕ
to_byte constant = 1
to_byte null = 2
to_byte true = 3
to_byte false = 4
to_byte pop = 5
to_byte get_local = 6
to_byte set_local = 7
to_byte get_global = 8
to_byte set_global = 9
to_byte define_global = 10
to_byte get_property = 11
to_byte set_property = 12
to_byte get_index = 13
to_byte set_index = 14
to_byte add = 15
to_byte sub = 16
to_byte mul = 17
to_byte div = 18
to_byte modulo = 19
to_byte eq = 20
to_byte ne = 21
to_byte lt = 22
to_byte le = 23
to_byte gt = 24
to_byte ge = 25
to_byte and = 26
to_byte or = 27
to_byte bit_and = 28
to_byte bit_or = 29
to_byte bit_xor = 30
to_byte shl = 31
to_byte shr = 32
to_byte neg = 33
to_byte not = 34
to_byte bit_not = 35
to_byte null_coalesce = 36
to_byte jump = 37
to_byte jump_if_false = 38
to_byte jump_if_true = 39
to_byte loop = 40
to_byte call = 41
to_byte return = 42
to_byte new_object = 43
to_byte new_array = 44
to_byte print = 45
to_byte dup = 46
to_byte halt = 47
to_byte throw = 48
to_byte try_begin = 49
to_byte try_end = 50
to_byte is_null = 51
to_byte to_string = 52
to_byte inc_local = 53
to_byte dec_local = 54
to_byte make_closure = 55
to_byte await = 56
to_byte get_upvalue = 57
to_byte set_upvalue = 58
to_byte is_instance = 59
to_byte constant16 = 60
to_byte get_global16 = 61
to_byte set_global16 = 62
to_byte define_global16 = 63
to_byte string_starts_with = 64

unfoldable pub from_byte : ℕ → Option Op
from_byte byte =
    if byte == 1
    then some constant
    else if byte == 2
    then some null
    else if byte == 3
    then some true
    else if byte == 4
    then some false
    else if byte == 5
    then some pop
    else if byte == 6
    then some get_local
    else if byte == 7
    then some set_local
    else if byte == 8
    then some get_global
    else if byte == 9
    then some set_global
    else if byte == 10
    then some define_global
    else if byte == 11
    then some get_property
    else if byte == 12
    then some set_property
    else if byte == 13
    then some get_index
    else if byte == 14
    then some set_index
    else if byte == 15
    then some add
    else if byte == 16
    then some sub
    else if byte == 17
    then some mul
    else if byte == 18
    then some div
    else if byte == 19
    then some modulo
    else if byte == 20
    then some eq
    else if byte == 21
    then some ne
    else if byte == 22
    then some lt
    else if byte == 23
    then some le
    else if byte == 24
    then some gt
    else if byte == 25
    then some ge
    else if byte == 26
    then some and
    else if byte == 27
    then some or
    else if byte == 28
    then some bit_and
    else if byte == 29
    then some bit_or
    else if byte == 30
    then some bit_xor
    else if byte == 31
    then some shl
    else if byte == 32
    then some shr
    else if byte == 33
    then some neg
    else if byte == 34
    then some not
    else if byte == 35
    then some bit_not
    else if byte == 36
    then some null_coalesce
    else if byte == 37
    then some jump
    else if byte == 38
    then some jump_if_false
    else if byte == 39
    then some jump_if_true
    else if byte == 40
    then some loop
    else if byte == 41
    then some call
    else if byte == 42
    then some return
    else if byte == 43
    then some new_object
    else if byte == 44
    then some new_array
    else if byte == 45
    then some print
    else if byte == 46
    then some dup
    else if byte == 47
    then some halt
    else if byte == 48
    then some throw
    else if byte == 49
    then some try_begin
    else if byte == 50
    then some try_end
    else if byte == 51
    then some is_null
    else if byte == 52
    then some to_string
    else if byte == 53
    then some inc_local
    else if byte == 54
    then some dec_local
    else if byte == 55
    then some make_closure
    else if byte == 56
    then some await
    else if byte == 57
    then some get_upvalue
    else if byte == 58
    then some set_upvalue
    else if byte == 59
    then some is_instance
    else if byte == 60
    then some constant16
    else if byte == 61
    then some get_global16
    else if byte == 62
    then some set_global16
    else if byte == 63
    then some define_global16
    else if byte == 64
    then some string_starts_with
    else none
