-- ===== src/Stack/Op.antt =====
-- The stack instruction set of crates/formlogic-core/src/code.rs: the enum `Opcode`, its bytes and
-- its names.
use formlogic_rust.Common.{List, Option, [], get_elem?, if◌then◌else◌, leb, none, ℕ, ◌∷◌}

pub data Opcode : Type 0 where
  op_constant op_add op_sub op_mul op_div op_mod op_pop op_true op_false op_null : Opcode
  op_undefined op_equal op_not_equal op_greater_than op_minus op_bang op_jump_not_truthy : Opcode
  op_jump op_get_global op_set_global op_get_local op_set_local op_array op_hash : Opcode
  op_index op_call op_return_value op_return op_get_property op_get_local_property : Opcode
  op_get_global_property op_set_local_property op_set_global_property op_await : Opcode
  op_append_element op_append_spread op_throw op_set_index op_new op_super op_typeof : Opcode
  op_pow op_is_nullish op_strict_equal op_strict_not_equal op_instanceof op_in : Opcode
  op_delete_property op_unsigned_right_shift op_bitwise_and op_bitwise_or op_bitwise_xor : Opcode
  op_left_shift op_right_shift op_less_than op_less_or_equal op_greater_or_equal : Opcode
  op_iterator_rest op_get_keys_iterator op_object_rest op_unary_plus op_call_spread : Opcode
  op_new_spread op_set_local_property_pop op_set_global_property_pop op_increment_local : Opcode
  op_test_local_lt_const_jump op_test_local_le_const_jump op_increment_global : Opcode
  op_test_global_lt_const_jump op_test_global_le_const_jump op_accumulate_global : Opcode
  op_increment_global_and_jump op_call_global op_mod_global_const_strict_eq_const_jump : Opcode
  op_add_const_to_global_property op_add_global_props_to_global_prop op_define_accessor : Opcode
  op_init_class op_new_target op_import_meta op_yield op_halt : Opcode

-- `op as u8`: the place of the variant in the declaration.
unfoldable pub to_byte : Opcode → ℕ
to_byte op_constant = 0
to_byte op_add = 1
to_byte op_sub = 2
to_byte op_mul = 3
to_byte op_div = 4
to_byte op_mod = 5
to_byte op_pop = 6
to_byte op_true = 7
to_byte op_false = 8
to_byte op_null = 9
to_byte op_undefined = 10
to_byte op_equal = 11
to_byte op_not_equal = 12
to_byte op_greater_than = 13
to_byte op_minus = 14
to_byte op_bang = 15
to_byte op_jump_not_truthy = 16
to_byte op_jump = 17
to_byte op_get_global = 18
to_byte op_set_global = 19
to_byte op_get_local = 20
to_byte op_set_local = 21
to_byte op_array = 22
to_byte op_hash = 23
to_byte op_index = 24
to_byte op_call = 25
to_byte op_return_value = 26
to_byte op_return = 27
to_byte op_get_property = 28
to_byte op_get_local_property = 29
to_byte op_get_global_property = 30
to_byte op_set_local_property = 31
to_byte op_set_global_property = 32
to_byte op_await = 33
to_byte op_append_element = 34
to_byte op_append_spread = 35
to_byte op_throw = 36
to_byte op_set_index = 37
to_byte op_new = 38
to_byte op_super = 39
to_byte op_typeof = 40
to_byte op_pow = 41
to_byte op_is_nullish = 42
to_byte op_strict_equal = 43
to_byte op_strict_not_equal = 44
to_byte op_instanceof = 45
to_byte op_in = 46
to_byte op_delete_property = 47
to_byte op_unsigned_right_shift = 48
to_byte op_bitwise_and = 49
to_byte op_bitwise_or = 50
to_byte op_bitwise_xor = 51
to_byte op_left_shift = 52
to_byte op_right_shift = 53
to_byte op_less_than = 54
to_byte op_less_or_equal = 55
to_byte op_greater_or_equal = 56
to_byte op_iterator_rest = 57
to_byte op_get_keys_iterator = 58
to_byte op_object_rest = 59
to_byte op_unary_plus = 60
to_byte op_call_spread = 61
to_byte op_new_spread = 62
to_byte op_set_local_property_pop = 63
to_byte op_set_global_property_pop = 64
to_byte op_increment_local = 65
to_byte op_test_local_lt_const_jump = 66
to_byte op_test_local_le_const_jump = 67
to_byte op_increment_global = 68
to_byte op_test_global_lt_const_jump = 69
to_byte op_test_global_le_const_jump = 70
to_byte op_accumulate_global = 71
to_byte op_increment_global_and_jump = 72
to_byte op_call_global = 73
to_byte op_mod_global_const_strict_eq_const_jump = 74
to_byte op_add_const_to_global_property = 75
to_byte op_add_global_props_to_global_prop = 76
to_byte op_define_accessor = 77
to_byte op_init_class = 78
to_byte op_new_target = 79
to_byte op_import_meta = 80
to_byte op_yield = 81
to_byte op_halt = 82

abbrev pub variants : List Opcode
variants =
    op_constant ∷ op_add ∷ op_sub ∷ op_mul ∷ op_div ∷ op_mod ∷ op_pop ∷ op_true ∷ op_false ∷ op_null
    ∷ op_undefined ∷ op_equal ∷ op_not_equal ∷ op_greater_than ∷ op_minus ∷ op_bang
    ∷ op_jump_not_truthy ∷ op_jump ∷ op_get_global ∷ op_set_global ∷ op_get_local ∷ op_set_local
    ∷ op_array ∷ op_hash ∷ op_index ∷ op_call ∷ op_return_value ∷ op_return ∷ op_get_property
    ∷ op_get_local_property ∷ op_get_global_property ∷ op_set_local_property
    ∷ op_set_global_property ∷ op_await ∷ op_append_element ∷ op_append_spread ∷ op_throw
    ∷ op_set_index ∷ op_new ∷ op_super ∷ op_typeof ∷ op_pow ∷ op_is_nullish ∷ op_strict_equal
    ∷ op_strict_not_equal ∷ op_instanceof ∷ op_in ∷ op_delete_property ∷ op_unsigned_right_shift
    ∷ op_bitwise_and ∷ op_bitwise_or ∷ op_bitwise_xor ∷ op_left_shift ∷ op_right_shift
    ∷ op_less_than ∷ op_less_or_equal ∷ op_greater_or_equal ∷ op_iterator_rest
    ∷ op_get_keys_iterator ∷ op_object_rest ∷ op_unary_plus ∷ op_call_spread ∷ op_new_spread
    ∷ op_set_local_property_pop ∷ op_set_global_property_pop ∷ op_increment_local
    ∷ op_test_local_lt_const_jump ∷ op_test_local_le_const_jump ∷ op_increment_global
    ∷ op_test_global_lt_const_jump ∷ op_test_global_le_const_jump ∷ op_accumulate_global
    ∷ op_increment_global_and_jump ∷ op_call_global ∷ op_mod_global_const_strict_eq_const_jump
    ∷ op_add_const_to_global_property ∷ op_add_global_props_to_global_prop ∷ op_define_accessor
    ∷ op_init_class ∷ op_new_target ∷ op_import_meta ∷ op_yield ∷ op_halt ∷ []

-- The `transmute` under its guard.
unfoldable pub from_byte : ℕ → Option Opcode
unfolding to_byte
from_byte value = if leb value (to_byte op_halt) then get_elem? variants value else none
