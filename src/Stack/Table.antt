-- ===== src/Stack/Table.antt =====
-- `op_name` and `lookup` of code.rs: the name of an instruction and the widths of its operands.
use Prim.Native.String.{String}
use formlogic_rust.Common.{List, [], ℕ, ◌∷◌}
use formlogic_rust.Stack.Op.{Opcode}

unfoldable pub op_name : Opcode → String
op_name Opcode.op_constant = "OpConstant"
op_name Opcode.op_add = "OpAdd"
op_name Opcode.op_sub = "OpSub"
op_name Opcode.op_mul = "OpMul"
op_name Opcode.op_div = "OpDiv"
op_name Opcode.op_mod = "OpMod"
op_name Opcode.op_pop = "OpPop"
op_name Opcode.op_true = "OpTrue"
op_name Opcode.op_false = "OpFalse"
op_name Opcode.op_null = "OpNull"
op_name Opcode.op_undefined = "OpUndefined"
op_name Opcode.op_equal = "OpEqual"
op_name Opcode.op_not_equal = "OpNotEqual"
op_name Opcode.op_greater_than = "OpGreaterThan"
op_name Opcode.op_minus = "OpMinus"
op_name Opcode.op_bang = "OpBang"
op_name Opcode.op_jump_not_truthy = "OpJumpNotTruthy"
op_name Opcode.op_jump = "OpJump"
op_name Opcode.op_get_global = "OpGetGlobal"
op_name Opcode.op_set_global = "OpSetGlobal"
op_name Opcode.op_get_local = "OpGetLocal"
op_name Opcode.op_set_local = "OpSetLocal"
op_name Opcode.op_array = "OpArray"
op_name Opcode.op_hash = "OpHash"
op_name Opcode.op_index = "OpIndex"
op_name Opcode.op_call = "OpCall"
op_name Opcode.op_return_value = "OpReturnValue"
op_name Opcode.op_return = "OpReturn"
op_name Opcode.op_get_property = "OpGetProperty"
op_name Opcode.op_get_local_property = "OpGetLocalProperty"
op_name Opcode.op_get_global_property = "OpGetGlobalProperty"
op_name Opcode.op_set_local_property = "OpSetLocalProperty"
op_name Opcode.op_set_global_property = "OpSetGlobalProperty"
op_name Opcode.op_await = "OpAwait"
op_name Opcode.op_append_element = "OpAppendElement"
op_name Opcode.op_append_spread = "OpAppendSpread"
op_name Opcode.op_throw = "OpThrow"
op_name Opcode.op_set_index = "OpSetIndex"
op_name Opcode.op_new = "OpNew"
op_name Opcode.op_super = "OpSuper"
op_name Opcode.op_typeof = "OpTypeof"
op_name Opcode.op_pow = "OpPow"
op_name Opcode.op_is_nullish = "OpIsNullish"
op_name Opcode.op_strict_equal = "OpStrictEqual"
op_name Opcode.op_strict_not_equal = "OpStrictNotEqual"
op_name Opcode.op_instanceof = "OpInstanceof"
op_name Opcode.op_in = "OpIn"
op_name Opcode.op_delete_property = "OpDeleteProperty"
op_name Opcode.op_unsigned_right_shift = "OpUnsignedRightShift"
op_name Opcode.op_bitwise_and = "OpBitwiseAnd"
op_name Opcode.op_bitwise_or = "OpBitwiseOr"
op_name Opcode.op_bitwise_xor = "OpBitwiseXor"
op_name Opcode.op_left_shift = "OpLeftShift"
op_name Opcode.op_right_shift = "OpRightShift"
op_name Opcode.op_less_than = "OpLessThan"
op_name Opcode.op_less_or_equal = "OpLessOrEqual"
op_name Opcode.op_greater_or_equal = "OpGreaterOrEqual"
op_name Opcode.op_iterator_rest = "OpIteratorRest"
op_name Opcode.op_get_keys_iterator = "OpGetKeysIterator"
op_name Opcode.op_object_rest = "OpObjectRest"
op_name Opcode.op_unary_plus = "OpUnaryPlus"
op_name Opcode.op_call_spread = "OpCallSpread"
op_name Opcode.op_new_spread = "OpNewSpread"
op_name Opcode.op_set_local_property_pop = "OpSetLocalPropertyPop"
op_name Opcode.op_set_global_property_pop = "OpSetGlobalPropertyPop"
op_name Opcode.op_increment_local = "OpIncrementLocal"
op_name Opcode.op_test_local_lt_const_jump = "OpTestLocalLtConstJump"
op_name Opcode.op_test_local_le_const_jump = "OpTestLocalLeConstJump"
op_name Opcode.op_increment_global = "OpIncrementGlobal"
op_name Opcode.op_test_global_lt_const_jump = "OpTestGlobalLtConstJump"
op_name Opcode.op_test_global_le_const_jump = "OpTestGlobalLeConstJump"
op_name Opcode.op_accumulate_global = "OpAccumulateGlobal"
op_name Opcode.op_increment_global_and_jump = "OpIncrementGlobalAndJump"
op_name Opcode.op_call_global = "OpCallGlobal"
op_name Opcode.op_mod_global_const_strict_eq_const_jump = "OpModGlobalConstStrictEqConstJump"
op_name Opcode.op_add_const_to_global_property = "OpAddConstToGlobalProperty"
op_name Opcode.op_add_global_props_to_global_prop = "OpAddGlobalPropsToGlobalProp"
op_name Opcode.op_define_accessor = "OpDefineAccessor"
op_name Opcode.op_init_class = "OpInitClass"
op_name Opcode.op_new_target = "OpNewTarget"
op_name Opcode.op_import_meta = "OpImportMeta"
op_name Opcode.op_yield = "OpYield"
op_name Opcode.op_halt = "OpHalt"

pub record Definition : Type 0 where
  pub name : String
  pub operand_widths : List ℕ

abbrev named : String → List ℕ → Definition
named name operand_widths = record { name = name; operand_widths = operand_widths }

unfoldable pub lookup : Opcode → Definition
unfolding op_name
lookup Opcode.op_constant = named "OpConstant" (2 ∷ [])
lookup Opcode.op_jump_not_truthy = named (op_name Opcode.op_jump_not_truthy) (2 ∷ [])
lookup Opcode.op_jump = named (op_name Opcode.op_jump) (2 ∷ [])
lookup Opcode.op_get_global = named (op_name Opcode.op_get_global) (2 ∷ [])
lookup Opcode.op_set_global = named (op_name Opcode.op_set_global) (2 ∷ [])
lookup Opcode.op_get_local = named (op_name Opcode.op_get_local) (2 ∷ [])
lookup Opcode.op_set_local = named (op_name Opcode.op_set_local) (2 ∷ [])
lookup Opcode.op_array = named (op_name Opcode.op_array) (2 ∷ [])
lookup Opcode.op_hash = named (op_name Opcode.op_hash) (2 ∷ [])
lookup Opcode.op_call = named (op_name Opcode.op_call) (1 ∷ [])
lookup Opcode.op_get_property = named (op_name Opcode.op_get_property) (2 ∷ 2 ∷ [])
lookup Opcode.op_get_local_property = named (op_name Opcode.op_get_local_property) (2 ∷ 2 ∷ 2 ∷ [])
lookup Opcode.op_get_global_property =
    named (op_name Opcode.op_get_global_property) (2 ∷ 2 ∷ 2 ∷ [])
lookup Opcode.op_set_local_property = named (op_name Opcode.op_set_local_property) (2 ∷ 2 ∷ 2 ∷ [])
lookup Opcode.op_set_global_property =
    named (op_name Opcode.op_set_global_property) (2 ∷ 2 ∷ 2 ∷ [])
lookup Opcode.op_new = named (op_name Opcode.op_new) (1 ∷ [])
lookup Opcode.op_object_rest = named (op_name Opcode.op_object_rest) (2 ∷ [])
lookup Opcode.op_call_spread = named (op_name Opcode.op_call_spread) ([])
lookup Opcode.op_new_spread = named (op_name Opcode.op_new_spread) ([])
lookup Opcode.op_set_local_property_pop =
    named (op_name Opcode.op_set_local_property_pop) (2 ∷ 2 ∷ 2 ∷ [])
lookup Opcode.op_set_global_property_pop =
    named (op_name Opcode.op_set_global_property_pop) (2 ∷ 2 ∷ 2 ∷ [])
lookup Opcode.op_increment_local = named (op_name Opcode.op_increment_local) (2 ∷ 2 ∷ [])
lookup Opcode.op_test_local_lt_const_jump =
    named (op_name Opcode.op_test_local_lt_const_jump) (2 ∷ 2 ∷ 2 ∷ [])
lookup Opcode.op_test_local_le_const_jump =
    named (op_name Opcode.op_test_local_le_const_jump) (2 ∷ 2 ∷ 2 ∷ [])
lookup Opcode.op_increment_global = named (op_name Opcode.op_increment_global) (2 ∷ 2 ∷ [])
lookup Opcode.op_test_global_lt_const_jump =
    named (op_name Opcode.op_test_global_lt_const_jump) (2 ∷ 2 ∷ 2 ∷ [])
lookup Opcode.op_test_global_le_const_jump =
    named (op_name Opcode.op_test_global_le_const_jump) (2 ∷ 2 ∷ 2 ∷ [])
lookup Opcode.op_accumulate_global = named (op_name Opcode.op_accumulate_global) (2 ∷ 2 ∷ [])
lookup Opcode.op_increment_global_and_jump =
    named (op_name Opcode.op_increment_global_and_jump) (2 ∷ 2 ∷ 2 ∷ [])
lookup Opcode.op_call_global = named (op_name Opcode.op_call_global) (2 ∷ 2 ∷ [])
lookup Opcode.op_mod_global_const_strict_eq_const_jump =
    named (op_name Opcode.op_mod_global_const_strict_eq_const_jump) (2 ∷ 2 ∷ 2 ∷ 2 ∷ [])
lookup Opcode.op_add_const_to_global_property =
    named (op_name Opcode.op_add_const_to_global_property) (2 ∷ 2 ∷ 2 ∷ 2 ∷ [])
lookup Opcode.op_add_global_props_to_global_prop =
    named (op_name Opcode.op_add_global_props_to_global_prop) (2 ∷ 2 ∷ 2 ∷ 2 ∷ 2 ∷ 2 ∷ 2 ∷ [])
lookup Opcode.op_define_accessor = named "OpDefineAccessor" (2 ∷ 2 ∷ [])
lookup Opcode.op_init_class = named "OpInitClass" ([])
lookup op = named (op_name op) []
