-- ===== src/Register/Operands.antt =====
-- The operand tables of rcode.rs: `operand_bytes` and the `widths` that `rmake` selects.
use formlogic_rust.Common.{ℕ, ◌+◌, List, [], ◌∷◌}
use formlogic_rust.Register.Op.{ROp}

unfoldable pub operand_bytes : ROp → ℕ
operand_bytes ROp.load_const = 4
operand_bytes ROp.load_true = 2
operand_bytes ROp.load_false = 2
operand_bytes ROp.load_null = 2
operand_bytes ROp.load_undef = 2
operand_bytes ROp.move = 4
operand_bytes ROp.get_global = 4
operand_bytes ROp.set_global = 4
operand_bytes ROp.add = 6
operand_bytes ROp.sub = 6
operand_bytes ROp.mul = 6
operand_bytes ROp.div = 6
operand_bytes ROp.op_mod = 6
operand_bytes ROp.pow = 6
operand_bytes ROp.equal = 6
operand_bytes ROp.not_equal = 6
operand_bytes ROp.strict_equal = 6
operand_bytes ROp.strict_not_equal = 6
operand_bytes ROp.greater_than = 6
operand_bytes ROp.greater_or_equal = 6
operand_bytes ROp.less_than = 6
operand_bytes ROp.less_or_equal = 6
operand_bytes ROp.instanceof = 6
operand_bytes ROp.op_in = 6
operand_bytes ROp.bitwise_and = 6
operand_bytes ROp.bitwise_or = 6
operand_bytes ROp.bitwise_xor = 6
operand_bytes ROp.left_shift = 6
operand_bytes ROp.right_shift = 6
operand_bytes ROp.unsigned_right_shift = 6
operand_bytes ROp.neg = 4
operand_bytes ROp.not = 4
operand_bytes ROp.unary_plus = 4
operand_bytes ROp.typeof = 4
operand_bytes ROp.is_nullish = 4
operand_bytes ROp.jump = 2
operand_bytes ROp.jump_if_not = 4
operand_bytes ROp.jump_if_truthy = 4
operand_bytes ROp.call = 5
operand_bytes ROp.call_method = 9
operand_bytes ROp.call_spread = 6
operand_bytes ROp.return = 2
operand_bytes ROp.return_undef = 0
operand_bytes ROp.new = 5
operand_bytes ROp.new_spread = 6
operand_bytes ROp.super = 2
operand_bytes ROp.array = 6
operand_bytes ROp.hash = 6
operand_bytes ROp.append_element = 4
operand_bytes ROp.append_spread = 4
operand_bytes ROp.get_prop = 8
operand_bytes ROp.set_prop = 8
operand_bytes ROp.get_global_prop = 8
operand_bytes ROp.set_global_prop = 8
operand_bytes ROp.index = 6
operand_bytes ROp.set_index = 6
operand_bytes ROp.delete_prop = 6
operand_bytes ROp.iterator_rest = 6
operand_bytes ROp.get_keys_iter = 4
operand_bytes ROp.object_rest = 8
operand_bytes ROp.await = 4
operand_bytes ROp.throw = 2
operand_bytes ROp.call_global = 7
operand_bytes ROp.add_reg_const = 6
operand_bytes ROp.test_lt_const_jump = 6
operand_bytes ROp.test_le_const_jump = 6
operand_bytes ROp.increment_reg_and_jump = 6
operand_bytes ROp.mod_reg_const_strict_eq_const_jump = 8
operand_bytes ROp.add_const_to_reg_prop = 8
operand_bytes ROp.add_reg_props_to_reg_prop = 14
operand_bytes ROp.define_accessor = 7
operand_bytes ROp.init_class = 2
operand_bytes ROp.new_target = 2
operand_bytes ROp.import_meta = 2
operand_bytes ROp.yield = 4
operand_bytes ROp.make_closure = 5
operand_bytes ROp.halt = 0
operand_bytes ROp.halt_value = 2

-- The whole instruction, without the slots that follow a `MakeClosure`.
unfoldable pub size : ROp → ℕ
unfolding operand_bytes
size op = 1 + operand_bytes op

unfoldable pub widths : ROp → List ℕ
widths ROp.load_const = 2 ∷ 2 ∷ []
widths ROp.load_true = 2 ∷ []
widths ROp.load_false = 2 ∷ []
widths ROp.load_null = 2 ∷ []
widths ROp.load_undef = 2 ∷ []
widths ROp.move = 2 ∷ 2 ∷ []
widths ROp.get_global = 2 ∷ 2 ∷ []
widths ROp.set_global = 2 ∷ 2 ∷ []
widths ROp.add = 2 ∷ 2 ∷ 2 ∷ []
widths ROp.sub = 2 ∷ 2 ∷ 2 ∷ []
widths ROp.mul = 2 ∷ 2 ∷ 2 ∷ []
widths ROp.div = 2 ∷ 2 ∷ 2 ∷ []
widths ROp.op_mod = 2 ∷ 2 ∷ 2 ∷ []
widths ROp.pow = 2 ∷ 2 ∷ 2 ∷ []
widths ROp.equal = 2 ∷ 2 ∷ 2 ∷ []
widths ROp.not_equal = 2 ∷ 2 ∷ 2 ∷ []
widths ROp.strict_equal = 2 ∷ 2 ∷ 2 ∷ []
widths ROp.strict_not_equal = 2 ∷ 2 ∷ 2 ∷ []
widths ROp.greater_than = 2 ∷ 2 ∷ 2 ∷ []
widths ROp.greater_or_equal = 2 ∷ 2 ∷ 2 ∷ []
widths ROp.less_than = 2 ∷ 2 ∷ 2 ∷ []
widths ROp.less_or_equal = 2 ∷ 2 ∷ 2 ∷ []
widths ROp.instanceof = 2 ∷ 2 ∷ 2 ∷ []
widths ROp.op_in = 2 ∷ 2 ∷ 2 ∷ []
widths ROp.bitwise_and = 2 ∷ 2 ∷ 2 ∷ []
widths ROp.bitwise_or = 2 ∷ 2 ∷ 2 ∷ []
widths ROp.bitwise_xor = 2 ∷ 2 ∷ 2 ∷ []
widths ROp.left_shift = 2 ∷ 2 ∷ 2 ∷ []
widths ROp.right_shift = 2 ∷ 2 ∷ 2 ∷ []
widths ROp.unsigned_right_shift = 2 ∷ 2 ∷ 2 ∷ []
widths ROp.neg = 2 ∷ 2 ∷ []
widths ROp.not = 2 ∷ 2 ∷ []
widths ROp.unary_plus = 2 ∷ 2 ∷ []
widths ROp.typeof = 2 ∷ 2 ∷ []
widths ROp.is_nullish = 2 ∷ 2 ∷ []
widths ROp.jump = 2 ∷ []
widths ROp.jump_if_not = 2 ∷ 2 ∷ []
widths ROp.jump_if_truthy = 2 ∷ 2 ∷ []
widths ROp.call = 2 ∷ 2 ∷ 1 ∷ []
widths ROp.call_method = 2 ∷ 2 ∷ 1 ∷ 2 ∷ 2 ∷ []
widths ROp.call_spread = 2 ∷ 2 ∷ 2 ∷ []
widths ROp.return = 2 ∷ []
widths ROp.return_undef = []
widths ROp.new = 2 ∷ 2 ∷ 1 ∷ []
widths ROp.new_spread = 2 ∷ 2 ∷ 2 ∷ []
widths ROp.super = 2 ∷ []
widths ROp.array = 2 ∷ 2 ∷ 2 ∷ []
widths ROp.hash = 2 ∷ 2 ∷ 2 ∷ []
widths ROp.append_element = 2 ∷ 2 ∷ []
widths ROp.append_spread = 2 ∷ 2 ∷ []
widths ROp.get_prop = 2 ∷ 2 ∷ 2 ∷ 2 ∷ []
widths ROp.set_prop = 2 ∷ 2 ∷ 2 ∷ 2 ∷ []
widths ROp.get_global_prop = 2 ∷ 2 ∷ 2 ∷ 2 ∷ []
widths ROp.set_global_prop = 2 ∷ 2 ∷ 2 ∷ 2 ∷ []
widths ROp.index = 2 ∷ 2 ∷ 2 ∷ []
widths ROp.set_index = 2 ∷ 2 ∷ 2 ∷ []
widths ROp.delete_prop = 2 ∷ 2 ∷ 2 ∷ []
widths ROp.iterator_rest = 2 ∷ 2 ∷ 2 ∷ []
widths ROp.get_keys_iter = 2 ∷ 2 ∷ []
widths ROp.object_rest = 2 ∷ 2 ∷ 2 ∷ 2 ∷ []
widths ROp.await = 2 ∷ 2 ∷ []
widths ROp.throw = 2 ∷ []
widths ROp.call_global = 2 ∷ 2 ∷ 2 ∷ 1 ∷ []
widths ROp.add_reg_const = 2 ∷ 2 ∷ 2 ∷ []
widths ROp.test_lt_const_jump = 2 ∷ 2 ∷ 2 ∷ []
widths ROp.test_le_const_jump = 2 ∷ 2 ∷ 2 ∷ []
widths ROp.increment_reg_and_jump = 2 ∷ 2 ∷ 2 ∷ []
widths ROp.mod_reg_const_strict_eq_const_jump = 2 ∷ 2 ∷ 2 ∷ 2 ∷ []
widths ROp.add_const_to_reg_prop = 2 ∷ 2 ∷ 2 ∷ 2 ∷ []
widths ROp.add_reg_props_to_reg_prop = 2 ∷ 2 ∷ 2 ∷ 2 ∷ 2 ∷ 2 ∷ 2 ∷ []
widths ROp.define_accessor = 2 ∷ 2 ∷ 2 ∷ 1 ∷ []
widths ROp.init_class = 2 ∷ []
widths ROp.new_target = 2 ∷ []
widths ROp.import_meta = 2 ∷ []
widths ROp.yield = 2 ∷ 2 ∷ []
widths ROp.make_closure = 2 ∷ 2 ∷ 1 ∷ []
widths ROp.halt = []
widths ROp.halt_value = 2 ∷ []
