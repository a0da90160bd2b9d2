-- ===== src/Register/Dispatch.antt =====
-- The operand reads of `rdispatch_loop` in crates/formlogic-core/src/rvm.rs, arm by arm.
use formlogic_rust.Register.Op.{ROp}
use formlogic_rust.Encoding.Reads.{read_u8_at, read_u16, read_operand}
use formlogic_rust.Common.{Bytes, List, Option, [], some, suc, zero, ℕ, ◌+◌, ◌>>=◌, ◌∷◌}

-- The offsets from `ip` that the arm of an opcode spells out, each with the bytes read there
-- (`read_u16` or `read_u8_at`), in the order of the offsets. `read_3u16_operands` is 1, 3 and 5. An
-- arm may read an operand on some of its branches only.
unfoldable pub dispatch_reads : ROp → List (ℕ × ℕ)
dispatch_reads ROp.load_const = (1, 2) ∷ (3, 2) ∷ []
dispatch_reads ROp.load_true = (1, 2) ∷ []
dispatch_reads ROp.load_false = (1, 2) ∷ []
dispatch_reads ROp.load_null = (1, 2) ∷ []
dispatch_reads ROp.load_undef = (1, 2) ∷ []
dispatch_reads ROp.move = (1, 2) ∷ (3, 2) ∷ []
dispatch_reads ROp.get_global = (1, 2) ∷ (3, 2) ∷ []
dispatch_reads ROp.set_global = (1, 2) ∷ (3, 2) ∷ []
dispatch_reads ROp.add = (1, 2) ∷ (3, 2) ∷ (5, 2) ∷ []
dispatch_reads ROp.sub = (1, 2) ∷ (3, 2) ∷ (5, 2) ∷ []
dispatch_reads ROp.mul = (1, 2) ∷ (3, 2) ∷ (5, 2) ∷ []
dispatch_reads ROp.div = (1, 2) ∷ (3, 2) ∷ (5, 2) ∷ []
dispatch_reads ROp.op_mod = (1, 2) ∷ (3, 2) ∷ (5, 2) ∷ []
dispatch_reads ROp.pow = (1, 2) ∷ (3, 2) ∷ (5, 2) ∷ []
dispatch_reads ROp.equal = (1, 2) ∷ (3, 2) ∷ (5, 2) ∷ []
dispatch_reads ROp.not_equal = (1, 2) ∷ (3, 2) ∷ (5, 2) ∷ []
dispatch_reads ROp.strict_equal = (1, 2) ∷ (3, 2) ∷ (5, 2) ∷ []
dispatch_reads ROp.strict_not_equal = (1, 2) ∷ (3, 2) ∷ (5, 2) ∷ []
dispatch_reads ROp.greater_than = (1, 2) ∷ (3, 2) ∷ (5, 2) ∷ []
dispatch_reads ROp.greater_or_equal = (1, 2) ∷ (3, 2) ∷ (5, 2) ∷ []
dispatch_reads ROp.less_than = (1, 2) ∷ (3, 2) ∷ (5, 2) ∷ []
dispatch_reads ROp.less_or_equal = (1, 2) ∷ (3, 2) ∷ (5, 2) ∷ []
dispatch_reads ROp.instanceof = (1, 2) ∷ (3, 2) ∷ (5, 2) ∷ []
dispatch_reads ROp.op_in = (1, 2) ∷ (3, 2) ∷ (5, 2) ∷ []
dispatch_reads ROp.bitwise_and = (1, 2) ∷ (3, 2) ∷ (5, 2) ∷ []
dispatch_reads ROp.bitwise_or = (1, 2) ∷ (3, 2) ∷ (5, 2) ∷ []
dispatch_reads ROp.bitwise_xor = (1, 2) ∷ (3, 2) ∷ (5, 2) ∷ []
dispatch_reads ROp.left_shift = (1, 2) ∷ (3, 2) ∷ (5, 2) ∷ []
dispatch_reads ROp.right_shift = (1, 2) ∷ (3, 2) ∷ (5, 2) ∷ []
dispatch_reads ROp.unsigned_right_shift = (1, 2) ∷ (3, 2) ∷ (5, 2) ∷ []
dispatch_reads ROp.neg = (1, 2) ∷ (3, 2) ∷ []
dispatch_reads ROp.not = (1, 2) ∷ (3, 2) ∷ []
dispatch_reads ROp.unary_plus = (1, 2) ∷ (3, 2) ∷ []
dispatch_reads ROp.typeof = (1, 2) ∷ (3, 2) ∷ []
dispatch_reads ROp.is_nullish = (1, 2) ∷ (3, 2) ∷ []
dispatch_reads ROp.jump = (1, 2) ∷ []
dispatch_reads ROp.jump_if_not = (1, 2) ∷ (3, 2) ∷ []
dispatch_reads ROp.jump_if_truthy = (1, 2) ∷ (3, 2) ∷ []
dispatch_reads ROp.call = (1, 2) ∷ (3, 2) ∷ (5, 1) ∷ []
dispatch_reads ROp.call_method = (1, 2) ∷ (3, 2) ∷ (5, 1) ∷ (6, 2) ∷ (8, 2) ∷ []
dispatch_reads ROp.call_spread = (1, 2) ∷ (3, 2) ∷ (5, 2) ∷ []
dispatch_reads ROp.return = (1, 2) ∷ []
dispatch_reads ROp.return_undef = []
dispatch_reads ROp.new = (1, 2) ∷ (3, 2) ∷ (5, 1) ∷ []
dispatch_reads ROp.new_spread = (1, 2) ∷ (3, 2) ∷ (5, 2) ∷ []
dispatch_reads ROp.super = (1, 2) ∷ []
dispatch_reads ROp.array = (1, 2) ∷ (3, 2) ∷ (5, 2) ∷ []
dispatch_reads ROp.hash = (1, 2) ∷ (3, 2) ∷ (5, 2) ∷ []
dispatch_reads ROp.append_element = (1, 2) ∷ (3, 2) ∷ []
dispatch_reads ROp.append_spread = (1, 2) ∷ (3, 2) ∷ []
dispatch_reads ROp.get_prop = (1, 2) ∷ (3, 2) ∷ (5, 2) ∷ (7, 2) ∷ []
dispatch_reads ROp.set_prop = (1, 2) ∷ (3, 2) ∷ (5, 2) ∷ (7, 2) ∷ []
dispatch_reads ROp.get_global_prop = (1, 2) ∷ (3, 2) ∷ (5, 2) ∷ (7, 2) ∷ []
dispatch_reads ROp.set_global_prop = (1, 2) ∷ (3, 2) ∷ (5, 2) ∷ (7, 2) ∷ []
dispatch_reads ROp.index = (1, 2) ∷ (3, 2) ∷ (5, 2) ∷ []
dispatch_reads ROp.set_index = (1, 2) ∷ (3, 2) ∷ (5, 2) ∷ []
dispatch_reads ROp.delete_prop = (1, 2) ∷ (3, 2) ∷ (5, 2) ∷ []
dispatch_reads ROp.iterator_rest = (1, 2) ∷ (3, 2) ∷ (5, 2) ∷ []
dispatch_reads ROp.get_keys_iter = (1, 2) ∷ (3, 2) ∷ []
dispatch_reads ROp.object_rest = (1, 2) ∷ (3, 2) ∷ (5, 2) ∷ (7, 2) ∷ []
dispatch_reads ROp.await = (1, 2) ∷ (3, 2) ∷ []
dispatch_reads ROp.throw = (1, 2) ∷ []
dispatch_reads ROp.call_global = (1, 2) ∷ (3, 2) ∷ (5, 2) ∷ (7, 1) ∷ []
dispatch_reads ROp.add_reg_const = (1, 2) ∷ (3, 2) ∷ (5, 2) ∷ []
dispatch_reads ROp.test_lt_const_jump = (1, 2) ∷ (3, 2) ∷ (5, 2) ∷ []
dispatch_reads ROp.test_le_const_jump = (1, 2) ∷ (3, 2) ∷ (5, 2) ∷ []
dispatch_reads ROp.increment_reg_and_jump = (1, 2) ∷ (3, 2) ∷ (5, 2) ∷ []
dispatch_reads ROp.mod_reg_const_strict_eq_const_jump = (1, 2) ∷ (3, 2) ∷ (5, 2) ∷ (7, 2) ∷ []
dispatch_reads ROp.add_const_to_reg_prop = (1, 2) ∷ (3, 2) ∷ (5, 2) ∷ (7, 2) ∷ []
dispatch_reads ROp.add_reg_props_to_reg_prop =
    (1, 2) ∷ (3, 2) ∷ (5, 2) ∷ (7, 2) ∷ (9, 2) ∷ (11, 2) ∷ (13, 2) ∷ []
dispatch_reads ROp.define_accessor = (1, 2) ∷ (3, 2) ∷ (5, 2) ∷ (7, 1) ∷ []
dispatch_reads ROp.init_class = (1, 2) ∷ []
dispatch_reads ROp.new_target = (1, 2) ∷ []
dispatch_reads ROp.import_meta = (1, 2) ∷ []
dispatch_reads ROp.yield = (1, 2) ∷ (3, 2) ∷ []
dispatch_reads ROp.make_closure = (1, 2) ∷ (3, 2) ∷ (5, 1) ∷ []
dispatch_reads ROp.halt = []
dispatch_reads ROp.halt_value = (1, 2) ∷ []

unfoldable pub read_at : Bytes → ℕ → List (ℕ × ℕ) → Option (List ℕ)
unfolding read_u8_at read_u16
read_at code ip [] = some []
read_at code ip ((offset, width) ∷ reads) = do
  x ← read_operand width code (ip + offset)
  xs ← read_at code ip reads
  some (x ∷ xs)

unfoldable pub dispatch_operands : ROp → Bytes → ℕ → Option (List ℕ)
unfolding dispatch_reads read_at
dispatch_operands op code ip = read_at code ip (dispatch_reads op)

-- `for _ in 0..count`, from the byte behind the fixed part.
unfoldable pub read_slots : Bytes → ℕ → ℕ → Option (List ℕ)
unfolding read_u16
read_slots code ip zero = some []
read_slots code ip (suc count) = do
  slot ← read_u16 code ip
  slots ← read_slots code (ip + 2) count
  some (slot ∷ slots)

-- The slots that the arm of `MakeClosure` captures; the other arms read none.
unfoldable pub dispatch_slots : ROp → Bytes → ℕ → Option (List ℕ)
unfolding read_slots read_u8_at
dispatch_slots ROp.make_closure code ip = do
  count ← read_u8_at code (ip + 5)
  read_slots code (ip + 6) count
dispatch_slots op code ip = some []
