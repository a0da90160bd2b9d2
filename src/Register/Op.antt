-- ===== src/Register/Op.antt =====
-- The register instruction set of crates/formlogic-core/src/rcode.rs: the enum `ROp` and its bytes.
-- Rust's `In` and `Mod` are spelled `op_in` and `op_mod` here.
use formlogic_rust.Common.{ℕ, List, [], ◌∷◌, Option, none, leb, get_elem?, if◌then◌else◌}

pub data ROp : Type 0 where
  load_const load_true load_false load_null load_undef move get_global set_global add sub : ROp
  mul div op_mod pow equal not_equal strict_equal strict_not_equal greater_than : ROp
  greater_or_equal less_than less_or_equal instanceof op_in bitwise_and bitwise_or : ROp
  bitwise_xor left_shift right_shift unsigned_right_shift neg not unary_plus typeof : ROp
  is_nullish jump jump_if_not jump_if_truthy call call_method call_spread return : ROp
  return_undef new new_spread super array hash append_element append_spread get_prop : ROp
  set_prop get_global_prop set_global_prop index set_index delete_prop iterator_rest : ROp
  get_keys_iter object_rest await throw call_global add_reg_const test_lt_const_jump : ROp
  test_le_const_jump increment_reg_and_jump mod_reg_const_strict_eq_const_jump : ROp
  add_const_to_reg_prop add_reg_props_to_reg_prop define_accessor init_class new_target : ROp
  import_meta yield make_closure halt halt_value : ROp

-- `op as u8`: the place of the variant in the declaration.
unfoldable pub to_byte : ROp → ℕ
to_byte load_const = 0
to_byte load_true = 1
to_byte load_false = 2
to_byte load_null = 3
to_byte load_undef = 4
to_byte move = 5
to_byte get_global = 6
to_byte set_global = 7
to_byte add = 8
to_byte sub = 9
to_byte mul = 10
to_byte div = 11
to_byte op_mod = 12
to_byte pow = 13
to_byte equal = 14
to_byte not_equal = 15
to_byte strict_equal = 16
to_byte strict_not_equal = 17
to_byte greater_than = 18
to_byte greater_or_equal = 19
to_byte less_than = 20
to_byte less_or_equal = 21
to_byte instanceof = 22
to_byte op_in = 23
to_byte bitwise_and = 24
to_byte bitwise_or = 25
to_byte bitwise_xor = 26
to_byte left_shift = 27
to_byte right_shift = 28
to_byte unsigned_right_shift = 29
to_byte neg = 30
to_byte not = 31
to_byte unary_plus = 32
to_byte typeof = 33
to_byte is_nullish = 34
to_byte jump = 35
to_byte jump_if_not = 36
to_byte jump_if_truthy = 37
to_byte call = 38
to_byte call_method = 39
to_byte call_spread = 40
to_byte return = 41
to_byte return_undef = 42
to_byte new = 43
to_byte new_spread = 44
to_byte super = 45
to_byte array = 46
to_byte hash = 47
to_byte append_element = 48
to_byte append_spread = 49
to_byte get_prop = 50
to_byte set_prop = 51
to_byte get_global_prop = 52
to_byte set_global_prop = 53
to_byte index = 54
to_byte set_index = 55
to_byte delete_prop = 56
to_byte iterator_rest = 57
to_byte get_keys_iter = 58
to_byte object_rest = 59
to_byte await = 60
to_byte throw = 61
to_byte call_global = 62
to_byte add_reg_const = 63
to_byte test_lt_const_jump = 64
to_byte test_le_const_jump = 65
to_byte increment_reg_and_jump = 66
to_byte mod_reg_const_strict_eq_const_jump = 67
to_byte add_const_to_reg_prop = 68
to_byte add_reg_props_to_reg_prop = 69
to_byte define_accessor = 70
to_byte init_class = 71
to_byte new_target = 72
to_byte import_meta = 73
to_byte yield = 74
to_byte make_closure = 75
to_byte halt = 76
to_byte halt_value = 77

abbrev pub variants : List ROp
variants =
    load_const ∷ load_true ∷ load_false ∷ load_null ∷ load_undef ∷ move ∷ get_global ∷ set_global
    ∷ add ∷ sub ∷ mul ∷ div ∷ op_mod ∷ pow ∷ equal ∷ not_equal ∷ strict_equal ∷ strict_not_equal
    ∷ greater_than ∷ greater_or_equal ∷ less_than ∷ less_or_equal ∷ instanceof ∷ op_in ∷ bitwise_and
    ∷ bitwise_or ∷ bitwise_xor ∷ left_shift ∷ right_shift ∷ unsigned_right_shift ∷ neg ∷ not
    ∷ unary_plus ∷ typeof ∷ is_nullish ∷ jump ∷ jump_if_not ∷ jump_if_truthy ∷ call ∷ call_method
    ∷ call_spread ∷ return ∷ return_undef ∷ new ∷ new_spread ∷ super ∷ array ∷ hash ∷ append_element
    ∷ append_spread ∷ get_prop ∷ set_prop ∷ get_global_prop ∷ set_global_prop ∷ index ∷ set_index
    ∷ delete_prop ∷ iterator_rest ∷ get_keys_iter ∷ object_rest ∷ await ∷ throw ∷ call_global
    ∷ add_reg_const ∷ test_lt_const_jump ∷ test_le_const_jump ∷ increment_reg_and_jump
    ∷ mod_reg_const_strict_eq_const_jump ∷ add_const_to_reg_prop ∷ add_reg_props_to_reg_prop
    ∷ define_accessor ∷ init_class ∷ new_target ∷ import_meta ∷ yield ∷ make_closure ∷ halt
    ∷ halt_value ∷ []

-- The `transmute` under its guard.
unfoldable pub from_byte : ℕ → Option ROp
unfolding to_byte
from_byte value = if leb value (to_byte halt_value) then get_elem? variants value else none
