-- ===== src/Token/Kind.antt =====
-- `TokenType` of crates/formlogic-core/src/token.rs.

use formlogic_rust.Common.{Bool, false, true}

pub data TokenType : Type 0 where
  tok_illegal : TokenType
  tok_eof : TokenType
  tok_ident : TokenType
  tok_int : TokenType
  tok_float : TokenType
  tok_string : TokenType
  tok_template : TokenType
  tok_regex : TokenType
  tok_assign : TokenType
  tok_plus : TokenType
  tok_minus : TokenType
  tok_bang : TokenType
  tok_asterisk : TokenType
  tok_slash : TokenType
  tok_percent : TokenType
  tok_less_than : TokenType
  tok_greater_than : TokenType
  tok_less_than_or_equal : TokenType
  tok_greater_than_or_equal : TokenType
  tok_equal : TokenType
  tok_not_equal : TokenType
  tok_strict_equal : TokenType
  tok_strict_not_equal : TokenType
  tok_and : TokenType
  tok_or : TokenType
  tok_comma : TokenType
  tok_semicolon : TokenType
  tok_colon : TokenType
  tok_dot : TokenType
  tok_spread : TokenType
  tok_left_paren : TokenType
  tok_right_paren : TokenType
  tok_left_brace : TokenType
  tok_right_brace : TokenType
  tok_left_bracket : TokenType
  tok_right_bracket : TokenType
  tok_function : TokenType
  tok_let : TokenType
  tok_var : TokenType
  tok_const : TokenType
  tok_true : TokenType
  tok_false : TokenType
  tok_if : TokenType
  tok_else : TokenType
  tok_return : TokenType
  tok_null : TokenType
  tok_undefined : TokenType
  tok_while : TokenType
  tok_for : TokenType
  tok_break : TokenType
  tok_continue : TokenType
  tok_throw : TokenType
  tok_try : TokenType
  tok_catch : TokenType
  tok_finally : TokenType
  tok_class : TokenType
  tok_extends : TokenType
  tok_new : TokenType
  tok_this : TokenType
  tok_super : TokenType
  tok_static : TokenType
  tok_async : TokenType
  tok_await : TokenType
  tok_of : TokenType
  tok_in : TokenType
  tok_do : TokenType
  tok_switch : TokenType
  tok_case : TokenType
  tok_default : TokenType
  tok_get : TokenType
  tok_set : TokenType
  tok_typeof : TokenType
  tok_instanceof : TokenType
  tok_void : TokenType
  tok_delete : TokenType
  tok_yield : TokenType
  tok_import : TokenType
  tok_debugger : TokenType
  tok_arrow : TokenType
  tok_plus_assign : TokenType
  tok_minus_assign : TokenType
  tok_multiply_assign : TokenType
  tok_divide_assign : TokenType
  tok_increment : TokenType
  tok_decrement : TokenType
  tok_question : TokenType
  tok_bitwise_and : TokenType
  tok_bitwise_or : TokenType
  tok_bitwise_xor : TokenType
  tok_bitwise_not : TokenType
  tok_left_shift : TokenType
  tok_right_shift : TokenType
  tok_unsigned_right_shift : TokenType
  tok_unsigned_right_shift_assign : TokenType
  tok_percent_assign : TokenType
  tok_bitwise_and_assign : TokenType
  tok_bitwise_or_assign : TokenType
  tok_bitwise_xor_assign : TokenType
  tok_left_shift_assign : TokenType
  tok_right_shift_assign : TokenType
  tok_exponent : TokenType
  tok_exponent_assign : TokenType
  tok_nullish_coalescing : TokenType
  tok_optional_chain : TokenType
  tok_nullish_assign : TokenType
  tok_and_assign : TokenType
  tok_or_assign : TokenType
  tok_hash : TokenType

abbrev pub is_eof : TokenType → Bool
is_eof TokenType.tok_eof = true
is_eof _ = false
