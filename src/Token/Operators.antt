-- ===== src/Token/Operators.antt =====
-- `default_operators` of crates/formlogic-core/src/token.rs and `operator_type` of lexer.rs.
use formlogic_rust.Token.Kind.{TokenType, is_eof}
use formlogic_rust.Token.Text.{Text, chars}
use formlogic_rust.Token.Keywords.{match_text, match_text-is_eof}
use formlogic_rust.Common.{List, [], false, refl, ◌∷◌, ◌≡◌}

unfoldable pub default_operators : List (Text × TokenType)
default_operators =
    (chars "**=", TokenType.tok_exponent_assign)
    ∷ (chars "**", TokenType.tok_exponent)
    ∷ (chars "??=", TokenType.tok_nullish_assign)
    ∷ (chars "??", TokenType.tok_nullish_coalescing)
    ∷ (chars "?.", TokenType.tok_optional_chain)
    ∷ (chars "&&=", TokenType.tok_and_assign)
    ∷ (chars "||=", TokenType.tok_or_assign)
    ∷ (chars "+=", TokenType.tok_plus_assign)
    ∷ (chars "-=", TokenType.tok_minus_assign)
    ∷ (chars "*=", TokenType.tok_multiply_assign)
    ∷ (chars "/=", TokenType.tok_divide_assign)
    ∷ (chars "%=", TokenType.tok_percent_assign)
    ∷ (chars "<<=", TokenType.tok_left_shift_assign)
    ∷ (chars ">>=", TokenType.tok_right_shift_assign)
    ∷ (chars "&=", TokenType.tok_bitwise_and_assign)
    ∷ (chars "|=", TokenType.tok_bitwise_or_assign)
    ∷ (chars "^=", TokenType.tok_bitwise_xor_assign)
    ∷ (chars "++", TokenType.tok_increment)
    ∷ (chars "--", TokenType.tok_decrement)
    ∷ (chars ">>>=", TokenType.tok_unsigned_right_shift_assign)
    ∷ (chars ">>>", TokenType.tok_unsigned_right_shift)
    ∷ (chars "<<", TokenType.tok_left_shift)
    ∷ (chars ">>", TokenType.tok_right_shift)
    ∷ (chars "<=", TokenType.tok_less_than_or_equal)
    ∷ (chars ">=", TokenType.tok_greater_than_or_equal)
    ∷ (chars "===", TokenType.tok_strict_equal)
    ∷ (chars "!==", TokenType.tok_strict_not_equal)
    ∷ (chars "==", TokenType.tok_equal)
    ∷ (chars "!=", TokenType.tok_not_equal)
    ∷ (chars "&&", TokenType.tok_and)
    ∷ (chars "||", TokenType.tok_or)
    ∷ (chars "=>", TokenType.tok_arrow)
    ∷ (chars "...", TokenType.tok_spread)
    ∷ (chars "+", TokenType.tok_plus)
    ∷ (chars "-", TokenType.tok_minus)
    ∷ (chars "*", TokenType.tok_asterisk)
    ∷ (chars "/", TokenType.tok_slash)
    ∷ (chars "%", TokenType.tok_percent)
    ∷ (chars "<", TokenType.tok_less_than)
    ∷ (chars ">", TokenType.tok_greater_than)
    ∷ (chars "=", TokenType.tok_assign)
    ∷ (chars ",", TokenType.tok_comma)
    ∷ (chars ";", TokenType.tok_semicolon)
    ∷ (chars ":", TokenType.tok_colon)
    ∷ (chars "(", TokenType.tok_left_paren)
    ∷ (chars ")", TokenType.tok_right_paren)
    ∷ (chars "{", TokenType.tok_left_brace)
    ∷ (chars "}", TokenType.tok_right_brace)
    ∷ (chars "[", TokenType.tok_left_bracket)
    ∷ (chars "]", TokenType.tok_right_bracket)
    ∷ (chars ".", TokenType.tok_dot)
    ∷ (chars "!", TokenType.tok_bang)
    ∷ (chars "?", TokenType.tok_question)
    ∷ (chars "&", TokenType.tok_bitwise_and)
    ∷ (chars "|", TokenType.tok_bitwise_or)
    ∷ (chars "^", TokenType.tok_bitwise_xor)
    ∷ (chars "~", TokenType.tok_bitwise_not)
    ∷ []

abbrev pub operator_arms : List (Text × TokenType)
operator_arms =
    (chars "=", TokenType.tok_assign)
    ∷ (chars "+", TokenType.tok_plus)
    ∷ (chars "-", TokenType.tok_minus)
    ∷ (chars "!", TokenType.tok_bang)
    ∷ (chars "*", TokenType.tok_asterisk)
    ∷ (chars "/", TokenType.tok_slash)
    ∷ (chars "%", TokenType.tok_percent)
    ∷ (chars "<", TokenType.tok_less_than)
    ∷ (chars ">", TokenType.tok_greater_than)
    ∷ (chars "<=", TokenType.tok_less_than_or_equal)
    ∷ (chars ">=", TokenType.tok_greater_than_or_equal)
    ∷ (chars "==", TokenType.tok_equal)
    ∷ (chars "!=", TokenType.tok_not_equal)
    ∷ (chars "===", TokenType.tok_strict_equal)
    ∷ (chars "!==", TokenType.tok_strict_not_equal)
    ∷ (chars "&&", TokenType.tok_and)
    ∷ (chars "||", TokenType.tok_or)
    ∷ (chars ",", TokenType.tok_comma)
    ∷ (chars ";", TokenType.tok_semicolon)
    ∷ (chars ":", TokenType.tok_colon)
    ∷ (chars ".", TokenType.tok_dot)
    ∷ (chars "...", TokenType.tok_spread)
    ∷ (chars "(", TokenType.tok_left_paren)
    ∷ (chars ")", TokenType.tok_right_paren)
    ∷ (chars "{", TokenType.tok_left_brace)
    ∷ (chars "}", TokenType.tok_right_brace)
    ∷ (chars "[", TokenType.tok_left_bracket)
    ∷ (chars "]", TokenType.tok_right_bracket)
    ∷ (chars "=>", TokenType.tok_arrow)
    ∷ (chars "+=", TokenType.tok_plus_assign)
    ∷ (chars "-=", TokenType.tok_minus_assign)
    ∷ (chars "*=", TokenType.tok_multiply_assign)
    ∷ (chars "/=", TokenType.tok_divide_assign)
    ∷ (chars "++", TokenType.tok_increment)
    ∷ (chars "--", TokenType.tok_decrement)
    ∷ (chars "?", TokenType.tok_question)
    ∷ (chars "&", TokenType.tok_bitwise_and)
    ∷ (chars "|", TokenType.tok_bitwise_or)
    ∷ (chars "^", TokenType.tok_bitwise_xor)
    ∷ (chars "~", TokenType.tok_bitwise_not)
    ∷ (chars "<<", TokenType.tok_left_shift)
    ∷ (chars ">>", TokenType.tok_right_shift)
    ∷ (chars ">>>", TokenType.tok_unsigned_right_shift)
    ∷ (chars ">>>=", TokenType.tok_unsigned_right_shift_assign)
    ∷ (chars "%=", TokenType.tok_percent_assign)
    ∷ (chars "&=", TokenType.tok_bitwise_and_assign)
    ∷ (chars "|=", TokenType.tok_bitwise_or_assign)
    ∷ (chars "^=", TokenType.tok_bitwise_xor_assign)
    ∷ (chars "<<=", TokenType.tok_left_shift_assign)
    ∷ (chars ">>=", TokenType.tok_right_shift_assign)
    ∷ (chars "**", TokenType.tok_exponent)
    ∷ (chars "**=", TokenType.tok_exponent_assign)
    ∷ (chars "??", TokenType.tok_nullish_coalescing)
    ∷ (chars "?.", TokenType.tok_optional_chain)
    ∷ (chars "??=", TokenType.tok_nullish_assign)
    ∷ (chars "&&=", TokenType.tok_and_assign)
    ∷ (chars "||=", TokenType.tok_or_assign)
    ∷ []

unfoldable pub operator_type : Text → TokenType
unfolding match_text
operator_type op = match_text op operator_arms TokenType.tok_illegal

pub operator_type-is_eof : (op : Text) → is_eof (operator_type op) ≡ false
unfolding operator_type
operator_type-is_eof op = match_text-is_eof op operator_arms TokenType.tok_illegal refl refl
