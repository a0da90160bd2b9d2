-- ===== src/Lexer/Regex.antt =====
-- `read_regex_literal`, `should_start_regex_literal` and `token_can_end_expression` of lexer.rs.
use formlogic_rust.Lexer.Loop.{Flow, run}
use formlogic_rust.Lexer.Cursor.{Lexer, read_char, peek_char, fuel}
use formlogic_rust.Token.Text.{Text, is_ascii_alphabetic, is_ascii_whitespace}
use formlogic_rust.Token.Kind.{TokenType}
use formlogic_rust.Token.Literal.{Token, new_token}
use formlogic_rust.Common.{
  Bool, Option, [], false, if◌then◌else◌, none, not, some, true, ℕ, ◌&&◌, ◌++◌, ◌==◌, ◌>>=◌, ◌||◌,
  ◌∷◌,
}

unfoldable pub token_can_end_expression : TokenType → Bool
token_can_end_expression TokenType.tok_ident = true
token_can_end_expression TokenType.tok_int = true
token_can_end_expression TokenType.tok_float = true
token_can_end_expression TokenType.tok_string = true
token_can_end_expression TokenType.tok_template = true
token_can_end_expression TokenType.tok_regex = true
token_can_end_expression TokenType.tok_true = true
token_can_end_expression TokenType.tok_false = true
token_can_end_expression TokenType.tok_null = true
token_can_end_expression TokenType.tok_undefined = true
token_can_end_expression TokenType.tok_this = true
token_can_end_expression TokenType.tok_super = true
token_can_end_expression TokenType.tok_right_paren = true
token_can_end_expression TokenType.tok_right_bracket = true
token_can_end_expression TokenType.tok_right_brace = true
token_can_end_expression TokenType.tok_increment = true
token_can_end_expression TokenType.tok_decrement = true
token_can_end_expression _ = false

unfoldable pub should_start_regex_literal : Lexer → Bool
should_start_regex_literal l =
    let peek = peek_char l in
    if (peek == b'=') || (peek == b'/') || (peek == b'*')
    then false
    else if is_ascii_whitespace peek || (peek == 0)
    then false
    else (elim l.last_token_type [ none ↦ true | some t ↦ not (token_can_end_expression t) ])

pub record RegexState : Type 0 where
  pub pattern : Text
  pub escaped : Bool
  pub in_char_class : Bool
  pub at : Lexer

-- `!self.escaped`, and then the bracket that opens or closes a class.
abbrev pub class_after : RegexState → Bool
class_after s =
    if s.escaped
    then s.in_char_class
    else if s.at.ch == b'['
    then true
    else if s.at.ch == b']'
    then false
    else s.in_char_class

unfoldable pub regex_next : RegexState → RegexState
regex_next s = record {
  pattern = s.pattern ++ s.at.ch ∷ [];
  escaped = if s.escaped then false else s.at.ch == b'\\';
  in_char_class = class_after s;
  at = read_char s.at;
}

unfoldable pub regex_turn : RegexState → Option (Flow RegexState)
unfolding regex_next
regex_turn s =
    if s.at.ch == 0
    then some (Flow.stop s)
    else if not s.escaped && (s.at.ch == b'/') && not s.in_char_class
    then some (Flow.stop s)
    else some (Flow.again (regex_next s))

unfoldable pub flags_turn : Text × Lexer → Option (Flow (Text × Lexer))
flags_turn (flags, l) =
    if is_ascii_alphabetic l.ch
    then some (Flow.again (flags ++ l.ch ∷ [], read_char l))
    else some (Flow.stop (flags, l))

unfoldable pub read_flags : Text → ℕ → ℕ → Lexer → Option (Token × Lexer)
unfolding flags_turn
read_flags pattern line column l = do
  (flags, l') ← run (fuel l) flags_turn ([], l)
  some (record (new_token TokenType.tok_regex pattern line column) { raw_literal = some flags }, l')

unfoldable pub read_regex_literal : ℕ → ℕ → Lexer → Option (Token × Lexer)
unfolding regex_turn read_flags
read_regex_literal line column l = do
  let start = read_char l
  s ←
      run (fuel start) regex_turn
        (record { pattern = []; escaped = false; in_char_class = false; at = start })
  let illegal = new_token TokenType.tok_illegal (b'/' ∷ []) line column
  (if s.at.ch == b'/'
      then read_flags s.pattern line column (read_char s.at)
      else some (illegal, s.at))
