-- ===== src/Lexer/Template.antt =====
-- `read_template_literal` of lexer.rs.
use formlogic_rust.Lexer.Loop.{Flow, run}
use formlogic_rust.Lexer.Cursor.{Lexer, read_char, peek_char, fuel}
use formlogic_rust.Lexer.Escape.{read_hex, push_hex}
use formlogic_rust.Token.Text.{Text}
use formlogic_rust.Token.Kind.{TokenType}
use formlogic_rust.Token.Literal.{Token, new_token}
use formlogic_rust.Common.{
  Option, [], if◌then◌else◌, ltb, none, some, ℕ, ◌&&◌, ◌++◌, ◌+◌, ◌-◌, ◌==◌, ◌>>=◌, ◌||◌, ◌∷◌,
}

-- The depth is an `i32` that counts the `${` still open: one turn of the loop adds at most 1.
pub record TemplateState : Type 0 where
  pub result : Text
  pub raw : Text
  pub interpolation_depth : ℕ
  pub at : Lexer

abbrev pub template_escape : ℕ → Option ℕ
template_escape c =
    if c == b'n'
    then some b'\n'
    else if c == b'r'
    then some b'\r'
    else if c == b't'
    then some b'\t'
    else if (c == b'`') || (c == b'\\') || (c == b'$')
    then some c
    else if c == b'0'
    then some 0
    else none

-- `$` and `{`.
unfoldable pub open_interpolation : TemplateState → TemplateState
open_interpolation s = record {
  result = s.result ++ b'$' ∷ b'{' ∷ [];
  raw = s.raw ++ b'$' ∷ b'{' ∷ [];
  interpolation_depth = s.interpolation_depth + 1;
  at = read_char (read_char s.at);
}

unfoldable pub close_interpolation : TemplateState → TemplateState
close_interpolation s = record {
  result = s.result ++ b'}' ∷ [];
  raw = s.raw ++ b'}' ∷ [];
  interpolation_depth = s.interpolation_depth - 1;
  at = read_char s.at;
}

-- With the cursor on the byte behind a backslash: what that byte stands for is known or not.
unfoldable pub push_escaped : TemplateState → Lexer → Option ℕ → TemplateState
unfolding read_hex push_hex
push_escaped s l (some c) =
    let raw = s.raw ++ b'\\' ∷ l.ch ∷ [] in
    record s { result = s.result ++ c ∷ []; raw = raw; at = read_char l }
push_escaped s l none =
    let raw = s.raw ++ b'\\' ∷ l.ch ∷ [] in
    let hex = read_hex 4 raw [] l in
    if l.ch == b'u'
    then record s { result = push_hex s.result hex.1; raw = hex.0; at = read_char hex.2 }
    else record s { result = s.result ++ b'\\' ∷ l.ch ∷ []; raw = raw; at = read_char l }

unfoldable pub template_backslash : TemplateState → TemplateState
unfolding push_escaped
template_backslash s = push_escaped s (read_char s.at) (template_escape (read_char s.at).ch)

-- What a turn of the loop reads.
unfoldable pub template_next : TemplateState → TemplateState
unfolding open_interpolation close_interpolation template_backslash
template_next s =
    let c = s.at.ch in
    if (c == b'$') && (peek_char s.at == b'{')
    then open_interpolation s
    else if (c == b'}') && ltb 0 s.interpolation_depth
    then close_interpolation s
    else if c == b'\\'
    then template_backslash s
    else record s { result = s.result ++ c ∷ []; raw = s.raw ++ c ∷ []; at = read_char s.at }

unfoldable pub template_turn : TemplateState → Option (Flow TemplateState)
unfolding template_next
template_turn s =
    if (s.at.ch == 0) || ((s.at.ch == b'`') && (s.interpolation_depth == 0))
    then some (Flow.stop s)
    else some (Flow.again (template_next s))

unfoldable pub read_template_literal : ℕ → ℕ → Lexer → Option (Token × Lexer)
unfolding template_turn
read_template_literal line column l = do
  let start = read_char l
  s ←
      run (fuel start) template_turn
        (record { result = []; raw = []; interpolation_depth = 0; at = start })
  let token = new_token TokenType.tok_template s.result line column
  some (record token { raw_literal = some s.raw }, if s.at.ch == b'`' then read_char s.at else s.at)
