-- ===== src/Token/Literal.antt =====
-- `Token` and `Token::new` of crates/formlogic-core/src/token.rs.
use formlogic_rust.Token.Kind.{TokenType}
use formlogic_rust.Token.Text.{Text}
use formlogic_rust.Common.{Bool, Option, false, none, ℕ}

pub record Token : Type 0 where
  pub token_type : TokenType
  pub literal : Text
  pub line : ℕ
  pub column : ℕ
  pub had_newline_before : Bool
  pub raw_literal : Option Text

abbrev pub new_token : TokenType → Text → ℕ → ℕ → Token
new_token t s line column = record {
  token_type = t;
  literal = s;
  line = line;
  column = column;
  had_newline_before = false;
  raw_literal = none;
}
