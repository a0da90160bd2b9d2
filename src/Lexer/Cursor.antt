-- ===== src/Lexer/Cursor.antt =====
-- The cursor of `Lexer`: `read_char` and `peek_char` of lexer.rs.
use formlogic_rust.Token.Kind.{TokenType}
use formlogic_rust.Token.Text.{Text}
use formlogic_rust.Common.{
  Bool, Bytes, List, Option, get_or, if◌then◌else◌, leb, length, suc, ℕ, ◌+◌, ◌-◌, ◌==◌,
}

pub record Lexer : Type 0 where
  pub input : Bytes
  pub position : ℕ
  pub read_position : ℕ
  pub ch : ℕ
  pub line : ℕ
  pub column : ℕ
  pub sorted_ops : List Text
  pub saw_newline : Bool
  pub last_token_type : Option TokenType

-- Past the end of the input, a byte reads as 0.
unfoldable pub peek_char : Lexer → ℕ
peek_char l = if leb (length l.input) l.read_position then 0 else get_or l.input l.read_position 0

unfoldable pub read_char : Lexer → Lexer
unfolding peek_char
read_char l =
    let c = peek_char l in
    record l {
      ch = c;
      line = if c == b'\n' then l.line + 1 else l.line;
      column = if c == b'\n' then 0 else l.column + 1;
      position = l.read_position;
      read_position = l.read_position + 1;
    }

-- One turn per byte that is left, and one to see that nothing is.
abbrev pub fuel : Lexer → ℕ
fuel l = suc (length l.input - l.position)
