-- ===== src/Lexer/Word.antt =====
-- `is_letter` and `read_identifier` of lexer.rs.
use formlogic_rust.Lexer.Loop.{Flow, run}
use formlogic_rust.Lexer.Cursor.{Lexer, read_char, fuel}
use formlogic_rust.Token.Text.{Text, is_ascii_digit, is_ascii_alphabetic}
use formlogic_rust.Common.{Bool, Option, drop, if◌then◌else◌, some, take, ℕ, ◌-◌, ◌==◌, ◌>>=◌, ◌||◌}

abbrev pub is_letter : ℕ → Bool
is_letter c = (c == b'_') || (c == b'$') || is_ascii_alphabetic c

abbrev pub is_word : ℕ → Bool
is_word c = is_letter c || is_ascii_digit c

unfoldable pub word_turn : Lexer → Option (Flow Lexer)
word_turn l = if is_word l.ch then some (Flow.again (read_char l)) else some (Flow.stop l)

unfoldable pub read_identifier : Lexer → Option (Text × Lexer)
unfolding word_turn
read_identifier l = do
  l' ← run (fuel l) word_turn l
  some (take (l'.position - l.position) (drop l.position l.input), l')
