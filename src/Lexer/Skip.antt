-- ===== src/Lexer/Skip.antt =====
-- `skip_whitespace` and `skip_comments` of lexer.rs.
use formlogic_rust.Lexer.Loop.{Flow, run}
use formlogic_rust.Lexer.Cursor.{Lexer, read_char, peek_char, fuel}
use formlogic_rust.Common.{Bool, Option, if◌then◌else◌, not, some, true, ℕ, ◌&&◌, ◌==◌, ◌>>=◌, ◌||◌}

abbrev pub is_blank : ℕ → Bool
is_blank c = (c == b' ') || (c == b'\t') || (c == b'\n') || (c == b'\r')

abbrev pub note_newline : Lexer → Lexer
note_newline l = if (l.ch == b'\n') || (l.ch == b'\r') then record l { saw_newline = true } else l

unfoldable pub whitespace_turn : Lexer → Option (Flow Lexer)
unfolding read_char
whitespace_turn l =
    if is_blank l.ch then some (Flow.again (read_char (note_newline l))) else some (Flow.stop l)

unfoldable pub skip_whitespace : Lexer → Option Lexer
unfolding whitespace_turn
skip_whitespace l = run (fuel l) whitespace_turn l

-- `while self.ch != 0 && self.ch != b'\n'`
unfoldable pub line_comment_turn : Lexer → Option (Flow Lexer)
line_comment_turn l =
    if not (l.ch == 0) && not (l.ch == b'\n')
    then some (Flow.again (read_char l))
    else some (Flow.stop l)

unfoldable pub block_comment_turn : Lexer → Option (Flow Lexer)
block_comment_turn l =
    if l.ch == 0
    then some (Flow.stop l)
    else if (l.ch == b'*') && (peek_char l == b'/')
    then some (Flow.stop (read_char (read_char l)))
    else some (Flow.again (read_char l))

unfoldable pub comments_turn : Lexer → Option (Flow Lexer)
unfolding line_comment_turn block_comment_turn
comments_turn l =
    let inside = read_char (read_char l) in
    if (l.ch == b'/') && (peek_char l == b'/')
    then (do l' ← run (fuel inside) line_comment_turn inside; some (Flow.again l'))
    else if (l.ch == b'/') && (peek_char l == b'*')
    then (do l' ← run (fuel inside) block_comment_turn inside; some (Flow.again l'))
    else some (Flow.stop l)

unfoldable pub skip_comments : Lexer → Option Lexer
unfolding comments_turn
skip_comments l = run (fuel l) comments_turn l

-- The loop of `next_token`: blanks, then comments, until no comment was there.
unfoldable pub skip_turn : Lexer → Option (Flow Lexer)
skip_turn l = do
  before ← skip_whitespace l
  after ← skip_comments before
  some (if after.position == before.position then Flow.stop after else Flow.again after)

unfoldable pub skip : Lexer → Option Lexer
unfolding skip_turn
skip l = do l' ← run (fuel l) skip_turn l; skip_whitespace l'
