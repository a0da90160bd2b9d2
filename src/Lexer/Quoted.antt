-- ===== src/Lexer/Quoted.antt =====
-- `read_quoted` of lexer.rs.
use formlogic_rust.Lexer.Loop.{Flow, run}
use formlogic_rust.Lexer.Cursor.{Lexer, read_char, fuel}
use formlogic_rust.Lexer.Escape.{read_hex, push_hex, from_utf8, is_continuation}
use formlogic_rust.Token.Text.{Text}
use formlogic_rust.Common.{
  Bytes, Option, [], if◌then◌else◌, leb, none, not, some, suc, zero, ℕ, ◌&&◌, ◌++◌, ◌-◌, ◌==◌,
  ◌>>=◌, ◌||◌, ◌∷◌,
}

-- The arms of the match that push one character.
abbrev pub quoted_escape : ℕ → Option ℕ
quoted_escape c =
    if c == b'n'
    then some b'\n'
    else if c == b'r'
    then some b'\r'
    else if c == b't'
    then some b'\t'
    else if (c == b'"') || (c == b'\'') || (c == b'\\')
    then some c
    else if c == b'0'
    then some 0
    else none

-- With the cursor on the byte behind a backslash: what that byte stands for is known or not.
unfoldable pub push_escape : Text → Lexer → Option ℕ → Text × Lexer
unfolding read_hex push_hex
push_escape out l (some c) = (out ++ c ∷ [], l)
push_escape out l none =
    let hex = read_hex 4 [] [] l in
    if l.ch == b'u' then (push_hex out hex.1, hex.2) else (out ++ b'\\' ∷ l.ch ∷ [], l)

unfoldable pub read_escape : Text → Lexer → Text × Lexer
unfolding push_escape
read_escape out l = push_escape out l (quoted_escape l.ch)

-- `for _ in 1..expected`, with the cursor on the last byte gathered.
unfoldable pub read_utf8 : ℕ → Bytes → Lexer → Bytes × Lexer
read_utf8 zero bytes l = (bytes, l)
read_utf8 (suc n) bytes l =
    let l' = read_char l in
    let rest = read_utf8 n (bytes ++ l'.ch ∷ []) l' in
    if is_continuation l'.ch then rest else (bytes, l')

abbrev pub expected_len : ℕ → ℕ
expected_len c = if leb 0xF0 c then 4 else if leb 0xE0 c then 3 else 2

abbrev pub push_utf8 : Text → Bytes → Text
push_utf8 out bytes = elim (from_utf8 bytes) [ some s ↦ out ++ s | none ↦ out ]

-- What a turn of the loop does before its last `read_char`.
unfoldable pub read_piece : Text → Lexer → Text × Lexer
unfolding read_escape read_utf8
read_piece out l =
    let utf8 = read_utf8 (expected_len l.ch - 1) (l.ch ∷ []) l in
    if l.ch == b'\\'
    then read_escape out (read_char l)
    else if leb 0x80 l.ch
    then (push_utf8 out utf8.0, utf8.1)
    else (out ++ l.ch ∷ [], l)

unfoldable pub quoted_turn : ℕ → Text × Lexer → Option (Flow (Text × Lexer))
unfolding read_piece
quoted_turn quote (out, l) =
    let piece = read_piece out l in
    if not (l.ch == 0) && not (l.ch == quote)
    then some (Flow.again (piece.0, read_char piece.1))
    else some (Flow.stop (out, l))

unfoldable pub read_quoted : ℕ → Lexer → Option (Text × Lexer)
unfolding quoted_turn
read_quoted quote l = do
  let start = read_char l
  (out, l') ← run (fuel start) (quoted_turn quote) ([], start)
  some (out, if l'.ch == quote then read_char l' else l')
