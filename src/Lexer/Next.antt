-- ===== src/Lexer/Next.antt =====
-- `Lexer::new`, `next_token` and `produce_token` of lexer.rs.
use formlogic_rust.Lexer.Cursor.{Lexer, read_char, peek_char}
use formlogic_rust.Lexer.Skip.{skip}
use formlogic_rust.Lexer.Word.{is_letter, read_identifier}
use formlogic_rust.Lexer.Number.{read_number}
use formlogic_rust.Lexer.Quoted.{read_quoted}
use formlogic_rust.Lexer.Template.{read_template_literal}
use formlogic_rust.Lexer.Regex.{read_regex_literal, should_start_regex_literal}
use formlogic_rust.Lexer.Operator.{sort_ops, find_op, read_chars}
use formlogic_rust.Token.Text.{Text, is_ascii_digit}
use formlogic_rust.Token.Kind.{TokenType}
use formlogic_rust.Token.Literal.{Token, new_token}
use formlogic_rust.Token.Keywords.{lookup_ident}
use formlogic_rust.Token.Operators.{operator_type}
use formlogic_rust.Common.{
  Bool, Bytes, List, Option, [], false, if◌then◌else◌, length, none, some, true, ℕ, ◌&&◌, ◌==◌,
  ◌>>=◌, ◌||◌, ◌∷◌,
}

-- The fields that `new` sets; of `config.operators` it reads the keys, in their order.
abbrev pub unread : Bytes → List Text → Lexer
unread input operators = record {
  input = input;
  position = 0;
  read_position = 0;
  ch = 0;
  line = 1;
  column = 0;
  sorted_ops = sort_ops operators;
  saw_newline = false;
  last_token_type = none;
}

unfoldable pub new : Bytes → List Text → Lexer
unfolding read_char
new input operators = read_char (unread input operators)

abbrev pub has_char : ℕ → Text → Bool
has_char c [] = false
has_char c (d ∷ s) = (c == d) || has_char c s

abbrev pub number_type : Text → TokenType
number_type lit =
    if has_char b'.' lit || has_char b'e' lit || has_char b'E' lit
    then TokenType.tok_float
    else TokenType.tok_int

-- What the search gave: an operator to read, or else one byte.
unfoldable pub operator_token : Lexer → Option Text → Token × Lexer
unfolding read_chars operator_type
operator_token l (some op) =
    (new_token (operator_type op) op l.line l.column, read_chars (length op) l)
operator_token l none =
    let t = if l.ch == b'#' then TokenType.tok_hash else TokenType.tok_illegal in
    (new_token t (l.ch ∷ []) l.line l.column, read_char l)

unfoldable pub read_operator : Lexer → Token × Lexer
unfolding find_op operator_token
read_operator l = operator_token l (find_op l l.sorted_ops)

-- What is left of `produce_token` once the byte under the cursor is not 0.
unfoldable pub read_token : Lexer → Option (Token × Lexer)
unfolding read_identifier read_number read_quoted read_operator lookup_ident
read_token l =
    if l.ch == b'`'
    then read_template_literal l.line l.column l
    else if (l.ch == b'/') && should_start_regex_literal l
    then read_regex_literal l.line l.column l
    else if (l.ch == b'"') || (l.ch == b'\'')
    then (do r ← read_quoted l.ch l; some (new_token TokenType.tok_string r.0 l.line l.column, r.1))
    else if (l.ch == b'.') && is_ascii_digit (peek_char l)
    then (do r ← read_number l; some (new_token TokenType.tok_float r.0 l.line l.column, r.1))
    else if is_ascii_digit l.ch
    then (do r ← read_number l; some (new_token (number_type r.0) r.0 l.line l.column, r.1))
    else if is_letter l.ch
    then (do r ← read_identifier l; some (new_token (lookup_ident r.0) r.0 l.line l.column, r.1))
    else some (read_operator l)

unfoldable pub produce_token : Lexer → Option (Token × Lexer)
unfolding read_token
produce_token l =
    if l.ch == 0 then some (new_token TokenType.tok_eof [] l.line l.column, l) else read_token l

abbrev pub is_illegal : TokenType → Bool
is_illegal TokenType.tok_illegal = true
is_illegal _ = false

-- The newline flag goes into the token, and the token's type into the lexer.
abbrev pub finish : Bool → Token × Lexer → Token × Lexer
finish had_newline (token, l) = (
  record token { had_newline_before = had_newline },
  record l {
    last_token_type =
        if is_illegal token.token_type then l.last_token_type else some token.token_type;
  },
)

unfoldable pub next_token : Lexer → Option (Token × Lexer)
unfolding skip produce_token
next_token l = do
  start ← skip (record l { saw_newline = false })
  r ← produce_token start
  some (finish start.saw_newline r)
