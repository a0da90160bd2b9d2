-- ===== src/Lexer/Number.antt =====
-- `read_number`, `is_radix_digit` and `exponent_has_digits` of lexer.rs.
use formlogic_rust.Lexer.Loop.{Flow, run}
use formlogic_rust.Lexer.Cursor.{Lexer, read_char, peek_char, fuel}
use formlogic_rust.Token.Text.{Text, is_ascii_digit}
use formlogic_rust.Common.{
  Bool, Option, [], false, get_or, if◌then◌else◌, leb, length, ltb, none, not, some, true, within,
  ℕ, ◌&&◌, ◌++◌, ◌+◌, ◌-◌, ◌==◌, ◌>>=◌, ◌||◌, ◌∷◌,
}

-- `(ch as char).is_digit(radix)`
abbrev pub is_radix_digit : ℕ → ℕ → Bool
is_radix_digit ch radix =
    if is_ascii_digit ch
    then ltb (ch - b'0') radix
    else if within b'a' b'z' ch
    then ltb (ch - b'a' + 10) radix
    else if within b'A' b'Z' ch
    then ltb (ch - b'A' + 10) radix
    else false

unfoldable pub exponent_has_digits : Lexer → Bool
exponent_has_digits l =
    let i = l.read_position in
    let c = get_or l.input i 0 in
    let j = if (c == b'+') || (c == b'-') then i + 1 else i in
    if leb (length l.input) i
    then false
    else ltb j (length l.input) && is_ascii_digit (get_or l.input j 0)

abbrev pub radix_of : ℕ → Option ℕ
radix_of next =
    if (next == b'x') || (next == b'X')
    then some 16
    else if (next == b'b') || (next == b'B')
    then some 2
    else if (next == b'o') || (next == b'O')
    then some 8
    else none

unfoldable pub radix_turn : ℕ → Text × Lexer → Option (Flow (Text × Lexer))
radix_turn radix (out, l) =
    if is_radix_digit l.ch radix || ((l.ch == b'_') && is_radix_digit (peek_char l) radix)
    then some (Flow.again (if l.ch == b'_' then out else out ++ l.ch ∷ [], read_char l))
    else some (Flow.stop (out, l))

unfoldable pub read_radix : ℕ → Lexer → Option (Text × Lexer)
unfolding radix_turn
read_radix radix l =
    let l' = read_char l in
    let digits = read_char l' in run (fuel digits) (radix_turn radix) (b'0' ∷ l'.ch ∷ [], digits)

pub record NumberState : Type 0 where
  pub out : Text
  pub seen_dot : Bool
  pub seen_exp : Bool
  pub at : Lexer

abbrev pub is_exponent : ℕ → Bool
is_exponent c = (c == b'e') || (c == b'E')

unfoldable pub goes_on : NumberState → Bool
unfolding peek_char exponent_has_digits
goes_on s =
    let c = s.at.ch in
    is_ascii_digit c
    || (not s.seen_dot && not s.seen_exp && (c == b'.'))
    || ((c == b'_') && is_ascii_digit (peek_char s.at))
    || (not s.seen_exp && is_exponent c && exponent_has_digits s.at)

-- The exponent's letter and its sign.
unfoldable pub read_exponent : NumberState → NumberState
unfolding read_char
read_exponent s =
    let l = read_char s.at in
    let out = s.out ++ s.at.ch ∷ [] in
    if (l.ch == b'+') || (l.ch == b'-')
    then record s { seen_exp = true; out = out ++ l.ch ∷ []; at = read_char l }
    else record s { seen_exp = true; out = out; at = l }

-- What a turn of the loop reads.
unfoldable pub number_next : NumberState → NumberState
unfolding read_exponent
number_next s =
    let c = s.at.ch in
    let next = read_char s.at in
    if c == b'.'
    then record s { seen_dot = true; out = s.out ++ b'.' ∷ []; at = next }
    else if is_exponent c
    then read_exponent s
    else if c == b'_'
    then record s { at = next }
    else record s { out = s.out ++ c ∷ []; at = next }

unfoldable pub number_turn : NumberState → Option (Flow NumberState)
unfolding goes_on number_next
number_turn s = if goes_on s then some (Flow.again (number_next s)) else some (Flow.stop s)

unfoldable pub number_start : Lexer → NumberState
number_start l =
    if l.ch == b'.'
    then record { out = b'.' ∷ []; seen_dot = true; seen_exp = false; at = read_char l }
    else record { out = []; seen_dot = false; seen_exp = false; at = l }

unfoldable pub read_decimal : Lexer → Option (Text × Lexer)
unfolding number_turn number_start
read_decimal l = do s ← run (fuel l) number_turn (number_start l); some (s.out, s.at)

unfoldable pub read_number : Lexer → Option (Text × Lexer)
unfolding read_radix read_decimal
read_number l =
    if l.ch == b'0'
    then (elim (radix_of (peek_char l)) [ some radix ↦ read_radix radix l | none ↦ read_decimal l ])
    else read_decimal l
