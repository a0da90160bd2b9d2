-- ===== src/Imports/Line.antt =====
-- One line of imports.rs: `parse_import_line` and the string functions that it calls. A string is a
-- list of code points.
use formlogic_rust.Token.Text.{Text, chars}
use formlogic_rust.Common.{
  Bool, List, Option, [], false, if◌then◌else◌, none, some, true, within, ℕ, ◌&&◌, ◌==◌, ◌>>=◌,
  ◌||◌, ◌∷◌,
}

-- `char::is_whitespace`
unfoldable pub is_whitespace : ℕ → Bool
is_whitespace c =
    within 9 13 c
    || c == 0x20
    || c == 0x85
    || c == 0xA0
    || c == 0x1680
    || within 0x2000 0x200A c
    || c == 0x2028
    || c == 0x2029
    || c == 0x202F
    || c == 0x205F
    || c == 0x3000

abbrev pub is_empty : Text → Bool
is_empty [] = true
is_empty (c ∷ s) = false

unfoldable pub trim_start : Text → Text
unfolding is_whitespace
trim_start [] = []
trim_start (c ∷ s) = let rest = trim_start s in if is_whitespace c then rest else c ∷ s

unfoldable pub trim_end : Text → Text
unfolding is_whitespace
trim_end [] = []
trim_end (c ∷ s) =
    let rest = trim_end s in if is_empty rest && is_whitespace c then [] else c ∷ rest

unfoldable pub trim : Text → Text
unfolding trim_start trim_end
trim s = trim_end (trim_start s)

unfoldable pub strip_prefix : Text → Text → Option Text
strip_prefix [] s = some s
strip_prefix (p ∷ ps) [] = none
strip_prefix (p ∷ ps) (c ∷ s) = let rest = strip_prefix ps s in if p == c then rest else none

-- What stands before the first `quote`, and what after it.
unfoldable pub split_at_quote : ℕ → Text → Option (Text × Text)
split_at_quote quote [] = none
split_at_quote quote (c ∷ s) =
    let rest = split_at_quote quote s in
    if c == quote then some ([], s) else (do (before, after) ← rest; some (c ∷ before, after))

-- The opening quote, and what follows it.
abbrev opening_quote : Text → Option (ℕ × Text)
opening_quote [] = none
opening_quote (c ∷ s) = if c == b'"' || c == b'\'' then some (c, s) else none

abbrev starts_blank : Text → Bool
starts_blank [] = false
starts_blank (c ∷ s) = is_whitespace c

abbrev is_semicolon : Text → Bool
is_semicolon (c ∷ []) = c == b';'
is_semicolon _ = false

-- After the closing quote only blanks and one semicolon may stand.
abbrev checked_path : Text × Text → Option Text
unfolding trim
checked_path (path, tail) =
    let after = trim tail in if is_empty after || is_semicolon after then some path else none

abbrev parse_quoted : ℕ × Text → Option Text
unfolding split_at_quote trim
parse_quoted (quote, quoted) = split_at_quote quote quoted >>= checked_path

abbrev parse_rest : Text → Option Text
unfolding trim split_at_quote
parse_rest rest = if starts_blank rest then opening_quote (trim rest) >>= parse_quoted else none

unfoldable pub parse_import_line : Text → Option Text
unfolding strip_prefix trim split_at_quote
parse_import_line line = strip_prefix (chars "import") line >>= parse_rest

-- `str::lines`: a line ends at a line feed, with a carriage return before it left out.
abbrev pub starts_newline : Text → Bool
starts_newline [] = false
starts_newline (c ∷ s) = c == b'\n'

abbrev pub cons_char : ℕ → List Text → List Text
cons_char c [] = (c ∷ []) ∷ []
cons_char c (l ∷ ls) = (c ∷ l) ∷ ls

unfoldable pub lines : Text → List Text
lines [] = []
lines (c ∷ s) =
    let rest = lines s in
    if c == b'\n'
    then [] ∷ rest
    else if c == b'\r' && starts_newline s
    then rest
    else cons_char c rest

unfoldable pub strip_bom : Text → Text
unfolding strip_prefix
strip_bom s = strip_or (strip_prefix (0xFEFF ∷ []) s) s
  where
    strip_or : Option Text → Text → Text
    strip_or (some rest) s = rest
    strip_or none s = s
