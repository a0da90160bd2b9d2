-- ===== src/Lexer/Escape.antt =====
-- The escapes that `read_quoted` and `read_template_literal` of lexer.rs share, and the parts of the
-- standard library they call: `from_str_radix`, `char::from_u32` and `str::from_utf8`.
use formlogic_rust.Lexer.Cursor.{Lexer, read_char}
use formlogic_rust.Token.Text.{Text, is_ascii_digit, is_ascii_hexdigit}
use formlogic_rust.Common.{
  Bool, Bytes, Option, [], if◌then◌else◌, leb, length, ltb, none, not, some, suc, within, zero, ℕ,
  ◌&&◌, ◌*◌, ◌++◌, ◌+◌, ◌-◌, ◌==◌, ◌||◌, ◌∷◌,
}

abbrev pub hex_value : ℕ → ℕ
hex_value c =
    if is_ascii_digit c then c - b'0' else if leb b'a' c then c - b'a' + 10 else c - b'A' + 10

-- `u32::from_str_radix(hex, 16)`, for hexadecimal digits that do not overflow.
abbrev pub from_hex : ℕ → Text → ℕ
from_hex n [] = n
from_hex n (c ∷ cs) = from_hex (16 * n + hex_value c) cs

-- `char::from_u32`, which refuses the surrogates and what lies past the last code point.
abbrev pub from_u32 : ℕ → Option ℕ
from_u32 code = if within 0xD800 0xDFFF code || ltb 0x10FFFF code then none else some code

-- Up to `n` hexadecimal digits: what was read, the digits in it, and the cursor on the last byte read.
unfoldable pub read_hex : ℕ → Text → Text → Lexer → Text × Text × Lexer
unfolding read_char
read_hex zero raw hex l = (raw, hex, l)
read_hex (suc n) raw hex l =
    let l' = read_char l in
    let raw' = raw ++ l'.ch ∷ [] in
    let rest = read_hex n raw' (hex ++ l'.ch ∷ []) l' in
    if is_ascii_hexdigit l'.ch then rest else (raw', hex, l')

abbrev pub push_option : Text → Option ℕ → Text
push_option out none = out
push_option out (some c) = out ++ c ∷ []

-- What four digits push; fewer push nothing.
unfoldable pub push_hex : Text → Text → Text
push_hex out hex = if length hex == 4 then push_option out (from_u32 (from_hex 0 hex)) else out

abbrev pub is_continuation : ℕ → Bool
is_continuation c = within 0x80 0xBF c

-- `str::from_utf8` on the bytes gathered for one character, of which the first is not ASCII.
abbrev pub from_utf8 : Bytes → Option Text
from_utf8 (a ∷ b ∷ []) =
    if within 0xC2 0xDF a && is_continuation b
    then some ((64 * (a - 0xC0) + (b - 0x80)) ∷ [])
    else none
from_utf8 (a ∷ b ∷ c ∷ []) =
    let code = 4096 * (a - 0xE0) + 64 * (b - 0x80) + (c - 0x80) in
    if within 0xE0 0xEF a
      && is_continuation b
      && is_continuation c
      && leb 0x800 code
      && not (within 0xD800 0xDFFF code)
    then some (code ∷ [])
    else none
from_utf8 (a ∷ b ∷ c ∷ d ∷ []) =
    let code = 262144 * (a - 0xF0) + 4096 * (b - 0x80) + 64 * (c - 0x80) + (d - 0x80) in
    if within 0xF0 0xF4 a
      && is_continuation b
      && is_continuation c
      && is_continuation d
      && within 0x10000 0x10FFFF code
    then some (code ∷ [])
    else none
from_utf8 _ = none
