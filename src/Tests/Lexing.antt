-- ===== src/Tests/Lexing.antt =====
-- Each theorem of the lexer at a concrete input.
use mathlib.Core.List.{Memᴰ}
use formlogic_rust.Lexer.Forward.{IsPast}
use formlogic_rust.Lexer.Skip.{skip}
use formlogic_rust.Lexer.Comment.{AtToken, skip_lem}
use formlogic_rust.Lexer.Word.{is_word, read_identifier}
use formlogic_rust.Lexer.Progress.{read_identifier_lem}
use formlogic_rust.Lexer.Operator.{sort_ops, starts_with, find_op}
use formlogic_rust.Lexer.Longest.{find_op-sort_ops}
use formlogic_rust.Lexer.Cursor.{Lexer, read_char}
use formlogic_rust.Lexer.Quoted.{read_quoted}
use formlogic_rust.Lexer.RoundTrip.{IsAt, escaped, read_quoted-escaped}
use formlogic_rust.Lexer.Tokens.{AreOps}
use formlogic_rust.Lexer.Stream.{IsToken, next_token_lem}
use formlogic_rust.Lexer.Next.{new, next_token}
use formlogic_rust.Lexer.Whole.{tokens, new-IsConsistent, new-AreOps, tokens-new}
use formlogic_rust.Token.Literal.{Token}
use formlogic_rust.Token.Text.{Text, chars}
use formlogic_rust.Common.{
  All, Bytes, List, [], arith, drop, false, get_or, length, none, refl, some, suc, take, true, ℕ,
  ◌++◌, ◌-◌, ◌<◌, ◌∷◌, ◌≡◌, ◌≤◌, ◌⊎◌,
}

-- A comment, an assignment and an operator that has shorter operators as prefixes.
abbrev source : Bytes
source = chars "/* a */ ab1 >>>= 0x1F"

abbrev shifts : List Text
shifts = chars ">" ∷ chars ">>" ∷ chars ">>>=" ∷ chars ">>=" ∷ []

shifts-AreOps : AreOps shifts
shifts-AreOps = (omega arith, (omega arith, (omega arith, (omega arith, tt))))

next_token_lem_example :
    (start : Lexer) × (token : Token) × (l' : Lexer) × (next_token (new source shifts)
      ≡ some (token, l'))
    × IsToken (new source shifts) start token l'
next_token_lem_example =
    next_token_lem (new source shifts) (new-IsConsistent source shifts)
      (new-AreOps source shifts shifts-AreOps)

tokens-new_example :
    (ts : List Token) × (tokens (suc (length source)) (new source shifts) ≡ some ts)
    × (length ts ≤ suc (length source))
tokens-new_example = tokens-new source shifts shifts-AreOps

skip_lem_example :
    (l' : Lexer) × (skip (new source shifts) ≡ some l') × AtToken (new source shifts) l'
skip_lem_example = skip_lem (new source shifts) (new-IsConsistent source shifts)

abbrev word : Lexer
word = new (chars "ab1 c") []

read_identifier_lem_example :
    (l' : Lexer) × (read_identifier word
      ≡ some (take (l'.position - word.position) (drop word.position word.input), l'))
    × IsPast word l'
    × ((i : ℕ) → word.position ≤ i → i < l'.position → is_word (get_or word.input i 0) ≡ true)
    × (is_word l'.ch ≡ false)
unfolding new
read_identifier_lem_example = read_identifier_lem word (new-IsConsistent (chars "ab1 c") []) refl

find_op-sort_ops_example :
    ((find_op (new (chars ">>>=1") []) (sort_ops shifts) ≡ none)
      × All (λ x. starts_with (new (chars ">>>=1") []) x ≡ false) shifts)
    ⊎ ((op : Text) × (find_op (new (chars ">>>=1") []) (sort_ops shifts) ≡ some op)
        × Memᴰ op shifts
        × (starts_with (new (chars ">>>=1") []) op ≡ true)
        × All (λ x. starts_with (new (chars ">>>=1") []) x ≡ true → length x ≤ length op) shifts)
find_op-sort_ops_example = find_op-sort_ops (new (chars ">>>=1") []) shifts

-- A quote, a NUL, a backslash and a newline.
abbrev quotation : Text
quotation = b'a' ∷ b'"' ∷ 0 ∷ b'\\' ∷ b'\n' ∷ []

read_quoted-escaped_example :
    (l' : Lexer) × (read_quoted b'"' (new (b'"' ∷ (escaped quotation ++ b'"' ∷ b';' ∷ [])) [])
      ≡ some (quotation, l'))
    × IsAt l' (b';' ∷ [])
unfolding new read_char
read_quoted-escaped_example =
    read_quoted-escaped quotation (b';' ∷ [])
      (new (b'"' ∷ (escaped quotation ++ b'"' ∷ b';' ∷ [])) [])
      (record {
        consistent = new-IsConsistent (b'"' ∷ (escaped quotation ++ b'"' ∷ b';' ∷ [])) [];
        ahead = refl;
      })
      (omega arith, (omega arith, (omega arith, (omega arith, (omega arith, tt)))))
