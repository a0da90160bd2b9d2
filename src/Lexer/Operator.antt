-- ===== src/Lexer/Operator.antt =====
-- The operators of `Lexer`: their order in `new`, `starts_with`, and the search of `produce_token`.
use formlogic_rust.Lexer.Cursor.{Lexer, read_char}
use formlogic_rust.Token.Text.{Text, text_eq}
use formlogic_rust.Common.{
  Bool, List, Option, [], drop, false, if◌then◌else◌, leb, length, ltb, none, some, suc, take, zero,
  ℕ, ◌+◌, ◌∷◌,
}

-- `sort_by(|a, b| b.len().cmp(&a.len()))`, a stable sort: an earlier operator of the same length first.
abbrev pub insert_op : Text → List Text → List Text
insert_op op [] = op ∷ []
insert_op op (o ∷ ops) =
    let rest = o ∷ insert_op op ops in if leb (length o) (length op) then op ∷ o ∷ ops else rest

abbrev pub sort_ops : List Text → List Text
sort_ops [] = []
sort_ops (op ∷ ops) = insert_op op (sort_ops ops)

unfoldable pub starts_with : Lexer → Text → Bool
starts_with l s =
    if ltb (length l.input) (l.position + length s)
    then false
    else text_eq (take (length s) (drop l.position l.input)) s

-- The first operator that the input goes on with.
unfoldable pub find_op : Lexer → List Text → Option Text
find_op l [] = none
find_op l (op ∷ ops) = let rest = find_op l ops in if starts_with l op then some op else rest

-- `for _ in 0..n { self.read_char(); }`
unfoldable pub read_chars : ℕ → Lexer → Lexer
read_chars zero l = l
read_chars (suc n) l = read_chars n (read_char l)
