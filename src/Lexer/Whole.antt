-- ===== src/Lexer/Whole.antt =====
-- A whole text: `next_token` until `Eof`, as a parser calls it.
use formlogic_rust.Lexer.Cursor.{Lexer, read_char}
use formlogic_rust.Lexer.Forward.{IsConsistent, remaining, inside, read_char-IsConsistent}
use formlogic_rust.Lexer.Longest.{sort_ops-All}
use formlogic_rust.Lexer.Tokens.{AreOps}
use formlogic_rust.Lexer.Stream.{next_token_lem, IsToken}
use formlogic_rust.Lexer.Next.{new, unread, next_token}
use formlogic_rust.Token.Kind.{is_eof}
use formlogic_rust.Token.Literal.{Token}
use formlogic_rust.Token.Text.{Text}
use formlogic_rust.Common.{
  Bytes, List, Option, [], ap, arith, false, if◌then◌else◌, inl, inr, length, none, refl, some, suc,
  true, zero, ℕ, ◌<◌, ◌==◌, ◌>>=◌, ◌∷◌, ◌≡◌, ◌≤◌,
}

unfoldable pub tokens : ℕ → Lexer → Option (List Token)
unfolding next_token
tokens zero l = none
tokens (suc fuel) l = do
  r ← next_token l
  let rest = tokens fuel r.1
  if is_eof r.0.token_type then some (r.0 ∷ []) else (rest >>= λ ts. some (r.0 ∷ ts))

pub new-IsConsistent : (input : Bytes) (ops : List Text) → IsConsistent (new input ops)
unfolding new
new-IsConsistent input ops = read_char-IsConsistent (unread input ops) refl refl

new-start :
    (input : Bytes) (ops : List Text)
    → ((new input ops).input ≡ input) × ((new input ops).position ≡ 0)
unfolding new read_char
new-start input ops = (refl, refl)

pub new-AreOps : (input : Bytes) (ops : List Text) → AreOps ops → AreOps (new input ops).sorted_ops
unfolding new read_char
new-AreOps input ops all = sort_ops-All (λ op. 0 < length op) ops all

tokens-end :
    (fuel : ℕ) (l : Lexer) {token : Token} {l' : Lexer}
    → next_token l ≡ some (token, l')
    → is_eof token.token_type ≡ true
    → tokens (suc fuel) l ≡ some (token ∷ [])
unfolding tokens
tokens-end fuel l e eof = rw (e, eof) refl

tokens-more :
    (fuel : ℕ) (l : Lexer) {token : Token} {l' : Lexer} {ts : List Token}
    → next_token l ≡ some (token, l')
    → is_eof token.token_type ≡ false
    → tokens fuel l' ≡ some ts
    → tokens (suc fuel) l ≡ some (token ∷ ts)
unfolding tokens
tokens-more fuel l e no_eof rest = rw (e, no_eof, rest) refl

nearer :
    (l start : Lexer) (token : Token) (l' : Lexer)
    → IsToken l start token l'
    → (start.ch == 0) ≡ false
    → start.position < l'.position
    → remaining l' < remaining l
nearer l start token l' is byte moved =
    let room = inside start is.from.consistent byte in
    omega
      (arith, room, moved, is.from.position, ap length is.from.input, ap length is.forward.input)

tokens_lem :
    (fuel : ℕ) (l : Lexer)
    → IsConsistent l
    → AreOps l.sorted_ops
    → remaining l < fuel
    → (ts : List Token) × (tokens fuel l ≡ some ts) × (length ts ≤ suc (remaining l))
tokens_lem zero l c ops h = absurd (omega arith)
tokens_lem (suc fuel) l c ops h =
    let (start, token, l', e, is) = next_token_lem l c ops in
    elim is.ends [
      | inl (end, eof, stay) ↦ (token ∷ [], tokens-end fuel l e eof, omega arith)
      | inr (byte, no_eof, moved) ↦
          let less = nearer l start token l' is byte moved in
          let (ts, rest, bound) =
            tokens_lem fuel l' is.forward.consistent (rw is.forward.ops ops)
              (omega (arith, less)) in
          (token ∷ ts, tokens-more fuel l e no_eof rest, omega (arith, less, bound))
    ]

-- Lexing ends on every input, whatever its bytes: under an operator table without an empty operator,
-- at most one call of `next_token` for each byte and one more reach `Eof`.
pub tokens-new :
    (input : Bytes) (ops : List Text)
    → AreOps ops
    → (ts : List Token) × (tokens (suc (length input)) (new input ops) ≡ some ts)
      × (length ts ≤ suc (length input))
tokens-new input ops all =
    let l = new input ops in
    let (size, start) = new-start input ops in
    let (ts, e, bound) =
      tokens_lem (suc (length input)) l (new-IsConsistent input ops) (new-AreOps input ops all)
        (omega (arith, ap length size, start)) in
    (ts, e, omega (arith, bound, ap length size, start))
