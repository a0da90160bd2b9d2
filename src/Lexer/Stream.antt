-- ===== src/Lexer/Stream.antt =====
-- The tokens of a text, one call of `next_token` after another.
use formlogic_rust.Lexer.Cursor.{Lexer}
use formlogic_rust.Lexer.Forward.{
  IsForward, IsConsistent, IsForward-refl, IsForward-trans, IsForward-flags, newlines,
  since_newline,
}
use formlogic_rust.Lexer.Skipped.{IsSkipped, Skipped}
use formlogic_rust.Lexer.Comment.{AtToken, skip_lem, at_comment}
use formlogic_rust.Lexer.Skip.{is_blank, skip}
use formlogic_rust.Lexer.Tokens.{AreOps, Produced, produce_token-Produced}
use formlogic_rust.Lexer.Next.{next_token, produce_token, finish}
use formlogic_rust.Token.Kind.{TokenType, is_eof}
use formlogic_rust.Token.Literal.{Token, new_token}
use formlogic_rust.Common.{[], false, inl, inr, refl, some, suc, true, ◌<◌, ◌==◌, ◌∙◌, ◌≡◌, ◌⊎◌}

-- Where the cursor stands after a token that began at `start`.
pub record IsToken (l start : Lexer) (token : Token) (l' : Lexer) : Type 0 where
  pub from : IsForward l start
  pub over : Skipped l.input l.position start.position
  pub no_blank : is_blank start.ch ≡ false
  pub no_comment : at_comment start ≡ false
  pub line : token.line ≡ suc (newlines (suc start.position) l.input)
  pub column : token.column ≡ since_newline (suc start.position) l.input
  pub forward : IsForward l l'
  pub ends :
      (((start.ch == 0) ≡ true) × (is_eof token.token_type ≡ true) × (l'.position ≡ start.position))
      ⊎ (((start.ch == 0) ≡ false)
          × (is_eof token.token_type ≡ false)
          × (start.position < l'.position))

-- What `next_token` adds to a token of `produce_token` keeps its place and its kind.
finished :
    (l start : Lexer) (token : Token) (l' : Lexer)
    → AtToken l start
    → (token.line ≡ start.line) × (token.column ≡ start.column)
    → IsForward start l'
    → (((start.ch == 0) ≡ true) × (is_eof token.token_type ≡ true) × (l'.position ≡ start.position))
      ⊎ (((start.ch == 0) ≡ false)
          × (is_eof token.token_type ≡ false)
          × (start.position < l'.position))
    → IsToken l start
        (finish start.saw_newline (token, l')).0
        (finish start.saw_newline (token, l')).1
finished l start token l' (skipped, blank, comment) (line, column) g ends =
    let f = skipped.forward in
    let c = f.consistent in
    record {
      from = f;
      over = skipped.over;
      no_blank = blank;
      no_comment = comment;
      line = line ∙ c.row ∙ rw (f.input, c.next) refl;
      column = column ∙ c.offset ∙ rw (f.input, c.next) refl;
      forward = IsForward-flags l'.saw_newline _ (IsForward-trans f g);
      ends = ends;
    }

next_token-finish :
    (l start : Lexer) {r : Token × Lexer}
    → skip (record l { saw_newline = false }) ≡ some start
    → produce_token start ≡ some r
    → next_token l ≡ some (finish start.saw_newline r)
unfolding next_token
next_token-finish l start skipped e = rw (skipped, e) refl

finish_token :
    (l start : Lexer)
    → AtToken l start
    → Produced (produce_token start) start
    → skip (record l { saw_newline = false }) ≡ some start
    → (token : Token) × (l' : Lexer) × (next_token l ≡ some (token, l')) × IsToken l start token l'
finish_token l start at (inl (end, e)) skipped =
    let token = new_token TokenType.tok_eof [] start.line start.column in
    let r = finish start.saw_newline (token, start) in
    (
      r.0,
      r.1,
      next_token-finish l start skipped e,
      finished l start token start at (refl, refl) (IsForward-refl start at.0.forward.consistent)
          (inl (end, refl, refl)),
    )
finish_token l start at (inr (byte, (token, l', e, past, line, column, no_eof))) skipped =
    let r = finish start.saw_newline (token, l') in
    (
      r.0,
      r.1,
      next_token-finish l start skipped e,
      finished l start token l' at (line, column) past.0 (inr (byte, no_eof, past.1)),
    )

-- `next_token` always gives a token, from a cursor that is consistent with its position and an operator
-- table without an empty operator. The token starts at the first byte that is neither blank nor in a
-- comment: what lies before it is a sequence of blanks, of line comments, each to the next newline,
-- and of block comments, each to the first `*/` behind its opening (to the end of the text or a byte 0 where
-- there is none), and neither a blank nor a comment begins there. The token carries the line and
-- column of that place; it is `Eof` exactly when the byte there is 0, and the cursor then stays, and
-- otherwise the cursor ends up behind that place. It never goes back.
pub next_token_lem :
    (l : Lexer)
    → IsConsistent l
    → AreOps l.sorted_ops
    → (start : Lexer) × (token : Token) × (l' : Lexer) × (next_token l ≡ some (token, l'))
      × IsToken l start token l'
next_token_lem l c ops =
    let quiet : IsForward l (record l { saw_newline = false }) =
      IsForward-flags false l.last_token_type (IsForward-refl l c) in
    let (start, e, (f, blank, comment)) =
      skip_lem (record l { saw_newline = false }) quiet.consistent in
    let made = produce_token-Produced start f.forward.consistent (rw f.forward.ops ops) in
    let from : IsSkipped l start = record {
      forward = IsForward-trans quiet f.forward;
      over = f.over;
    } in
    let (token, l', eq, is) = finish_token l start (from, blank, comment) made e in
    (start, token, l', eq, is)
