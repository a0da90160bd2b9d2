-- ===== src/Lexer/Comment.antt =====
-- Where `skip_comments` and the loop of `next_token` stop.
use formlogic_rust.Lexer.Loop.{Flow, run, run-result, run-stop, Turn}
use formlogic_rust.Lexer.Cursor.{Lexer, read_char, peek_char, fuel}
use formlogic_rust.Lexer.Forward.{
  IsForward, IsPast, IsConsistent, past_turn, same_byte, remaining, IsForward-refl, IsForward-trans,
  read_char-IsPast, inside,
}
use formlogic_rust.Lexer.Blank.{
  skip_whitespace_lem, line_comment_lem, block_comment_lem, byte_here, byte_next, after_two,
}
use formlogic_rust.Lexer.Skipped.{
  IsSkipped, IsSkipped-refl, IsSkipped-trans, Skipped, LineRest, BlockRest,
}
use formlogic_rust.Lexer.Skip.{
  is_blank, line_comment_turn, block_comment_turn, comments_turn, skip_comments, skip_turn, skip,
  skip_whitespace, whitespace_turn,
}
use formlogic_rust.Common.{
  ==_iff, Bool, Bool-cases, Bytes, Option, ap, arith, false, get_or, inl, inr, length, none, refl,
  some, suc, sym, true, ℕ, ◌&&◌, ◌-◌, ◌<◌, ◌==◌, ◌||◌, ◌∙◌, ◌≡◌, ◌≢◌,
}

-- The cursor is on `//` or on `/*`.
abbrev pub at_comment : Lexer → Bool
at_comment l =
    ((l.ch == b'/') && (peek_char l == b'/')) || ((l.ch == b'/') && (peek_char l == b'*'))

rest_from :
    (Rest : Bytes → ℕ → ℕ → Type 0) {input input' : Bytes} {i i' j : ℕ}
    → input' ≡ input
    → i' ≡ i
    → Rest input' i' j
    → Rest input i j
rest_from Rest {j = j} same at rest = rw (same, at) at rest

-- A comment's loop, from the byte behind the two that open the comment.
opening :
    (body : Lexer → Option (Flow Lexer)) (Rest : Bytes → ℕ → ℕ → Type 0)
    → ((l : Lexer)
        → IsConsistent l
        → (l' : Lexer) × (run (fuel l) body l ≡ some l')
          × (IsForward l l' × Rest l.input l.position l'.position))
    → (s : Lexer) → IsConsistent s
    → (l' : Lexer) × (run (fuel (read_char (read_char s))) body (read_char (read_char s)) ≡ some l')
      × IsPast s l'
      × Rest s.input (suc (suc s.position)) l'.position
opening body Rest ends s c =
    let (f, p) = read_char-IsPast s c in
    let (g, q) = read_char-IsPast (read_char s) f.consistent in
    let (l', e, (h, rest)) = ends (read_char (read_char s)) g.consistent in
    (
      l',
      e,
      (IsForward-trans f (IsForward-trans g h), omega (arith, p, q, h.position)),
      rest_from Rest (g.input ∙ f.input) (after_two s c) rest,
    )

slash_not_end : (c : ℕ) (b : Bool) → ((c == b'/') && b) ≡ true → (c == 0) ≡ false
slash_not_end c b h = ground arith

byte_at : (s : Lexer) → IsConsistent s → get_or s.input s.position 0 ≡ s.ch
byte_at s c = byte_here (IsForward-refl s c)

byte_after : (s : Lexer) → IsConsistent s → get_or s.input (suc s.position) 0 ≡ peek_char s
byte_after s c = byte_next (IsForward-refl s c)

module _ (l : Lexer) where
  abbrev pub AtCommentEnd : Lexer → Type 0
  AtCommentEnd l' = IsSkipped l l' × (at_comment l' ≡ false)

  comments_turn_lem :
      (s : Lexer)
      → IsSkipped l s
      → (flow : Flow Lexer) × (comments_turn s ≡ some flow)
        × Turn (IsSkipped l) AtCommentEnd remaining s flow
  unfolding comments_turn
  comments_turn_lem s f = elim (Bool-cases ((s.ch == b'/') && (peek_char s == b'/'))) [
    | inl line ↦
        let c = f.forward.consistent in
        let (l', e, past, rest) = opening line_comment_turn LineRest line_comment_lem s c in
        let over =
          Skipped.line_comment (rw (byte_at s c, byte_after s c) line) rest Skipped.nothing in
        (
          Flow.again l',
          rw (line, e) refl,
          (
            IsSkipped-trans f (record { forward = past.0; over = over }),
            (past_turn f.forward (slash_not_end s.ch (peek_char s == b'/') line) past).1,
          ),
        )
    | inr no_line ↦ elim (Bool-cases ((s.ch == b'/') && (peek_char s == b'*'))) [
      | inl block ↦
          let c = f.forward.consistent in
          let (l', e, past, rest) = opening block_comment_turn BlockRest block_comment_lem s c in
          let over =
            Skipped.block_comment (rw (byte_at s c, byte_after s c) block) rest Skipped.nothing in
          (
            Flow.again l',
            rw (no_line, block, e) refl,
            (
              IsSkipped-trans f (record { forward = past.0; over = over }),
              (past_turn f.forward (slash_not_end s.ch (peek_char s == b'*') block) past).1,
            ),
          )
      | inr no_block ↦ (Flow.stop s, rw (no_line, no_block) refl, (f, rw (no_line, no_block) refl))
    ]
  ]

  pub skip_comments_lem :
      IsConsistent l → (l' : Lexer) × (skip_comments l ≡ some l') × AtCommentEnd l'
  unfolding skip_comments
  skip_comments_lem c =
      run-result (IsSkipped l) AtCommentEnd remaining comments_turn comments_turn_lem (fuel l) l
        (IsSkipped-refl l c) (omega arith)

skip_whitespace_none : (l : Lexer) → is_blank l.ch ≡ false → skip_whitespace l ≡ some l
unfolding skip_whitespace whitespace_turn
skip_whitespace_none l e = run-stop whitespace_turn (length l.input - l.position) (rw e refl)

-- At the end of the input there is no comment.
end_turn : (l : Lexer) → (l.ch == 0) ≡ true → comments_turn l ≡ some (Flow.stop l)
unfolding comments_turn
end_turn l e = let other : (l.ch == b'/') ≡ false = ground arith in rw other

skip_comments_end : (l : Lexer) → (l.ch == 0) ≡ true → skip_comments l ≡ some l
unfolding skip_comments
skip_comments_end l e = run-stop comments_turn (length l.input - l.position) (end_turn l e)

differs : (a b : ℕ) → a ≡ b → (a == b) ≡ false → ⊥
differs a b e h = ground arith

module _ (l : Lexer) where
  abbrev pub AtToken : Lexer → Type 0
  AtToken l' = IsSkipped l l' × (is_blank l'.ch ≡ false) × (at_comment l' ≡ false)

  moved_inside :
      (before after : Lexer)
      → IsConsistent before
      → skip_comments before ≡ some after
      → (after.position == before.position) ≡ false
      → before.position < length before.input
  moved_inside before after c e moved = elim (Bool-cases (before.ch == 0)) [
    | inl end ↦
        let same : some before ≡ some after = sym (skip_comments_end before end) ∙ e in
        absurd (contradiction before after same moved)
    | inr byte ↦ inside before c byte
  ]
    where
      contradiction : (a b : Lexer) → some a ≡ some b → (b.position == a.position) ≡ false → ⊥
      contradiction a b same moved =
          let position : a.position ≡ b.position =
            ap (λ (o : Option Lexer). elim o [ some l ↦ l.position | none ↦ 0 ]) same in
          ground arith

  skip_turn_lem :
      (s : Lexer)
      → IsSkipped l s
      → (flow : Flow Lexer) × (skip_turn s ≡ some flow)
        × Turn (IsSkipped l) AtToken remaining s flow
  unfolding skip_turn
  skip_turn_lem s f =
      let (before, e, (f1, no_blank)) = skip_whitespace_lem s f.forward.consistent in
      let (after, e', (f2, no_comment)) = skip_comments_lem before f1.forward.consistent in
      let over = IsSkipped-trans f (IsSkipped-trans f1 f2) in
      elim (Bool-cases (after.position == before.position)) [
        | inl same ↦
            let byte =
              same_byte f1.forward.consistent f2.forward
                ((==_iff after.position before.position).0 same) in
            (Flow.stop after, rw (e, e', same) refl, (over, rw byte no_blank, no_comment))
        | inr moved ↦
            let apart : after.position ≢ before.position =
              λ e. differs after.position before.position e moved in
            let room = moved_inside before after f1.forward.consistent e' moved in
            (
              Flow.again after,
              rw (e, e', moved) refl,
              (
                over,
                omega (
                  arith,
                  f1.forward.position,
                  f2.forward.position,
                  room,
                  apart,
                  ap length f1.forward.input,
                  ap length f2.forward.input,
                ),
              ),
            )
      ]

  pub skip_turns : IsConsistent l → (l' : Lexer) × (run (fuel l) skip_turn l ≡ some l') × AtToken l'
  skip_turns c =
      run-result (IsSkipped l) AtToken remaining skip_turn skip_turn_lem (fuel l) l
        (IsSkipped-refl l c) (omega arith)

  -- The blanks and comments in front of a token are skipped, and no more: from a cursor that is
  -- consistent with its position, `next_token`'s loops end, on a consistent cursor where neither a
  -- blank nor a comment begins. What they go over is a sequence of blanks, of line comments, each to
  -- the next newline, and of block comments, each to the first `*/` behind its opening; a comment that
  -- is not ended goes on to the end of the text or to a byte 0.
  pub skip_lem : IsConsistent l → (l' : Lexer) × (skip l ≡ some l') × AtToken l'
  unfolding skip
  skip_lem c =
      let (l', e, (f, no_blank, no_comment)) = skip_turns c in
      (l', rw e (skip_whitespace_none l' no_blank), (f, no_blank, no_comment))
