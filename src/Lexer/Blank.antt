-- ===== src/Lexer/Blank.antt =====
-- Where `skip_whitespace`, `skip_comments` and the loop of `next_token` stop.
use formlogic_rust.Lexer.Loop.{Flow, run-result, Turn, run}
use formlogic_rust.Lexer.Cursor.{Lexer, read_char, peek_char, fuel}
use formlogic_rust.Lexer.Forward.{
  IsForward, IsPast, IsConsistent, read_char_turn, past_turn, remaining, IsForward-refl,
  IsForward-trans, read_chars-IsForward, read_char-IsPast, IsForward-flags, peek_char_lem,
  read_char-position,
}
use formlogic_rust.Lexer.Skipped.{
  IsSkipped, IsSkipped-refl, IsSkipped-trans, LineRest, BlockRest, Skipped,
}
use formlogic_rust.Lexer.Skip.{
  is_blank, whitespace_turn, skip_whitespace, line_comment_turn, block_comment_turn, note_newline,
}
use formlogic_rust.Common.{
  Bool-cases, ap, arith, false, get_or, inl, inr, refl, some, suc, sym, true, ℕ, ◌&&◌, ◌==◌, ◌||◌,
  ◌∙◌, ◌≡◌, ◌⊎◌,
}

note_newline-IsPast : (s : Lexer) → IsConsistent s → IsPast s (read_char (note_newline s))
note_newline-IsPast s c = elim (Bool-cases ((s.ch == b'\n') || (s.ch == b'\r'))) [
  | inl newline ↦
      rw newline (past_noted s (IsForward-flags true s.last_token_type (IsForward-refl s c)))
  | inr other ↦ rw other (read_char-IsPast s c)
]
  where
    past_noted :
        (s : Lexer)
        → IsForward s (record s { saw_newline = true })
        → IsPast s (read_char (record s { saw_newline = true }))
    past_noted s f =
        let (g, further) = read_char-IsPast (record s { saw_newline = true }) f.consistent in
        (IsForward-trans f g, further)

blank_not_end : (c : ℕ) → is_blank c ≡ true → (c == 0) ≡ false
blank_not_end c h = ground arith

-- The bytes at the cursor, as the text of an earlier cursor has them.
pub byte_here : {l s : Lexer} → IsForward l s → get_or l.input s.position 0 ≡ s.ch
byte_here {s = s} f = rw (sym f.input) (sym f.consistent.here)

pub byte_next : {l s : Lexer} → IsForward l s → get_or l.input (suc s.position) 0 ≡ peek_char s
byte_next {s = s} f = rw (sym f.input, sym f.consistent.next) (sym (peek_char_lem s))

pub next_position : (s : Lexer) → IsConsistent s → (read_char s).position ≡ suc s.position
next_position s c = read_char-position s ∙ c.next

pub after_two :
    (s : Lexer) → IsConsistent s → (read_char (read_char s)).position ≡ suc (suc s.position)
after_two s c =
    next_position (read_char s) (read_char-IsPast s c).0.consistent ∙ ap suc (next_position s c)

blank_over :
    (s : Lexer) → IsConsistent s → is_blank s.ch ≡ true → IsSkipped s (read_char (note_newline s))
blank_over s c h =
    let (f, _) = note_newline-IsPast s c in
    record {
      forward = f;
      over = rw (noted (Bool-cases _)) (Skipped.blank (rw (sym c.here) h) Skipped.nothing);
    }
  where
    noted :
        ((((s.ch == b'\n') || (s.ch == b'\r')) ≡ true)
          ⊎ (((s.ch == b'\n') || (s.ch == b'\r')) ≡ false))
        → (read_char (note_newline s)).position ≡ suc s.position
    noted (inl newline) = rw newline (read_char-position (record s { saw_newline = true }) ∙ c.next)
    noted (inr other) = rw other (next_position s c)

module _ (l : Lexer) where
  abbrev pub AtBlankEnd : Lexer → Type 0
  AtBlankEnd l' = IsSkipped l l' × (is_blank l'.ch ≡ false)

  whitespace_turn_lem :
      (s : Lexer)
      → IsSkipped l s
      → (flow : Flow Lexer) × (whitespace_turn s ≡ some flow)
        × Turn (IsSkipped l) AtBlankEnd remaining s flow
  unfolding whitespace_turn
  whitespace_turn_lem s f = elim (Bool-cases (is_blank s.ch)) [
    | inl blank ↦
        let c = f.forward.consistent in
        (
          Flow.again (read_char (note_newline s)),
          rw blank refl,
          (
            IsSkipped-trans f (blank_over s c blank),
            (past_turn f.forward (blank_not_end s.ch blank) (note_newline-IsPast s c)).1,
          ),
        )
    | inr other ↦ (Flow.stop s, rw other refl, (f, other))
  ]

  pub skip_whitespace_lem :
      IsConsistent l → (l' : Lexer) × (skip_whitespace l ≡ some l') × AtBlankEnd l'
  unfolding skip_whitespace
  skip_whitespace_lem c =
      run-result (IsSkipped l) AtBlankEnd remaining whitespace_turn whitespace_turn_lem (fuel l) l
        (IsSkipped-refl l c) (omega arith)

  -- The cursor is inside a line comment whose rest began at `l`.
  abbrev InLine : Lexer → Type 0
  InLine s =
      IsForward l s × ((j : ℕ) → LineRest l.input s.position j → LineRest l.input l.position j)

  abbrev pub AtLineEnd : Lexer → Type 0
  AtLineEnd s = IsForward l s × LineRest l.input l.position s.position

  line_turn_lem :
      (s : Lexer)
      → InLine s
      → (flow : Flow Lexer) × (line_comment_turn s ≡ some flow)
        × Turn InLine AtLineEnd remaining s flow
  unfolding line_comment_turn
  line_turn_lem s (f, before) = elim (Bool-cases (s.ch == 0)) [
    | inl end ↦ (
      Flow.stop s,
      rw end refl,
      (f, before s.position (LineRest.line_end (rw (byte_here f, end) refl))),
    )
    | inr byte ↦ elim (Bool-cases (s.ch == b'\n')) [
      | inl newline ↦ (
        Flow.stop s,
        rw (byte, newline) refl,
        (f, before s.position (LineRest.line_end (rw (byte_here f, byte, newline) refl))),
      )
      | inr other ↦
          let (g, less) = read_char_turn f byte in
          let on = λ (j : ℕ) (rest : LineRest l.input (read_char s).position j). before j (
            LineRest.line_byte (rw (byte_here f, byte, other) refl)
              (rw (next_position s f.consistent) at rest)) in
          (Flow.again (read_char s), rw (byte, other) refl, ((g, on), less))
    ]
  ]

  abbrev InBlock : Lexer → Type 0
  InBlock s =
      IsForward l s × ((j : ℕ) → BlockRest l.input s.position j → BlockRest l.input l.position j)

  abbrev pub AtBlockEnd : Lexer → Type 0
  AtBlockEnd s = IsForward l s × BlockRest l.input l.position s.position

  block_turn_lem :
      (s : Lexer)
      → InBlock s
      → (flow : Flow Lexer) × (block_comment_turn s ≡ some flow)
        × Turn InBlock AtBlockEnd remaining s flow
  unfolding block_comment_turn
  block_turn_lem s (f, before) = elim (Bool-cases (s.ch == 0)) [
    | inl end ↦ (
      Flow.stop s,
      rw end refl,
      (f, before s.position (BlockRest.block_end (rw (byte_here f) end))),
    )
    | inr byte ↦ elim (Bool-cases ((s.ch == b'*') && (peek_char s == b'/'))) [
      | inl closed ↦ (
        Flow.stop (read_char (read_char s)),
        rw (byte, closed) refl,
        (
          IsForward-trans f (read_chars-IsForward s f.consistent),
          rw (after_two s f.consistent) (
              before (suc (suc s.position))
                (BlockRest.block_close (rw (byte_here f, byte_next f) closed))),
        ),
      )
      | inr other ↦
          let (g, less) = read_char_turn f byte in
          let on = λ (j : ℕ) (rest : BlockRest l.input (read_char s).position j). before j (
            BlockRest.block_byte (rw (byte_here f) byte) (rw (byte_here f, byte_next f) other)
              (rw (next_position s f.consistent) at rest)) in
          (Flow.again (read_char s), rw (byte, other) refl, ((g, on), less))
    ]
  ]

  pub line_comment_lem :
      IsConsistent l → (l' : Lexer) × (run (fuel l) line_comment_turn l ≡ some l') × AtLineEnd l'
  line_comment_lem c =
      run-result InLine AtLineEnd remaining line_comment_turn line_turn_lem (fuel l) l
        (IsForward-refl l c, λ j rest. rest) (omega arith)

  pub block_comment_lem :
      IsConsistent l → (l' : Lexer) × (run (fuel l) block_comment_turn l ≡ some l') × AtBlockEnd l'
  block_comment_lem c =
      run-result InBlock AtBlockEnd remaining block_comment_turn block_turn_lem (fuel l) l
        (IsForward-refl l c, λ j rest. rest) (omega arith)
