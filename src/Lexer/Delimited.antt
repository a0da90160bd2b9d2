-- ===== src/Lexer/Delimited.antt =====
-- `read_template_literal` and `read_regex_literal` end, past the byte they began at.
use formlogic_rust.Lexer.Loop.{Flow, run, run-result, Turn}
use formlogic_rust.Lexer.Cursor.{Lexer, read_char, peek_char, fuel}
use formlogic_rust.Lexer.Forward.{
  IsForward, IsPast, IsConsistent, read_char_turn, past_turn, remaining, IsForward-refl,
  read_char-IsPast, IsPast-forward,
}
use formlogic_rust.Lexer.Progress.{ReadsToken}
use formlogic_rust.Lexer.Strings.{read_hex-IsForward, IsPast-last, close_quote}
use formlogic_rust.Lexer.Template.{
  TemplateState, template_escape, open_interpolation, close_interpolation, template_backslash,
  template_turn, push_escaped, read_template_literal, template_next,
}
use formlogic_rust.Lexer.Regex.{
  RegexState, regex_next, regex_turn, flags_turn, read_flags, read_regex_literal,
}
use formlogic_rust.Token.Kind.{TokenType}
use formlogic_rust.Token.Text.{Text, is_ascii_alphabetic}
use formlogic_rust.Token.Literal.{new_token}
use formlogic_rust.Common.{
  Bool, Bool-cases, Option, [], arith, false, if◌then◌else◌, inl, inr, ltb, none, not, refl, some,
  ℕ, ◌&&◌, ◌++◌, ◌==◌, ◌||◌, ◌∷◌, ◌≡◌,
}

push_escaped-IsPast :
    (s : TemplateState) (l : Lexer) (escape : Option ℕ)
    → IsConsistent l
    → IsPast l (push_escaped s l escape).at
unfolding push_escaped
push_escaped-IsPast s l (some byte) c = read_char-IsPast l c
push_escaped-IsPast s l none c = elim (Bool-cases (l.ch == b'u')) [
  | inl unicode ↦
      rw unicode (IsPast-last (read_hex-IsForward 4 (s.raw ++ b'\\' ∷ l.ch ∷ []) [] l c))
  | inr plain ↦ rw plain (read_char-IsPast l c)
]

template_backslash-IsPast :
    (s : TemplateState) → IsConsistent s.at → IsPast s.at (template_backslash s).at
unfolding template_backslash
template_backslash-IsPast s c =
    let l = read_char s.at in
    let past = read_char-IsPast s.at c in
    IsPast-forward past (push_escaped-IsPast s l (template_escape l.ch) past.0.consistent).0

template_next-IsPast : (s : TemplateState) → IsConsistent s.at → IsPast s.at (template_next s).at
unfolding template_next open_interpolation close_interpolation
template_next-IsPast s c =
    let past = read_char-IsPast s.at c in
    elim (Bool-cases ((s.at.ch == b'$') && (peek_char s.at == b'{'))) [
      | inl opening ↦
          rw opening (IsPast-forward past (read_char-IsPast (read_char s.at) past.0.consistent).0)
      | inr no_opening ↦ elim (Bool-cases ((s.at.ch == b'}') && ltb 0 s.interpolation_depth)) [
        | inl closing ↦ rw (no_opening, closing) past
        | inr no_closing ↦ elim (Bool-cases (s.at.ch == b'\\')) [
          | inl backslash ↦ rw (no_opening, no_closing, backslash) (template_backslash-IsPast s c)
          | inr plain ↦ rw (no_opening, no_closing, plain) past
        ]
      ]
    ]

not_end : (c : ℕ) (b : Bool) → ((c == 0) || b) ≡ false → (c == 0) ≡ false
not_end c b h = ground arith

module _ (l : Lexer) where
  abbrev TemplateInv : TemplateState → Type 0
  TemplateInv s = IsForward l s.at

  template_turn_lem :
      (s : TemplateState)
      → TemplateInv s
      → (flow : Flow TemplateState) × (template_turn s ≡ some flow)
        × Turn TemplateInv TemplateInv (λ s'. remaining s'.at) s flow
  unfolding template_turn
  template_turn_lem s f =
      let closed = (s.at.ch == b'`') && (s.interpolation_depth == 0) in
      elim (Bool-cases ((s.at.ch == 0) || closed)) [
        | inl end ↦ (Flow.stop s, rw end refl, f)
        | inr more ↦ (
          Flow.again (template_next s),
          rw more refl,
          past_turn f (not_end s.at.ch closed more) (template_next-IsPast s f.consistent),
        )
      ]

  template_loop :
      IsConsistent l
      → (s : TemplateState) × (run
            (fuel l)
            template_turn
            (record { result = []; raw = []; interpolation_depth = 0; at = l })
          ≡ some s)
        × IsForward l s.at
  template_loop c =
      run-result TemplateInv TemplateInv (λ s'. remaining s'.at) template_turn template_turn_lem
        (fuel l) (record { result = []; raw = []; interpolation_depth = 0; at = l })
        (IsForward-refl l c) (omega arith)

pub read_template_literal-Reads :
    (line column : ℕ) (l : Lexer)
    → IsConsistent l
    → ReadsToken (read_template_literal line column l) line column l
unfolding read_template_literal
read_template_literal-Reads line column l c =
    let past = read_char-IsPast l c in
    let (s, e, f) = template_loop (read_char l) past.0.consistent in
    let token = new_token TokenType.tok_template s.result line column in
    (
      record token { raw_literal = some s.raw },
      if s.at.ch == b'`' then read_char s.at else s.at,
      rw e refl,
      close_quote b'`' (IsPast-forward past f),
      refl,
      refl,
      refl,
    )

module _ (l : Lexer) where
  abbrev RegexInv : RegexState → Type 0
  RegexInv s = IsForward l s.at

  regex_turn_lem :
      (s : RegexState)
      → RegexInv s
      → (flow : Flow RegexState) × (regex_turn s ≡ some flow)
        × Turn RegexInv RegexInv (λ s'. remaining s'.at) s flow
  unfolding regex_turn regex_next
  regex_turn_lem s f = elim (Bool-cases (s.at.ch == 0)) [
    | inl end ↦ (Flow.stop s, rw end refl, f)
    | inr byte ↦ elim (Bool-cases (not s.escaped && (s.at.ch == b'/') && not s.in_char_class)) [
      | inl closed ↦ (Flow.stop s, rw (byte, closed) refl, f)
      | inr more ↦ (Flow.again (regex_next s), rw (byte, more) refl, read_char_turn f byte)
    ]
  ]

  regex_loop :
      IsConsistent l
      → (s : RegexState) × (run
            (fuel l)
            regex_turn
            (record { pattern = []; escaped = false; in_char_class = false; at = l })
          ≡ some s)
        × IsForward l s.at
  regex_loop c =
      run-result RegexInv RegexInv (λ s'. remaining s'.at) regex_turn regex_turn_lem (fuel l)
        (record { pattern = []; escaped = false; in_char_class = false; at = l })
        (IsForward-refl l c) (omega arith)

  FlagsInv : Text × Lexer → Type 0
  FlagsInv (flags, s) = IsForward l s

  flags_turn_lem :
      (s : Text × Lexer)
      → FlagsInv s
      → (flow : Flow (Text × Lexer)) × (flags_turn s ≡ some flow)
        × Turn FlagsInv FlagsInv (λ s'. remaining s'.1) s flow
  unfolding flags_turn FlagsInv
  flags_turn_lem (flags, s) f = elim (Bool-cases (is_ascii_alphabetic s.ch)) [
    | inl letter ↦
        let byte : (s.ch == 0) ≡ false = ground arith in
        (Flow.again (flags ++ s.ch ∷ [], read_char s), rw letter refl, read_char_turn f byte)
    | inr other ↦ (Flow.stop (flags, s), rw other refl, f)
  ]

  flags_loop :
      IsConsistent l
      → (s : Text × Lexer) × (run (fuel l) flags_turn ([], l) ≡ some s) × IsForward l s.1
  unfolding FlagsInv
  flags_loop c =
      run-result FlagsInv FlagsInv (λ s'. remaining s'.1) flags_turn flags_turn_lem (fuel l) ([], l)
        (IsForward-refl l c) (omega arith)

read_flags-Reads :
    (pattern : Text) (line column : ℕ) (l b : Lexer)
    → IsPast l b
    → ReadsToken (read_flags pattern line column b) line column l
unfolding read_flags
read_flags-Reads pattern line column l b past =
    let ((flags, s), e, f) = flags_loop b past.0.consistent in
    let token = new_token TokenType.tok_regex pattern line column in
    (
      record token { raw_literal = some flags },
      s,
      rw e refl,
      IsPast-forward past f,
      refl,
      refl,
      refl,
    )

pub read_regex_literal-Reads :
    (line column : ℕ) (l : Lexer)
    → IsConsistent l
    → ReadsToken (read_regex_literal line column l) line column l
unfolding read_regex_literal
read_regex_literal-Reads line column l c =
    let past = read_char-IsPast l c in
    let (s, e, f) = regex_loop (read_char l) past.0.consistent in
    let behind = IsPast-forward past f in
    elim (Bool-cases (s.at.ch == b'/')) [
      | inl closed ↦
          let next = IsPast-forward behind (read_char-IsPast s.at f.consistent).0 in
          rw (e, closed) (read_flags-Reads s.pattern line column l (read_char s.at) next)
      | inr unclosed ↦
          let token = new_token TokenType.tok_illegal (b'/' ∷ []) line column in
          (token, s.at, rw (e, unclosed) refl, behind, refl, refl, refl)
    ]
