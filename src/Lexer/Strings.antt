-- ===== src/Lexer/Strings.antt =====
-- `read_quoted` ends, past the quote it began at.
use formlogic_rust.Lexer.Loop.{Flow, run, run-result, Turn}
use formlogic_rust.Lexer.Cursor.{Lexer, read_char, fuel}
use formlogic_rust.Lexer.Forward.{
  IsForward, IsPast, IsConsistent, past_turn, remaining, IsForward-refl, IsForward-trans,
  read_char-IsPast, IsPast-forward,
}
use formlogic_rust.Lexer.Progress.{Reads}
use formlogic_rust.Lexer.Escape.{read_hex, is_continuation}
use formlogic_rust.Lexer.Quoted.{
  read_escape, push_escape, read_utf8, read_piece, quoted_turn, read_quoted, quoted_escape,
  expected_len,
}
use formlogic_rust.Token.Text.{Text, is_ascii_hexdigit}
use formlogic_rust.Common.{
  Bool-cases, Bytes, Option, [], arith, if◌then◌else◌, inl, inr, leb, none, refl, some, suc, zero,
  ℕ, ◌++◌, ◌-◌, ◌==◌, ◌∷◌, ◌≡◌,
}

pub read_hex-IsForward :
    (n : ℕ) (raw hex : Text) (l : Lexer) → IsConsistent l → IsForward l (read_hex n raw hex l).2
unfolding read_hex
read_hex-IsForward zero raw hex l c = IsForward-refl l c
read_hex-IsForward (suc n) raw hex l c =
    let l' = read_char l in
    let (f, step) = read_char-IsPast l c in
    elim (Bool-cases (is_ascii_hexdigit l'.ch)) [
      | inl digit ↦ rw digit (
          IsForward-trans f
            (read_hex-IsForward n (raw ++ l'.ch ∷ []) (hex ++ l'.ch ∷ []) l' f.consistent))
      | inr other ↦ rw other f
    ]

push_escape-IsForward :
    (out : Text) (l : Lexer) (escape : Option ℕ)
    → IsConsistent l
    → IsForward l (push_escape out l escape).1
unfolding push_escape
push_escape-IsForward out l (some c) consistent = IsForward-refl l consistent
push_escape-IsForward out l none consistent = elim (Bool-cases (l.ch == b'u')) [
  | inl unicode ↦ rw unicode (read_hex-IsForward 4 [] [] l consistent)
  | inr plain ↦ rw plain (IsForward-refl l consistent)
]

read_escape-IsForward :
    (out : Text) (l : Lexer) → IsConsistent l → IsForward l (read_escape out l).1
unfolding read_escape
read_escape-IsForward out l c = push_escape-IsForward out l (quoted_escape l.ch) c

read_utf8-IsForward :
    (n : ℕ) (bytes : Bytes) (l : Lexer) → IsConsistent l → IsForward l (read_utf8 n bytes l).1
unfolding read_utf8
read_utf8-IsForward zero bytes l c = IsForward-refl l c
read_utf8-IsForward (suc n) bytes l c =
    let l' = read_char l in
    let (f, step) = read_char-IsPast l c in
    elim (Bool-cases (is_continuation l'.ch)) [
      | inl more ↦
          rw more (IsForward-trans f (read_utf8-IsForward n (bytes ++ l'.ch ∷ []) l' f.consistent))
      | inr other ↦ rw other f
    ]

read_piece-IsForward : (out : Text) (l : Lexer) → IsConsistent l → IsForward l (read_piece out l).1
unfolding read_piece
read_piece-IsForward out l c = elim (Bool-cases (l.ch == b'\\')) [
  | inl backslash ↦
      let (f, step) = read_char-IsPast l c in
      rw backslash (IsForward-trans f (read_escape-IsForward out (read_char l) f.consistent))
  | inr no_backslash ↦ elim (Bool-cases (leb 0x80 l.ch)) [
    | inl wide ↦
        rw (no_backslash, wide) (read_utf8-IsForward (expected_len l.ch - 1) (l.ch ∷ []) l c)
    | inr ascii ↦ rw (no_backslash, ascii) (IsForward-refl l c)
  ]
]

pub IsPast-last : {a b : Lexer} → IsForward a b → IsPast a (read_char b)
IsPast-last {b = b} f =
    let (g, step) = read_char-IsPast b f.consistent in
    (IsForward-trans f g, omega (arith, f.position, step))

module _ (l : Lexer) where
  QuotedInv : Text × Lexer → Type 0
  QuotedInv (out, s) = IsForward l s

  quoted_turn_lem :
      (quote : ℕ) (s : Text × Lexer)
      → QuotedInv s
      → (flow : Flow (Text × Lexer)) × (quoted_turn quote s ≡ some flow)
        × Turn QuotedInv QuotedInv (λ s'. remaining s'.1) s flow
  unfolding quoted_turn QuotedInv
  quoted_turn_lem quote (out, s) f = elim (Bool-cases (s.ch == 0)) [
    | inl end ↦ (Flow.stop (out, s), rw end refl, f)
    | inr byte ↦ elim (Bool-cases (s.ch == quote)) [
      | inl closed ↦ (Flow.stop (out, s), rw (byte, closed) refl, f)
      | inr other ↦
          let piece = read_piece out s in
          (
            Flow.again (piece.0, read_char piece.1),
            rw (byte, other) refl,
            past_turn f byte (IsPast-last (read_piece-IsForward out s f.consistent)),
          )
    ]
  ]

  quoted_loop :
      (quote : ℕ) (out : Text)
      → IsConsistent l
      → (s : Text × Lexer) × (run (fuel l) (quoted_turn quote) (out, l) ≡ some s) × IsForward l s.1
  unfolding QuotedInv
  quoted_loop quote out c =
      run-result QuotedInv QuotedInv (λ s'. remaining s'.1) (quoted_turn quote)
        (quoted_turn_lem quote) (fuel l) (out, l) (IsForward-refl l c) (omega arith)

-- The closing quote, when there is one.
pub close_quote :
    {a b : Lexer} (quote : ℕ) → IsPast a b → IsPast a (if b.ch == quote then read_char b else b)
close_quote {b = b} quote (f, step) = elim (Bool-cases (b.ch == quote)) [
  | inl closed ↦ rw closed (IsPast-last f)
  | inr unclosed ↦ rw unclosed (f, step)
]

pub read_quoted-Reads : (quote : ℕ) (l : Lexer) → IsConsistent l → Reads (read_quoted quote l) l
unfolding read_quoted
read_quoted-Reads quote l c =
    let past = read_char-IsPast l c in
    let ((out, s), e, f) = quoted_loop (read_char l) quote [] past.0.consistent in
    (
      out,
      if s.ch == quote then read_char s else s,
      rw e refl,
      close_quote quote (IsPast-forward past f),
    )
