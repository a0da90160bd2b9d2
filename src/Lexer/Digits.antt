-- ===== src/Lexer/Digits.antt =====
-- `read_number` ends, past the byte it began at.
use formlogic_rust.Lexer.Loop.{Flow, run, run-result, Turn}
use formlogic_rust.Lexer.Cursor.{Lexer, read_char, peek_char, fuel}
use formlogic_rust.Lexer.Forward.{
  IsForward, IsPast, IsConsistent, read_char_turn, past_turn, remaining, IsForward-refl,
  IsForward-trans, read_char-IsPast, IsPast-forward, moved_on,
}
use formlogic_rust.Lexer.Progress.{Reads}
use formlogic_rust.Lexer.Number.{
  NumberState, number_turn, number_next, number_start, read_number, read_decimal, read_radix,
  radix_turn, goes_on, read_exponent, is_radix_digit, radix_of, is_exponent, exponent_has_digits,
}
use formlogic_rust.Token.Text.{Text, is_ascii_digit}
use formlogic_rust.Common.{
  Bool, Bool-cases, Option-cases, [], ap, arith, false, if◌then◌else◌, inl, inr, length, not, refl,
  some, true, ℕ, ◌&&◌, ◌++◌, ◌<◌, ◌==◌, ◌||◌, ◌∷◌, ◌≡◌,
}

radix_not_end :
    (c radix : ℕ) (b : Bool)
    → (is_radix_digit c radix || ((c == b'_') && b)) ≡ true
    → (c == 0) ≡ false
radix_not_end c radix b h = ground arith

goes_on_byte :
    (c : ℕ) (a b d e g : Bool)
    → (is_ascii_digit c
        || (a && b && (c == b'.'))
        || ((c == b'_') && d)
        || (e && is_exponent c && g))
      ≡ true
    → (c == 0) ≡ false
goes_on_byte c a b d e g h = ground arith

goes_on_not_end : (s : NumberState) → goes_on s ≡ true → (s.at.ch == 0) ≡ false
unfolding goes_on
goes_on_not_end s h =
    goes_on_byte s.at.ch (not s.seen_dot) (not s.seen_exp) (is_ascii_digit (peek_char s.at))
      (not s.seen_exp) (exponent_has_digits s.at) h

or_none : (a b c d : Bool) → (a || b || c || d) ≡ false → a ≡ false
or_none a b c d h = ground arith

stops_at_no_digit : (s : NumberState) → goes_on s ≡ false → is_ascii_digit s.at.ch ≡ false
unfolding goes_on
stops_at_no_digit s h = or_none _ _ _ _ h

read_exponent-IsPast : (s : NumberState) → IsConsistent s.at → IsPast s.at (read_exponent s).at
unfolding read_exponent
read_exponent-IsPast s c =
    let l = read_char s.at in
    let (f, p) = read_char-IsPast s.at c in
    elim (Bool-cases ((l.ch == b'+') || (l.ch == b'-'))) [
      | inl sign ↦ rw sign (IsPast-forward (f, p) (read_char-IsPast l f.consistent).0)
      | inr other ↦ rw other (f, p)
    ]

number_next-IsPast : (s : NumberState) → IsConsistent s.at → IsPast s.at (number_next s).at
unfolding number_next
number_next-IsPast s c =
    let past = read_char-IsPast s.at c in
    elim (Bool-cases (s.at.ch == b'.')) [
      | inl dot ↦ rw dot past
      | inr no_dot ↦ elim (Bool-cases (is_exponent s.at.ch)) [
        | inl letter ↦ rw (no_dot, letter) (read_exponent-IsPast s c)
        | inr no_letter ↦ elim (Bool-cases (s.at.ch == b'_')) [
          | inl separator ↦ rw (no_dot, no_letter, separator) past
          | inr digit ↦ rw (no_dot, no_letter, digit) past
        ]
      ]
    ]

module _ (l : Lexer) where
  abbrev NumberInv : NumberState → Type 0
  NumberInv s = IsForward l s.at

  abbrev NumberEnd : NumberState → Type 0
  NumberEnd s = IsForward l s.at × (is_ascii_digit s.at.ch ≡ false)

  number_turn_lem :
      (s : NumberState)
      → NumberInv s
      → (flow : Flow NumberState) × (number_turn s ≡ some flow)
        × Turn NumberInv NumberEnd (λ s'. remaining s'.at) s flow
  unfolding number_turn
  number_turn_lem s f = elim (Bool-cases (goes_on s)) [
    | inl more ↦ (
      Flow.again (number_next s),
      rw more refl,
      past_turn f (goes_on_not_end s more) (number_next-IsPast s f.consistent),
    )
    | inr done ↦ (Flow.stop s, rw done refl, (f, stops_at_no_digit s done))
  ]

  number_loop :
      (s : NumberState) (n : ℕ)
      → IsForward l s.at
      → remaining l < n
      → (s' : NumberState) × (run n number_turn s ≡ some s') × NumberEnd s'
  number_loop s n f enough =
      run-result NumberInv NumberEnd (λ s'. remaining s'.at) number_turn number_turn_lem n s f
        (omega (arith, f.position, ap length f.input))

  RadixInv : Text × Lexer → Type 0
  RadixInv (out, s) = IsForward l s

  radix_turn_lem :
      (radix : ℕ) (s : Text × Lexer)
      → RadixInv s
      → (flow : Flow (Text × Lexer)) × (radix_turn radix s ≡ some flow)
        × Turn RadixInv RadixInv (λ s'. remaining s'.1) s flow
  unfolding radix_turn RadixInv
  radix_turn_lem radix (out, s) f =
      elim (Bool-cases
        (is_radix_digit s.ch radix || ((s.ch == b'_') && is_radix_digit (peek_char s) radix))) [
          | inl digit ↦
              let byte = radix_not_end s.ch radix (is_radix_digit (peek_char s) radix) digit in
              (
                Flow.again (if s.ch == b'_' then out else out ++ s.ch ∷ [], read_char s),
                rw digit refl,
                read_char_turn f byte,
              )
          | inr other ↦ (Flow.stop (out, s), rw other refl, f)
        ]

  radix_loop :
      (radix : ℕ) (out : Text)
      → IsConsistent l
      → (s : Text × Lexer) × (run (fuel l) (radix_turn radix) (out, l) ≡ some s) × IsForward l s.1
  unfolding RadixInv
  radix_loop radix out c =
      run-result RadixInv RadixInv (λ s'. remaining s'.1) (radix_turn radix) (radix_turn_lem radix)
        (fuel l) (out, l) (IsForward-refl l c) (omega arith)

read_radix-Reads : (radix : ℕ) (l : Lexer) → IsConsistent l → Reads (read_radix radix l) l
unfolding read_radix
read_radix-Reads radix l c =
    let l' = read_char l in
    let past = read_char-IsPast l c in
    let past' = read_char-IsPast l' past.0.consistent in
    let ((out, s), e, f) = radix_loop (read_char l') radix (b'0' ∷ l'.ch ∷ []) past'.0.consistent in
    (out, s, e, IsPast-forward past (IsForward-trans past'.0 f))

read_decimal-Reads :
    (l : Lexer)
    → IsConsistent l
    → ((l.ch == b'.') || is_ascii_digit l.ch) ≡ true
    → Reads (read_decimal l) l
unfolding read_decimal number_start
read_decimal-Reads l c start = elim (Bool-cases (l.ch == b'.')) [
  | inl dot ↦
      let past = read_char-IsPast l c in
      let s : NumberState = record {
        out = b'.' ∷ [];
        seen_dot = true;
        seen_exp = false;
        at = read_char l;
      } in
      let (s', e, (f, other)) =
        number_loop (read_char l) s (fuel l) (IsForward-refl (read_char l) past.0.consistent)
          (omega (arith, past.1, ap length past.0.input)) in
      (s'.out, s'.at, rw (dot, e) refl, IsPast-forward past f)
  | inr no_dot ↦
      let digit : is_ascii_digit l.ch ≡ true = ground arith in
      let s : NumberState = record { out = []; seen_dot = false; seen_exp = false; at = l } in
      let (s', e, (f, other)) = number_loop l s (fuel l) (IsForward-refl l c) (omega arith) in
      (s'.out, s'.at, rw (no_dot, e) refl, moved_on (λ b. is_ascii_digit b) c f digit other)
]

pub read_number-Reads :
    (l : Lexer)
    → IsConsistent l
    → ((l.ch == b'.') || is_ascii_digit l.ch) ≡ true
    → Reads (read_number l) l
unfolding read_number
read_number-Reads l c start = elim (Bool-cases (l.ch == b'0')) [
  | inl zero_digit ↦ elim (Option-cases (radix_of (peek_char l))) [
    | inl none_radix ↦ rw (zero_digit, none_radix) (read_decimal-Reads l c start)
    | inr (radix, e) ↦ rw (zero_digit, e) (read_radix-Reads radix l c)
  ]
  | inr other ↦ rw other (read_decimal-Reads l c start)
]
