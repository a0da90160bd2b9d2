-- ===== src/Lexer/Progress.antt =====
-- The literals' loops end, past the byte they began at.
use formlogic_rust.Lexer.Loop.{Flow, run-result, Turn}
use formlogic_rust.Lexer.Cursor.{Lexer, read_char, fuel}
use formlogic_rust.Lexer.Forward.{
  IsForward, IsPast, IsConsistent, read_char_turn, remaining, IsForward-refl, moved_on,
}
use formlogic_rust.Token.Kind.{is_eof}
use formlogic_rust.Token.Literal.{Token}
use formlogic_rust.Lexer.Word.{is_word, word_turn, read_identifier}
use formlogic_rust.Common.{
  ==_iff, Bool-cases, Option, arith, drop, false, get_or, inl, inr, refl, some, suc, sym, take,
  true, ℕ, ◌-◌, ◌<◌, ◌==◌, ◌≡◌, ◌≤◌,
}

-- A result, and that it was read from bytes behind which the cursor stands now.
abbrev pub Reads {ℓ} : {A : Type ℓ} → Option (A × Lexer) → Lexer → Type ℓ
Reads {A = A} result l = (a : A) × (l' : Lexer) × (result ≡ some (a, l')) × IsPast l l'

-- A token that is not the end's, at the line and column asked for.
abbrev pub ReadsToken : Option (Token × Lexer) → ℕ → ℕ → Lexer → Type 0
ReadsToken result line column l =
    (token : Token) × (l' : Lexer) × (result ≡ some (token, l'))
    × IsPast l l'
    × (token.line ≡ line)
    × (token.column ≡ column)
    × (is_eof token.token_type ≡ false)

word_not_end : (c : ℕ) → is_word c ≡ true → (c == 0) ≡ false
word_not_end c h = ground arith

module _ (l : Lexer) where
  -- Only letters and digits so far.
  abbrev IsWordUpTo : Lexer → Type 0
  IsWordUpTo s =
      IsForward l s
      × ((i : ℕ) → l.position ≤ i → i < s.position → is_word (get_or l.input i 0) ≡ true)

  abbrev AtWordEnd : Lexer → Type 0
  AtWordEnd l' = IsWordUpTo l' × (is_word l'.ch ≡ false)

  word_turn_lem :
      (s : Lexer)
      → IsWordUpTo s
      → (flow : Flow Lexer) × (word_turn s ≡ some flow) × Turn IsWordUpTo AtWordEnd remaining s flow
  unfolding word_turn read_char
  word_turn_lem s (f, words) = elim (Bool-cases (is_word s.ch)) [
    | inl word ↦
        let (g, less) = read_char_turn f (word_not_end s.ch word) in
        (Flow.again (read_char s), rw word refl, ((g, further word), less))
    | inr other ↦ (Flow.stop s, rw other refl, ((f, words), other))
  ]
    where
      here : get_or l.input s.position 0 ≡ s.ch
      here = rw (sym f.input) (sym f.consistent.here)

      below :
          {i next : ℕ}
          → next ≡ suc s.position
          → (i == s.position) ≡ false
          → i < next
          → i < s.position
      below e other high = ground arith

      further :
          is_word s.ch ≡ true
          → (i : ℕ) → l.position ≤ i
          → i < (read_char s).position
          → is_word (get_or l.input i 0) ≡ true
      further word i low high = elim (Bool-cases (i == s.position)) [
        | inl same ↦ rw ((==_iff i s.position).0 same, here) word
        | inr other ↦ words i low (below f.consistent.next other high)
      ]

  -- An identifier is the longest run of letters and digits: from a cursor on one of these,
  -- `read_identifier` gives the bytes from there up to where it stops; all of them are letters or
  -- digits, there is at least one, and the byte it stops at is neither.
  pub read_identifier_lem :
      IsConsistent l
      → is_word l.ch ≡ true
      → (l' : Lexer) × (read_identifier l
          ≡ some (take (l'.position - l.position) (drop l.position l.input), l'))
        × IsPast l l'
        × ((i : ℕ) → l.position ≤ i → i < l'.position → is_word (get_or l.input i 0) ≡ true)
        × (is_word l'.ch ≡ false)
  unfolding read_identifier
  read_identifier_lem c letter =
      let start : IsWordUpTo l = (IsForward-refl l c, λ i low high. absurd (omega arith)) in
      let (l', e, ((f, words), other)) =
        run-result IsWordUpTo AtWordEnd remaining word_turn word_turn_lem (fuel l) l start
          (omega arith) in
      (l', rw e refl, moved_on is_word c f letter other, words, other)
