-- ===== src/Lexer/RoundTrip.antt =====
-- A text printed as a string literal and read back by `read_quoted` of lexer.rs.
use formlogic_rust.Lexer.Loop.{Flow, run, run-stop, run-again}
use formlogic_rust.Lexer.Cursor.{Lexer, read_char, fuel}
use formlogic_rust.Lexer.Forward.{IsConsistent, read_char-IsPast}
use formlogic_rust.Lexer.Quoted.{
  quoted_escape, push_escape, read_escape, read_piece, quoted_turn, read_quoted,
}
use formlogic_rust.Token.Text.{Text}
use formlogic_rust.Common.{
  All, Bytes, Option, [], ap, append-nil, append_assoc, arith, drop, false, get_or, if◌then◌else◌,
  leb, length, length-append, length-drop, none, refl, some, suc, sym, true, zero, ℕ, ◌++◌, ◌<◌,
  ◌==◌, ◌||◌, ◌∙◌, ◌∷◌, ◌≡◌, ◌≤◌,
}

-- The letter behind a backslash for what cannot stand in a literal as it is.
abbrev pub escape_letter : ℕ → Option ℕ
escape_letter c =
    if c == 0
    then some b'0'
    else if c == b'\n'
    then some b'n'
    else if c == b'\r'
    then some b'r'
    else if c == b'\t'
    then some b't'
    else if (c == b'"') || (c == b'\\')
    then some c
    else none

abbrev escaped_as : ℕ → Option ℕ → Bytes
escaped_as c (some e) = b'\\' ∷ e ∷ []
escaped_as c none = c ∷ []

abbrev pub escaped : Text → Bytes
escaped [] = []
escaped (c ∷ s) = escaped_as c (escape_letter c) ++ escaped s

abbrev pub AreAscii : Text → Type 0
AreAscii s = All (λ c. c < 0x80) s

-- A consistent cursor in front of the bytes `t`, the last of the input.
pub record IsAt (l : Lexer) (t : Bytes) : Type 0 where
  pub consistent : IsConsistent l
  pub ahead : drop l.position l.input ≡ t

drop-cons :
    (xs : Bytes) (p c : ℕ) (t : Bytes)
    → drop p xs ≡ c ∷ t
    → (get_or xs p 0 ≡ c) × (drop (suc p) xs ≡ t)
drop-cons [] zero c t h = cc
drop-cons [] (suc p) c t h = cc
drop-cons (x ∷ xs) zero c t h = (cc, cc)
drop-cons (x ∷ xs) (suc p) c t h = drop-cons xs p c t h

ch-IsAt : (l : Lexer) (c : ℕ) (t : Bytes) → IsAt l (c ∷ t) → l.ch ≡ c
ch-IsAt l c t at = at.consistent.here ∙ (drop-cons l.input l.position c t at.ahead).0

read_char-IsAt : (l : Lexer) (c : ℕ) (t : Bytes) → IsAt l (c ∷ t) → IsAt (read_char l) t
unfolding read_char
read_char-IsAt l c t at = record {
  consistent = (read_char-IsPast l at.consistent).0.consistent;
  ahead = rw at.consistent.next (drop-cons l.input l.position c t at.ahead).1;
}

quoted_escape-escape_letter : (c : ℕ) {e : ℕ} → escape_letter c ≡ some e → quoted_escape e ≡ some c
quoted_escape-escape_letter c h = ground arith

plain_char :
    (c : ℕ)
    → escape_letter c ≡ none
    → ((c == 0) ≡ false) × ((c == b'"') ≡ false) × ((c == b'\\') ≡ false)
plain_char c h = ground arith

read_piece-plain :
    (out : Text) (l : Lexer)
    → (l.ch == b'\\') ≡ false
    → leb 0x80 l.ch ≡ false
    → read_piece out l ≡ (out ++ l.ch ∷ [], l)
unfolding read_piece
read_piece-plain out l backslash wide = rw (backslash, wide) refl

read_piece-escape :
    (out : Text) (l : Lexer) {c : ℕ}
    → (l.ch == b'\\') ≡ true
    → quoted_escape (read_char l).ch ≡ some c
    → read_piece out l ≡ (out ++ c ∷ [], read_char l)
unfolding read_piece read_escape push_escape
read_piece-escape out l backslash e = rw backslash (ap (push_escape out (read_char l)) e)

quoted_turn-again :
    (out o : Text) (l l' : Lexer)
    → (l.ch == 0) ≡ false
    → (l.ch == b'"') ≡ false
    → read_piece out l ≡ (o, l')
    → quoted_turn b'"' (out, l) ≡ some (Flow.again (o, read_char l'))
unfolding quoted_turn
quoted_turn-again out o l l' byte closed e = rw (byte, closed, e) refl

quoted_turn-stop :
    (out : Text) (l : Lexer) → l.ch ≡ b'"' → quoted_turn b'"' (out, l) ≡ some (Flow.stop (out, l))
unfolding quoted_turn
quoted_turn-stop out l e = rw e refl

-- One turn of the loop reads one character back.
char_turn :
    (c : ℕ) (out t : Text) (l : Lexer) (e : Option ℕ)
    → escape_letter c ≡ e
    → c < 0x80
    → IsAt l (escaped_as c e ++ t)
    → (l' : Lexer) × (quoted_turn b'"' (out, l) ≡ some (Flow.again (out ++ c ∷ [], l'))) × IsAt l' t
char_turn c out t l none h ascii at =
    let (byte, closed, backslash) = plain_char c h in
    let ch : l.ch ≡ c = ch-IsAt l c t at in
    let narrow : leb 0x80 l.ch ≡ false = rw ch (ground arith) in
    let piece : read_piece out l ≡ (out ++ c ∷ [], l) =
      read_piece-plain out l (rw ch backslash) narrow ∙ rw ch refl in
    (
      read_char l,
      quoted_turn-again out (out ++ c ∷ []) l l (rw ch byte) (rw ch closed) piece,
      read_char-IsAt l c t at,
    )
char_turn c out t l (some e) h ascii at =
    let next = read_char-IsAt l b'\\' (e ∷ t) at in
    let ch : l.ch ≡ b'\\' = ch-IsAt l b'\\' (e ∷ t) at in
    let letter : (read_char l).ch ≡ e = ch-IsAt (read_char l) e t next in
    let piece : read_piece out l ≡ (out ++ c ∷ [], read_char l) =
      read_piece-escape out l (rw ch refl) (rw letter (quoted_escape-escape_letter c h)) in
    (
      read_char (read_char l),
      quoted_turn-again out (out ++ c ∷ []) l (read_char l) (rw ch refl) (rw ch refl) piece,
      read_char-IsAt (read_char l) e t next,
    )

loop_back :
    (s out rest : Text) (l : Lexer) (n : ℕ)
    → IsAt l (escaped s ++ b'"' ∷ rest)
    → AreAscii s
    → length s < n
    → (l' : Lexer) × (run n (quoted_turn b'"') (out, l) ≡ some (out ++ s, l'))
      × IsAt l' (b'"' ∷ rest)
loop_back s out rest l zero at ascii h = absurd (omega arith)
loop_back [] out rest l (suc n) at ascii h =
    let ch : l.ch ≡ b'"' = ch-IsAt l b'"' rest at in
    (
      l,
      run-stop (quoted_turn b'"') n (quoted_turn-stop out l ch)
          ∙ ap (λ o. some (o, l)) (sym (append-nil out)),
      at,
    )
loop_back (c ∷ s) out rest l (suc n) at (small, ascii) h =
    let t = escaped s ++ b'"' ∷ rest in
    let split : IsAt l (escaped_as c (escape_letter c) ++ t) = record {
      consistent = at.consistent;
      ahead = at.ahead ∙ append_assoc (escaped_as c (escape_letter c)) (escaped s) (b'"' ∷ rest);
    } in
    let (l1, turn, at1) = char_turn c out t l (escape_letter c) refl small split in
    let (l2, e, at2) = loop_back s (out ++ c ∷ []) rest l1 n at1 ascii (omega arith) in
    (
      l2,
      run-again (quoted_turn b'"') n turn
          ∙ e
          ∙ ap (λ o. some (o, l2)) (append_assoc out (c ∷ []) s),
      at2,
    )

escaped_as-length : (c : ℕ) (e : Option ℕ) → 1 ≤ length (escaped_as c e)
escaped_as-length c none = omega arith
escaped_as-length c (some e) = omega arith

length-IsAt : (l : Lexer) (t : Bytes) → IsAt l t → length t < fuel l
length-IsAt l t at = omega (arith, length-drop l.position l.input, ap length at.ahead)

length-escaped : (s : Text) → length s ≤ length (escaped s)
length-escaped [] = omega arith
length-escaped (c ∷ s) = omega (
  arith,
  length-append (escaped_as c (escape_letter c)) (escaped s),
  escaped_as-length c (escape_letter c),
  length-escaped s,
)

-- Printing a text of ASCII characters between double quotes, with backslashes before quotes and
-- backslashes and letters for NUL, newline, return and tab, and reading the literal back gives the
-- text, with the cursor behind the closing quote. The cursor is consistent with its position.
pub read_quoted-escaped :
    (s rest : Text) (l : Lexer)
    → IsAt l (b'"' ∷ (escaped s ++ b'"' ∷ rest))
    → AreAscii s
    → (l' : Lexer) × (read_quoted b'"' l ≡ some (s, l')) × IsAt l' rest
unfolding read_quoted
read_quoted-escaped s rest l at ascii =
    let start = read_char-IsAt l b'"' (escaped s ++ b'"' ∷ rest) at in
    let enough : length s < fuel (read_char l) = omega (
      arith,
      length-IsAt (read_char l) (escaped s ++ b'"' ∷ rest) start,
      length-append (escaped s) (b'"' ∷ rest),
      length-escaped s,
    ) in
    let (l', e, at') = loop_back s [] rest (read_char l) (fuel (read_char l)) start ascii enough in
    let ch : l'.ch ≡ b'"' = ch-IsAt l' b'"' rest at' in
    (read_char l', rw (e, ch) refl, read_char-IsAt l' b'"' rest at')
