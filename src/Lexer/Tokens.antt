-- ===== src/Lexer/Tokens.antt =====
-- `produce_token` and `next_token` of lexer.rs: every call ends, past a byte or at the end.
use formlogic_rust.Lexer.Number.{read_number}
use formlogic_rust.Lexer.Quoted.{read_quoted}
use formlogic_rust.Lexer.Cursor.{Lexer, read_char, peek_char}
use formlogic_rust.Lexer.Forward.{
  IsForward, IsPast, IsConsistent, IsForward-refl, IsForward-trans, read_char-IsPast,
  IsPast-forward,
}
use formlogic_rust.Lexer.Progress.{Reads, ReadsToken, read_identifier_lem}
use formlogic_rust.Lexer.Digits.{read_number-Reads}
use formlogic_rust.Lexer.Strings.{read_quoted-Reads}
use formlogic_rust.Lexer.Delimited.{read_template_literal-Reads, read_regex_literal-Reads}
use formlogic_rust.Lexer.Longest.{find_op-All}
use formlogic_rust.Lexer.Operator.{find_op, read_chars}
use formlogic_rust.Lexer.Regex.{should_start_regex_literal}
use formlogic_rust.Lexer.Word.{is_letter, read_identifier}
use formlogic_rust.Lexer.Next.{
  operator_token, read_operator, produce_token, read_token, number_type, has_char,
}
use formlogic_rust.Token.Kind.{TokenType, is_eof}
use formlogic_rust.Token.Literal.{Token, new_token}
use formlogic_rust.Token.Keywords.{lookup_ident-is_eof, lookup_ident}
use formlogic_rust.Token.Operators.{operator_type-is_eof}
use formlogic_rust.Token.Text.{Text, is_ascii_digit}
use formlogic_rust.Common.{
  All, Bool, Bool-cases, List, Option, [], arith, drop, false, if◌then◌else◌, inl, inr, length,
  none, refl, some, suc, take, true, zero, ℕ, ◌&&◌, ◌-◌, ◌<◌, ◌==◌, ◌>>=◌, ◌||◌, ◌≡◌, ◌⊎◌,
}

-- No operator is empty.
abbrev pub AreOps : List Text → Type 0
AreOps ops = All (λ op. 0 < length op) ops

read_chars-IsForward : (n : ℕ) (l : Lexer) → IsConsistent l → IsForward l (read_chars n l)
unfolding read_chars
read_chars-IsForward zero l c = IsForward-refl l c
read_chars-IsForward (suc n) l c =
    let past = read_char-IsPast l c in
    IsForward-trans past.0 (read_chars-IsForward n (read_char l) past.0.consistent)

read_chars-IsPast : (n : ℕ) (l : Lexer) → 0 < n → IsConsistent l → IsPast l (read_chars n l)
unfolding read_chars
read_chars-IsPast zero l h c = absurd (omega arith)
read_chars-IsPast (suc n) l h c =
    let past = read_char-IsPast l c in
    IsPast-forward past (read_chars-IsForward n (read_char l) past.0.consistent)

hash_or_illegal :
    (b : Bool) → is_eof (if b then TokenType.tok_hash else TokenType.tok_illegal) ≡ false
hash_or_illegal true = refl
hash_or_illegal false = refl

operator_token-ReadsToken :
    (l : Lexer) (o : Option Text)
    → IsConsistent l
    → ((op : Text) → o ≡ some op → 0 < length op)
    → ReadsToken (some (operator_token l o)) l.line l.column l
unfolding operator_token
operator_token-ReadsToken l (some op) c h =
    (_, _, refl, read_chars-IsPast (length op) l (h op refl) c, refl, refl, operator_type-is_eof op)
operator_token-ReadsToken l none c h =
    (_, _, refl, read_char-IsPast l c, refl, refl, hash_or_illegal (l.ch == b'#'))

number_type-is_eof : (s : Text) → is_eof (number_type s) ≡ false
number_type-is_eof s = elim (Bool-cases (has_char b'.' s || has_char b'e' s || has_char b'E' s)) [
  | inl float ↦ rw float refl
  | inr int ↦ rw int refl
]

read_identifier-Reads :
    (l : Lexer) → IsConsistent l → is_letter l.ch ≡ true → Reads (read_identifier l) l
read_identifier-Reads l c letter =
    let (l', e, past, words, other) = read_identifier_lem l c (rw letter refl) in
    (take (l'.position - l.position) (drop l.position l.input), l', e, past)

-- A token made of what was read.
literal-ReadsToken :
    (t : Text → TokenType)
    → ((s : Text) → is_eof (t s) ≡ false)
    → (result : Option (Text × Lexer)) (l : Lexer) → Reads result l
    → ReadsToken
        (result >>= λ r. some (new_token (t r.0) r.0 l.line l.column, r.1))
        l.line
        l.column
        l
literal-ReadsToken t no_eof result l (s, l', e, past) =
    (new_token (t s) s l.line l.column, l', rw e refl, past, refl, refl, no_eof s)

read_token-ReadsToken :
    (l : Lexer) → IsConsistent l → AreOps l.sorted_ops → ReadsToken (read_token l) l.line l.column l
unfolding read_token read_operator
read_token-ReadsToken l c ops = elim (Bool-cases (l.ch == b'`')) [
  | inl tick ↦ rw tick (read_template_literal-Reads l.line l.column l c)
  | inr a ↦ elim (Bool-cases ((l.ch == b'/') && should_start_regex_literal l)) [
    | inl regex ↦ rw (a, regex) (read_regex_literal-Reads l.line l.column l c)
    | inr b ↦ elim (Bool-cases ((l.ch == b'"') || (l.ch == b'\''))) [
      | inl quote ↦
          rw (a, b, quote)
            (literal-ReadsToken (λ s. TokenType.tok_string) (λ s. refl) (read_quoted l.ch l) l
              (read_quoted-Reads l.ch l c))
      | inr d ↦ elim (Bool-cases ((l.ch == b'.') && is_ascii_digit (peek_char l))) [
        | inl dot ↦
            let start : ((l.ch == b'.') || is_ascii_digit l.ch) ≡ true = ground arith in
            rw (a, b, d, dot)
              (literal-ReadsToken (λ s. TokenType.tok_float) (λ s. refl) (read_number l) l
                (read_number-Reads l c start))
        | inr e ↦ elim (Bool-cases (is_ascii_digit l.ch)) [
          | inl digit ↦
              let start : ((l.ch == b'.') || is_ascii_digit l.ch) ≡ true = ground arith in
              rw (a, b, d, e, digit)
                (literal-ReadsToken (λ s. number_type s) number_type-is_eof (read_number l) l
                  (read_number-Reads l c start))
          | inr f ↦ elim (Bool-cases (is_letter l.ch)) [
            | inl letter ↦
                rw (a, b, d, e, f, letter)
                  (literal-ReadsToken lookup_ident lookup_ident-is_eof (read_identifier l) l
                    (read_identifier-Reads l c letter))
            | inr g ↦
                rw (a, b, d, e, f, g)
                  (operator_token-ReadsToken l (find_op l l.sorted_ops) c
                    (λ op. find_op-All l (λ op'. 0 < length op') l.sorted_ops op ops))
          ]
        ]
      ]
    ]
  ]
]

-- What a call gives: the end's token, at a byte 0 that stays, or another one, behind which the
-- cursor goes on.
abbrev pub Produced : Option (Token × Lexer) → Lexer → Type 0
Produced result l =
    (((l.ch == 0) ≡ true) × (result ≡ some (new_token TokenType.tok_eof [] l.line l.column, l)))
    ⊎ (((l.ch == 0) ≡ false) × ReadsToken result l.line l.column l)

pub produce_token-Produced :
    (l : Lexer) → IsConsistent l → AreOps l.sorted_ops → Produced (produce_token l) l
unfolding produce_token
produce_token-Produced l c ops = elim (Bool-cases (l.ch == 0)) [
  | inl end ↦ inl (end, rw end refl)
  | inr byte ↦ inr (byte, rw byte (read_token-ReadsToken l c ops))
]
