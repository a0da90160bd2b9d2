-- ===== src/Lexer/Forward.antt =====
-- What the fields of the cursor are at a position, and how the cursor moves over the input.
use formlogic_rust.Token.Kind.{TokenType}
use formlogic_rust.Lexer.Cursor.{Lexer, read_char, peek_char}
use formlogic_rust.Common.{
  Bool, Bool-cases, Bytes, Option, [], ap, arith, false, get_or, if◌then◌else◌, inl, inr, leb,
  leb→le, length, ltb, ltb→lt, refl, suc, sym, true, zero, ℕ, ◌+◌, ◌-◌, ◌<◌, ◌==◌, ◌∙◌, ◌∷◌, ◌≡◌,
  ◌≤◌,
}

-- The line of the last of the first `n` bytes: one more than the newlines among them.
abbrev pub newlines : ℕ → Bytes → ℕ
newlines zero input = 0
newlines (suc n) input =
    if get_or input n 0 == b'\n' then suc (newlines n input) else newlines n input

-- Its column: the bytes since the last newline.
abbrev pub since_newline : ℕ → Bytes → ℕ
since_newline zero input = 0
since_newline (suc n) input = if get_or input n 0 == b'\n' then 0 else suc (since_newline n input)

-- The cursor's fields are those of its position.
pub record IsConsistent (l : Lexer) : Type 0 where
  pub next : l.read_position ≡ suc l.position
  pub here : l.ch ≡ get_or l.input l.position 0
  pub row : l.line ≡ suc (newlines l.read_position l.input)
  pub offset : l.column ≡ since_newline l.read_position l.input

-- `l'` is the cursor `l` at the same place or further on.
pub record IsForward (l l' : Lexer) : Type 0 where
  pub input : l'.input ≡ l.input
  pub ops : l'.sorted_ops ≡ l.sorted_ops
  pub position : l.position ≤ l'.position
  pub consistent : IsConsistent l'

abbrev pub IsPast : Lexer → Lexer → Type 0
IsPast l l' = IsForward l l' × (l.position < l'.position)

abbrev pub remaining : Lexer → ℕ
remaining l = length l.input - l.position

get_or_outside : (xs : Bytes) (i : ℕ) → length xs ≤ i → get_or xs i 0 ≡ 0
get_or_outside [] i h = refl
get_or_outside (x ∷ xs) zero h = absurd (omega arith)
get_or_outside (x ∷ xs) (suc i) h = get_or_outside xs i (omega arith)

pub peek_char_lem : (l : Lexer) → peek_char l ≡ get_or l.input l.read_position 0
unfolding peek_char
peek_char_lem l = elim (Bool-cases (leb (length l.input) l.read_position)) [
  | inl out ↦
      rw out
        (sym (get_or_outside l.input l.read_position (leb→le (length l.input) l.read_position out)))
  | inr inside ↦ rw inside
]

pub read_char-position : (l : Lexer) → (read_char l).position ≡ l.read_position
unfolding read_char
read_char-position l = refl

-- What a byte read adds to the fields, from a cursor whose line and column are right.
pub read_char-IsConsistent :
    (l : Lexer)
    → l.line ≡ suc (newlines l.read_position l.input)
    → l.column ≡ since_newline l.read_position l.input
    → IsConsistent (read_char l)
unfolding read_char
read_char-IsConsistent l row offset =
    let c = get_or l.input l.read_position 0 in
    let byte : peek_char l ≡ c = peek_char_lem l in
    let succ : l.read_position + 1 ≡ suc l.read_position = omega arith in
    elim (Bool-cases (c == b'\n')) [
      | inl newline ↦ record {
        next = succ;
        here = byte;
        row = rw (byte, newline, succ, newline) (omega (arith, row));
        offset = rw (byte, newline, succ, newline) refl;
      }
      | inr other ↦ record {
        next = succ;
        here = byte;
        row = rw (byte, other, succ, other) row;
        offset = rw (byte, other, succ, other) (omega (arith, offset));
      }
    ]

pub IsForward-refl : (l : Lexer) → IsConsistent l → IsForward l l
IsForward-refl l c = record { input = refl; ops = refl; position = omega arith; consistent = c }

pub IsForward-trans : {a b c : Lexer} → IsForward a b → IsForward b c → IsForward a c
IsForward-trans f g = record {
  input = g.input ∙ f.input;
  ops = g.ops ∙ f.ops;
  position = omega (arith, f.position, g.position);
  consistent = g.consistent;
}

pub read_char-IsPast : (l : Lexer) → IsConsistent l → IsPast l (read_char l)
unfolding read_char
read_char-IsPast l c =
    let consistent = read_char-IsConsistent l c.row c.offset in
    (
      record {
        input = refl;
        ops = refl;
        position = omega (arith, c.next);
        consistent = consistent;
      },
      omega (arith, c.next),
    )

get_or-inside : (xs : Bytes) (i : ℕ) → (get_or xs i 0 == 0) ≡ false → i < length xs
get_or-inside [] i h = cc
get_or-inside (x ∷ xs) zero h = omega arith
get_or-inside (x ∷ xs) (suc i) h = omega (arith, get_or-inside xs i h)

-- A cursor on a byte other than 0 is inside the input.
pub inside : (l : Lexer) → IsConsistent l → (l.ch == 0) ≡ false → l.position < length l.input
inside l c byte = get_or-inside l.input l.position (rw (sym c.here) byte)

-- A loop's turn that gets past a byte other than 0 leaves less to read.
pub past_turn :
    {start l l' : Lexer}
    → IsForward start l
    → (l.ch == 0) ≡ false
    → IsPast l l'
    → IsForward start l' × (remaining l' < remaining l)
past_turn {l = l} f byte (g, further) =
    (IsForward-trans f g, omega (arith, further, inside l f.consistent byte, ap length g.input))

pub read_char_turn :
    {start l : Lexer}
    → IsForward start l
    → (l.ch == 0) ≡ false
    → IsForward start (read_char l) × (remaining (read_char l) < remaining l)
read_char_turn {l = l} f byte = past_turn f byte (read_char-IsPast l f.consistent)

pub read_chars-IsForward : (l : Lexer) → IsConsistent l → IsForward l (read_char (read_char l))
read_chars-IsForward l c =
    let (f, step) = read_char-IsPast l c in
    IsForward-trans f (read_char-IsPast (read_char l) f.consistent).0

-- The two fields that no position determines.
pub IsForward-flags :
    {a b : Lexer} (newline : Bool) (last : Option TokenType)
    → IsForward a b
    → IsForward a (record b { saw_newline = newline; last_token_type = last })
IsForward-flags newline last f =
    let c = f.consistent in
    record {
      input = f.input;
      ops = f.ops;
      position = f.position;
      consistent = record { next = c.next; here = c.here; row = c.row; offset = c.offset };
    }

pub IsPast-forward : {a b c : Lexer} → IsPast a b → IsForward b c → IsPast a c
IsPast-forward (f, step) g = (IsForward-trans f g, omega (arith, step, g.position))

-- Two cursors on the same input at the same position are on the same byte.
pub same_byte :
    {a b : Lexer} → IsConsistent a → IsForward a b → b.position ≡ a.position → b.ch ≡ a.ch
same_byte c f e = f.consistent.here ∙ rw (f.input, e) (sym c.here)

-- A loop that stops at a byte unlike the first one has moved.
pub moved_on :
    {a b : Lexer} (p : ℕ → Bool)
    → IsConsistent a
    → IsForward a b
    → p a.ch ≡ true
    → p b.ch ≡ false
    → IsPast a b
moved_on {a = a} {b = b} p c f here there = elim (Bool-cases (ltb a.position b.position)) [
  | inl moved ↦ (f, ltb→lt a.position b.position moved)
  | inr stayed ↦
      let still : b.position ≡ a.position = ground (arith, f.position) in
      let same : p b.ch ≡ p a.ch = ap p (same_byte c f still) in
      absurd (clash (p a.ch) (p b.ch) same here there)
]
  where
    clash : (x y : Bool) → y ≡ x → x ≡ true → y ≡ false → ⊥
    clash x y e h g = cc
