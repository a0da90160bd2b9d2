-- ===== src/Lexer/Skipped.antt =====
-- What stands in front of a token in the text: blanks and comments, by the bytes of the input.
use formlogic_rust.Lexer.Cursor.{Lexer}
use formlogic_rust.Lexer.Forward.{IsForward, IsForward-refl, IsForward-trans, IsConsistent}
use formlogic_rust.Lexer.Skip.{is_blank}
use formlogic_rust.Common.{Bool, Bytes, false, get_or, suc, true, ℕ, ◌&&◌, ◌==◌, ◌||◌, ◌≡◌}

-- A line comment goes on to the next newline or to the end of the text.
abbrev pub ends_line : ℕ → Bool
ends_line c = (c == 0) || (c == b'\n')

module _ (input : Bytes) where
  abbrev byte_at : ℕ → ℕ
  byte_at i = get_or input i 0

  -- The rest of a line comment, from one position to another.
  pub data LineRest : ℕ → ℕ → Type 0 where
    line_end : {i : ℕ} → ends_line (byte_at i) ≡ true → LineRest i i
    line_byte : {i j : ℕ} → ends_line (byte_at i) ≡ false → LineRest (suc i) j → LineRest i j

  -- `*/` begins at the position.
  abbrev pub closes : ℕ → Bool
  closes i = (byte_at i == b'*') && (byte_at (suc i) == b'/')

  -- The rest of a block comment: to the first `*/`, which belongs to it, or to the end of the text.
  pub data BlockRest : ℕ → ℕ → Type 0 where
    block_end : {i : ℕ} → (byte_at i == 0) ≡ true → BlockRest i i
    block_close : {i : ℕ} → closes i ≡ true → BlockRest i (suc (suc i))
    block_byte :
        {i j : ℕ}
        → (byte_at i == 0) ≡ false
        → closes i ≡ false
        → BlockRest (suc i) j
        → BlockRest i j

  -- Between the positions stand blanks and whole comments, and nothing else.
  pub data Skipped : ℕ → ℕ → Type 0 where
    nothing : {i : ℕ} → Skipped i i
    blank : {i j : ℕ} → is_blank (byte_at i) ≡ true → Skipped (suc i) j → Skipped i j
    line_comment :
        {i j k : ℕ}
        → ((byte_at i == b'/') && (byte_at (suc i) == b'/')) ≡ true
        → LineRest (suc (suc i)) j
        → Skipped j k
        → Skipped i k
    block_comment :
        {i j k : ℕ}
        → ((byte_at i == b'/') && (byte_at (suc i) == b'*')) ≡ true
        → BlockRest (suc (suc i)) j
        → Skipped j k
        → Skipped i k

pub Skipped-trans :
    {input : Bytes} {i j k : ℕ} → Skipped input i j → Skipped input j k → Skipped input i k
Skipped-trans nothing b = b
Skipped-trans (blank e a) b = blank e (Skipped-trans a b)
Skipped-trans (line_comment e r a) b = line_comment e r (Skipped-trans a b)
Skipped-trans (block_comment e r a) b = block_comment e r (Skipped-trans a b)

-- From `l` to `l'` the cursor went over blanks and comments alone.
pub record IsSkipped (l l' : Lexer) : Type 0 where
  pub forward : IsForward l l'
  pub over : Skipped l.input l.position l'.position

pub IsSkipped-refl : (l : Lexer) → IsConsistent l → IsSkipped l l
IsSkipped-refl l c = record { forward = IsForward-refl l c; over = nothing }

pub IsSkipped-trans : {a b c : Lexer} → IsSkipped a b → IsSkipped b c → IsSkipped a c
IsSkipped-trans {a} {b} {c} f g =
    let over : Skipped a.input b.position c.position = rw f.forward.input at g.over in
    record { forward = IsForward-trans f.forward g.forward; over = Skipped-trans f.over over }
