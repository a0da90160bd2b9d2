-- ===== src/Encoding/Fields.antt =====
-- Writing the operands. A write out of bounds panics in Rust and is `none` here.
use native.Mathlib.Nat.{add-zero, suc-add}
use formlogic_rust.Common.{
  Bytes, List, Option, [], ap, append_assoc, arith, if◌then◌else◌, length, length-append,
  length-replicate, ltb, lt→ltb, none, refl, replicate, replicate-add, set, set-append, some, suc,
  sum, zero, ℕ, ◌%◌, ◌++◌, ◌+◌, ◌/◌, ◌==◌, ◌>>=◌, ◌∷◌, ◌≡◌,
}

-- `out[i] = v`
unfoldable pub store : Bytes → ℕ → ℕ → Option Bytes
store out i v = if ltb i (length out) then some (set out i v) else none

-- `(operand >> 8) & 0xff` and `operand & 0xff`
abbrev pub high_byte : ℕ → ℕ
high_byte operand = operand / 256 % 256

abbrev pub low_byte : ℕ → ℕ
low_byte operand = operand % 256

-- The `match width` in the loop.
write_operand : ℕ → ℕ → ℕ → Bytes → Option Bytes
write_operand width operand offset out =
    if width == 2
    then store out offset (high_byte operand) >>= (λ o. store o (offset + 1) (low_byte operand))
    else if width == 1
    then store out offset (low_byte operand)
    else some out

-- `widths.get(i).unwrap_or(&0)`: operands past the table have no width.
unfoldable pub write_operands : List ℕ → List ℕ → ℕ → Bytes → Option Bytes
unfolding store write_operand
write_operands ws [] offset out = some out
write_operands [] (x ∷ xs) offset out =
    write_operand 0 x offset out >>= write_operands [] xs (offset + 0)
write_operands (w ∷ ws) (x ∷ xs) offset out =
    write_operand w x offset out >>= write_operands ws xs (offset + w)

-- What the loop is to produce: each operand in its field, zeros where operands are missing.
abbrev pub field : ℕ → ℕ → Bytes
field width operand =
    if width == 2
    then high_byte operand ∷ low_byte operand ∷ []
    else if width == 1
    then low_byte operand ∷ []
    else replicate width 0

abbrev pub encoded : List ℕ → List ℕ → Bytes
encoded [] xs = []
encoded (w ∷ ws) [] = replicate w 0 ++ encoded ws []
encoded (w ∷ ws) (x ∷ xs) = field w x ++ encoded ws xs

pub length-field : (w x : ℕ) → length (field w x) ≡ w
length-field w x = ground (arith, length-replicate {A = ℕ} w 0)

pub length-encoded : (ws xs : List ℕ) → length (encoded ws xs) ≡ sum ws
length-encoded [] xs = refl
length-encoded (w ∷ ws) [] = omega (
  arith,
  length-append (replicate w 0) (encoded ws []),
  length-replicate {A = ℕ} w 0,
  length-encoded ws [],
)
length-encoded (w ∷ ws) (x ∷ xs) =
    omega (arith, length-append (field w x) (encoded ws xs), length-field w x, length-encoded ws xs)

encoded-nil : (ws : List ℕ) → encoded ws [] ≡ replicate (sum ws) 0
encoded-nil [] = refl
encoded-nil (w ∷ ws) = rw (encoded-nil ws, replicate-add)

pub store-append :
    (pre : Bytes) (a v : ℕ) (rest : Bytes)
    → store (pre ++ a ∷ rest) (length pre) v ≡ some (pre ++ v ∷ rest)
unfolding store
store-append pre a v rest =
    rw
      (lt→ltb (length pre) (length (pre ++ a ∷ rest)) (omega (arith, length-append pre (a ∷ rest))))
      (ap some (set-append pre a v rest))

set-append_second :
    (pre : Bytes) (h a v : ℕ) (rest : Bytes)
    → set (pre ++ h ∷ a ∷ rest) (length pre + 1) v ≡ pre ++ h ∷ v ∷ rest
set-append_second [] h a v rest = refl
set-append_second (x ∷ pre) h a v rest = rw suc-add (ap (◌∷◌ x) (set-append_second pre h a v rest))

pub store-append_second :
    (pre : Bytes) (h a v : ℕ) (rest : Bytes)
    → store (pre ++ h ∷ a ∷ rest) (length pre + 1) v ≡ some (pre ++ h ∷ v ∷ rest)
unfolding store
store-append_second pre h a v rest =
    rw
      (lt→ltb (length pre + 1) (length (pre ++ h ∷ a ∷ rest))
        (omega (arith, length-append pre (h ∷ a ∷ rest))))
      (ap some (set-append_second pre h a v rest))

write_operand-field :
    (w x : ℕ) (pre rest : Bytes)
    → write_operand w x (length pre) (pre ++ (replicate w 0 ++ rest))
      ≡ some (pre ++ (field w x ++ rest))
unfolding write_operand
write_operand-field zero x pre rest = refl
write_operand-field (suc zero) x pre rest = store-append pre 0 (low_byte x) rest
write_operand-field (suc (suc zero)) x pre rest =
    rw (store-append pre 0 (high_byte x) (0 ∷ rest))
      (store-append_second pre (high_byte x) 0 (low_byte x) rest)
write_operand-field (suc (suc (suc w))) x pre rest = ground arith

-- The loop fills the zeroed vector with the fields, and no write is out of bounds.
pub write_operands-encoded :
    (ws xs : List ℕ) (pre : Bytes)
    → write_operands ws xs (length pre) (pre ++ replicate (sum ws) 0) ≡ some (pre ++ encoded ws xs)
unfolding write_operands
write_operands-encoded ws [] pre = rw (encoded-nil ws)
write_operands-encoded [] (x ∷ xs) pre =
    rw (write_operand-field 0 x pre [], add-zero) (write_operands-encoded [] xs pre)
write_operands-encoded (w ∷ ws) (x ∷ xs) pre =
    let ih = write_operands-encoded ws xs (pre ++ field w x) in
    rw (replicate-add {A = ℕ} w (sum ws) 0, write_operand-field w x pre (replicate (sum ws) 0))
      (rw (length-append pre (field w x), length-field w x, append_assoc, append_assoc) at ih)
