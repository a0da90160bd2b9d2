-- ===== src/Encoding/Reads.antt =====
-- Reading an operand back out of the instruction stream: `read_u16` of
-- crates/formlogic-core/src/vm.rs and `read_u8_at` of rvm.rs. The Rust reads are unchecked; a read
-- past the end is `none` here.
use native.Mathlib.Nat.{add-zero, suc-add, add_assoc}
use formlogic_rust.Common.{
  Bool-cases, Bytes, List, Option, [], ap, append_assoc, arith, get_elem?, if◌then◌else◌, inl, inr,
  length, length-append, set, some, suc, sum, take, zero, ℕ, ◌*◌, ◌++◌, ◌+◌, ◌<◌, ◌==◌, ◌>>=◌, ◌^◌,
  ◌∙◌, ◌∷◌, ◌≡◌, ◌⊎◌,
}
use formlogic_rust.Encoding.Fields.{
  field, encoded, length-field, store, store-append, store-append_second, high_byte, low_byte,
}

unfoldable pub read_u8_at : Bytes → ℕ → Option ℕ
read_u8_at code offset = get_elem? code offset

unfoldable pub read_u16 : Bytes → ℕ → Option ℕ
read_u16 code offset = do
  high ← get_elem? code offset
  low ← get_elem? code (offset + 1)
  some (high * 256 + low)

-- The read that an operand of a given width takes.
abbrev pub read_operand : ℕ → Bytes → ℕ → Option ℕ
read_operand width = if width == 2 then read_u16 else read_u8_at

-- Where an operand stands behind the first byte of the table.
abbrev pub operand_offset : List ℕ → ℕ → ℕ
operand_offset ws i = sum (take i ws)

-- The operands fit their fields, and there is one for each.
abbrev pub Fits : List ℕ → List ℕ → Type 0
Fits [] [] = Unit
Fits [] (x ∷ xs) = ⊥
Fits (w ∷ ws) [] = ⊥
Fits (w ∷ ws) (x ∷ xs) = ((w ≡ 1) × (x < 2 ^ 8) ⊎ (w ≡ 2) × (x < 2 ^ 16)) × Fits ws xs

read_operand-shift :
    (w p offset : ℕ) (code : Bytes)
    → read_operand w (p ∷ code) (suc offset) ≡ read_operand w code offset
unfolding read_u16 read_u8_at
read_operand-shift w p offset code = elim (Bool-cases (w == 2)) [
  | inl wide ↦ rw (wide, suc-add)
  | inr narrow ↦ rw narrow
]

pub read_operand-field :
    (w x : ℕ) (pre rest : Bytes)
    → (w ≡ 1) × (x < 2 ^ 8) ⊎ (w ≡ 2) × (x < 2 ^ 16)
    → read_operand w (pre ++ (field w x ++ rest)) (length pre) ≡ some x
unfolding read_u16 read_u8_at
read_operand-field w x [] rest (inl (e, h)) = rw e (ap some (omega arith))
read_operand-field w x [] rest (inr (e, h)) = rw e (ap some (omega arith))
read_operand-field w x (p ∷ pre) rest h =
    read_operand-shift w p (length pre) (pre ++ (field w x ++ rest))
    ∙ read_operand-field w x pre rest h

-- Every operand that fits is read back from its own offset, wherever the instruction stands.
pub read_operand-encoded :
    (ws xs : List ℕ) (pre rest : Bytes) (i : ℕ) {w x : ℕ}
    → Fits ws xs
    → get_elem? ws i ≡ some w
    → get_elem? xs i ≡ some x
    → read_operand w (pre ++ (encoded ws xs ++ rest)) (length pre + operand_offset ws i) ≡ some x
read_operand-encoded [] [] pre rest i h a b = cc
read_operand-encoded [] (y ∷ xs) pre rest i h a b = elim h [ ]
read_operand-encoded (v ∷ ws) [] pre rest i h a b = elim h [ ]
read_operand-encoded (v ∷ ws) (y ∷ xs) pre rest zero {w} {x} h a b =
    let read = read_operand-field v y pre (encoded ws xs ++ rest) h.0 in
    let width : v ≡ w = cc in
    let operand : y ≡ x = cc in rw (add-zero, append_assoc, ← width, ← operand) read
read_operand-encoded (v ∷ ws) (y ∷ xs) pre rest (suc i) {w} {x} h a b =
    let ih = read_operand-encoded ws xs (pre ++ field v y) rest i h.1 a b in
    rw (append_assoc (field v y), ← append_assoc pre, ← add_assoc)
      (rw (length-append pre (field v y), length-field v y) at ih)

overwrite-field :
    (pre : Bytes) (y t : ℕ) (rest : Bytes)
    → store (pre ++ (field 2 y ++ rest)) (length pre) (high_byte t)
        >>= (λ o. store o (length pre + 1) (low_byte t))
      ≡ some (pre ++ (field 2 t ++ rest))
overwrite-field pre y t rest =
    rw (store-append pre (high_byte y) (high_byte t) (low_byte y ∷ rest))
      (store-append_second pre (high_byte t) (low_byte y) (low_byte t) rest)

-- Overwriting the two bytes of a wide field is encoding the operands with that one replaced.
pub overwrite-encoded :
    (ws xs : List ℕ) (pre rest : Bytes) (i t : ℕ)
    → Fits ws xs
    → get_elem? ws i ≡ some 2
    → store (pre ++ (encoded ws xs ++ rest)) (length pre + operand_offset ws i) (high_byte t)
        >>= (λ o. store o (length pre + operand_offset ws i + 1) (low_byte t))
      ≡ some (pre ++ (encoded ws (set xs i t) ++ rest))
overwrite-encoded [] xs pre rest i t h a = cc
overwrite-encoded (v ∷ ws) [] pre rest i t h a = elim h [ ]
overwrite-encoded (v ∷ ws) (y ∷ xs) pre rest zero t h a =
    let width : v ≡ 2 = cc in rw (width, add-zero) (overwrite-field pre y t (encoded ws xs ++ rest))
overwrite-encoded (v ∷ ws) (y ∷ xs) pre rest (suc i) t h a =
    let ih = overwrite-encoded ws xs (pre ++ field v y) rest i t h.1 a in
    rw
      (
        append_assoc (field v y) (encoded ws xs),
        append_assoc (field v y) (encoded ws (set xs i t)),
        ← append_assoc pre (field v y) (encoded ws xs ++ rest),
        ← append_assoc pre (field v y) (encoded ws (set xs i t) ++ rest),
        ← add_assoc,
      )
      (rw (length-append pre (field v y), length-field v y) at ih)
