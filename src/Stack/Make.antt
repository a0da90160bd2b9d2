-- ===== src/Stack/Make.antt =====
-- `make` and `read_operands` of code.rs.
use formlogic_rust.Common.{
  Bytes, List, Option, Option-cases, [], append_assoc, arith, drop, get_elem?, get_elem?-lt, get_or,
  if◌then◌else◌, inl, inr, length, length-append, ltb, lt→ltb, refl, replicate, replicate-add, set,
  some, suc, sum, zero, ℕ, ◌*◌, ◌++◌, ◌+◌, ◌-◌, ◌<◌, ◌==◌, ◌^◌, ◌∷◌, ◌≡◌, ◌⊎◌,
}
use native.Mathlib.Nat.{add_assoc}
use formlogic_rust.Encoding.Fields.{
  write_operands, field, encoded, length-field, length-encoded, write_operands-encoded,
}
use formlogic_rust.Encoding.Reads.{read_operand, read_u16, read_u8_at, Fits, read_operand-field}
use formlogic_rust.Stack.Op.{Opcode, to_byte}
use formlogic_rust.Stack.Table.{Definition, lookup}

-- `none` stands for a panic of an indexed write.
unfoldable pub make : Opcode → List ℕ → Option Bytes
unfolding write_operands lookup
make op operands =
    let def = lookup op in
    let len = 1 + sum def.operand_widths in
    write_operands def.operand_widths operands 1 (set (replicate len 0) 0 (to_byte op))

-- One round of the loop: an operand that the bytes do not hold whole reads as 0.
read_width : ℕ → ℕ → Bytes → ℕ
read_width width offset ins =
    if width == 2
    then if ltb (offset + 1) (length ins)
      then get_or ins offset 0 * 256 + get_or ins (offset + 1) 0
      else 0
    else if width == 1
    then if ltb offset (length ins) then get_or ins offset 0 else 0
    else 0

read_widths : List ℕ → ℕ → Bytes → List ℕ × ℕ
read_widths [] offset ins = ([], offset)
read_widths (width ∷ ws) offset ins =
    let rest = read_widths ws (offset + width) ins in (read_width width offset ins ∷ rest.0, rest.1)

unfoldable pub read_operands : Definition → Bytes → List ℕ × ℕ
unfolding read_widths read_width
read_operands def ins = read_widths def.operand_widths 0 ins

-- `make` never panics: the opcode, then each operand in its field, with zeros for missing ones.
pub make_lem :
    (op : Opcode) (operands : List ℕ)
    → make op operands ≡ some (to_byte op ∷ encoded (lookup op).operand_widths operands)
unfolding make
make_lem op operands =
    let ws = (lookup op).operand_widths in
    rw (replicate-add {A = ℕ} 1 (sum ws) 0) (write_operands-encoded ws operands (to_byte op ∷ []))

get_or-get_elem? : (xs : Bytes) (i : ℕ) {a : ℕ} → get_elem? xs i ≡ some a → get_or xs i 0 ≡ a
get_or-get_elem? [] i h = cc
get_or-get_elem? (x ∷ xs) zero h = cc
get_or-get_elem? (x ∷ xs) (suc i) h = get_or-get_elem? xs i h

read_width_wide :
    (offset : ℕ) (ins : Bytes) {x : ℕ} → read_u16 ins offset ≡ some x → read_width 2 offset ins ≡ x
unfolding read_width read_u16
read_width_wide offset ins {x} h = elim (Option-cases (get_elem? ins offset)) [
  | inl missing ↦ absurd (ground arith)
  | inr (a, high) ↦ elim (Option-cases (get_elem? ins (offset + 1))) [
    | inl missing ↦ absurd (ground arith)
    | inr (b, low) ↦
        rw
          (
            lt→ltb (offset + 1) (length ins) (get_elem?-lt ins (offset + 1) low),
            get_or-get_elem? ins offset high,
            get_or-get_elem? ins (offset + 1) low,
          )
          (ground arith)
  ]
]

read_width-read_operand :
    (w x offset : ℕ) (ins : Bytes)
    → (w ≡ 1) × (x < 2 ^ 8) ⊎ (w ≡ 2) × (x < 2 ^ 16)
    → read_operand w ins offset ≡ some x
    → read_width w offset ins ≡ x
unfolding read_width read_u8_at
read_width-read_operand w x offset ins (inl (e, small)) h =
    let read : get_elem? ins offset ≡ some x = rw e at h in
    rw (e, lt→ltb offset (length ins) (get_elem?-lt ins offset read))
      (get_or-get_elem? ins offset read)
read_width-read_operand w x offset ins (inr (e, small)) h =
    rw e (read_width_wide offset ins (rw e at h))

read_widths-encoded :
    (ws xs : List ℕ) (pre rest : Bytes)
    → Fits ws xs
    → read_widths ws (length pre) (pre ++ (encoded ws xs ++ rest)) ≡ (xs, length pre + sum ws)
unfolding read_widths
read_widths-encoded [] [] pre rest h = ground arith
read_widths-encoded [] (x ∷ xs) pre rest h = elim h [ ]
read_widths-encoded (w ∷ ws) [] pre rest h = elim h [ ]
read_widths-encoded (w ∷ ws) (x ∷ xs) pre rest h =
    let here =
      read_width-read_operand w x (length pre) _ h.0
        (read_operand-field w x pre (encoded ws xs ++ rest) h.0) in
    let ih = read_widths-encoded ws xs (pre ++ field w x) rest h.1 in
    rw (append_assoc (field w x) (encoded ws xs) rest, here)
      (cc (
        rw
          (
            append_assoc pre (field w x) (encoded ws xs ++ rest),
            length-append pre (field w x),
            length-field w x,
            add_assoc (length pre) w (sum ws),
          )
          at ih))

-- Reading what `make` wrote gives back the operands and the number of bytes that they took.
pub read_operands-make :
    (op : Opcode) (operands : List ℕ) (rest : Bytes) {out : Bytes}
    → Fits (lookup op).operand_widths operands
    → make op operands ≡ some out
    → (get_elem? (out ++ rest) 0 ≡ some (to_byte op))
      × (read_operands (lookup op) (drop 1 (out ++ rest)) ≡ (operands, length out - 1))
unfolding read_operands
read_operands-make op operands rest {out} fits h =
    let ws = (lookup op).operand_widths in
    let built : out ≡ to_byte op ∷ encoded ws operands = cc (make_lem op operands) in
    rw built (
      refl,
      rw (length-encoded ws operands, read_widths-encoded ws operands [] rest fits) (ground arith),
    )
