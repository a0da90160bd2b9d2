-- ===== src/Register/Encode.antt =====
-- `rmake` of rcode.rs, and the instruction that it builds.
use formlogic_rust.Common.{
  Bool, Bool-cases, Bytes, List, Option, [], ap, append-nil, append_assoc, arith, drop, false,
  if◌then◌else◌, inl, inr, length, length-append, ltb, refl, replicate, replicate-add, set, some,
  sum, sym, true, ℕ, ◌&&◌, ◌*◌, ◌++◌, ◌+◌, ◌>>=◌, ◌∙◌, ◌∷◌, ◌≡◌,
}
use formlogic_rust.Encoding.Fields.{
  write_operands, encoded, length-encoded, write_operands-encoded, high_byte, low_byte,
}
use formlogic_rust.Register.Op.{ROp, to_byte}
use formlogic_rust.Register.Operands.{widths, size, operand_bytes}

-- `op == MakeClosure`
unfoldable pub is_make_closure : ROp → Bool
is_make_closure ROp.make_closure = true
is_make_closure _ = false

unfoldable pub push_slots : Bytes → List ℕ → Bytes
push_slots out [] = out
push_slots out (slot ∷ slots) = push_slots (out ++ high_byte slot ∷ low_byte slot ∷ []) slots

-- `none` stands for a panic of an indexed write.
unfoldable pub rmake : ROp → List ℕ → Option Bytes
unfolding write_operands is_make_closure push_slots
rmake op operands = do
  let len = 1 + sum (widths op)
  out ← write_operands (widths op) operands 1 (set (replicate len 0) 0 (to_byte op))
  some (
      if is_make_closure op && ltb 3 (length operands)
      then push_slots out (drop 3 operands)
      else out)

-- The slots that `MakeClosure` captures, two bytes each.
abbrev pub slot_bytes : List ℕ → Bytes
slot_bytes [] = []
slot_bytes (slot ∷ slots) = high_byte slot ∷ low_byte slot ∷ slot_bytes slots

abbrev pub tail_slots : ROp → List ℕ → List ℕ
tail_slots op operands = if is_make_closure op then drop 3 operands else []

push_slots-slot_bytes :
    (out : Bytes) (slots : List ℕ) → push_slots out slots ≡ out ++ slot_bytes slots
unfolding push_slots
push_slots-slot_bytes out [] = sym (append-nil out)
push_slots-slot_bytes out (slot ∷ slots) =
    push_slots-slot_bytes (out ++ high_byte slot ∷ low_byte slot ∷ []) slots
    ∙ append_assoc out (high_byte slot ∷ low_byte slot ∷ []) (slot_bytes slots)

drop-nil : (operands : List ℕ) → ltb 3 (length operands) ≡ false → drop 3 operands ≡ []
drop-nil [] h = refl
drop-nil (a ∷ []) h = refl
drop-nil (a ∷ b ∷ []) h = refl
drop-nil (a ∷ b ∷ c ∷ []) h = refl
drop-nil (a ∷ b ∷ c ∷ d ∷ xs) h = ground arith

closure_tail :
    (op : ROp) (operands : List ℕ) (out : Bytes)
    → (if is_make_closure op && ltb 3 (length operands)
        then push_slots out (drop 3 operands)
        else out)
      ≡ out ++ slot_bytes (tail_slots op operands)
closure_tail op operands out = elim (Bool-cases (is_make_closure op)) [
  | inr plain ↦ rw plain (sym (append-nil out))
  | inl closure ↦ elim (Bool-cases (ltb 3 (length operands))) [
    | inl more ↦ rw (closure, more) (push_slots-slot_bytes out (drop 3 operands))
    | inr none_left ↦ rw (closure, none_left, drop-nil operands none_left) (sym (append-nil out))
  ]
]

-- `rmake` never panics, and its bytes are the opcode, then each operand big-endian in its field
-- with zeros for missing ones, then the slots that a `MakeClosure` captures.
pub rmake_lem :
    (op : ROp) (operands : List ℕ)
    → rmake op operands
      ≡ some (to_byte op ∷ (encoded (widths op) operands ++ slot_bytes (tail_slots op operands)))
unfolding rmake
rmake_lem op operands =
    let head = to_byte op ∷ [] in
    rw
      (
        replicate-add {A = ℕ} 1 (sum (widths op)) 0,
        write_operands-encoded (widths op) operands head,
      )
      (ap some (closure_tail op operands (head ++ encoded (widths op) operands)))

-- The table that the decoder skips by and the table that the encoder writes by agree.
pub sum-widths : (op : ROp) → sum (widths op) ≡ operand_bytes op
unfolding widths operand_bytes
sum-widths ROp.load_const = refl
sum-widths _ = refl

length-slot_bytes : (slots : List ℕ) → length (slot_bytes slots) ≡ 2 * length slots
length-slot_bytes [] = refl
length-slot_bytes (slot ∷ slots) = omega (arith, length-slot_bytes slots)

-- An instruction that `rmake` builds is `size op` bytes long, and two more for each slot that a
-- `MakeClosure` captures, however many operands are given.
pub length-rmake :
    (op : ROp) (operands : List ℕ) {out : Bytes}
    → rmake op operands ≡ some out
    → length out ≡ size op + 2 * length (tail_slots op operands)
unfolding size
length-rmake op operands {out} h =
    let built : out
        ≡ to_byte op ∷ (encoded (widths op) operands ++ slot_bytes (tail_slots op operands)) =
      cc (rmake_lem op operands) in
    rw (built, length-append (encoded (widths op) operands))
      (omega (
        arith,
        length-encoded (widths op) operands,
        sum-widths op,
        length-slot_bytes (tail_slots op operands),
      ))
