-- ===== src/Stack/Decode.antt =====
-- `Opcode::from_byte` of code.rs against the discriminants.
use formlogic_rust.Common.{
  Bool-cases, List, ap, arith, count_up, get_elem?, get_elem?-count_up, get_elem?-map, inl, inr,
  leb, map, refl, some, sym, ℕ, ◌↔◌, ◌∙◌, ◌≡◌,
}
use native.Mathlib.Nat.{zero-add}
use formlogic_rust.Stack.Op.{Opcode, to_byte, from_byte, variants}

variants-to_byte : map to_byte variants ≡ count_up 0 83
unfolding to_byte
variants-to_byte = refl

pub from_byte-to_byte : (op : Opcode) → from_byte (to_byte op) ≡ some op
unfolding from_byte
from_byte-to_byte Opcode.op_constant = refl
from_byte-to_byte _ = refl

get_elem?-variants : (v : ℕ) {op : Opcode} → get_elem? variants v ≡ some op → to_byte op ≡ v
get_elem?-variants v {op} h =
    let byte : get_elem? (count_up 0 83) v ≡ some (to_byte op) =
      ap (λ (l : List ℕ). get_elem? l v) (sym variants-to_byte)
      ∙ get_elem?-map to_byte variants v h in
    get_elem?-count_up 0 83 v byte ∙ zero-add v

-- A byte decodes to an opcode exactly when it is that opcode's discriminant.
pub from_byte_iff : (value : ℕ) (op : Opcode) → (from_byte value ≡ some op) ↔ (to_byte op ≡ value)
unfolding from_byte
from_byte_iff value op = (decode, λ e. rw (← e) (from_byte-to_byte op))
  where
    decode : from_byte value ≡ some op → to_byte op ≡ value
    decode h = elim (Bool-cases (leb value (to_byte Opcode.op_halt))) [
      | inl small ↦ get_elem?-variants value (rw (small, from_byte) at h)
      | inr large ↦ absurd (ground arith)
    ]
