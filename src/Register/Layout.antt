-- ===== src/Register/Layout.antt =====
-- The reads of the dispatch loop in crates/formlogic-core/src/rvm.rs against the encoder's tables.
use formlogic_rust.Encoding.Fields.{field, encoded, length-field}
use formlogic_rust.Encoding.Reads.{Fits, read_operand, read_operand-field, read_u16}
use formlogic_rust.Register.Op.{ROp}
use formlogic_rust.Register.Operands.{widths}
use formlogic_rust.Register.Dispatch.{dispatch_reads, read_at, read_slots}
use formlogic_rust.Register.Encode.{slot_bytes}
use formlogic_rust.Common.{
  All, Bytes, List, Option, [], ap, append_assoc, arith, inr, length, length-append, refl, some, ℕ,
  ◌++◌, ◌+◌, ◌<◌, ◌>>=◌, ◌^◌, ◌∙◌, ◌∷◌, ◌≡◌,
}

-- The fields of a table of widths, laid out one behind the other.
unfoldable pub layout : ℕ → List ℕ → List (ℕ × ℕ)
layout offset [] = []
layout offset (w ∷ ws) = (offset, w) ∷ layout (offset + w) ws

-- The offsets of the loop are those of the encoder's table.
pub dispatch_reads-layout : (op : ROp) → dispatch_reads op ≡ layout 1 (widths op)
unfolding dispatch_reads widths layout
dispatch_reads-layout ROp.load_const = refl
dispatch_reads-layout _ = refl

read_both :
    {first : Option ℕ} {others : Option (List ℕ)} {x : ℕ} {xs : List ℕ}
    → first ≡ some x
    → others ≡ some xs
    → (do y ← first; ys ← others; some (y ∷ ys)) ≡ some (x ∷ xs)
read_both e f = rw (e, f) refl

pub read_at-encoded :
    (ws xs : List ℕ) (ip offset : ℕ) (pre rest : Bytes)
    → ip + offset ≡ length pre
    → Fits ws xs
    → read_at (pre ++ (encoded ws xs ++ rest)) ip (layout offset ws) ≡ some xs
unfolding read_at layout
read_at-encoded [] [] ip offset pre rest at h = refl
read_at-encoded [] (x ∷ xs) ip offset pre rest at h = elim h [ ]
read_at-encoded (w ∷ ws) [] ip offset pre rest at h = elim h [ ]
read_at-encoded (w ∷ ws) (x ∷ xs) ip offset pre rest at h =
    let code = pre ++ (field w x ++ (encoded ws xs ++ rest)) in
    let further : ip + (offset + w) ≡ length (pre ++ field w x) =
      omega (arith, at, length-append pre (field w x), length-field w x) in
    let first : read_operand w code (ip + offset) ≡ some x =
      rw at (read_operand-field w x pre (encoded ws xs ++ rest) h.0) in
    let others : read_at code ip (layout (offset + w) ws) ≡ some xs =
      rw (append_assoc pre (field w x)) at
        (read_at-encoded ws xs ip (offset + w) (pre ++ field w x) rest further h.1) in
    let same : encoded (w ∷ ws) (x ∷ xs) ++ rest ≡ field w x ++ (encoded ws xs ++ rest) =
      append_assoc (field w x) (encoded ws xs) rest in
    ap (λ t. read_at (pre ++ t) ip (layout offset (w ∷ ws))) same ∙ read_both first others

pub read_slots-bytes :
    (slots : List ℕ) (pre post : Bytes)
    → All (λ s. s < 2 ^ 16) slots
    → read_slots (pre ++ (slot_bytes slots ++ post)) (length pre) (length slots) ≡ some slots
unfolding read_slots
read_slots-bytes [] pre post h = refl
read_slots-bytes (slot ∷ slots) pre post h =
    let code = pre ++ (field 2 slot ++ (slot_bytes slots ++ post)) in
    let further : length (pre ++ field 2 slot) ≡ length pre + 2 =
      omega (arith, length-append pre (field 2 slot), length-field 2 slot) in
    let first : read_u16 code (length pre) ≡ some slot =
      read_operand-field 2 slot pre (slot_bytes slots ++ post) (inr (refl, h.0)) in
    let others : read_slots code (length pre + 2) (length slots) ≡ some slots =
      rw (append_assoc pre (field 2 slot), further) at
        (read_slots-bytes slots (pre ++ field 2 slot) post h.1) in
    read_both first others
