-- ===== src/Register/Decode.antt =====
-- The opcode byte that the dispatch loop of crates/formlogic-core/src/rvm.rs reads at `ip`, and what
-- its reads make of an instruction of `rmake`.
use formlogic_rust.Register.Layout.{
  layout, dispatch_reads-layout, read_at-encoded, read_slots-bytes,
}
use formlogic_rust.Register.Dispatch.{read_slots, read_at, dispatch_operands, dispatch_slots}
use formlogic_rust.Common.{
  All, Bool-cases, Bytes, List, Option, [], ap, append_assoc, arith, count_up, get_elem?,
  get_elem?-append_head, get_elem?-count_up, get_elem?-map, inl, inr, leb, length, length-append,
  map, refl, some, sym, ℕ, ◌++◌, ◌+◌, ◌<◌, ◌>>=◌, ◌^◌, ◌↔◌, ◌∙◌, ◌∷◌, ◌≡◌,
}
use native.Mathlib.Nat.{zero-add}
use formlogic_rust.Encoding.Fields.{encoded, length-encoded}
use formlogic_rust.Encoding.Reads.{Fits, operand_offset, read_u8_at, read_operand-encoded}
use formlogic_rust.Register.Encode.{rmake, rmake_lem, slot_bytes, tail_slots, is_make_closure}
use formlogic_rust.Register.Op.{ROp, to_byte, from_byte, variants}
use formlogic_rust.Register.Operands.{widths}

-- `transmute(*self.inst_ptr.add(ip))`; a byte that is no opcode is undefined behaviour there and
-- `none` here.
unfoldable pub read_op : Bytes → ℕ → Option ROp
unfolding from_byte
read_op code ip = do b ← get_elem? code ip; from_byte b

variants-to_byte : map to_byte variants ≡ count_up 0 78
unfolding to_byte
variants-to_byte = refl

pub from_byte-to_byte : (op : ROp) → from_byte (to_byte op) ≡ some op
unfolding from_byte
from_byte-to_byte ROp.load_const = refl
from_byte-to_byte _ = refl

get_elem?-variants : (v : ℕ) {op : ROp} → get_elem? variants v ≡ some op → to_byte op ≡ v
get_elem?-variants v {op} h =
    let byte : get_elem? (count_up 0 78) v ≡ some (to_byte op) =
      ap (λ (l : List ℕ). get_elem? l v) (sym variants-to_byte)
      ∙ get_elem?-map to_byte variants v h in
    get_elem?-count_up 0 78 v byte ∙ zero-add v

-- A byte decodes to an opcode exactly when it is that opcode's discriminant.
pub from_byte_iff : (value : ℕ) (op : ROp) → (from_byte value ≡ some op) ↔ (to_byte op ≡ value)
unfolding from_byte
from_byte_iff value op = (decode, λ e. rw (← e) (from_byte-to_byte op))
  where
    decode : from_byte value ≡ some op → to_byte op ≡ value
    decode h = elim (Bool-cases (leb value (to_byte ROp.halt_value))) [
      | inl small ↦ get_elem?-variants value (rw (small, from_byte) at h)
      | inr large ↦ absurd (ground arith)
    ]

encoded-append : (ws xs extra : List ℕ) → Fits ws xs → encoded ws (xs ++ extra) ≡ encoded ws xs
encoded-append [] xs extra h = refl
encoded-append (w ∷ ws) [] extra h = elim h [ ]
encoded-append (w ∷ ws) (x ∷ xs) extra h = rw (encoded-append ws xs extra h.1)

-- The bytes of an instruction whose operands fit, in the midst of a program.
pub rmake_placed :
    (op : ROp) (operands extra : List ℕ) (pre post : Bytes) {out : Bytes}
    → Fits (widths op) operands
    → rmake op (operands ++ extra) ≡ some out
    → pre ++ (out ++ post)
      ≡ pre
        ++ to_byte op
          ∷ (encoded (widths op) operands
              ++ (slot_bytes (tail_slots op (operands ++ extra)) ++ post))
rmake_placed op operands extra pre post {out} fits h =
    let slots = slot_bytes (tail_slots op (operands ++ extra)) in
    let built : out ≡ to_byte op ∷ (encoded (widths op) (operands ++ extra) ++ slots) =
      cc (rmake_lem op (operands ++ extra)) in
    rw (built, encoded-append (widths op) operands extra fits)
      (ap (λ (t : Bytes). pre ++ to_byte op ∷ t)
        (append_assoc (encoded (widths op) operands) slots post))

-- The slots behind the operands of a `MakeClosure`: as many as its third operand says, each in two
-- bytes.
abbrev pub Captures : ROp → List ℕ → List ℕ → Type 0
Captures ROp.make_closure operands extra =
    (get_elem? operands 2 ≡ some (length extra)) × All (λ s. s < 2 ^ 16) extra
Captures op operands extra = Unit

three_operands :
    (operands : List ℕ)
    → Fits (2 ∷ 2 ∷ 1 ∷ []) operands
    → (a : ℕ) × (b : ℕ) × (c : ℕ) × (operands ≡ a ∷ b ∷ c ∷ [])
three_operands (a ∷ b ∷ c ∷ []) h = (a, b, c, refl)
three_operands [] h = elim h [ ]
three_operands (a ∷ []) h = elim h.1 [ ]
three_operands (a ∷ b ∷ []) h = elim h.1.1 [ ]
three_operands (a ∷ b ∷ c ∷ d ∷ xs) h = elim h.1.1.1 [ ]

tail_captured :
    (operands extra : List ℕ)
    → Fits (2 ∷ 2 ∷ 1 ∷ []) operands
    → tail_slots ROp.make_closure (operands ++ extra) ≡ extra
unfolding is_make_closure
tail_captured operands extra fits = let (a, b, c, e) = three_operands operands fits in rw e refl

closure_slots :
    (b : ℕ) (operands extra : List ℕ) (pre post : Bytes)
    → Fits (2 ∷ 2 ∷ 1 ∷ []) operands
    → Captures ROp.make_closure operands extra
    → dispatch_slots ROp.make_closure
        (pre ++ b ∷ (encoded (2 ∷ 2 ∷ 1 ∷ []) operands ++ (slot_bytes extra ++ post)))
        (length pre)
      ≡ some extra
unfolding dispatch_slots
closure_slots b operands extra pre post fits (counted, small) =
    let ws : List ℕ = 2 ∷ 2 ∷ 1 ∷ [] in
    let start = pre ++ b ∷ [] in
    let fixed = encoded ws operands in
    let rest = slot_bytes extra ++ post in
    let code = pre ++ b ∷ (fixed ++ rest) in
    let whole : start ++ (fixed ++ rest) ≡ code = append_assoc pre (b ∷ []) (fixed ++ rest) in
    let there : length start + operand_offset ws 2 ≡ length pre + 5 =
      omega (arith, length-append pre (b ∷ [])) in
    let behind : length (start ++ fixed) ≡ length pre + 6 =
      omega (
        arith,
        length-append start fixed,
        length-append pre (b ∷ []),
        length-encoded ws operands,
      ) in
    let count : read_u8_at code (length pre + 5) ≡ some (length extra) =
      rw (whole, there) at
        (read_operand-encoded ws operands start rest 2 {w = 1} fits refl counted) in
    let slots : read_slots code (length pre + 6) (length extra) ≡ some extra =
      rw (append_assoc start fixed rest, whole, behind) at
        (read_slots-bytes extra (start ++ fixed) post small) in
    rw count slots

placed_slots :
    (op : ROp) (b : ℕ) (operands extra : List ℕ) (pre post : Bytes)
    → Fits (widths op) operands
    → Captures op operands extra
    → dispatch_slots op
        (pre
          ++ b
            ∷ (encoded (widths op) operands
                ++ (slot_bytes (tail_slots op (operands ++ extra)) ++ post)))
        (length pre)
      ≡ some (tail_slots op (operands ++ extra))
unfolding widths dispatch_slots is_make_closure
placed_slots ROp.make_closure b operands extra pre post fits captures =
    rw (tail_captured operands extra fits) (closure_slots b operands extra pre post fits captures)
placed_slots _ b operands extra pre post fits captures = refl

-- What `rmake` wrote is what the dispatch loop reads, wherever the instruction stands and whatever
-- follows it: the opcode at `ip`; at the offsets that the arm of that opcode spells out, the operands,
-- each in the width that the arm reads there; and behind a `MakeClosure` whose third operand counts
-- them, the captured slots. Operands and slots are to fit their bytes.
pub read-rmake :
    (op : ROp) (operands extra : List ℕ) (pre post : Bytes) {out : Bytes}
    → Fits (widths op) operands
    → Captures op operands extra
    → rmake op (operands ++ extra) ≡ some out
    → (read_op (pre ++ (out ++ post)) (length pre) ≡ some op)
      × (dispatch_operands op (pre ++ (out ++ post)) (length pre) ≡ some operands)
      × (dispatch_slots op (pre ++ (out ++ post)) (length pre)
          ≡ some (tail_slots op (operands ++ extra)))
unfolding read_op dispatch_operands
read-rmake op operands extra pre post {out} fits captures h =
    let b = to_byte op in
    let rest = slot_bytes (tail_slots op (operands ++ extra)) ++ post in
    let body = encoded (widths op) operands ++ rest in
    let placed = rmake_placed op operands extra pre post fits h in
    let start : length pre + 1 ≡ length (pre ++ b ∷ []) =
      omega (arith, length-append pre (b ∷ [])) in
    let read : read_at (pre ++ b ∷ body) (length pre) (layout 1 (widths op)) ≡ some operands =
      rw (append_assoc pre (b ∷ []) body) at
        (read_at-encoded (widths op) operands (length pre) 1 (pre ++ b ∷ []) rest start fits) in
    (
      rw (placed, get_elem?-append_head pre b body) (from_byte-to_byte op),
      rw (placed, dispatch_reads-layout op) read,
      rw placed (placed_slots op b operands extra pre post fits captures),
    )
