-- ===== src/Register/Patch.antt =====
-- `patch_jump` of crates/formlogic-core/src/rcompiler.rs: a forward jump is emitted with a dummy
-- target, which is overwritten in the instruction vector once the target is known.
use formlogic_rust.Common.{
  Bytes, List, Option, [], ap, append-nil, append_assoc, arith, false, get_elem?,
  get_elem?-append_head, length, length-append, none, refl, set, some, ℕ, ◌%◌, ◌++◌, ◌+◌, ◌-◌,
  ◌>>=◌, ◌^◌, ◌∙◌, ◌∷◌, ◌≡◌,
}
use native.Mathlib.Nat.{add_assoc}
use formlogic_rust.Encoding.Fields.{encoded, store, high_byte, low_byte}
use formlogic_rust.Encoding.Reads.{operand_offset, Fits, overwrite-encoded}
use formlogic_rust.Register.Decode.{read_op, from_byte-to_byte}
use formlogic_rust.Register.Encode.{rmake, rmake_lem, is_make_closure}
use formlogic_rust.Register.Op.{ROp, to_byte}
use formlogic_rust.Register.Operands.{widths}

-- The `match` on the opcode; it panics on any other.
unfoldable pub jump_target_offset : ROp → Option ℕ
jump_target_offset ROp.jump = some 1
jump_target_offset ROp.jump_if_not = some 3
jump_target_offset ROp.jump_if_truthy = some 3
jump_target_offset ROp.test_lt_const_jump = some 5
jump_target_offset ROp.test_le_const_jump = some 5
jump_target_offset ROp.increment_reg_and_jump = some 5
jump_target_offset ROp.mod_reg_const_strict_eq_const_jump = some 7
jump_target_offset _ = none

-- `none` stands for a panic: no opcode at `op_pos`, no jump, or a write past the end.
unfoldable pub patch_jump : Bytes → ℕ → ℕ → Option Bytes
unfolding jump_target_offset read_op
patch_jump instructions op_pos target = do
  op ← read_op instructions op_pos
  target_offset ← jump_target_offset op
  let pos = op_pos + target_offset
  let narrowed = target % 2 ^ 16
  written ← store instructions pos (high_byte narrowed)
  store written (pos + 1) (low_byte narrowed)

-- The place of the target among the operands.
abbrev pub target_index : ROp → ℕ
target_index op = length (widths op) - 1

-- The literal offsets in `patch_jump` are those of the last operand, which is two bytes wide.
jump_target_offset-widths :
    (op : ROp) {target_offset : ℕ}
    → jump_target_offset op ≡ some target_offset
    → (target_offset ≡ 1 + operand_offset (widths op) (target_index op))
      × (get_elem? (widths op) (target_index op) ≡ some 2)
      × (is_make_closure op ≡ false)
unfolding jump_target_offset widths is_make_closure
jump_target_offset-widths ROp.jump h = (ground arith, refl, refl)
jump_target_offset-widths ROp.jump_if_not h = (ground arith, refl, refl)
jump_target_offset-widths ROp.jump_if_truthy h = (ground arith, refl, refl)
jump_target_offset-widths ROp.test_lt_const_jump h = (ground arith, refl, refl)
jump_target_offset-widths ROp.test_le_const_jump h = (ground arith, refl, refl)
jump_target_offset-widths ROp.increment_reg_and_jump h = (ground arith, refl, refl)
jump_target_offset-widths ROp.mod_reg_const_strict_eq_const_jump h = (ground arith, refl, refl)
jump_target_offset-widths _ h = cc

plain_bytes :
    (op : ROp) (operands : List ℕ)
    → is_make_closure op ≡ false
    → rmake op operands ≡ some (to_byte op ∷ encoded (widths op) operands)
plain_bytes op operands plain =
    rmake_lem op operands ∙ rw plain (ap (λ (t : Bytes). some (to_byte op ∷ t)) (append-nil _))

-- On an emitted jump, `patch_jump` neither panics nor touches any other instruction, and what it
-- leaves is exactly what `rmake` emits for the same operands with the target in the last place.
pub patch_jump-rmake :
    (op : ROp) (operands : List ℕ) (pre post : Bytes) (target : ℕ) {target_offset : ℕ} {out : Bytes}
    → jump_target_offset op ≡ some target_offset
    → Fits (widths op) operands
    → rmake op operands ≡ some out
    → (patched : Bytes) × (rmake op (set operands (target_index op) (target % 2 ^ 16))
        ≡ some patched)
      × (patch_jump (pre ++ (out ++ post)) (length pre) target ≡ some (pre ++ (patched ++ post)))
unfolding patch_jump
patch_jump-rmake op operands pre post target {target_offset} {out} jumps fits h =
    let (place, wide, plain) = jump_target_offset-widths op jumps in
    let patched = set operands (target_index op) (target % 2 ^ 16) in
    let built : out ≡ to_byte op ∷ encoded (widths op) operands =
      cc (plain_bytes op operands plain) in
    let start = pre ++ to_byte op ∷ [] in
    let written =
      overwrite-encoded (widths op) operands start post (target_index op) (target % 2 ^ 16) fits
        wide in
    (
      to_byte op ∷ encoded (widths op) patched,
      plain_bytes op patched plain,
      rw
          (
            built,
            get_elem?-append_head pre (to_byte op) (encoded (widths op) operands ++ post),
            from_byte-to_byte op,
            jumps,
            place,
          )
          (rw
            (
              length-append pre (to_byte op ∷ []),
              append_assoc pre (to_byte op ∷ []) (encoded (widths op) operands ++ post),
              append_assoc pre (to_byte op ∷ []) (encoded (widths op) patched ++ post),
              add_assoc (length pre) 1 (operand_offset (widths op) (target_index op)),
            )
            at written),
    )
