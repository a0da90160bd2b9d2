-- ===== src/Tests.antt =====
-- Each theorem at a concrete input: heap, values and bytecodes.
mod Collecting
mod Hashing
mod Importing
mod Gathering
pub mod Lexing
use Prim.Native.Nat.{bit_or, bit_and}
use formlogic_rust.Common.Int.{pos}
use formlogic_rust.Heap.Store.{Object, Heap, get, alloc}
use formlogic_rust.Heap.Alloc.{IsWellFormed, IsFresh, contains, alloc-IsFresh}
use formlogic_rust.Heap.Sweep.{sweep}
use formlogic_rust.Heap.Safety.{IsCollected, sweep_safe, sweep_forgets_null}
use formlogic_rust.Heap.RoundTrip.{Stored, obj_into_val-roundtrip}
use formlogic_rust.Value.Word.{
  both_i32, is_i32, from_inline_str, is_inline_str, inline_str_buf, has_tag, is_tagged, tagged,
  qnan, tag_mask, as_i32_unchecked, is_f64, tag_i32,
}
use formlogic_rust.Value.Tags.{both_i32_lem, is_tagged_masks, has_tag-tagged}
use formlogic_rust.Value.InlineStr.{inline_str-roundtrip}
use formlogic_rust.Value.Float.{i64_to_f64, IsExactly, magnitude}
use formlogic_rust.Value.Number.{from_i64, from_i64_lem}
use formlogic_rust.Common.Int.{FitsI32}
use formlogic_rust.Encoding.Fields.{encoded}
use formlogic_rust.Encoding.Reads.{read_operand, operand_offset}
use formlogic_rust.Register.Op.{ROp}
use formlogic_rust.Register.Op as Register
use formlogic_rust.Register.Operands.{widths, size}
use formlogic_rust.Register.Encode.{rmake, slot_bytes, tail_slots, rmake_lem, length-rmake}
use formlogic_rust.Register.Dispatch.{dispatch_operands, dispatch_slots}
use formlogic_rust.Register.Decode.{read_op, read-rmake, from_byte_iff}
use formlogic_rust.Register.Patch.{patch_jump, jump_target_offset, target_index, patch_jump-rmake}
use formlogic_rust.Interner.Table.{Interner, empty, intern}
use formlogic_rust.Interner.Symbols.{
  IsInverse, IsInterned, empty-IsInverse, intern-IsInterned, intern_iff,
}
use formlogic_rust.Token.Text.{chars}
use formlogic_rust.Stack.Op.{Opcode}
use formlogic_rust.Stack.Op as Stack
use formlogic_rust.Stack.Table.{lookup}
use formlogic_rust.Stack.Make.{make, read_operands, make_lem, read_operands-make}
use formlogic_rust.Common.{
  Bool, Bytes, List, Option, [], arith, drop, false, get_elem?, inl, inr, length, none, not, refl,
  set, some, take, true, ℕ, ◌%◌, ◌&&◌, ◌*◌, ◌++◌, ◌+◌, ◌/◌, ◌<◌, ◌==◌, ◌^◌, ◌↔◌, ◌∷◌, ◌≡◌, ◌≤◌,
}

abbrev pointer : ℕ → Option ℕ
pointer r = some r

-- A boxed object, a hole on the free list, a string and a number.
abbrev heap : Heap ℕ
heap = record {
  objects = Object.other 7 ∷ Object.null ∷ Object.string (1 ∷ []) ∷ Object.integer (pos 3) ∷ [];
  free_list = 1 ∷ [];
  rc_index = λ p. none;
}

abbrev marks : List Bool
marks = false ∷ false ∷ true ∷ false ∷ []

heap-IsWellFormed : IsWellFormed heap
heap-IsWellFormed = record { bounded = (omega arith, tt); distinct = (refl, tt) }

sweep_safe_example :
    (h' : Heap ℕ) × (sweep pointer marks heap ≡ some h') × IsCollected marks heap h'
sweep_safe_example = sweep_safe pointer marks heap refl

sweep_forgets_null_example : contains (0 ∷ []) 1 ≡ false
unfolding sweep get
sweep_forgets_null_example = sweep_forgets_null pointer marks heap 1 refl refl refl

alloc-IsFresh_example :
    (idx : ℕ) × (h' : Heap ℕ) × (alloc pointer (Object.other 9) heap ≡ some (idx, h'))
    × IsFresh (Object.other 9) heap h' idx
alloc-IsFresh_example = alloc-IsFresh pointer (Object.other 9) heap heap-IsWellFormed (omega arith)

obj_into_val-roundtrip_example :
    Stored pointer (Object.string (104 ∷ 105 ∷ [])) (Object.string (104 ∷ 105 ∷ [])) heap
obj_into_val-roundtrip_example =
    obj_into_val-roundtrip pointer (Object.string (104 ∷ 105 ∷ [])) heap heap-IsWellFormed
      (omega arith) (omega arith, (omega arith, tt))

both_i32_lem_example : both_i32 0x7FF9_0000_0000_0001 5 ≡ (is_i32 0x7FF9_0000_0000_0001 && is_i32 5)
both_i32_lem_example = both_i32_lem 0x7FF9_0000_0000_0001 5

from_i64_lem_example :
    (FitsI32 (pos 3000000000)
      → (is_i32 (from_i64 (pos 3000000000)) ≡ true)
        × (as_i32_unchecked (from_i64 (pos 3000000000)) ≡ pos 3000000000)
        × ((tag : ℕ) → tag < 8 → has_tag tag (from_i64 (pos 3000000000)) ≡ (tag_i32 == tag)))
    × ((¬ FitsI32 (pos 3000000000))
        → (from_i64 (pos 3000000000) ≡ i64_to_f64 (pos 3000000000))
          × (is_f64 (from_i64 (pos 3000000000)) ≡ true)
          × (is_i32 (from_i64 (pos 3000000000)) ≡ false)
          × ((tag : ℕ) → tag < 8 → has_tag tag (from_i64 (pos 3000000000)) ≡ false)
          × (magnitude (pos 3000000000) < 2 ^ 53
              → IsExactly (pos 3000000000) (from_i64 (pos 3000000000))))
from_i64_lem_example = from_i64_lem (pos 3000000000) (omega arith)

inline_str-roundtrip_example :
    ((5 < 2) → from_inline_str (104 ∷ 105 ∷ []) ≡ none)
    × ((2 ≤ 5)
        → (w : ℕ) × (from_inline_str (104 ∷ 105 ∷ []) ≡ some w)
          × (is_inline_str w ≡ true)
          × (take (inline_str_buf w).1 (inline_str_buf w).0 ≡ 104 ∷ 105 ∷ [])
          × ((inline_str_buf w).1 ≡ 2))
inline_str-roundtrip_example =
    inline_str-roundtrip (104 ∷ 105 ∷ []) (omega arith, (omega arith, tt))

has_tag-tagged_example : has_tag 3 (bit_or (tagged 1) 77) ≡ (1 == 3)
has_tag-tagged_example = has_tag-tagged 1 3 77 (omega arith) (omega arith) (omega arith)

is_tagged_masks_example : is_tagged 0x7FF9_0000_0000_0000 ≡ (
    bit_and 0x7FF9_0000_0000_0000 qnan == qnan
    && not (bit_and (0x7FF9_0000_0000_0000 / 2 ^ 48) tag_mask == 0))
is_tagged_masks_example = is_tagged_masks 0x7FF9_0000_0000_0000 (omega arith)

-- A conditional jump on register 4, emitted with a dummy target.
abbrev jump_operands : List ℕ
jump_operands = 4 ∷ 0 ∷ []

patch_jump-rmake_example :
    (patched : Bytes) × (rmake ROp.jump_if_not
        (set jump_operands (target_index ROp.jump_if_not) (515 % 2 ^ 16))
      ≡ some patched)
    × (patch_jump
          ((9 ∷ []) ++ ((Register.to_byte ROp.jump_if_not ∷ 0 ∷ 4 ∷ 0 ∷ 0 ∷ []) ++ (8 ∷ [])))
          1
          515
        ≡ some ((9 ∷ []) ++ (patched ++ (8 ∷ []))))
unfolding rmake jump_target_offset widths
patch_jump-rmake_example =
    patch_jump-rmake ROp.jump_if_not jump_operands (9 ∷ []) (8 ∷ []) 515 refl
      (inr (refl, omega arith), (inr (refl, omega arith), tt)) refl

-- A closure over the global slots 7 and 300, between other bytes.
abbrev closure : Bytes
closure = Register.to_byte ROp.make_closure ∷ 1 ∷ 2 ∷ 0 ∷ 3 ∷ 2 ∷ 0 ∷ 7 ∷ 1 ∷ 44 ∷ []

read-rmake_example :
    (read_op ((9 ∷ []) ++ (closure ++ (5 ∷ []))) 1 ≡ some ROp.make_closure)
    × (dispatch_operands ROp.make_closure ((9 ∷ []) ++ (closure ++ (5 ∷ []))) 1
        ≡ some (258 ∷ 3 ∷ 2 ∷ []))
    × (dispatch_slots ROp.make_closure ((9 ∷ []) ++ (closure ++ (5 ∷ []))) 1
        ≡ some (tail_slots ROp.make_closure ((258 ∷ 3 ∷ 2 ∷ []) ++ (7 ∷ 300 ∷ []))))
unfolding rmake widths
read-rmake_example =
    read-rmake ROp.make_closure (258 ∷ 3 ∷ 2 ∷ []) (7 ∷ 300 ∷ []) (9 ∷ []) (5 ∷ [])
      (inr (refl, omega arith), (inr (refl, omega arith), (inl (refl, omega arith), tt)))
      (refl, (omega arith, (omega arith, tt))) refl

rmake_lem_example :
    rmake ROp.make_closure (1 ∷ 2 ∷ 1 ∷ 5 ∷ [])
    ≡ some (
        Register.to_byte ROp.make_closure
        ∷ (encoded (widths ROp.make_closure) (1 ∷ 2 ∷ 1 ∷ 5 ∷ [])
            ++ slot_bytes (tail_slots ROp.make_closure (1 ∷ 2 ∷ 1 ∷ 5 ∷ []))))
rmake_lem_example = rmake_lem ROp.make_closure (1 ∷ 2 ∷ 1 ∷ 5 ∷ [])

length-rmake_example : 3 ≡ size ROp.jump + 2 * length (tail_slots ROp.jump (258 ∷ []))
unfolding rmake widths
length-rmake_example = length-rmake ROp.jump (258 ∷ []) refl

from_byte_iff_example : (Register.from_byte 76 ≡ some ROp.halt) ↔ (Register.to_byte ROp.halt ≡ 76)
from_byte_iff_example = from_byte_iff 76 ROp.halt

make_lem_example :
    make Opcode.op_jump (7 ∷ [])
    ≡ some (Stack.to_byte Opcode.op_jump ∷ encoded (lookup Opcode.op_jump).operand_widths (7 ∷ []))
make_lem_example = make_lem Opcode.op_jump (7 ∷ [])

read_operands-make_example :
    (get_elem? ((Stack.to_byte Opcode.op_jump ∷ 0 ∷ 7 ∷ []) ++ (1 ∷ [])) 0
      ≡ some (Stack.to_byte Opcode.op_jump))
    × (read_operands
          (lookup Opcode.op_jump)
          (drop 1 ((Stack.to_byte Opcode.op_jump ∷ 0 ∷ 7 ∷ []) ++ (1 ∷ [])))
        ≡ (7 ∷ [], 2))
unfolding make lookup
read_operands-make_example =
    read_operands-make Opcode.op_jump (7 ∷ []) (1 ∷ []) (inr (refl, omega arith), tt) refl

abbrev known : Interner
known = (intern (chars "length") empty).1

known-IsInverse : IsInverse known
unfolding empty
known-IsInverse = (intern-IsInterned (chars "length") empty empty-IsInverse (omega arith)).inverse

intern-IsInterned_example :
    IsInterned (chars "push") empty (intern (chars "push") empty).0 (intern (chars "push") empty).1
unfolding empty
intern-IsInterned_example = intern-IsInterned (chars "push") empty empty-IsInverse (omega arith)

intern_iff_example :
    ((intern (chars "push") known).0 ≡ (intern (chars "length") (intern (chars "push") known).1).0)
    ↔ (chars "push" ≡ chars "length")
unfolding intern empty
intern_iff_example = intern_iff (chars "push") (chars "length") known known-IsInverse (omega arith)
