-- ===== src/Heap/Convert.antt =====
-- `obj_into_val`, `obj_to_val` and `val_to_obj` of value.rs.
use formlogic_rust.Heap.Store.{Object, alloc_val, Heap, get}
use formlogic_rust.Value.Number.{from_i64}
use formlogic_rust.Value.Word.{
  inline_str_buf, is_f64, from_f64, from_bool, is_null, is_undefined, from_inline_str,
  as_i32_unchecked, as_f64, as_bool_unchecked, heap_index, is_i32, is_bool, is_inline_str,
  null_value, is_heap, undefined_value,
}
use formlogic_rust.Common.{Option, if◌then◌else◌, leb, none, some, take, ℕ}

module _ {ℓ} {R : Type ℓ} (rc_ptr : R → Option ℕ) where
  -- `none` stands for a panic in `alloc`.
  unfoldable pub obj_into_val : Object R → Heap R → Option (ℕ × Heap R)
  obj_into_val (Object.integer v) h = some (from_i64 v, h)
  obj_into_val (Object.float v) h = some (from_f64 v, h)
  obj_into_val (Object.boolean v) h = some (from_bool v, h)
  obj_into_val Object.null h = some (null_value, h)
  obj_into_val Object.undefined h = some (undefined_value, h)
  obj_into_val (Object.string s) h = elim (from_inline_str s) [
    | some v ↦ some (v, h)
    | none ↦ alloc_val rc_ptr (Object.string s) h
  ]
  obj_into_val (Object.other r) h = alloc_val rc_ptr (Object.other r) h

module _ {ℓ} {R : Type ℓ} where
  -- `&buf[..len]`, which panics past the buffer.
  unfoldable pub inline_string : ℕ → Option (Object R)
  inline_string val =
      let buf = inline_str_buf val in
      if leb buf.1 5 then some (Object.string (take buf.1 buf.0)) else none

  -- `none` stands for that panic, or for an unchecked read past the end of the heap.
  unfoldable pub val_to_obj : ℕ → Heap R → Option (Object R)
  val_to_obj val h =
      if is_i32 val
      then some (Object.integer (as_i32_unchecked val))
      else if is_f64 val
      then some (Object.float (as_f64 val))
      else if is_bool val
      then some (Object.boolean (as_bool_unchecked val))
      else if is_null val
      then some Object.null
      else if is_undefined val
      then some Object.undefined
      else if is_inline_str val
      then inline_string val
      else if is_heap val
      then get h (heap_index val)
      else some Object.undefined
