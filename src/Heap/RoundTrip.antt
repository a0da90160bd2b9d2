-- ===== src/Heap/RoundTrip.antt =====
-- An object stored as a value and read back.
use formlogic_rust.Heap.Alloc.{IsLive, IsWellFormed, alloc-IsFresh}
use formlogic_rust.Value.Tags.{has_tag-tagged, other_checks, tagged_payload}
use formlogic_rust.Value.InlineStr.{
  AreBytes, inline_str-roundtrip, inline_str_word, payload, payload-lt,
}
use formlogic_rust.Value.Float.{i64_to_f64}
use formlogic_rust.Value.Number.{
  FitsI64, i32_min, i32_max, from_i64, FitsI32-cases, from_i64_small, from_i64_large,
  from_i32-is_i32, from_i32-roundtrip, i64_to_f64-is_f64, i64_to_f64-has_tag,
}
use formlogic_rust.Common.Int.{leb_ℤ, ℤ}
use formlogic_rust.Heap.Store.{Object, Heap, get, alloc_val}
use formlogic_rust.Heap.Convert.{val_to_obj, inline_string, obj_into_val}
use formlogic_rust.Value.Word.{
  is_f64, from_heap, is_i32, as_i32_unchecked, tagged, tag_istr, has_tag, heap_index, is_tagged,
  tag_heap, is_null, tag_i32, is_undefined, tag_bool, from_bool, as_bool_unchecked, null_value,
  inline_str_buf, as_f64, undefined_value, from_inline_str, from_f64, from_i32,
}
use Prim.Native.Nat.{bit_or}
use formlogic_rust.Common.{
  Bool, Bool-cases, Bytes, Option, ap, arith, false, if◌then◌else◌, inl, inr, leb, length, ltb,
  ltb→lt, none, refl, some, take, true, ℕ, ◌&&◌, ◌<◌, ◌^◌, ◌∙◌, ◌≡◌, ◌≤◌,
}

-- A float that is not confused with a tagged word: any but a NaN with a non-zero tag in bits 48-50.
abbrev pub IsCanonical : ℕ → Type 0
IsCanonical v = (is_f64 v ≡ true) × (is_i32 v ≡ false)

heap_index-from_heap :
    (index : ℕ) → index < 2 ^ 32 → heap_index (bit_or (tagged tag_heap) index) ≡ index
unfolding heap_index
heap_index-from_heap index small =
    rw (tagged_payload tag_heap index (omega arith) (omega arith)) (omega arith)

module _ {ℓ} {R : Type ℓ} where
  -- What the source's types and the float layout ask of an object.
  abbrev pub IsStorable : Object R → Type 0
  IsStorable (Object.integer v) = FitsI64 v
  IsStorable (Object.float v) = IsCanonical v
  IsStorable (Object.string s) = AreBytes s
  IsStorable (Object.boolean v) = Unit
  IsStorable Object.null = Unit
  IsStorable Object.undefined = Unit
  IsStorable (Object.other r) = Unit

  -- What comes back: an integer outside `i32` is a float from then on.
  abbrev pub widened : Object R → Object R
  widened (Object.integer v) =
      if leb_ℤ i32_min v && leb_ℤ v i32_max then Object.integer v else Object.float (i64_to_f64 v)
  widened (Object.float v) = Object.float v
  widened (Object.string s) = Object.string s
  widened (Object.boolean v) = Object.boolean v
  widened Object.null = Object.null
  widened Object.undefined = Object.undefined
  widened (Object.other r) = Object.other r

  val_to_obj_i32 :
      (w : ℕ) (h : Heap R)
      → is_i32 w ≡ true
      → val_to_obj w h ≡ some (Object.integer (as_i32_unchecked w))
  unfolding val_to_obj as_f64
  val_to_obj_i32 w h e = rw e

  val_to_obj_f64 : (w : ℕ) (h : Heap R) → IsCanonical w → val_to_obj w h ≡ some (Object.float w)
  unfolding val_to_obj as_f64
  val_to_obj_f64 w h (f, i) = rw (i, f)

  val_to_obj_istr :
      (payload : ℕ) (h : Heap R)
      → payload < 2 ^ 48
      → val_to_obj (bit_or (tagged tag_istr) payload) h
        ≡ inline_string (bit_or (tagged tag_istr) payload)
  unfolding val_to_obj as_f64
  val_to_obj_istr payload h small =
      let check =
        λ (tag : ℕ) (k : tag < 8). has_tag-tagged tag_istr tag payload (omega arith) k small in
      let (f, n, u) = other_checks tag_istr payload (omega arith) small in
      rw (
        check tag_i32 (omega arith),
        f (omega arith),
        check tag_bool (omega arith),
        n (omega arith),
        u (omega arith),
        check tag_istr (omega arith),
      )

  inline_string-text :
      (w : ℕ) (s : Bytes)
      → length s ≤ 5
      → take (inline_str_buf w).1 (inline_str_buf w).0 ≡ s
      → (inline_str_buf w).1 ≡ length s
      → inline_string {R = R} w ≡ some (Object.string s)
  unfolding inline_string
  inline_string-text w s fits text len =
      let inside : leb (inline_str_buf w).1 5 ≡ true = ground arith in rw (inside, text)

  val_to_obj_heap :
      (index : ℕ) (h : Heap R) → index < 2 ^ 32 → val_to_obj (from_heap index) h ≡ get h index
  unfolding val_to_obj from_heap
  val_to_obj_heap index h small =
      let narrow : index < 2 ^ 48 = omega arith in
      let check =
        λ (tag : ℕ) (k : tag < 8). has_tag-tagged tag_heap tag index (omega arith) k narrow in
      let (f, n, u) = other_checks tag_heap index (omega arith) narrow in
      rw
        (
          check tag_i32 (omega arith),
          f (omega arith),
          check tag_bool (omega arith),
          n (omega arith),
          u (omega arith),
          check tag_istr (omega arith),
          check tag_heap (omega arith),
        )
        (ap (get h) (heap_index-from_heap index small))

  val_to_obj_closed :
      (h : Heap R)
      → ((b : Bool) → val_to_obj (from_bool b) h ≡ some (Object.boolean b))
        × (val_to_obj null_value h ≡ some Object.null)
        × (val_to_obj undefined_value h ≡ some Object.undefined)
  unfolding val_to_obj has_tag is_f64 is_tagged is_null is_undefined from_bool as_bool_unchecked
  val_to_obj_closed h = (bools, refl, refl)
    where
      bools : (b : Bool) → val_to_obj (from_bool b) h ≡ some (Object.boolean b)
      bools true = refl
      bools false = refl

module _ {ℓ} {R : Type ℓ} (rc_ptr : R → Option ℕ) where
  -- The value reads back as `o`, and the slots in use before still hold what they held.
  pub record Stores (o : Object R) (h h' : Heap R) (v : ℕ) : Type ℓ where
    pub reads : val_to_obj v h' ≡ some o
    pub kept : (i : ℕ) → IsLive h i → (get h' i ≡ get h i) × IsLive h' i
    pub well_formed : IsWellFormed h'

  abbrev pub Stored : Object R → Object R → Heap R → Type ℓ
  Stored obj o h =
      (v : ℕ) × (h' : Heap R) × (obj_into_val rc_ptr obj h ≡ some (v, h')) × Stores o h h' v

  module _ (h : Heap R) (wf : IsWellFormed h) (small : length h.objects < 2 ^ 32) where
    inline-Stores : (o : Object R) (v : ℕ) → val_to_obj v h ≡ some o → Stores o h h v
    inline-Stores o v e = record { reads = e; kept = λ i l. (refl, l); well_formed = wf }

    boxed :
        (obj : Object R)
        → (v : ℕ) × (h' : Heap R) × (alloc_val rc_ptr obj h ≡ some (v, h')) × Stores obj h h' v
    unfolding alloc_val
    boxed obj =
        let (idx, h', e, fresh) = alloc-IsFresh rc_ptr obj h wf small in
        let narrow : idx < 2 ^ 32 = omega (arith, fresh.live.0, fresh.grown) in
        (
          from_heap idx,
          h',
          rw e,
          record {
            reads = val_to_obj_heap idx h' narrow ∙ fresh.stored;
            kept = fresh.kept;
            well_formed = fresh.well_formed;
          },
        )

    string-Stored : (s : Bytes) → AreBytes s → Stored (Object.string s) (Object.string s) h
    unfolding obj_into_val
    string-Stored s bs = elim (Bool-cases (ltb 5 (length s))) [
      | inl long ↦
          let none_inline : from_inline_str s ≡ none =
            (inline_str-roundtrip s bs).0 (ltb→lt 5 (length s) long) in
          let (v, h', e, stores) = boxed (Object.string s) in
          (v, h', rw (obj_into_val, none_inline) e, stores)
      | inr short ↦
          let fits : length s ≤ 5 = ground arith in
          let (e, text, len) = inline_str_word s fits bs in
          let w = bit_or (tagged tag_istr) (payload s) in
          let read : val_to_obj w h ≡ some (Object.string s) =
            val_to_obj_istr (payload s) h (payload-lt s fits bs)
            ∙ inline_string-text w s fits text len in
          (w, h, rw (obj_into_val, e), inline-Stores (Object.string s) w read)
    ]

    integer-Stored : (v : ℤ) → FitsI64 v → Stored (Object.integer v) (widened (Object.integer v)) h
    unfolding obj_into_val
    integer-Stored v fits = elim (FitsI32-cases v) [
      | inl (small, test) ↦
          let read : val_to_obj (from_i64 v) h ≡ some (widened (Object.integer v)) =
            rw (test, from_i64_small v small)
              (val_to_obj_i32 (from_i32 v) h (from_i32-is_i32 v)
                ∙ ap (λ (n : ℤ). some (Object.integer n)) (from_i32-roundtrip v small)) in
          (from_i64 v, h, refl, inline-Stores (widened (Object.integer v)) (from_i64 v) read)
      | inr (large, test) ↦
          let canonical : IsCanonical (i64_to_f64 v) =
            (i64_to_f64-is_f64 v fits, i64_to_f64-has_tag tag_i32 v (omega arith) fits) in
          let read : val_to_obj (from_i64 v) h ≡ some (widened (Object.integer v)) =
            rw (test, from_i64_large v large) (val_to_obj_f64 (i64_to_f64 v) h canonical) in
          (from_i64 v, h, refl, inline-Stores (widened (Object.integer v)) (from_i64 v) read)
    ]

  -- Storing an object gives a value that reads back as that object: the same string or boxed object,
  -- the same float bits, the same integer when it is an `i32` and otherwise its nearest float. Nothing
  -- panics, the heap stays well formed, and every slot in use before is in use and holds what it held.
  -- A heap that is well formed and below 2^32 slots is asked for, an integer in the range of `i64`,
  -- bytes in a string, and a float that is not a NaN whose bits 48-50 are a tag.
  pub obj_into_val-roundtrip :
      (obj : Object R) (h : Heap R)
      → IsWellFormed h
      → length h.objects < 2 ^ 32
      → IsStorable obj
      → Stored obj (widened obj) h
  unfolding obj_into_val from_f64
  obj_into_val-roundtrip (Object.integer v) h wf small ok = integer-Stored h wf small v ok
  obj_into_val-roundtrip (Object.float v) h wf small ok =
      (v, h, refl, inline-Stores h wf small (Object.float v) v (val_to_obj_f64 v h ok))
  obj_into_val-roundtrip (Object.boolean b) h wf small ok = (
    from_bool b,
    h,
    refl,
    inline-Stores h wf small (Object.boolean b) (from_bool b) ((val_to_obj_closed h).0 b),
  )
  obj_into_val-roundtrip Object.null h wf small ok =
      (null_value, h, refl, inline-Stores h wf small Object.null null_value (val_to_obj_closed h).1)
  obj_into_val-roundtrip Object.undefined h wf small ok = (
    undefined_value,
    h,
    refl,
    inline-Stores h wf small Object.undefined undefined_value (val_to_obj_closed h).2,
  )
  obj_into_val-roundtrip (Object.string s) h wf small ok = string-Stored h wf small s ok
  obj_into_val-roundtrip (Object.other r) h wf small ok = boxed h wf small (Object.other r)
