-- ===== src/Heap/Store.antt =====
-- `Heap` of value.rs. An object is one of the five inline kinds, a string, or a value of `R` for
-- every other variant; `rc_ptr` is the address of the `Rc` of a hash, an array or a generator.
use formlogic_rust.Common.Int.{ℤ}
use formlogic_rust.Value.Word.{from_heap}
use formlogic_rust.Common.{
  Bool, Bytes, List, Option, [], get_elem?, if◌then◌else◌, leb, length, ltb, none, set, some, ℕ,
  ◌%◌, ◌*◌, ◌++◌, ◌-◌, ◌==◌, ◌>>=◌, ◌^◌, ◌∷◌,
}

pub data Object {ℓ} (R : Type ℓ) : Type ℓ where
  integer : ℤ → Object R
  float : ℕ → Object R
  boolean : Bool → Object R
  null : Object R
  undefined : Object R
  string : Bytes → Object R
  other : R → Object R

-- The free list has its last entry first: `push` and `pop` work at the head.
pub record Heap {ℓ} (R : Type ℓ) : Type ℓ where
  pub objects : List (Object R)
  pub free_list : List ℕ
  pub rc_index : ℕ → Option ℕ

abbrev pub update {ℓ} : {A : Type ℓ} → (ℕ → A) → ℕ → A → ℕ → A
update f k v j = if k == j then v else f j

-- `retain(|idx| idx < max_idx)`
unfoldable pub keep_below : ℕ → List ℕ → List ℕ
keep_below max_idx [] = []
keep_below max_idx (idx ∷ rest) =
    let kept = keep_below max_idx rest in if ltb idx max_idx then idx ∷ kept else kept

module _ {ℓ} {R : Type ℓ} where
  unfoldable pub new : Heap R
  new = record { objects = []; free_list = []; rc_index = λ p. none }

  -- `usize` subtraction, which panics below 0.
  unfoldable pub allocated_count : Heap R → Option ℕ
  allocated_count h =
      if leb (length h.free_list) (length h.objects)
      then some (length h.objects - length h.free_list)
      else none

  unfoldable pub estimated_memory_bytes : Heap R → ℕ
  estimated_memory_bytes h = length h.objects * 256

  unfoldable pub get : Heap R → ℕ → Option (Object R)
  get h index = get_elem? h.objects index

  unfoldable pub reset : Heap R → Heap R
  reset h = record { objects = []; free_list = []; rc_index = λ p. none }

  unfoldable pub add_free : ℕ → Heap R → Heap R
  add_free idx h = record h { free_list = idx ∷ h.free_list }

  unfoldable pub clear_free_list : Heap R → Heap R
  clear_free_list h = record h { free_list = [] }

  unfoldable pub trim_free_list : ℕ → Heap R → Heap R
  unfolding keep_below
  trim_free_list max_idx h = record h { free_list = keep_below max_idx h.free_list }

  unfoldable pub rc_lookup : Heap R → ℕ → Option ℕ
  rc_lookup h ptr = h.rc_index ptr

module _ {ℓ} {R : Type ℓ} (rc_ptr : R → Option ℕ) where
  abbrev pub object_ptr : Object R → Option ℕ
  object_ptr (other r) = rc_ptr r
  object_ptr (integer v) = none
  object_ptr (float v) = none
  object_ptr (boolean v) = none
  object_ptr null = none
  object_ptr undefined = none
  object_ptr (string s) = none

  -- The map insertion of `register_rc`, for the object at `idx`.
  abbrev pub registered : Object R → ℕ → Heap R → Heap R
  registered obj idx h = elim (object_ptr obj) [
    | some ptr ↦ record h { rc_index = update h.rc_index ptr (some idx) }
    | none ↦ h
  ]

  -- `none` stands for a panic: no object at `idx`.
  unfoldable pub register_rc : ℕ → Heap R → Option (Heap R)
  register_rc idx h = do obj ← get_elem? h.objects idx; some (registered obj idx h)

  unfoldable pub unregister_rc : ℕ → Heap R → Option (Heap R)
  unregister_rc idx h = do
    obj ← get_elem? h.objects idx
    some (elim (object_ptr obj) [
      | some ptr ↦ record h { rc_index = update h.rc_index ptr none }
      | none ↦ h
    ])

  -- The slot: the top of the free list, or a new one at the end.
  unfoldable pub place : Object R → List ℕ → Heap R → Option (ℕ × Heap R)
  place obj [] h = some (length h.objects % 2 ^ 32, record h { objects = h.objects ++ obj ∷ [] })
  place obj (idx ∷ rest) h =
      if ltb idx (length h.objects)
      then some (idx, record h { objects = set h.objects idx obj; free_list = rest })
      else none

  unfoldable pub alloc : Object R → Heap R → Option (ℕ × Heap R)
  unfolding place register_rc
  alloc obj h = do
    (idx, placed) ← place obj h.free_list h
    registered ← register_rc idx placed
    some (idx, registered)

  unfoldable pub alloc_val : Object R → Heap R → Option (ℕ × Heap R)
  unfolding alloc from_heap
  alloc_val obj h = do (idx, h') ← alloc obj h; some (from_heap idx, h')
