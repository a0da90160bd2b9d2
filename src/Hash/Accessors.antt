-- ===== src/Hash/Accessors.antt =====
-- Accessors of `HashObject` in object.rs, and `insert_pair_obj`, which keeps boxed objects beside
-- the pairs. The map of accessors is an association list that an insertion extends in front.
use formlogic_rust.Hash.Key.{HashKey}
use formlogic_rust.Hash.IndexMap.{IndexMap}
use formlogic_rust.Hash.Object.{HashObject, insert_pair}
use formlogic_rust.Heap.Store.{Object}
use formlogic_rust.Token.Text.{text_eq}
use formlogic_rust.Value.Word.{from_bool, from_f64, from_heap, null_value, undefined_value}
use formlogic_rust.Value.Number.{from_i64}
use formlogic_rust.Common.{
  Bool, Bytes, List, Option, [], false, if◌then◌else◌, length, none, some, true, ℕ, ◌%◌, ◌++◌,
  ◌>>=◌, ◌^◌, ◌||◌, ◌∷◌,
}

abbrev pub is_present {ℓ} : {A : Type ℓ} → Option A → Bool
is_present none = false
is_present (some a) = true

unfoldable pub get_accessor {ℓ} : {F : Type ℓ} → List (Bytes × F) → Bytes → Option F
get_accessor [] name = none
get_accessor ((key, f) ∷ fs) name =
    let rest = get_accessor fs name in if text_eq key name then some f else rest

-- `get_or_insert_with(..)`
abbrev or_empty {ℓ} : {F : Type ℓ} → Option (List (Bytes × F)) → List (Bytes × F)
or_empty none = []
or_empty (some fs) = fs

module _ {ℓ} {M : Type 0} {R F : Type ℓ} where
  unfoldable pub has_accessors : HashObject M R F → Bool
  has_accessors o = is_present o.getters || is_present o.setters

  unfoldable pub get_getter : HashObject M R F → Bytes → Option F
  unfolding get_accessor
  get_getter o name = o.getters >>= λ g. get_accessor g name

  unfoldable pub get_setter : HashObject M R F → Bytes → Option F
  unfolding get_accessor
  get_setter o name = o.setters >>= λ s. get_accessor s name

  unfoldable pub define_getter : Bytes → F → HashObject M R F → HashObject M R F
  define_getter name func o = record o { getters = some ((name, func) ∷ or_empty o.getters) }

  unfoldable pub define_setter : Bytes → F → HashObject M R F → HashObject M R F
  define_setter name func o = record o { setters = some ((name, func) ∷ or_empty o.setters) }

  -- A string or boxed object goes to `local_objects`, and its index there becomes the value.
  abbrev boxed_local : Object R → HashObject M R F → ℕ × HashObject M R F
  unfolding from_heap
  boxed_local obj o = (
    from_heap (length o.local_objects % 2 ^ 32),
    record o { local_objects = o.local_objects ++ obj ∷ [] },
  )

  unfoldable pub local_value : Object R → HashObject M R F → ℕ × HashObject M R F
  unfolding from_i64 from_bool from_f64 from_heap
  local_value (Object.integer v) o = (from_i64 v, o)
  local_value (Object.float v) o = (from_f64 v, o)
  local_value (Object.boolean v) o = (from_bool v, o)
  local_value Object.null o = (null_value, o)
  local_value Object.undefined o = (undefined_value, o)
  local_value (Object.string s) o = boxed_local (Object.string s) o
  local_value (Object.other r) o = boxed_local (Object.other r) o

module _ {ℓ} (im : IndexMap) {R F : Type ℓ} where
  open im use {Map}

  unfoldable pub insert_pair_obj :
      HashKey → Object R → HashObject Map R F → Option (HashObject Map R F)
  unfolding local_value insert_pair
  insert_pair_obj key obj o =
      let r = local_value obj o in (do (is_new, o') ← insert_pair im key r.0 r.1; some o')
