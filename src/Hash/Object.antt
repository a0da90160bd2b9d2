-- ===== src/Hash/Object.antt =====
-- `HashObject` of object.rs, over an `IndexMap` that a section takes. `none` stands for a panic, or
-- for an unchecked write out of range. `R` is the variants of `Object` that are not stored inline,
-- `F` the functions of the accessors.
use formlogic_rust.Interner.Table.{intern, intern_rc, Interner}
use mathlib.Core.Option
use formlogic_rust.Hash.Key.{HashKey, sym_key}
use formlogic_rust.Hash.IndexMap.{IndexMap, remove_at}
use formlogic_rust.Heap.Store.{Object}
use formlogic_rust.Common.{
  Bool, Bytes, List, Option, [], false, get_elem?, get_or, if◌then◌else◌, length, ltb, none, set,
  some, sym, true, ℕ, ◌%◌, ◌++◌, ◌+◌, ◌-◌, ◌==◌, ◌>>=◌, ◌^◌, ◌∷◌,
}

-- `id` comes from a global counter.
pub record HashObject {ℓ} (M : Type 0) (R F : Type ℓ) : Type ℓ where
  pub id : ℕ
  pub shape_version : ℕ
  pub pairs : M
  pub values : List ℕ
  pub str_slots : ℕ → Option ℕ
  pub pairs_dirty : Bool
  pub local_objects : List (Object R)
  pub getters : Option (List (Bytes × F))
  pub setters : Option (List (Bytes × F))
  pub frozen : Bool

-- `FxHashMap`, as a function.
abbrev pub put_slot : (ℕ → Option ℕ) → ℕ → ℕ → ℕ → Option ℕ
put_slot slots id slot k = if id == k then some slot else slots k

abbrev pub drop_slot : (ℕ → Option ℕ) → Option ℕ → ℕ → Option ℕ
drop_slot slots none k = slots k
drop_slot slots (some id) k = if id == k then none else slots k

-- `if *idx > slot { *idx -= 1 }`
abbrev pub move_down : ℕ → ℕ → ℕ
move_down slot idx = if ltb slot idx then idx - 1 else idx

abbrev pub sym_of : HashKey → Option ℕ
sym_of (sym_key id) = some id
sym_of _ = none

abbrev pub snoc_slot : (ℕ → Option ℕ) → Option ℕ → ℕ → ℕ → Option ℕ
snoc_slot slots none slot = slots
snoc_slot slots (some id) slot = put_slot slots id slot

-- The slot of a symbol key, from `str_slots`, else the index of the key in `pairs`.
abbrev pub found_slot : Option ℕ → Option ℕ → Option ℕ
found_slot (some slot) index = some slot
found_slot none index = index

abbrev pub is_some_slot : Option ℕ → Bool
is_some_slot none = false
is_some_slot (some slot) = true

unfoldable pub bump : ℕ → ℕ
bump version = let next = (version + 1) % 2 ^ 32 in if next == 0 then 1 else next

module _ (im : IndexMap) where
  open im use {Map, keys, vals, empty_map, get_index_of, insert, set_index, shift_remove, overwrite}

  module _ {ℓ} {R F : Type ℓ} where
    -- `HashObject::default()` and `with_capacity`, which differ in the room they reserve.
    unfoldable pub default : ℕ → HashObject Map R F
    default next_id = record {
      id = next_id;
      shape_version = 1;
      pairs = empty_map;
      values = [];
      str_slots = λ k. none;
      pairs_dirty = false;
      local_objects = [];
      getters = none;
      setters = none;
      frozen = false;
    }

    unfoldable pub bump_shape_version : HashObject Map R F → HashObject Map R F
    unfolding bump
    bump_shape_version o = record o { shape_version = bump o.shape_version }

    -- `self.values[slot] = value; self.pairs[slot] = value;`
    unfoldable pub write_slot : ℕ → ℕ → HashObject Map R F → Option (HashObject Map R F)
    write_slot slot value o =
        if ltb slot (length o.values)
        then (do
          pairs ← set_index slot value o.pairs
          some (record o { values = set o.values slot value; pairs = pairs }))
        else none

    -- The key is new.
    unfoldable pub append_pair : HashKey → ℕ → HashObject Map R F → HashObject Map R F
    unfolding bump_shape_version
    append_pair key value o = bump_shape_version (record o {
      pairs = insert key value o.pairs;
      values = o.values ++ value ∷ [];
      str_slots = snoc_slot o.str_slots (sym_of key) (length o.values);
    })

    abbrev insert_at :
        Option ℕ → HashKey → ℕ → HashObject Map R F → Option (Bool × HashObject Map R F)
    unfolding write_slot append_pair
    insert_at (some slot) key value o = do o' ← write_slot slot value o; some (false, o')
    insert_at none key value o = some (true, append_pair key value o)

    unfoldable pub insert_pair :
        HashKey → ℕ → HashObject Map R F → Option (Bool × HashObject Map R F)
    unfolding write_slot append_pair
    insert_pair key value o =
        insert_at (found_slot (sym_of key >>= o.str_slots) (get_index_of key o.pairs)) key value o

    -- Values past the end of `values` stay as they are.
    unfoldable pub sync_pairs : HashObject Map R F → HashObject Map R F
    sync_pairs o =
        if o.pairs_dirty
        then record o {
          pairs = overwrite (λ i v. get_or o.values i v) o.pairs;
          pairs_dirty = false;
        }
        else o

    unfoldable pub sync_pairs_if_dirty : HashObject Map R F → HashObject Map R F
    unfolding sync_pairs
    sync_pairs_if_dirty o = if o.pairs_dirty then sync_pairs o else o

    abbrev bump_if : Option ℕ → HashObject Map R F → HashObject Map R F
    unfolding bump_shape_version
    bump_if none o = o
    bump_if (some removed) o = bump_shape_version o

    -- After the pair and its value went: the slots, and the version if a value came back.
    unfoldable pub close_gap : ℕ → Option ℕ → Option ℕ → HashObject Map R F → HashObject Map R F
    unfolding bump_shape_version
    close_gap slot removed_sym removed o = bump_if removed (record o {
      str_slots = λ k. Option.map (move_down slot) (drop_slot o.str_slots removed_sym k);
    })

    abbrev pub remove_at_slot :
        ℕ → HashKey → HashObject Map R F → Option (Option ℕ × HashObject Map R F)
    unfolding close_gap
    remove_at_slot slot key o =
        let removed_sym = get_elem? (keys o.pairs) slot >>= sym_of in
        let gone = shift_remove key o.pairs in
        if ltb slot (length o.values)
        then some (
          gone.0,
          close_gap slot removed_sym gone.0
              (record o { pairs = gone.1; values = remove_at slot o.values }),
        )
        else none

    abbrev remove_found :
        Option ℕ → HashKey → HashObject Map R F → Option (Option ℕ × HashObject Map R F)
    unfolding sync_pairs_if_dirty close_gap
    remove_found none key o = some (none, o)
    remove_found (some slot) key o = remove_at_slot slot key (sync_pairs_if_dirty o)

    unfoldable pub remove_pair :
        HashKey → HashObject Map R F → Option (Option ℕ × HashObject Map R F)
    unfolding sync_pairs_if_dirty close_gap
    remove_pair key o = remove_found (get_index_of key o.pairs) key o

    unfoldable pub get_value_at_slot : HashObject Map R F → ℕ → Option ℕ
    get_value_at_slot o slot = get_elem? o.values slot

    unfoldable pub ordered_keys : HashObject Map R F → List HashKey
    ordered_keys o = keys o.pairs

    unfoldable pub get_by_sym : HashObject Map R F → ℕ → Option ℕ
    get_by_sym o sym = o.str_slots sym >>= get_elem? o.values

    unfoldable pub set_by_sym : ℕ → ℕ → HashObject Map R F → Option (HashObject Map R F)
    unfolding insert_pair
    set_by_sym sym value o =
        if o.frozen then some o else (do (is_new, o') ← insert_pair (sym_key sym) value o; some o')

    -- The three string lookups intern the key, which may add it to the table.
    unfoldable pub get_by_str : HashObject Map R F → Bytes → Interner → Option ℕ × Interner
    unfolding get_by_sym intern
    get_by_str o s t = let r = intern s t in (get_by_sym o r.0, r.1)

    unfoldable pub contains_str : HashObject Map R F → Bytes → Interner → Bool × Interner
    unfolding intern
    contains_str o s t = let r = intern s t in (is_some_slot (o.str_slots r.0), r.1)

    unfoldable pub set_by_str :
        Bytes → ℕ → HashObject Map R F → Interner → Option (HashObject Map R F × Interner)
    unfolding insert_pair intern_rc
    set_by_str s value o t =
        let r = intern_rc s t in
        (do (is_new, o') ← insert_pair (sym_key r.0) value o; some (o', r.1))

    unfoldable pub set_value_at_slot_unchecked :
        ℕ → ℕ → HashObject Map R F → Option (HashObject Map R F)
    set_value_at_slot_unchecked slot value o =
        if ltb slot (length o.values)
        then some (record o { values = set o.values slot value; pairs_dirty = true })
        else none
