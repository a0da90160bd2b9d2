-- ===== src/Collections/Store.antt =====
-- `MapObject` and `SetObject` of object.rs and the functions of vm.rs on them. The hash map of
-- indices is an association list; `none` stands for a panic.
use formlogic_rust.Common.Int.{ℤ, pos, negsuc}
use Prim.Native.Nat.{min}
use formlogic_rust.Hash.Key.{HashKey}
use formlogic_rust.Hash.IndexMap.{remove_at}
use formlogic_rust.Hash.Assoc.{Assoc, find_value, upsert, delete}
use formlogic_rust.Common.{
  Bool, List, Option, [], drop, false, get_elem?, if◌then◌else◌, length, ltb, map, none, some, suc,
  true, zero, ℕ, ◌++◌, ◌-◌, ◌>>=◌, ◌∷◌,
}

pub record MapObject : Type 0 where
  pub entries : Assoc
  pub indices : Assoc

pub record SetObject : Type 0 where
  pub members : List HashKey
  pub member_indices : Assoc

unfoldable pub empty_map_object : MapObject
empty_map_object = record { entries = []; indices = [] }

unfoldable pub empty_set_object : SetObject
empty_set_object = record { members = []; member_indices = [] }

abbrev pub is_found : Option ℕ → Bool
is_found none = false
is_found (some i) = true

-- `if let Some((_, existing)) = entries.get_mut(idx) { *existing = value; }`
abbrev pub replace_value : Assoc → ℕ → ℕ → Assoc
replace_value [] idx value = []
replace_value ((k, w) ∷ es) zero value = (k, value) ∷ es
replace_value (e ∷ es) (suc idx) value = e ∷ replace_value es idx value

abbrev pub insert_entry : Option ℕ → HashKey → ℕ → MapObject → MapObject
insert_entry (some idx) key value m = record m { entries = replace_value m.entries idx value }
insert_entry none key value m = record {
  entries = m.entries ++ (key, value) ∷ [];
  indices = upsert key (length m.entries) m.indices;
}

unfoldable pub map_insert_or_replace : HashKey → ℕ → MapObject → MapObject
unfolding find_value upsert
map_insert_or_replace key value m = insert_entry (find_value key m.indices) key value m

unfoldable pub map_get : MapObject → HashKey → Option ℕ
unfolding find_value
map_get m key = do idx ← find_value key m.indices; entry ← get_elem? m.entries idx; some entry.1

unfoldable pub map_contains : MapObject → HashKey → Bool
unfolding find_value
map_contains m key = is_found (find_value key m.indices)

-- `for i in idx..entries.len()`, over the keys that are left.
unfoldable pub reindex : List HashKey → ℕ → Assoc → Assoc
unfolding upsert
reindex [] i indices = indices
reindex (k ∷ ks) i indices = reindex ks (suc i) (upsert k i indices)

abbrev pub entry_keys : Assoc → List HashKey
entry_keys = map (λ e. e.0)

abbrev pub remove_entry_at : Option ℕ → HashKey → MapObject → Option (Option ℕ × MapObject)
remove_entry_at none key m = some (none, m)
remove_entry_at (some idx) key m = do
  entry ← get_elem? m.entries idx
  let entries = remove_at idx m.entries
  some (
    some entry.1,
    record {
      entries = entries;
      indices = reindex (drop idx (entry_keys entries)) idx (delete key m.indices);
    },
  )

unfoldable pub map_remove : HashKey → MapObject → Option (Option ℕ × MapObject)
unfolding find_value delete reindex
map_remove key m = remove_entry_at (find_value key m.indices) key m

unfoldable pub set_contains : SetObject → HashKey → Bool
unfolding find_value
set_contains s key = is_found (find_value key s.member_indices)

unfoldable pub set_insert_unique : HashKey → SetObject → SetObject
unfolding find_value upsert
set_insert_unique key s = if is_found (find_value key s.member_indices) then s else record {
  members = s.members ++ key ∷ [];
  member_indices = upsert key (length s.members) s.member_indices;
}

abbrev pub remove_member_at : Option ℕ → HashKey → SetObject → Option (Bool × SetObject)
remove_member_at none key s = some (false, s)
remove_member_at (some idx) key s = do
  member ← get_elem? s.members idx
  let members = remove_at idx s.members
  some (
    true,
    record {
      members = members;
      member_indices = reindex (drop idx members) idx (delete key s.member_indices);
    },
  )

unfoldable pub set_remove : HashKey → SetObject → Option (Bool × SetObject)
unfolding find_value delete reindex
set_remove key s = remove_member_at (find_value key s.member_indices) key s

-- `slice_bounds`. `len` is not negative, so no sum leaves the range of `i32`.
abbrev pub norm : ℕ → ℤ → ℕ
norm len (pos idx) = min idx len
norm len (negsuc idx) = len - suc idx

unfoldable pub slice_bounds : ℤ → ℤ → ℕ → ℕ × ℕ
slice_bounds start end len =
    let s = norm len start in let e = norm len end in if ltb e s then (s, s) else (s, e)
