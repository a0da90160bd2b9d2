-- ===== src/Tests/Gathering.antt =====
-- A map with two entries, and one of them removed.
use formlogic_rust.Common.Int.{pos}
use formlogic_rust.Hash.Key.{HashKey, int_key, sym_key}
use formlogic_rust.Hash.IndexMap.{index_of_key}
use formlogic_rust.Hash.Assoc.{find_value, upsert, delete}
use formlogic_rust.Collections.Store.{MapObject, map_insert_or_replace, map_get, map_remove}
use formlogic_rust.Collections.Index.{number}
use formlogic_rust.Collections.Refine.{map_insert_lem}
use formlogic_rust.Collections.Split.{IsIndexed}
use formlogic_rust.Collections.Removal.{map_remove_lem}
use formlogic_rust.Common.{[], refl, some, ◌∷◌, ◌≡◌}

abbrev two_entries : MapObject
two_entries = record {
  entries = (sym_key 3, 7) ∷ (int_key (pos 1), 8) ∷ [];
  indices = (sym_key 3, 0) ∷ (int_key (pos 1), 1) ∷ [];
}

two_entries-IsIndexed : IsIndexed two_entries
unfolding number index_of_key
two_entries-IsIndexed = record { numbered = refl; distinct = (refl, (refl, tt)) }

map_insert_lem_example :
    IsIndexed (map_insert_or_replace (sym_key 3) 9 two_entries)
    × ((map_insert_or_replace (sym_key 3) 9 two_entries).entries
        ≡ upsert (sym_key 3) 9 two_entries.entries)
    × ((j : HashKey)
        → map_get (map_insert_or_replace (sym_key 3) 9 two_entries) j
          ≡ find_value j (upsert (sym_key 3) 9 two_entries.entries))
map_insert_lem_example = map_insert_lem (sym_key 3) 9 two_entries two_entries-IsIndexed

map_remove_lem_example :
    (m' : MapObject) × (map_remove (sym_key 3) two_entries
      ≡ some (find_value (sym_key 3) two_entries.entries, m'))
    × IsIndexed m'
    × (m'.entries ≡ delete (sym_key 3) two_entries.entries)
    × ((j : HashKey) → map_get m' j ≡ find_value j (delete (sym_key 3) two_entries.entries))
map_remove_lem_example = map_remove_lem (sym_key 3) two_entries two_entries-IsIndexed
