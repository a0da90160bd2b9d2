-- ===== src/Hash/IndexMap.antt =====
-- What object.rs relies on in the third-party `indexmap::IndexMap`, for the keys and values of
-- hash objects: an insertion-ordered sequence of entries, found by key.
use mathlib.Core.Option
use formlogic_rust.Hash.Key.{key_eq, HashKey}
use formlogic_rust.Common.{
  List, Option, [], get_elem?, if◌then◌else◌, length, none, set, some, suc, zero, ℕ, ◌++◌, ◌<◌, ◌∷◌,
  ◌≡◌,
}

-- The index of the first key equal to `k`.
unfoldable pub index_of_key : HashKey → List HashKey → Option ℕ
unfolding key_eq
index_of_key k [] = none
index_of_key k (x ∷ ks) =
    let rest = index_of_key k ks in if key_eq k x then some 0 else Option.map suc rest

abbrev pub remove_at {ℓ} : {A : Type ℓ} → ℕ → List A → List A
remove_at i [] = []
remove_at zero (x ∷ xs) = xs
remove_at (suc i) (x ∷ xs) = x ∷ remove_at i xs

-- The operations, with their documented behaviour on the keys and the values in order. `set_index`
-- stands for `map[i] = v`, which panics out of range, and `overwrite` for a loop over
-- `iter_mut().enumerate()`.
pub record IndexMap : Type 1 where
  pub Map : Type 0
  pub keys : Map → List HashKey
  pub vals : Map → List ℕ
  pub empty_map : Map
  pub get_index_of : HashKey → Map → Option ℕ
  pub insert : HashKey → ℕ → Map → Map
  pub set_index : ℕ → ℕ → Map → Option Map
  pub shift_remove : HashKey → Map → Option ℕ × Map
  pub overwrite : (ℕ → ℕ → ℕ) → Map → Map
  pub length-vals : (m : Map) → length (vals m) ≡ length (keys m)
  pub keys-empty : keys empty_map ≡ []
  pub get_index_of_lem : (k : HashKey) (m : Map) → get_index_of k m ≡ index_of_key k (keys m)
  pub insert_new :
      (k : HashKey) (v : ℕ) (m : Map)
      → index_of_key k (keys m) ≡ none
      → (keys (insert k v m) ≡ keys m ++ k ∷ []) × (vals (insert k v m) ≡ vals m ++ v ∷ [])
  pub set_index_lem :
      (i v : ℕ) (m : Map)
      → i < length (keys m)
      → (m' : Map) × (set_index i v m ≡ some m') × (keys m' ≡ keys m) × (vals m' ≡ set (vals m) i v)
  pub shift_remove_lem :
      (k : HashKey) (i : ℕ) (m : Map)
      → index_of_key k (keys m) ≡ some i
      → ((shift_remove k m).0 ≡ get_elem? (vals m) i)
        × (keys (shift_remove k m).1 ≡ remove_at i (keys m))
        × (vals (shift_remove k m).1 ≡ remove_at i (vals m))
  pub keys-overwrite : (f : ℕ → ℕ → ℕ) (m : Map) → keys (overwrite f m) ≡ keys m
  pub vals-overwrite :
      (f : ℕ → ℕ → ℕ) (m : Map) (i : ℕ)
      → get_elem? (vals (overwrite f m)) i ≡ Option.map (f i) (get_elem? (vals m) i)
