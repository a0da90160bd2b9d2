-- ===== src/Tests/Hashing.antt =====
-- The theorems on hash objects at concrete objects, over an `IndexMap` that is a list.
use mathlib.Core.Option
use formlogic_rust.Common.Int.{pos}
use formlogic_rust.Hash.Key.{HashKey, sym_key, int_key, float_key, key_eq, hash}
use formlogic_rust.Hash.Equal.{key_eq-hash}
use formlogic_rust.Hash.IndexMap.{IndexMap, remove_at}
use formlogic_rust.Hash.IndexMap.{index_of_key}
use formlogic_rust.Hash.Assoc.{find_value, zip}
use formlogic_rust.Hash.Object.{
  HashObject, insert_pair, remove_pair, get_by_sym, set_by_sym, set_value_at_slot_unchecked,
  sync_pairs_if_dirty, sym_of,
}
use formlogic_rust.Hash.Synced.{IsSynced, view, get_by_sym_lem}
use formlogic_rust.Hash.Insert.{IsInserted, insert_pair_lem}
use formlogic_rust.Hash.Remove.{IsRemoved, remove_pair_lem}
use formlogic_rust.Hash.Writes.{set_value_at_slot_lem, set_by_sym_lem}
use formlogic_rust.Common.{
  ==_iff, Bool, Bool-cases, List, Option, [], ap, arith, false, get_elem?, if◌then◌else◌, inl, inr,
  length, length-map, map, none, refl, set, some, some-none, some_inj, suc, sym, true, zero, ℕ,
  ◌++◌, ◌<◌, ◌==◌, ◌↔◌, ◌∙◌, ◌∷◌, ◌≡◌, ◌⊎◌,
}

abbrev Entries : Type 0
Entries = List (HashKey × ℕ)

abbrev keys_of : Entries → List HashKey
keys_of = map (λ e. e.0)

abbrev vals_of : Entries → List ℕ
vals_of = map (λ e. e.1)

abbrev set_value : ℕ → ℕ → Entries → Option Entries
set_value i v [] = none
set_value zero v ((k, w) ∷ es) = some ((k, v) ∷ es)
set_value (suc i) v (e ∷ es) = Option.map (◌∷◌ e) (set_value i v es)

abbrev remove_entry : Option ℕ → Entries → Option ℕ × Entries
remove_entry none es = (none, es)
remove_entry (some i) es = (get_elem? (vals_of es) i, remove_at i es)

abbrev overwrite_from : (ℕ → ℕ → ℕ) → Entries → Entries
overwrite_from f [] = []
overwrite_from f ((k, v) ∷ es) = (k, f 0 v) ∷ overwrite_from (λ i. f (suc i)) es

set_value_lem :
    (i v : ℕ) (es : Entries)
    → i < length (keys_of es)
    → (es' : Entries) × (set_value i v es ≡ some es')
      × (keys_of es' ≡ keys_of es)
      × (vals_of es' ≡ set (vals_of es) i v)
set_value_lem i v [] h = elim h [ ]
set_value_lem zero v ((k, w) ∷ es) h = ((k, v) ∷ es, refl, refl, refl)
set_value_lem (suc i) v ((k, w) ∷ es) h =
    let (es', e, ks, vs) = set_value_lem i v es (omega arith) in
    ((k, w) ∷ es', rw e refl, ap (◌∷◌ k) ks, ap (◌∷◌ w) vs)

remove_at-map :
    {A : Type 0} (f : HashKey × ℕ → A) (i : ℕ) (es : Entries)
    → map f (remove_at i es) ≡ remove_at i (map f es)
remove_at-map f i [] = refl
remove_at-map f zero (e ∷ es) = refl
remove_at-map f (suc i) (e ∷ es) = ap (◌∷◌ (f e)) (remove_at-map f i es)

map-snoc :
    {A : Type 0} (f : HashKey × ℕ → A) (es : Entries) (e : HashKey × ℕ)
    → map f (es ++ e ∷ []) ≡ map f es ++ f e ∷ []
map-snoc f [] e = refl
map-snoc f (x ∷ es) e = ap (◌∷◌ (f x)) (map-snoc f es e)

keys-overwrite_from : (f : ℕ → ℕ → ℕ) (es : Entries) → keys_of (overwrite_from f es) ≡ keys_of es
keys-overwrite_from f [] = refl
keys-overwrite_from f ((k, v) ∷ es) = ap (◌∷◌ k) (keys-overwrite_from (λ i. f (suc i)) es)

vals-overwrite_from :
    (f : ℕ → ℕ → ℕ) (es : Entries) (j : ℕ)
    → get_elem? (vals_of (overwrite_from f es)) j ≡ Option.map (f j) (get_elem? (vals_of es) j)
vals-overwrite_from f [] j = refl
vals-overwrite_from f ((k, v) ∷ es) zero = refl
vals-overwrite_from f ((k, v) ∷ es) (suc j) = vals-overwrite_from (λ i. f (suc i)) es j

list_map : IndexMap
unfolding index_of_key
list_map = record {
  Map = Entries;
  keys = keys_of;
  vals = vals_of;
  empty_map = [];
  get_index_of = λ k es. index_of_key k (keys_of es);
  insert = λ k v es. es ++ (k, v) ∷ [];
  set_index = set_value;
  shift_remove = λ k es. remove_entry (index_of_key k (keys_of es)) es;
  overwrite = overwrite_from;
  length-vals = λ es. length-map es (λ e. e.1) ∙ sym (length-map es (λ e. e.0));
  keys-empty = refl;
  get_index_of_lem = λ k es. refl;
  insert_new = λ k v es p. (map-snoc (λ e. e.0) es (k, v), map-snoc (λ e. e.1) es (k, v));
  set_index_lem = set_value_lem;
  shift_remove_lem =
      λ k i es p. rw p (refl, remove_at-map (λ e. e.0) i es, remove_at-map (λ e. e.1) i es);
  keys-overwrite = keys-overwrite_from;
  vals-overwrite = vals-overwrite_from;
}

abbrev Obj : Type 0
Obj = HashObject list_map.Map Unit Unit

-- `{ [symbol 3]: 7 }`
point : Obj
unfolding list_map
point = record {
  id = 1;
  shape_version = 2;
  pairs = (sym_key 3, 7) ∷ [];
  values = 7 ∷ [];
  str_slots = λ k. if 3 == k then some 0 else none;
  pairs_dirty = false;
  local_objects = [];
  getters = none;
  setters = none;
  frozen = false;
}

one_slot :
    (id i : ℕ)
    → ((if 3 == id then some 0 else none) ≡ some i)
      ↔ (get_elem? (sym_key 3 ∷ []) i ≡ some (sym_key id))
one_slot id zero = elim (Bool-cases (3 == id)) [
  | inl e ↦ rw e (λ h. ap (λ k. some (sym_key k)) ((==_iff 3 id).0 e), λ h. refl)
  | inr e ↦ rw e (
    λ h. absurd (some-none h),
    λ h. let same : 3 ≡ id = some_inj (ap sym_of (some_inj h)) in absurd (ground arith),
  )
]
one_slot id (suc i) = elim (Bool-cases (3 == id)) [
  | inl e ↦ rw e (λ h. absurd (omega (arith, some_inj h)), λ h. absurd (some-none h))
  | inr e ↦ rw e (λ h. absurd (some-none h), λ h. absurd (some-none h))
]

point-IsSynced : IsSynced list_map point
unfolding list_map point
point-IsSynced = record {
  lengths = refl;
  slots = one_slot;
  clean = λ d. refl;
  version_pos = omega arith;
  version_fits = omega arith;
}

key_eq-hash_example : hash (int_key (pos 1)) ≡ hash (float_key 0x3FF0_0000_0000_0000)
unfolding key_eq
key_eq-hash_example = key_eq-hash (int_key (pos 1)) (float_key 0x3FF0_0000_0000_0000) refl

insert_pair_lem_example :
    (is_new : Bool) × (o : Obj) × (insert_pair list_map (int_key (pos 5)) 9 point
      ≡ some (is_new, o))
    × IsInserted list_map (int_key (pos 5)) 9 point is_new o
insert_pair_lem_example = insert_pair_lem list_map (int_key (pos 5)) 9 point point-IsSynced

remove_pair_lem_example :
    (removed : Option ℕ) × (o : Obj) × (remove_pair list_map (sym_key 3) point ≡ some (removed, o))
    × IsRemoved list_map (sym_key 3) point removed o
remove_pair_lem_example = remove_pair_lem list_map (sym_key 3) point point-IsSynced

get_by_sym_lem_example : get_by_sym list_map point 3 ≡ find_value (sym_key 3) (view list_map point)
get_by_sym_lem_example = get_by_sym_lem list_map point 3 point-IsSynced

set_value_at_slot_lem_example :
    (o' : Obj) × (set_value_at_slot_unchecked list_map 0 8 point ≡ some o')
    × IsSynced list_map o'
    × (view list_map o' ≡ zip (list_map.keys point.pairs) (set point.values 0 8))
    × (o'.shape_version ≡ point.shape_version)
    × (list_map.vals (sync_pairs_if_dirty list_map o').pairs ≡ set point.values 0 8)
unfolding point
set_value_at_slot_lem_example =
    set_value_at_slot_lem list_map 0 8 point point-IsSynced (omega arith)

set_by_sym_lem_example :
    (o' : Obj) × (set_by_sym list_map 3 8 point ≡ some o')
    × IsSynced list_map o'
    × (((point.frozen ≡ true) × (o' ≡ point))
        ⊎ ((point.frozen ≡ false)
            × (is_new : Bool) × IsInserted list_map (sym_key 3) 8 point is_new o'))
    × ((other : ℕ)
        → get_by_sym list_map o' other ≡ (
            if point.frozen
            then get_by_sym list_map point other
            else if 3 == other
            then some 8
            else get_by_sym list_map point other))
set_by_sym_lem_example = set_by_sym_lem list_map 3 8 point point-IsSynced
