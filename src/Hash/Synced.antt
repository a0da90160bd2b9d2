-- ===== src/Hash/Synced.antt =====
-- The invariant of `HashObject` in object.rs, and how a key's slot is found.
use formlogic_rust.Hash.IndexMap.{index_of_key}
use formlogic_rust.Hash.Assoc.{index_of_key-cases, index_of_key-none}
use formlogic_rust.Hash.Key.{
  HashKey, key_eq, sym_key, int_key, float_key, bool_key, null_key, undefined_key, other_key,
}
use formlogic_rust.Hash.Equal.{key_eq_refl}
use formlogic_rust.Hash.IndexMap.{IndexMap}
use formlogic_rust.Hash.Assoc.{Assoc, zip, find_value, find_value-zip}
use formlogic_rust.Hash.Object.{HashObject, sym_of, found_slot, bump, default, get_by_sym}
use formlogic_rust.Common.{
  ==_iff, Bool, List, Option, Option-cases, [], ap, arith, false, get_elem?, inl, inr, length, none,
  refl, some, suc, sym, true, zero, ℕ, ◌<◌, ◌>>=◌, ◌^◌, ◌↔◌, ◌∙◌, ◌∷◌, ◌≡◌, ◌≢◌,
}

module _ {ℓ} (im : IndexMap) {R F : Type ℓ} where
  open im use {Map, keys, vals, get_index_of}

  -- `values` runs beside the keys, `str_slots` gives the slots of the symbol keys and no others, and
  -- `pairs` holds the same values while it is not dirty.
  pub record IsSynced (o : HashObject Map R F) : Type 0 where
    pub lengths : length o.values ≡ length (keys o.pairs)
    pub slots :
        (id i : ℕ) → (o.str_slots id ≡ some i) ↔ (get_elem? (keys o.pairs) i ≡ some (sym_key id))
    pub clean : o.pairs_dirty ≡ false → vals o.pairs ≡ o.values
    pub version_pos : 0 < o.shape_version
    pub version_fits : o.shape_version < 2 ^ 32

  -- What a hash object stands for: the values of `values`, by key, in insertion order.
  abbrev pub view : HashObject Map R F → Assoc
  view o = zip (keys o.pairs) o.values

pub key_eq-from_sym : (k : HashKey) (id : ℕ) → key_eq (sym_key id) k ≡ true → k ≡ sym_key id
unfolding key_eq
key_eq-from_sym (sym_key a) id h = ap sym_key (sym ((==_iff id a).0 h))
key_eq-from_sym (int_key a) id h = cc
key_eq-from_sym (float_key a) id h = cc
key_eq-from_sym (bool_key a) id h = cc
key_eq-from_sym null_key id h = cc
key_eq-from_sym undefined_key id h = cc
key_eq-from_sym (other_key a) id h = cc

pub bump_lem : (v : ℕ) → v < 2 ^ 32 → (bump v ≢ v) × (0 < bump v) × (bump v < 2 ^ 32)
unfolding bump
bump_lem v fits = (λ e. ground arith, ground arith, ground arith)

-- The key at the position that is found is equal.
pub get_elem?-index_of_key :
    (k : HashKey) (ks : List HashKey) (i : ℕ)
    → index_of_key k ks ≡ some i
    → (x : HashKey) × (get_elem? ks i ≡ some x) × (key_eq k x ≡ true)
unfolding index_of_key
get_elem?-index_of_key k [] i p = cc
get_elem?-index_of_key k (x ∷ ks) i p = elim (index_of_key-cases k x ks i p) [
  | inl (same, first) ↦ (x, rw first refl, same)
  | inr (other, j, n, next) ↦ rw next (get_elem?-index_of_key k ks j n)
]

-- A key that is equal to one of the list is found.
pub index_of_key-none_ne :
    (k x : HashKey) (ks : List HashKey) (i : ℕ)
    → index_of_key k ks ≡ none
    → get_elem? ks i ≡ some x
    → key_eq k x ≡ false
index_of_key-none_ne k x [] i p e = cc
index_of_key-none_ne k x (y ∷ ks) zero p e =
    let same : y ≡ x = cc in rw (sym same) (index_of_key-none k y ks p).0
index_of_key-none_ne k x (y ∷ ks) (suc i) p e =
    index_of_key-none_ne k x ks i (index_of_key-none k y ks p).1 e

module _ (slots : ℕ → Option ℕ) (ks : List HashKey)
    (iff : (id i : ℕ) → (slots id ≡ some i) ↔ (get_elem? ks i ≡ some (sym_key id))) where
  pub index_of_key-sym_key : (id : ℕ) → index_of_key (sym_key id) ks ≡ slots id
  index_of_key-sym_key id = elim (Option-cases (index_of_key (sym_key id) ks)) [
    | inl n ↦ elim (Option-cases (slots id)) [
      | inl m ↦ n ∙ sym m
      | inr (i, m) ↦ absurd (
          clash (key_eq_refl (sym_key id))
            (index_of_key-none_ne (sym_key id) (sym_key id) ks i n ((iff id i).0 m)))
    ]
    | inr (i, n) ↦
        let (x, at, same) = get_elem?-index_of_key (sym_key id) ks i n in
        n ∙ sym ((iff id i).1 (at ∙ ap some (key_eq-from_sym x id same)))
  ]
    where
      clash : {b : Bool} → b ≡ true → b ≡ false → ⊥
      clash h k = cc

module _ {ℓ} (im : IndexMap) {R F : Type ℓ} where
  open im use {Map, keys, vals, get_index_of, get_index_of_lem, keys-empty, length-vals}

  pub found_slot_lem :
      (k : HashKey) (o : HashObject Map R F)
      → IsSynced im o
      → found_slot (sym_of k >>= o.str_slots) (get_index_of k o.pairs)
        ≡ index_of_key k (keys o.pairs)
  found_slot_lem (sym_key id) o ok = elim (Option-cases (o.str_slots id)) [
    | inl n ↦ rw n (get_index_of_lem (sym_key id) o.pairs)
    | inr (i, n) ↦ rw n (sym n ∙ sym (index_of_key-sym_key o.str_slots (keys o.pairs) ok.slots id))
  ]
  found_slot_lem (int_key a) o ok = get_index_of_lem (int_key a) o.pairs
  found_slot_lem (float_key a) o ok = get_index_of_lem (float_key a) o.pairs
  found_slot_lem (bool_key a) o ok = get_index_of_lem (bool_key a) o.pairs
  found_slot_lem null_key o ok = get_index_of_lem null_key o.pairs
  found_slot_lem undefined_key o ok = get_index_of_lem undefined_key o.pairs
  found_slot_lem (other_key a) o ok = get_index_of_lem (other_key a) o.pairs

  -- A read by symbol is the find_value of the symbol key.
  pub get_by_sym_lem :
      (o : HashObject Map R F) (id : ℕ)
      → IsSynced im o
      → get_by_sym im o id ≡ find_value (sym_key id) (view im o)
  unfolding get_by_sym
  get_by_sym_lem o id ok =
      rw
        (
          find_value-zip (sym_key id) (keys o.pairs) o.values ok.lengths,
          index_of_key-sym_key o.str_slots (keys o.pairs) ok.slots id,
        )
        refl

  pub default-IsSynced : (next_id : ℕ) → IsSynced im {R = R} {F = F} (default im next_id)
  unfolding default
  default-IsSynced next_id = record {
    lengths = rw keys-empty refl;
    slots = λ id i. rw keys-empty (λ h. absurd (no_slot h), λ h. absurd (no_key h));
    clean = λ d. nil_of (vals im.empty_map) (length-vals im.empty_map ∙ rw keys-empty refl);
    version_pos = omega arith;
    version_fits = omega arith;
  }
    where
      no_slot : {i : ℕ} → none ≡ some i → ⊥
      no_slot h = cc

      no_key : {k : HashKey} → none ≡ some k → ⊥
      no_key h = cc

      nil_of : (xs : List ℕ) → length xs ≡ 0 → xs ≡ []
      nil_of [] h = refl
      nil_of (x ∷ xs) h = absurd (omega arith)
