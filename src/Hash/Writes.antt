-- ===== src/Hash/Writes.antt =====
-- The writes of object.rs that go through a known slot, a symbol or a string.
use formlogic_rust.Hash.Equal.{key_eq_refl}
use formlogic_rust.Hash.Key.{HashKey, sym_key}
use formlogic_rust.Hash.IndexMap.{IndexMap}
use formlogic_rust.Hash.Assoc.{zip, find_value, upsert}
use formlogic_rust.Hash.Object.{HashObject, get_by_sym, set_by_sym, set_value_at_slot_unchecked}
use formlogic_rust.Hash.Synced.{key_eq-from_sym, IsSynced, view, get_by_sym_lem}
use formlogic_rust.Hash.Insert.{IsInserted, insert_pair_lem}
use formlogic_rust.Hash.Remove.{sync_pairs_lem}
use formlogic_rust.Hash.Object.{sync_pairs_if_dirty}
use formlogic_rust.Hash.Key.{key_eq}
use formlogic_rust.Common.{
  ==_iff, Bool, Bool-cases, List, [], ap, arith, false, if-false, if-true, if◌then◌else◌, inl, inr,
  length, length-set, lt→ltb, refl, set, some, sym, true, ℕ, ◌<◌, ◌==◌, ◌∙◌, ◌∷◌, ◌≡◌, ◌≢◌, ◌⊎◌,
}

find_value-upsert :
    (k : HashKey) (v : ℕ) (l : List (HashKey × ℕ))
    → key_eq k k ≡ true
    → find_value k (upsert k v l) ≡ some v
unfolding find_value upsert
find_value-upsert k v [] r = rw r refl
find_value-upsert k v ((x, w) ∷ l) r = elim (Bool-cases (key_eq k x)) [
  | inl same ↦ rw (same, same) refl
  | inr other ↦ rw (other, other) (find_value-upsert k v l r)
]

other_sym :
    (a b : ℕ) (x : HashKey) → a ≢ b → key_eq (sym_key a) x ≡ true → key_eq (sym_key b) x ≡ false
unfolding key_eq
other_sym a b x ne same =
    let key : x ≡ sym_key a = key_eq-from_sym x a same in
    let no : (b == a) ≡ false = ground arith in rw (key, no) refl

find_value-upsert_sym :
    (a b v : ℕ) (l : List (HashKey × ℕ))
    → a ≢ b
    → find_value (sym_key b) (upsert (sym_key a) v l) ≡ find_value (sym_key b) l
unfolding find_value upsert
find_value-upsert_sym a b v [] ne = let no : (b == a) ≡ false = ground arith in rw no refl
find_value-upsert_sym a b v ((x, w) ∷ l) ne = elim (Bool-cases (key_eq (sym_key a) x)) [
  | inl same ↦ rw (same, other_sym a b x ne same) refl
  | inr other ↦ elim (Bool-cases (key_eq (sym_key b) x)) [
    | inl here ↦ rw (other, here) refl
    | inr further ↦ rw (other, further) (find_value-upsert_sym a b v l ne)
  ]
]

module _ {ℓ} (im : IndexMap) {R F : Type ℓ} where
  open im use {Map, keys, vals}

  -- A write to a slot of a synced object keeps it synced and its layout and version as they were;
  -- that slot alone changes, and a later synchronisation carries the value into `pairs`.
  pub set_value_at_slot_lem :
      (slot v : ℕ) (o : HashObject Map R F)
      → IsSynced im o
      → slot < length o.values
      → (o' : HashObject Map R F) × (set_value_at_slot_unchecked im slot v o ≡ some o')
        × IsSynced im o'
        × (view im o' ≡ zip (keys o.pairs) (set o.values slot v))
        × (o'.shape_version ≡ o.shape_version)
        × (vals (sync_pairs_if_dirty im o').pairs ≡ set o.values slot v)
  unfolding set_value_at_slot_unchecked
  set_value_at_slot_lem slot v o ok inside =
      let o' : HashObject Map R F = record o { values = set o.values slot v; pairs_dirty = true } in
      let ok' : IsSynced im o' = record {
        lengths = length-set o.values slot v ∙ ok.lengths;
        slots = ok.slots;
        clean = λ d. absurd (clash d);
        version_pos = ok.version_pos;
        version_fits = ok.version_fits;
      } in
      (
        o',
        rw (lt→ltb slot (length o.values) inside) refl,
        ok',
        refl,
        refl,
        let s = sync_pairs_lem im o' ok' in s.flushed ∙ s.same_values,
      )
    where
      clash : true ≡ false → ⊥
      clash h = cc

  read_after :
      (id other v : ℕ) (o o' : HashObject Map R F)
      → IsSynced im o
      → IsSynced im o'
      → view im o' ≡ upsert (sym_key id) v (view im o)
      → get_by_sym im o' other ≡ (if id == other then some v else get_by_sym im o other)
  read_after id other v o o' ok ok' updated = elim (Bool-cases (id == other)) [
    | inl e ↦
        let same : id ≡ other = (==_iff id other).0 e in
        get_by_sym_lem im o' other ok'
        ∙ ap (find_value (sym_key other)) updated
        ∙ rw (e, same)
            (find_value-upsert (sym_key other) v (view im o) (key_eq_refl (sym_key other)))
    | inr e ↦
        get_by_sym_lem im o' other ok'
        ∙ ap (find_value (sym_key other)) updated
        ∙ find_value-upsert_sym id other v (view im o) (λ k. ground arith)
        ∙ sym (get_by_sym_lem im o other ok)
        ∙ rw e refl
  ]

  -- `set_by_sym` on a synced object does not panic and keeps it synced. A frozen object comes back as
  -- it was, every field of it. Otherwise the object is what an insertion of the symbol's key makes of
  -- it: its contents are updated or extended at the end, the version changes just when the key is new,
  -- and the flags, the accessors and the other fields stay. The symbol then reads as the value, and
  -- every other symbol as before.
  pub set_by_sym_lem :
      (id v : ℕ) (o : HashObject Map R F)
      → IsSynced im o
      → (o' : HashObject Map R F) × (set_by_sym im id v o ≡ some o')
        × IsSynced im o'
        × (((o.frozen ≡ true) × (o' ≡ o))
            ⊎ ((o.frozen ≡ false) × (is_new : Bool) × IsInserted im (sym_key id) v o is_new o'))
        × ((other : ℕ)
            → get_by_sym im o' other ≡ (
                if o.frozen
                then get_by_sym im o other
                else if id == other
                then some v
                else get_by_sym im o other))
  unfolding set_by_sym
  set_by_sym_lem id v o ok = elim (Bool-cases o.frozen) [
    | inl frozen ↦ (
      o,
      if-true o.frozen (some o) _ frozen,
      ok,
      inl (frozen, refl),
      λ other. sym (if-true o.frozen _ _ frozen),
    )
    | inr thawed ↦
        let (is_new, o', e, r) = insert_pair_lem im (sym_key id) v o ok in
        (
          o',
          if-false o.frozen (some o) _ thawed ∙ rw e refl,
          r.synced,
          inr (thawed, is_new, r),
          λ other.
              read_after id other v o o' ok r.synced r.contents
              ∙ sym (if-false o.frozen _ _ thawed),
        )
  ]
