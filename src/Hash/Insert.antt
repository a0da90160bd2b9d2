-- ===== src/Hash/Insert.antt =====
-- `insert_pair` of object.rs: the branches for a known and a new key.
use formlogic_rust.Hash.Key.{
  HashKey, sym_key, int_key, float_key, bool_key, null_key, undefined_key, other_key,
}
use formlogic_rust.Hash.IndexMap.{IndexMap}
use formlogic_rust.Hash.IndexMap.{index_of_key}
use formlogic_rust.Hash.Assoc.{find_value, find_value-zip, upsert, upsert-zip_old, upsert-zip_new}
use formlogic_rust.Hash.Object.{
  HashObject, bump, sym_of, write_slot, append_pair, insert_pair, put_slot, snoc_slot,
  bump_shape_version,
}
use formlogic_rust.Hash.Synced.{
  IsSynced, view, found_slot_lem, bump_lem, get_elem?-index_of_key, index_of_key-sym_key,
}
use formlogic_rust.Common.{
  ==_iff, ==_ne, ==_refl, Bool, Bool-cases, Option-cases, [], ap, arith, false, get_elem?,
  get_elem?-append_head, get_elem?-append_left, get_elem?-lt, if◌then◌else◌, inl, inr, is_none,
  length, length-set, length-snoc, lt→ltb, none, not, refl, set, snoc-cases, some, some-none,
  some_below, some_inj, suc, sym, true, ℕ, ◌++◌, ◌<◌, ◌==◌, ◌↔◌, ◌∙◌, ◌∷◌, ◌≡◌,
}

pub sym_of-some : (k : HashKey) (a : ℕ) → sym_of k ≡ some a → k ≡ sym_key a
sym_of-some (sym_key id) a h = ap sym_key (some_inj h)
sym_of-some (int_key v) a h = cc
sym_of-some (float_key v) a h = cc
sym_of-some (bool_key v) a h = cc
sym_of-some null_key a h = cc
sym_of-some undefined_key a h = cc
sym_of-some (other_key s) a h = cc

module _ {ℓ} (im : IndexMap) {R F : Type ℓ} where
  open im use {Map, keys, vals, insert, set_index_lem, insert_new, length-vals}

  -- The other fields of the object are as they were.
  abbrev pub SameRest : HashObject Map R F → HashObject Map R F → Type ℓ
  SameRest o o' =
      (record o' {
        shape_version = o.shape_version;
        pairs = o.pairs;
        values = o.values;
        str_slots = o.str_slots;
      })
      ≡ o

  -- What an insertion that returns `is_new` makes of `o`.
  pub record IsInserted (k : HashKey) (v : ℕ) (o : HashObject Map R F) (is_new : Bool)
      (o' : HashObject Map R F) : Type ℓ where
    pub synced : IsSynced im o'
    pub contents : view im o' ≡ upsert k v (view im o)
    pub novelty : is_new ≡ is_none (find_value k (view im o))
    pub version : (o'.shape_version == o.shape_version) ≡ not is_new
    pub layout : keys o'.pairs ≡ (if is_new then keys o.pairs ++ k ∷ [] else keys o.pairs)
    pub rest : SameRest o o'

  module _ (k : HashKey) (v : ℕ) (o : HashObject Map R F) (ok : IsSynced im o) where
    insert_old :
        (i : ℕ)
        → index_of_key k (keys o.pairs) ≡ some i
        → (o' : HashObject Map R F) × (write_slot im i v o ≡ some o') × IsInserted k v o false o'
    unfolding write_slot
    insert_old i p =
        let (x, at, same) = get_elem?-index_of_key k (keys o.pairs) i p in
        let inside : i < length (keys o.pairs) = get_elem?-lt (keys o.pairs) i at in
        let (pairs, e, same_keys, same_vals) = set_index_lem i v o.pairs inside in
        let (w, there) = some_below o.values i (omega (arith, ok.lengths)) in
        (
          record o { values = set o.values i v; pairs = pairs },
          rw (lt→ltb i (length o.values) (omega (arith, ok.lengths)), e) refl,
          record {
            synced = record {
              lengths = length-set o.values i v ∙ ok.lengths ∙ ap length (sym same_keys);
              slots = λ id j. rw same_keys (ok.slots id j);
              clean = λ d. same_vals ∙ ap (λ vs. set vs i v) (ok.clean d);
              version_pos = ok.version_pos;
              version_fits = ok.version_fits;
            };
            contents =
                rw same_keys (sym (upsert-zip_old k v (keys o.pairs) o.values i ok.lengths p));
            novelty = rw (found w there) refl;
            version = ==_refl o.shape_version;
            layout = same_keys;
            rest = refl;
          },
        )
      where
        found : (w : ℕ) → get_elem? o.values i ≡ some w → find_value k (view im o) ≡ some w
        found w there = find_value-zip k (keys o.pairs) o.values ok.lengths ∙ rw p there

    slot_put :
        (a id j : ℕ)
        → k ≡ sym_key a
        → index_of_key k (keys o.pairs) ≡ none
        → (put_slot o.str_slots a (length o.values) id ≡ some j)
          ↔ (get_elem? (keys o.pairs ++ k ∷ []) j ≡ some (sym_key id))
    slot_put a id j key absent = (forward, backward)
      where
        no_slot : o.str_slots a ≡ none
        no_slot =
            sym (index_of_key-sym_key o.str_slots (keys o.pairs) ok.slots a) ∙ rw (sym key) absent

        forward :
            put_slot o.str_slots a (length o.values) id ≡ some j
            → get_elem? (keys o.pairs ++ k ∷ []) j ≡ some (sym_key id)
        forward h = elim (Bool-cases (a == id)) [
          | inl e ↦
              let last : length o.values ≡ j = some_inj (rw e at h) in
              let same : a ≡ id = (==_iff a id).0 e in
              rw (sym last, ok.lengths)
                (get_elem?-append_head (keys o.pairs) k [] ∙ ap some (key ∙ ap sym_key same))
          | inr e ↦
              let old : get_elem? (keys o.pairs) j ≡ some (sym_key id) =
                (ok.slots id j).0 (rw e at h) in
              get_elem?-append_left (keys o.pairs) (k ∷ []) j (get_elem?-lt (keys o.pairs) j old)
              ∙ old
        ]

        backward :
            get_elem? (keys o.pairs ++ k ∷ []) j ≡ some (sym_key id)
            → put_slot o.str_slots a (length o.values) id ≡ some j
        backward h = elim (snoc-cases (keys o.pairs) k (sym_key id) j h) [
          | inl old ↦
              let slot = (ok.slots id j).1 old in
              elim (Bool-cases (a == id)) [
                | inl e ↦
                    let same : a ≡ id = (==_iff a id).0 e in
                    absurd (some-none {b = j} (sym no_slot ∙ rw same slot))
                | inr e ↦ rw e slot
              ]
          | inr (last, same) ↦
              let id_same : a ≡ id = some_inj (ap sym_of (sym key ∙ same)) in
              rw (id_same, ==_refl id) (ap some (ok.lengths ∙ sym last))
        ]

    slot_keep :
        (id j : ℕ)
        → sym_of k ≡ none
        → (o.str_slots id ≡ some j) ↔ (get_elem? (keys o.pairs ++ k ∷ []) j ≡ some (sym_key id))
    slot_keep id j plain = (
      λ h.
          let old = (ok.slots id j).0 h in
          get_elem?-append_left (keys o.pairs) (k ∷ []) j (get_elem?-lt (keys o.pairs) j old) ∙ old,
      λ h. elim (snoc-cases (keys o.pairs) k (sym_key id) j h) [
        | inl old ↦ (ok.slots id j).1 old
        | inr (last, same) ↦ absurd (some-none (sym plain ∙ ap sym_of same))
      ],
    )

    slot_cases :
        (id j : ℕ)
        → index_of_key k (keys o.pairs) ≡ none
        → (snoc_slot o.str_slots (sym_of k) (length o.values) id ≡ some j)
          ↔ (get_elem? (keys o.pairs ++ k ∷ []) j ≡ some (sym_key id))
    slot_cases id j absent = elim (Option-cases (sym_of k)) [
      | inl plain ↦ rw plain (slot_keep id j plain)
      | inr (a, s) ↦ rw s (slot_put a id j (sym_of-some k a s) absent)
    ]

    insert_fresh :
        index_of_key k (keys o.pairs) ≡ none → IsInserted k v o true (append_pair im k v o)
    unfolding append_pair bump_shape_version
    insert_fresh p =
        let (new_keys, new_vals) = insert_new k v o.pairs p in
        let (differs, pos, fits) = bump_lem o.shape_version ok.version_fits in
        record {
          synced = record {
            lengths =
                rw new_keys
                  (length-snoc o.values v ∙ ap suc ok.lengths ∙ sym (length-snoc (keys o.pairs) k));
            slots = λ id j. rw new_keys (slot_cases id j p);
            clean = λ d. new_vals ∙ ap (λ vs. vs ++ v ∷ []) (ok.clean d);
            version_pos = pos;
            version_fits = fits;
          };
          contents = rw new_keys (sym (upsert-zip_new k v (keys o.pairs) o.values ok.lengths p));
          novelty = rw absent refl;
          version = ==_ne (bump o.shape_version) o.shape_version differs;
          layout = new_keys;
          rest = refl;
        }
      where
        absent : find_value k (view im o) ≡ none
        absent = find_value-zip k (keys o.pairs) o.values ok.lengths ∙ rw p refl

    -- An insertion into a synced object does not panic. It keeps the object synced and its contents
    -- are updated or extended at the end; the result says whether the key was new, and the shape
    -- version changes just then. No field but the version, the pairs, the values and the slots changes.
    pub insert_pair_lem :
        (is_new : Bool) × (o' : HashObject Map R F) × (insert_pair im k v o ≡ some (is_new, o'))
        × IsInserted k v o is_new o'
    unfolding insert_pair
    insert_pair_lem = elim (Option-cases (index_of_key k (keys o.pairs))) [
      | inl p ↦ (true, append_pair im k v o, rw (found_slot_lem im k o ok, p) refl, insert_fresh p)
      | inr (i, p) ↦
          let (o', e, r) = insert_old i p in
          (false, o', rw (found_slot_lem im k o ok, p, e) refl, r)
    ]
