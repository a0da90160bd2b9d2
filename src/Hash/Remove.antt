-- ===== src/Hash/Remove.antt =====
-- `remove_pair`, `sync_pairs` and the unchecked slot write of object.rs.
use mathlib.Core.Path.{subst}
use mathlib.Core.Option
use formlogic_rust.Hash.Key.{HashKey}
use formlogic_rust.Hash.IndexMap.{IndexMap, remove_at}
use formlogic_rust.Hash.IndexMap.{index_of_key}
use formlogic_rust.Hash.Assoc.{find_value, find_value-zip, delete, delete-zip, delete-zip-none}
use formlogic_rust.Hash.Object.{
  HashObject, sync_pairs, sync_pairs_if_dirty, bump, move_down, drop_slot, sym_of, close_gap,
  remove_at_slot, bump_shape_version, remove_pair,
}
use formlogic_rust.Hash.Synced.{IsSynced, view, bump_lem, get_elem?-index_of_key}
use formlogic_rust.Hash.Gap.{gap_iff, length-remove_at}
use formlogic_rust.Common.{
  ==_ne, ==_refl, Bool-cases, List, Option, Option-cases, [], ap, arith, get_elem?, get_elem?-lt,
  get_elem?-none, get_elem?-none_le, get_or, if-false, if-true, inl, inr, is_none, length, lt→ltb,
  none, refl, some, some-none, some_below, some_inj, suc, sym, zero, ℕ, ◌<◌, ◌==◌, ◌∙◌, ◌∷◌, ◌≡◌,
  ◌≤◌,
}

list_ext : (xs ys : List ℕ) → ((i : ℕ) → get_elem? xs i ≡ get_elem? ys i) → xs ≡ ys
list_ext [] [] h = refl
list_ext [] (y ∷ ys) h = absurd (some-none (h 0))
list_ext (x ∷ xs) [] h = absurd (some-none (sym (h 0)))
list_ext (x ∷ xs) (y ∷ ys) h =
    let first : x ≡ y = some_inj (h 0) in rw (first, list_ext xs ys (λ i. h (suc i))) refl

get_or_self :
    (xs : List ℕ) (i d : ℕ) {v : ℕ}
    → get_elem? xs i ≡ some v
    → some (get_or xs i d) ≡ get_elem? xs i
get_or_self [] i d h = cc
get_or_self (x ∷ xs) zero d h = refl
get_or_self (x ∷ xs) (suc i) d h = get_or_self xs i d h

module _ {ℓ} (im : IndexMap) {R F : Type ℓ} where
  open im use {
    Map, keys, vals, get_index_of_lem, shift_remove_lem, length-vals, keys-overwrite,
    vals-overwrite, overwrite,
  }

  overwrite_lem :
      (o : HashObject Map R F)
      → IsSynced im o
      → vals (overwrite (λ i v. get_or o.values i v) o.pairs) ≡ o.values
  overwrite_lem o ok = list_ext _ o.values (λ i. elim (Option-cases (get_elem? (vals o.pairs) i)) [
    | inl e ↦
        let past : length o.values ≤ i =
          omega (arith, get_elem?-none_le (vals o.pairs) i e, length-vals o.pairs, ok.lengths) in
        vals-overwrite (λ i v. get_or o.values i v) o.pairs i
        ∙ rw e (sym (get_elem?-none o.values i past))
    | inr (v, e) ↦
        let (w, at) =
          some_below o.values i
            (omega (arith, get_elem?-lt (vals o.pairs) i e, length-vals o.pairs, ok.lengths)) in
        vals-overwrite (λ i v. get_or o.values i v) o.pairs i ∙ rw e (get_or_self o.values i v at)
  ])

  -- What a synchronisation makes of `o`: `pairs` holds the values, and nothing else changes.
  pub record IsFlushed (o o' : HashObject Map R F) : Type 0 where
    pub synced : IsSynced im o'
    pub flushed : vals o'.pairs ≡ o'.values
    pub same_view : view im o' ≡ view im o
    pub same_keys : keys o'.pairs ≡ keys o.pairs
    pub same_values : o'.values ≡ o.values
    pub same_version : o'.shape_version ≡ o.shape_version

  -- Synchronising a synced object leaves the values of `pairs` equal to `values` and what the object
  -- stands for as it was.
  pub sync_pairs_lem :
      (o : HashObject Map R F) → IsSynced im o → IsFlushed o (sync_pairs_if_dirty im o)
  unfolding sync_pairs_if_dirty sync_pairs
  sync_pairs_lem o ok = elim (Bool-cases o.pairs_dirty) [
    | inl dirty ↦
        subst (IsFlushed o)
          (sym (if-true o.pairs_dirty _ o dirty ∙ if-true o.pairs_dirty _ o dirty))
          (record {
            synced = record {
              lengths = rw (keys-overwrite (λ i v. get_or o.values i v) o.pairs) ok.lengths;
              slots =
                  λ id i. rw (keys-overwrite (λ i v. get_or o.values i v) o.pairs) (ok.slots id i);
              clean = λ d. overwrite_lem o ok;
              version_pos = ok.version_pos;
              version_fits = ok.version_fits;
            };
            flushed = overwrite_lem o ok;
            same_view = rw (keys-overwrite (λ i v. get_or o.values i v) o.pairs) refl;
            same_keys = keys-overwrite (λ i v. get_or o.values i v) o.pairs;
            same_values = refl;
            same_version = refl;
          })
    | inr clean ↦ subst (IsFlushed o) (sym (if-false o.pairs_dirty _ o clean)) (record {
      synced = ok;
      flushed = ok.clean clean;
      same_view = refl;
      same_keys = refl;
      same_values = refl;
      same_version = refl;
    })
  ]

  -- What a removal that returns `removed` makes of `o`.
  pub record IsRemoved (k : HashKey) (o : HashObject Map R F) (removed : Option ℕ)
      (o' : HashObject Map R F) : Type 0 where
    pub synced : IsSynced im o'
    pub value : removed ≡ find_value k (view im o)
    pub contents : view im o' ≡ delete k (view im o)
    -- The version changes just when something was removed.
    pub version : (o'.shape_version == o.shape_version) ≡ is_none removed

  module _ (k : HashKey) (o : HashObject Map R F) (ok : IsSynced im o) where
    -- `o` without the pair at `i`, whose key is `x`.
    shrunk : ℕ → HashKey → HashObject Map R F
    unfolding bump
    shrunk i x = record o {
      shape_version = bump o.shape_version;
      pairs = (im.shift_remove k o.pairs).1;
      values = remove_at i o.values;
      str_slots = λ c. Option.map (move_down i) (drop_slot o.str_slots (sym_of x) c);
    }

    remove_old :
        (i : ℕ)
        → index_of_key k (keys o.pairs) ≡ some i
        → vals o.pairs ≡ o.values
        → (removed : Option ℕ) × (o' : HashObject Map R F) × (remove_at_slot im i k o
            ≡ some (removed, o'))
          × IsRemoved k o removed o'
    unfolding close_gap bump_shape_version shrunk
    remove_old i p flushed =
        let (x, at, same) = get_elem?-index_of_key k (keys o.pairs) i p in
        let inside : i < length o.values =
          omega (arith, ok.lengths, get_elem?-lt (keys o.pairs) i at) in
        let (w, there) = some_below o.values i inside in
        let (value, new_keys, new_vals) = shift_remove_lem k i o.pairs p in
        let back : (im.shift_remove k o.pairs).0 ≡ some w = value ∙ rw flushed there in
        let (differs, pos, fits) = bump_lem o.shape_version ok.version_fits in
        (
          some w,
          shrunk i x,
          rw (lt→ltb i (length o.values) inside, back, at) refl,
          record {
            synced = record {
              lengths = rw new_keys (
                  omega (
                    arith,
                    ok.lengths,
                    length-remove_at o.values i inside,
                    length-remove_at (keys o.pairs) i (get_elem?-lt (keys o.pairs) i at),
                  ));
              slots = λ id j. rw new_keys (gap_iff o.str_slots (keys o.pairs) ok.slots i x at id j);
              clean = λ d. new_vals ∙ ap (remove_at i) flushed;
              version_pos = pos;
              version_fits = fits;
            };
            value = sym (find_value-zip k (keys o.pairs) o.values ok.lengths ∙ rw p there);
            contents = rw new_keys (sym (delete-zip k (keys o.pairs) o.values i ok.lengths p));
            version = ==_ne (bump o.shape_version) o.shape_version differs;
          },
        )

  -- A removal from a synced object does not panic. It keeps the object synced, returns what the key
  -- stood for and drops that pair, and the shape version changes just when something was removed.
  pub remove_pair_lem :
      (k : HashKey) (o : HashObject Map R F)
      → IsSynced im o
      → (removed : Option ℕ) × (o' : HashObject Map R F) × (remove_pair im k o ≡ some (removed, o'))
        × IsRemoved k o removed o'
  unfolding remove_pair
  remove_pair_lem k o ok = elim (Option-cases (index_of_key k (keys o.pairs))) [
    | inl p ↦ (
      none,
      o,
      rw (get_index_of_lem k o.pairs, p) refl,
      record {
        synced = ok;
        value = sym (find_value-zip k (keys o.pairs) o.values ok.lengths ∙ rw p refl);
        contents = sym (delete-zip-none k (keys o.pairs) o.values ok.lengths p);
        version = ==_refl o.shape_version;
      },
    )
    | inr (i, p) ↦
        let s = sync_pairs_lem o ok in
        let (removed, o', e, r) =
          remove_old k (sync_pairs_if_dirty im o) s.synced i (ap (index_of_key k) s.same_keys ∙ p)
            s.flushed in
        (
          removed,
          o',
          rw (get_index_of_lem k o.pairs, p) e,
          record {
            synced = r.synced;
            value = r.value ∙ ap (find_value k) s.same_view;
            contents = r.contents ∙ ap (delete k) s.same_view;
            version = rw (sym s.same_version) r.version;
          },
        )
  ]
