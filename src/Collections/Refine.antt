-- ===== src/Collections/Refine.antt =====
-- The map and set functions of vm.rs against association lists, when the indices number the keys.
use formlogic_rust.Collections.Split.{
  IsIndexed, IsFirst, split_map, by_split, entry_keys-append, replace_value-append,
  find_value-first, find_value-fresh,
}
use formlogic_rust.Hash.Key.{HashKey}
use formlogic_rust.Hash.Assoc.{Assoc, find_value, upsert}
use formlogic_rust.Collections.Store.{MapObject, entry_keys, map_get, map_insert_or_replace}
use formlogic_rust.Collections.Index.{
  number, number-append, IsFresh, IsDistinct-append, upsert-append, entry_keys-number,
}
use formlogic_rust.Common.{
  [], ap, append-nil, arith, get_elem?-append_head, length, length-map, refl, sym, ℕ, ◌++◌, ◌+◌,
  ◌∙◌, ◌∷◌, ◌≡◌,
}

-- In a map whose indices number its distinct keys, a read is the lookup in its entries.
pub map_get_lem : (k : HashKey) (m : MapObject) → IsIndexed m → map_get m k ≡ find_value k m.entries
unfolding map_get
map_get_lem k m ok =
    by_split k m ok (λ m. map_get m k ≡ find_value k m.entries)
      (λ fresh n. rw n (sym (find_value-fresh k m.entries fresh)))
      (λ pre x w post indices f.
        rw (f.placed, get_elem?-append_head pre (x, w) post) (sym (find_value-first f)))

module _ (k : HashKey) (v : ℕ) (pre : Assoc) (x : HashKey) (w : ℕ) (post indices : Assoc)
    (f : IsFirst k pre x w post indices) where
  same_keys : entry_keys (pre ++ (x, v) ∷ post) ≡ entry_keys (pre ++ (x, w) ∷ post)
  same_keys = entry_keys-append pre ((x, v) ∷ post) ∙ sym (entry_keys-append pre ((x, w) ∷ post))

  replaced-IsIndexed : IsIndexed (split_map pre x v post indices)
  replaced-IsIndexed = record {
    numbered = f.indexed.numbered ∙ ap (number 0) (sym same_keys);
    distinct = rw same_keys f.indexed.distinct;
  }

  upsert-first : upsert k v (pre ++ (x, w) ∷ post) ≡ pre ++ (x, v) ∷ post
  unfolding upsert
  upsert-first = upsert-append k v pre ((x, w) ∷ post) f.fresh ∙ rw f.equal refl

upsert_fresh :
    (k : HashKey) (v : ℕ) (es : Assoc)
    → IsFresh k (entry_keys es)
    → upsert k v es ≡ es ++ (k, v) ∷ []
unfolding upsert
upsert_fresh k v es h = ap (upsert k v) (sym (append-nil es)) ∙ upsert-append k v es [] h

module _ (k : HashKey) (v : ℕ) (m : MapObject) (ok : IsIndexed m)
    (fresh : IsFresh k (entry_keys m.entries)) where
  new_keys : entry_keys (m.entries ++ (k, v) ∷ []) ≡ entry_keys m.entries ++ k ∷ []
  new_keys = entry_keys-append m.entries ((k, v) ∷ [])

  new_indices :
      upsert k (length m.entries) m.indices ≡ number 0 (entry_keys (m.entries ++ (k, v) ∷ []))
  unfolding number
  new_indices =
      let last : 0 + length (entry_keys m.entries) ≡ length m.entries =
        omega (arith, length-map m.entries (λ e. e.0)) in
      ap (upsert k (length m.entries)) ok.numbered
      ∙ upsert_fresh k (length m.entries) (number 0 (entry_keys m.entries))
          (rw (entry_keys-number 0 (entry_keys m.entries)) fresh)
      ∙ rw (new_keys, number-append 0 (entry_keys m.entries) (k ∷ []), last) refl

  grown-IsIndexed : IsIndexed (record {
    entries = m.entries ++ (k, v) ∷ [];
    indices = upsert k (length m.entries) m.indices;
  })
  grown-IsIndexed = record {
    numbered = new_indices;
    distinct =
        rw new_keys (IsDistinct-append [] (entry_keys m.entries) (k ∷ []) ok.distinct (fresh, tt));
  }

insert-IsIndexed :
    (k : HashKey) (v : ℕ) (m : MapObject)
    → IsIndexed m
    → IsIndexed (map_insert_or_replace k v m)
      × ((map_insert_or_replace k v m).entries ≡ upsert k v m.entries)
unfolding map_insert_or_replace
insert-IsIndexed k v m ok =
    by_split k m ok
      (λ m.
        IsIndexed (map_insert_or_replace k v m)
        × ((map_insert_or_replace k v m).entries ≡ upsert k v m.entries))
      (λ fresh n. rw n (grown-IsIndexed k v m ok fresh, sym (upsert_fresh k v m.entries fresh)))
      (λ pre x w post indices f.
        rw (f.placed, replace_value-append pre post x w v)
          (
            replaced-IsIndexed k v pre x w post indices f,
            sym (upsert-first k v pre x w post indices f),
          ))

-- A write to a map whose indices number its distinct keys keeps that so; it updates the entry or adds
-- one at the end, and every later read is the lookup in those entries.
pub map_insert_lem :
    (k : HashKey) (v : ℕ) (m : MapObject)
    → IsIndexed m
    → IsIndexed (map_insert_or_replace k v m)
      × ((map_insert_or_replace k v m).entries ≡ upsert k v m.entries)
      × ((j : HashKey)
          → map_get (map_insert_or_replace k v m) j ≡ find_value j (upsert k v m.entries))
map_insert_lem k v m ok =
    let (indexed, updated) = insert-IsIndexed k v m ok in
    (
      indexed,
      updated,
      λ j. map_get_lem j (map_insert_or_replace k v m) indexed ∙ ap (find_value j) updated,
    )
