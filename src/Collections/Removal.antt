-- ===== src/Collections/Removal.antt =====
-- Removals from the maps and sets of vm.rs, when the indices number the keys.

use formlogic_rust.Hash.Key.{HashKey, key_eq}
use formlogic_rust.Hash.Assoc.{Assoc, find_value, delete}
use formlogic_rust.Collections.Store.{MapObject, entry_keys, map_get, map_remove, reindex}
use formlogic_rust.Collections.Index.{
  number, number-append, IsFresh, IsDistinct, IsDistinct-drop, IsDistinct-split, IsDistinct-append,
  delete-append, entry_keys-number, reindex-number,
}
use formlogic_rust.Collections.Refine.{map_get_lem}
use formlogic_rust.Collections.Split.{
  IsIndexed, IsFirst, split_map, by_split, remove_at-append, drop-append, entry_keys-append,
  find_value-first, find_value-fresh,
}
use formlogic_rust.Common.{
  List, [], ap, append-nil, arith, drop, get_elem?-append_head, length, length-map, refl, some, suc,
  sym, true, ℕ, ◌++◌, ◌+◌, ◌∙◌, ◌∷◌, ◌≡◌,
}

-- The key `x` goes from between `kp` and `kq`.
module _ (k x : HashKey) (kp kq : List HashKey) (fresh : IsFresh k kp)
    (equal : key_eq k x ≡ true) where
  delete-number : delete k (number 0 (kp ++ x ∷ kq)) ≡ number 0 kp ++ number (suc (length kp)) kq
  unfolding number delete
  delete-number =
      let start : 0 + length kp ≡ length kp = omega arith in
      ap (delete k) (number-append 0 kp (x ∷ kq))
      ∙ delete-append k (number 0 kp) (number (0 + length kp) (x ∷ kq))
          (rw (entry_keys-number 0 kp) fresh)
      ∙ rw (start, equal) refl

  left-IsDistinct : IsDistinct [] (kp ++ x ∷ kq) → IsDistinct [] kp × IsDistinct kp kq
  left-IsDistinct d =
      let (first, (alone, rest)) = IsDistinct-split [] kp (x ∷ kq) d in
      (first, rw (append-nil kp) at (IsDistinct-drop x kp [] kq rest))

  reindex-delete :
      IsDistinct [] (kp ++ x ∷ kq)
      → reindex (drop (length kp) (kp ++ kq)) (length kp) (delete k (number 0 (kp ++ x ∷ kq)))
        ≡ number 0 (kp ++ kq)
  reindex-delete d =
      rw (delete-number, drop-append kp kq)
        (reindex-number kp kq (length kp) refl (left-IsDistinct d).1)

delete_fresh : (k : HashKey) (es : Assoc) → IsFresh k (entry_keys es) → delete k es ≡ es
unfolding delete
delete_fresh k es h = ap (delete k) (sym (append-nil es)) ∙ delete-append k es [] h ∙ append-nil es

abbrev Removes : HashKey → MapObject → Type 0
Removes k m =
    (m' : MapObject) × (map_remove k m ≡ some (find_value k m.entries, m'))
    × IsIndexed m'
    × (m'.entries ≡ delete k m.entries)

module _ (k : HashKey) (pre : Assoc) (x : HashKey) (w : ℕ) (post indices : Assoc)
    (f : IsFirst k pre x w post indices) where
  keys_here : entry_keys (pre ++ (x, w) ∷ post) ≡ entry_keys pre ++ x ∷ entry_keys post
  keys_here = entry_keys-append pre ((x, w) ∷ post)

  place_here : length pre ≡ length (entry_keys pre)
  place_here = sym (length-map pre (λ e. e.0))

  IsDistinct-here : IsDistinct [] (entry_keys pre ++ x ∷ entry_keys post)
  IsDistinct-here = rw keys_here at f.indexed.distinct

  left_indices :
      reindex (drop (length pre) (entry_keys (pre ++ post))) (length pre) (delete k indices)
      ≡ number 0 (entry_keys (pre ++ post))
  left_indices =
      rw (f.indexed.numbered, keys_here, entry_keys-append pre post, place_here)
        (reindex-delete k x (entry_keys pre) (entry_keys post) f.fresh f.equal IsDistinct-here)

  left_map : MapObject
  unfolding reindex delete
  left_map = record {
    entries = pre ++ post;
    indices =
        reindex (drop (length pre) (entry_keys (pre ++ post))) (length pre) (delete k indices);
  }

  left-IsIndexed : IsIndexed left_map
  unfolding left_map
  left-IsIndexed =
      let (first, rest) =
        left-IsDistinct k x (entry_keys pre) (entry_keys post) f.fresh f.equal IsDistinct-here in
      record {
        numbered = left_indices;
        distinct =
            rw (entry_keys-append pre post)
              (IsDistinct-append [] (entry_keys pre) (entry_keys post) first rest);
      }

  remove-first : Removes k (split_map pre x w post indices)
  unfolding map_remove left_map delete
  remove-first = (
    left_map,
    rw
        (
          f.placed,
          get_elem?-append_head pre (x, w) post,
          remove_at-append pre (x, w) post,
          find_value-first f,
        )
        refl,
    left-IsIndexed,
    sym (delete-append k pre ((x, w) ∷ post) f.fresh ∙ rw f.equal refl),
  )

removes : (k : HashKey) (m : MapObject) → IsIndexed m → Removes k m
unfolding map_remove
removes k m ok =
    by_split k m ok (Removes k)
      (λ fresh n. (
        m,
        rw (n, find_value-fresh k m.entries fresh) refl,
        ok,
        sym (delete_fresh k m.entries fresh),
      ))
      (remove-first k)

-- A removal from a map whose indices number its distinct keys does not panic and keeps that so. It
-- returns what the key stood for and deletes that entry, and every later read is the lookup in the
-- entries that are left.
pub map_remove_lem :
    (k : HashKey) (m : MapObject)
    → IsIndexed m
    → (m' : MapObject) × (map_remove k m ≡ some (find_value k m.entries, m'))
      × IsIndexed m'
      × (m'.entries ≡ delete k m.entries)
      × ((j : HashKey) → map_get m' j ≡ find_value j (delete k m.entries))
map_remove_lem k m ok =
    let (m', e, indexed, left) = removes k m ok in
    (m', e, indexed, left, λ j. map_get_lem j m' indexed ∙ ap (find_value j) left)
