-- ===== src/Collections/Split.antt =====
-- Maps of vm.rs cut at the first entry that has a key.
use mathlib.Core.Path.{subst}
use mathlib.Core.Option
use formlogic_rust.Hash.Key.{HashKey, key_eq}
use formlogic_rust.Hash.IndexMap.{index_of_key, remove_at}
use formlogic_rust.Hash.Assoc.{Assoc, find_value, index_of_key-cases}
use formlogic_rust.Collections.Store.{MapObject, entry_keys, replace_value}
use formlogic_rust.Collections.Index.{
  number, IsFresh, IsDistinct, find_value-number, find_value-append,
}
use formlogic_rust.Common.{
  List, Option, Option-cases, [], ap, append-nil, arith, drop, inl, inr, length, none, refl, some,
  some-none, suc, sym, true, ℕ, ◌++◌, ◌+◌, ◌∙◌, ◌∷◌, ◌≡◌,
}

-- The indices number the keys, and the keys are distinct.
pub record IsIndexed (m : MapObject) : Type 0 where
  pub numbered : m.indices ≡ number 0 (entry_keys m.entries)
  pub distinct : IsDistinct [] (entry_keys m.entries)

-- The first entry with an equal key, and what stands around it.
record IsSplit (k : HashKey) (es : Assoc) (i : ℕ) : Type 0 where
  before : Assoc
  key : HashKey
  old : ℕ
  after : Assoc
  whole : es ≡ before ++ (key, old) ∷ after
  place : i ≡ length before
  fresh : IsFresh k (entry_keys before)
  equal : key_eq k key ≡ true

split :
    (k : HashKey) (es : Assoc) (i : ℕ) → index_of_key k (entry_keys es) ≡ some i → IsSplit k es i
unfolding index_of_key
split k [] i h = absurd (some-none h)
split k ((x, w) ∷ es) i h = elim (index_of_key-cases k x (entry_keys es) i h) [
  | inl (same, first) ↦ record {
    before = [];
    key = x;
    old = w;
    after = es;
    whole = refl;
    place = first;
    fresh = refl;
    equal = same;
  }
  | inr (other, j, n, next) ↦
      let s = split k es j n in
      record {
        before = (x, w) ∷ s.before;
        key = s.key;
        old = s.old;
        after = s.after;
        whole = ap (◌∷◌ (x, w)) s.whole;
        place = next ∙ ap suc s.place;
        fresh = rw (other, s.fresh) refl;
        equal = s.equal;
      }
]

pub replace_value-append :
    (pre post : Assoc) (x : HashKey) (w v : ℕ)
    → replace_value (pre ++ (x, w) ∷ post) (length pre) v ≡ pre ++ (x, v) ∷ post
replace_value-append [] post x w v = refl
replace_value-append (e ∷ pre) post x w v = ap (◌∷◌ e) (replace_value-append pre post x w v)

pub remove_at-append {ℓ} :
    {A : Type ℓ} (pre : List A) (x : A) (post : List A)
    → remove_at (length pre) (pre ++ x ∷ post) ≡ pre ++ post
remove_at-append [] x post = refl
remove_at-append (y ∷ pre) x post = ap (◌∷◌ y) (remove_at-append pre x post)

pub drop-append {ℓ} : {A : Type ℓ} (pre post : List A) → drop (length pre) (pre ++ post) ≡ post
drop-append [] post = refl
drop-append (x ∷ pre) post = drop-append pre post

pub entry_keys-append : (es fs : Assoc) → entry_keys (es ++ fs) ≡ entry_keys es ++ entry_keys fs
entry_keys-append [] fs = refl
entry_keys-append (e ∷ es) fs = ap (◌∷◌ e.0) (entry_keys-append es fs)

-- A map with the entry `(x, w)` between `pre` and `post`.
abbrev pub split_map : Assoc → HashKey → ℕ → Assoc → Assoc → MapObject
split_map pre x w post indices = record { entries = pre ++ (x, w) ∷ post; indices = indices }

-- `(x, w)` is the first entry whose key is equal to `k`.
pub record IsFirst (k : HashKey) (pre : Assoc) (x : HashKey) (w : ℕ) (post indices : Assoc)
    : Type 0 where
  pub fresh : IsFresh k (entry_keys pre)
  pub equal : key_eq k x ≡ true
  pub indexed : IsIndexed (split_map pre x w post indices)
  pub placed : find_value k indices ≡ some (length pre)

module _ (k : HashKey) (m : MapObject) (ok : IsIndexed m) where
  -- The index map finds the place of the first equal key.
  found_place : find_value k m.indices ≡ index_of_key k (entry_keys m.entries)
  found_place = rw ok.numbered (
      find_value-number k 0 (entry_keys m.entries)
      ∙ unshift (index_of_key k (entry_keys m.entries)))
    where
      unshift : (o : Option ℕ) → Option.map (λ j. 0 + j) o ≡ o
      unshift none = refl
      unshift (some j) = ap some (omega arith)

  -- A key is absent, or a first entry has it.
  pub by_split :
      (P : MapObject → Type 0)
      → (IsFresh k (entry_keys m.entries) → find_value k m.indices ≡ none → P m)
      → ((pre : Assoc) (x : HashKey) (w : ℕ) (post indices : Assoc)
          → IsFirst k pre x w post indices
          → P (split_map pre x w post indices))
      → P m
  by_split P absent first = elim (Option-cases (index_of_key k (entry_keys m.entries))) [
    | inl n ↦ absent n (found_place ∙ n)
    | inr (i, n) ↦
        let s = split k m.entries i n in
        let same : m ≡ split_map s.before s.key s.old s.after m.indices =
          ap (λ es. record { entries = es; indices = m.indices }) s.whole in
        subst P (sym same) (
          first s.before s.key s.old s.after m.indices (record {
            fresh = s.fresh;
            equal = s.equal;
            indexed = subst IsIndexed same ok;
            placed = found_place ∙ n ∙ ap some s.place;
          }))
  ]

pub find_value-first :
    {k x : HashKey} {pre post indices : Assoc} {w : ℕ}
    → IsFirst k pre x w post indices
    → find_value k (pre ++ (x, w) ∷ post) ≡ some w
unfolding find_value
find_value-first {k} {x} {pre} {post} {w} f =
    find_value-append k pre ((x, w) ∷ post) f.fresh ∙ rw f.equal refl

pub find_value-fresh :
    (k : HashKey) (es : Assoc) → IsFresh k (entry_keys es) → find_value k es ≡ none
unfolding find_value
find_value-fresh k es h = rw (sym (append-nil es)) (find_value-append k es [] h)
