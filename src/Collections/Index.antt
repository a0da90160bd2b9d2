-- ===== src/Collections/Index.antt =====
-- The indices that vm.rs keeps beside the entries of a map or a set, when they number the keys.
use mathlib.Core.Option
use formlogic_rust.Hash.Key.{HashKey, key_eq}
use formlogic_rust.Hash.Equal.{key_eq_refl}
use formlogic_rust.Hash.IndexMap.{index_of_key}
use formlogic_rust.Hash.Assoc.{Assoc, find_value, upsert, delete, index_of_key-none}
use formlogic_rust.Collections.Store.{reindex, entry_keys}
use formlogic_rust.Common.{
  Bool-cases, List, Option, [], ap, append-nil, append_assoc, arith, false, inl, inr, length,
  length-snoc, none, refl, some, suc, sym, ℕ, ◌++◌, ◌+◌, ◌∙◌, ◌∷◌, ◌≡◌,
}

-- Each key with its place.
unfoldable pub number : ℕ → List HashKey → Assoc
number i [] = []
number i (k ∷ ks) = (k, i) ∷ number (suc i) ks

pub number-append :
    (i : ℕ) (ks ls : List HashKey) → number i (ks ++ ls) ≡ number i ks ++ number (i + length ks) ls
unfolding number
number-append i [] ls = let e : i + 0 ≡ i = omega arith in rw e refl
number-append i (k ∷ ks) ls =
    let e : i + suc (length ks) ≡ suc i + length ks = omega arith in
    rw e (ap (◌∷◌ (k, i)) (number-append (suc i) ks ls))

-- No key of the list is equal.
abbrev pub IsFresh : HashKey → List HashKey → Type 0
IsFresh k ks = index_of_key k ks ≡ none

IsFresh-cons :
    (k x : HashKey) (ks : List HashKey) → key_eq k x ≡ false → IsFresh k ks → IsFresh k (x ∷ ks)
unfolding index_of_key
IsFresh-cons k x ks other h = rw (other, h) refl

pub find_value-number :
    (k : HashKey) (i : ℕ) (ks : List HashKey)
    → find_value k (number i ks) ≡ Option.map (λ j. i + j) (index_of_key k ks)
unfolding find_value number index_of_key
find_value-number k i [] = refl
find_value-number k i (x ∷ ks) = elim (Bool-cases (key_eq k x)) [
  | inl same ↦ rw same (ap some (omega arith))
  | inr other ↦ rw (other, find_value-number k (suc i) ks) (shift (index_of_key k ks))
]
  where
    shift :
        (o : Option ℕ) → Option.map (λ j. suc i + j) o ≡ Option.map (λ j. i + j) (Option.map suc o)
    shift none = refl
    shift (some j) = ap some (omega arith)

-- A fresh key passes over what stands before.
module _ (k : HashKey) where
  pub find_value-append :
      (pre rest : Assoc)
      → IsFresh k (entry_keys pre)
      → find_value k (pre ++ rest) ≡ find_value k rest
  unfolding find_value
  find_value-append [] rest h = refl
  find_value-append ((x, w) ∷ pre) rest h =
      let (other, later) = index_of_key-none k x (entry_keys pre) h in
      rw other (find_value-append pre rest later)

  pub upsert-append :
      (v : ℕ) (pre rest : Assoc)
      → IsFresh k (entry_keys pre)
      → upsert k v (pre ++ rest) ≡ pre ++ upsert k v rest
  unfolding upsert
  upsert-append v [] rest h = refl
  upsert-append v ((x, w) ∷ pre) rest h =
      let (other, later) = index_of_key-none k x (entry_keys pre) h in
      rw other (ap (◌∷◌ (x, w)) (upsert-append v pre rest later))

  pub delete-append :
      (pre rest : Assoc)
      → IsFresh k (entry_keys pre)
      → delete k (pre ++ rest) ≡ pre ++ delete k rest
  unfolding delete
  delete-append [] rest h = refl
  delete-append ((x, w) ∷ pre) rest h =
      let (other, later) = index_of_key-none k x (entry_keys pre) h in
      rw other (ap (◌∷◌ (x, w)) (delete-append pre rest later))

pub entry_keys-number : (i : ℕ) (ks : List HashKey) → entry_keys (number i ks) ≡ ks
unfolding number
entry_keys-number i [] = refl
entry_keys-number i (k ∷ ks) = ap (◌∷◌ k) (entry_keys-number (suc i) ks)

-- Every key of `ks` is fresh for `seen` and for the keys before it.
abbrev pub IsDistinct : List HashKey → List HashKey → Type 0
IsDistinct seen [] = Unit
IsDistinct seen (k ∷ ks) = IsFresh k seen × IsDistinct (seen ++ k ∷ []) ks

IsFresh-drop :
    (k x : HashKey) (pre post : List HashKey)
    → IsFresh k (pre ++ x ∷ post)
    → IsFresh k (pre ++ post)
IsFresh-drop k x [] post h = (index_of_key-none k x post h).1
IsFresh-drop k x (y ∷ pre) post h =
    let (other, later) = index_of_key-none k y (pre ++ x ∷ post) h in
    IsFresh-cons k y (pre ++ post) other (IsFresh-drop k x pre post later)

-- A key less to be distinct from.
pub IsDistinct-drop :
    (x : HashKey) (pre post ks : List HashKey)
    → IsDistinct (pre ++ x ∷ post) ks
    → IsDistinct (pre ++ post) ks
IsDistinct-drop x pre post [] h = tt
IsDistinct-drop x pre post (k ∷ ks) (fresh, h) = (
  IsFresh-drop k x pre post fresh,
  rw (append_assoc pre post (k ∷ []))
      (IsDistinct-drop x pre (post ++ k ∷ []) ks (rw (append_assoc pre (x ∷ post) (k ∷ [])) at h)),
)

pub IsDistinct-split :
    (seen ks ls : List HashKey)
    → IsDistinct seen (ks ++ ls)
    → IsDistinct seen ks × IsDistinct (seen ++ ks) ls
IsDistinct-split seen [] ls h = (tt, rw (append-nil seen) h)
IsDistinct-split seen (k ∷ ks) ls (fresh, h) =
    let (first, second) = IsDistinct-split (seen ++ k ∷ []) ks ls h in
    ((fresh, first), rw (append_assoc seen (k ∷ []) ks) at second)

pub IsDistinct-append :
    (seen ks ls : List HashKey)
    → IsDistinct seen ks
    → IsDistinct (seen ++ ks) ls
    → IsDistinct seen (ks ++ ls)
IsDistinct-append seen [] ls h k = rw (append-nil seen) at k
IsDistinct-append seen (x ∷ ks) ls (fresh, h) k =
    (fresh, IsDistinct-append (seen ++ x ∷ []) ks ls h (rw (append_assoc seen (x ∷ []) ks) k))

-- Numbering the keys behind a gap again closes it.
pub reindex-number :
    (pre post : List HashKey) (i : ℕ)
    → i ≡ length pre
    → IsDistinct pre post
    → reindex post i (number 0 pre ++ number (suc i) post) ≡ number 0 (pre ++ post)
unfolding reindex number upsert
reindex-number pre [] i e h = rw (append-nil (number 0 pre), append-nil pre) refl
reindex-number pre (k ∷ post) i e (fresh, h) =
    let written : upsert k i (number 0 pre ++ (k, suc i) ∷ number (suc (suc i)) post)
        ≡ number 0 (pre ++ k ∷ []) ++ number (suc (suc i)) post =
      upsert-append k i (number 0 pre) ((k, suc i) ∷ number (suc (suc i)) post)
        (rw (entry_keys-number 0 pre) fresh)
      ∙ written_here
      ∙ sym (append_assoc (number 0 pre) ((k, i) ∷ []) (number (suc (suc i)) post))
      ∙ ap (λ l. l ++ number (suc (suc i)) post) (sym last_number) in
    rw written (
      reindex-number (pre ++ k ∷ []) post (suc i) (rw (length-snoc pre k) (ap suc e)) h
      ∙ ap (number 0) (append_assoc pre (k ∷ []) post))
  where
    written_here :
        (number 0 pre ++ upsert k i ((k, suc i) ∷ number (suc (suc i)) post))
        ≡ number 0 pre ++ (k, i) ∷ number (suc (suc i)) post
    written_here = rw (key_eq_refl k) refl

    last_number : number 0 (pre ++ k ∷ []) ≡ number 0 pre ++ (k, i) ∷ []
    last_number =
        let at : 0 + length pre ≡ i = omega arith in number-append 0 pre (k ∷ []) ∙ rw at refl
