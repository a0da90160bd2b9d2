-- ===== src/Hash/Assoc.antt =====
-- Association lists: what a hash object stands for.
use formlogic_rust.Hash.IndexMap.{index_of_key, remove_at}
use formlogic_rust.Hash.Key.{key_eq, HashKey}
use formlogic_rust.Common.{
  Bool-cases, List, Option, Option-cases, [], ap, arith, false, get_elem?, if◌then◌else◌, inl, inr,
  length, none, refl, set, some, some_inj, some-none, suc, sym, true, ℕ, ◌++◌, ◌>>=◌, ◌∙◌, ◌∷◌, ◌≡◌,
  ◌⊎◌,
}

abbrev pub Assoc : Type 0
Assoc = List (HashKey × ℕ)

unfoldable pub zip : List HashKey → List ℕ → Assoc
zip [] vs = []
zip (k ∷ ks) [] = []
zip (k ∷ ks) (v ∷ vs) = (k, v) ∷ zip ks vs

unfoldable pub find_value : HashKey → Assoc → Option ℕ
unfolding key_eq
find_value k [] = none
find_value k ((x, w) ∷ al) = let rest = find_value k al in if key_eq k x then some w else rest

-- An equal key keeps its place and its own form; a new one goes to the end.
unfoldable pub upsert : HashKey → ℕ → Assoc → Assoc
unfolding key_eq
upsert k v [] = (k, v) ∷ []
upsert k v ((x, w) ∷ al) =
    let rest = upsert k v al in if key_eq k x then (x, v) ∷ al else (x, w) ∷ rest

unfoldable pub delete : HashKey → Assoc → Assoc
unfolding key_eq
delete k [] = []
delete k ((x, w) ∷ al) = let rest = delete k al in if key_eq k x then al else (x, w) ∷ rest

pub find_value-zip :
    (k : HashKey) (ks : List HashKey) (vs : List ℕ)
    → length vs ≡ length ks
    → find_value k (zip ks vs) ≡ (index_of_key k ks >>= get_elem? vs)
unfolding find_value zip index_of_key
find_value-zip k [] vs e = refl
find_value-zip k (x ∷ ks) [] e = absurd (omega arith)
find_value-zip k (x ∷ ks) (v ∷ vs) e = elim (Bool-cases (key_eq k x)) [
  | inl same ↦ rw same refl
  | inr other ↦ elim (Option-cases (index_of_key k ks)) [
    | inl n ↦ rw (other, n) (find_value-zip k ks vs (omega arith) ∙ rw n refl)
    | inr (i, n) ↦ rw (other, n) (find_value-zip k ks vs (omega arith) ∙ rw n refl)
  ]
]

-- Where the first equal key stands: at the head, or further on.
pub index_of_key-cases :
    (k x : HashKey) (ks : List HashKey) (i : ℕ)
    → index_of_key k (x ∷ ks) ≡ some i
    → ((key_eq k x ≡ true) × (i ≡ 0))
      ⊎ ((key_eq k x ≡ false) × (j : ℕ) × (index_of_key k ks ≡ some j) × (i ≡ suc j))
unfolding index_of_key
index_of_key-cases k x ks i p = elim (Bool-cases (key_eq k x)) [
  | inl same ↦ inl (same, sym (some_inj (rw same at p)))
  | inr other ↦ elim (Option-cases (index_of_key k ks)) [
    | inl n ↦ absurd (some-none (rw (other, n) at p))
    | inr (j, n) ↦ inr (other, j, n, sym (some_inj (rw (other, n) at p)))
  ]
]

-- No key is equal.
pub index_of_key-none :
    (k x : HashKey) (ks : List HashKey)
    → index_of_key k (x ∷ ks) ≡ none
    → (key_eq k x ≡ false) × (index_of_key k ks ≡ none)
unfolding index_of_key
index_of_key-none k x ks p = elim (Bool-cases (key_eq k x)) [
  | inl same ↦ absurd (none_some (rw same at p))
  | inr other ↦ elim (Option-cases (index_of_key k ks)) [
    | inl n ↦ (other, n)
    | inr (j, n) ↦ absurd (none_some (rw (other, n) at p))
  ]
]
  where
    none_some : {b : ℕ} → some b ≡ none → ⊥
    none_some h = cc

module _ (k : HashKey) (v : ℕ) where
  pub upsert-zip_old :
      (ks : List HashKey) (vs : List ℕ) (i : ℕ)
      → length vs ≡ length ks
      → index_of_key k ks ≡ some i
      → upsert k v (zip ks vs) ≡ zip ks (set vs i v)
  unfolding upsert zip index_of_key
  upsert-zip_old [] vs i e p = cc
  upsert-zip_old (x ∷ ks) [] i e p = absurd (omega arith)
  upsert-zip_old (x ∷ ks) (w ∷ vs) i e p = elim (index_of_key-cases k x ks i p) [
    | inl (same, first) ↦ rw (same, first) refl
    | inr (other, j, n, next) ↦
        rw (other, next) (ap (◌∷◌ (x, w)) (upsert-zip_old ks vs j (omega arith) n))
  ]

  pub upsert-zip_new :
      (ks : List HashKey) (vs : List ℕ)
      → length vs ≡ length ks
      → index_of_key k ks ≡ none
      → upsert k v (zip ks vs) ≡ zip (ks ++ k ∷ []) (vs ++ v ∷ [])
  unfolding upsert zip index_of_key
  upsert-zip_new [] [] e p = refl
  upsert-zip_new [] (w ∷ vs) e p = absurd (omega arith)
  upsert-zip_new (x ∷ ks) [] e p = absurd (omega arith)
  upsert-zip_new (x ∷ ks) (w ∷ vs) e p =
      let (other, n) = index_of_key-none k x ks p in
      rw other (ap (◌∷◌ (x, w)) (upsert-zip_new ks vs (omega arith) n))

pub delete-zip :
    (k : HashKey) (ks : List HashKey) (vs : List ℕ) (i : ℕ)
    → length vs ≡ length ks
    → index_of_key k ks ≡ some i
    → delete k (zip ks vs) ≡ zip (remove_at i ks) (remove_at i vs)
unfolding delete zip index_of_key
delete-zip k [] vs i e p = cc
delete-zip k (x ∷ ks) [] i e p = absurd (omega arith)
delete-zip k (x ∷ ks) (w ∷ vs) i e p = elim (index_of_key-cases k x ks i p) [
  | inl (same, first) ↦ rw (same, first) refl
  | inr (other, j, n, next) ↦
      rw (other, next) (ap (◌∷◌ (x, w)) (delete-zip k ks vs j (omega arith) n))
]

pub delete-zip-none :
    (k : HashKey) (ks : List HashKey) (vs : List ℕ)
    → length vs ≡ length ks
    → index_of_key k ks ≡ none
    → delete k (zip ks vs) ≡ zip ks vs
unfolding delete zip index_of_key
delete-zip-none k [] vs e p = refl
delete-zip-none k (x ∷ ks) [] e p = absurd (omega arith)
delete-zip-none k (x ∷ ks) (w ∷ vs) e p =
    let (other, n) = index_of_key-none k x ks p in
    rw other (ap (◌∷◌ (x, w)) (delete-zip-none k ks vs (omega arith) n))
