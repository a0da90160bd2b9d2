-- ===== src/Hash/Gap.antt =====
-- `remove_pair` of object.rs closes the gap that the removed pair leaves in `str_slots`.
use mathlib.Core.Option
use formlogic_rust.Hash.Key.{HashKey, sym_key}
use formlogic_rust.Hash.IndexMap.{remove_at}
use formlogic_rust.Hash.Object.{sym_of, drop_slot, move_down}
use formlogic_rust.Hash.Insert.{sym_of-some}
use formlogic_rust.Common.{
  ==_iff, Bool-cases, List, Option, Option-cases, [], ap, arith, get_elem?, inl, inr, length, ltb,
  refl, some, some_inj, some-none, suc, sym, zero, ℕ, ◌+◌, ◌<◌, ◌==◌, ◌↔◌, ◌∙◌, ◌∷◌, ◌≡◌, ◌≢◌, ◌≤◌,
}

module _ {ℓ} {A : Type ℓ} where
  pub get_elem?-remove_below :
      (xs : List A) (i j : ℕ) → j < i → get_elem? (remove_at i xs) j ≡ get_elem? xs j
  get_elem?-remove_below [] i j h = refl
  get_elem?-remove_below (x ∷ xs) zero j h = absurd (omega arith)
  get_elem?-remove_below (x ∷ xs) (suc i) zero h = refl
  get_elem?-remove_below (x ∷ xs) (suc i) (suc j) h = get_elem?-remove_below xs i j (omega arith)

  pub get_elem?-remove_above :
      (xs : List A) (i j : ℕ) → i ≤ j → get_elem? (remove_at i xs) j ≡ get_elem? xs (suc j)
  get_elem?-remove_above [] i j h = refl
  get_elem?-remove_above (x ∷ xs) zero j h = refl
  get_elem?-remove_above (x ∷ xs) (suc i) zero h = absurd (omega arith)
  get_elem?-remove_above (x ∷ xs) (suc i) (suc j) h = get_elem?-remove_above xs i j (omega arith)

  pub length-remove_at :
      (xs : List A) (i : ℕ) → i < length xs → length (remove_at i xs) + 1 ≡ length xs
  length-remove_at [] i h = elim h [ ]
  length-remove_at (x ∷ xs) zero h = omega arith
  length-remove_at (x ∷ xs) (suc i) h = omega (arith, length-remove_at xs i (omega arith))

module _ (slots : ℕ → Option ℕ) (ks : List HashKey)
    (iff : (id i : ℕ) → (slots id ≡ some i) ↔ (get_elem? ks i ≡ some (sym_key id))) (i : ℕ)
    (x : HashKey) (at : get_elem? ks i ≡ some x) where
  kept_slots : ℕ → Option ℕ
  kept_slots = drop_slot slots (sym_of x)

  -- The slots that are kept are those of the other keys.
  kept_sound : (id m : ℕ) → kept_slots id ≡ some m → (slots id ≡ some m) × (m ≢ i)
  unfolding kept_slots
  kept_sound id m h = elim (Option-cases (sym_of x)) [
    | inl plain ↦
        let slot : slots id ≡ some m = rw plain at h in
        (
          slot,
          λ e.
              let here : x ≡ sym_key id = some_inj (sym at ∙ rw (sym e) ((iff id m).0 slot)) in
              some-none (sym plain ∙ ap sym_of here),
        )
    | inr (a, s) ↦ elim (Bool-cases (a == id)) [
      | inl e ↦ absurd (some-none (rw (s, e) at h))
      | inr e ↦
          let slot : slots id ≡ some m = rw (s, e) at h in
          (
            slot,
            λ k.
                let here : x ≡ sym_key id = some_inj (sym at ∙ rw (sym k) ((iff id m).0 slot)) in
                let same : a ≡ id = some_inj (sym s ∙ ap sym_of here) in absurd (ground arith),
          )
    ]
  ]

  kept_complete : (id m : ℕ) → slots id ≡ some m → m ≢ i → kept_slots id ≡ some m
  unfolding kept_slots
  kept_complete id m slot ne = elim (Option-cases (sym_of x)) [
    | inl plain ↦ rw plain slot
    | inr (a, s) ↦ elim (Bool-cases (a == id)) [
      | inl e ↦
          let same : a ≡ id = (==_iff a id).0 e in
          let mine : slots id ≡ some i =
            (iff id i).1 (at ∙ ap some (sym_of-some x a s ∙ ap sym_key same)) in
          absurd (ne (some_inj (sym slot ∙ mine)))
      | inr e ↦ rw (s, e) slot
    ]
  ]

  gap_forward :
      (id j : ℕ)
      → Option.map (move_down i) (kept_slots id) ≡ some j
      → get_elem? (remove_at i ks) j ≡ some (sym_key id)
  gap_forward id j h = elim (Option-cases (kept_slots id)) [
    | inl n ↦ absurd (some-none (rw n at h))
    | inr (m, n) ↦
        let (slot, ne) = kept_sound id m n in
        let moved : move_down i m ≡ j = some_inj (rw n at h) in
        let there = (iff id m).0 slot in
        elim (Bool-cases (ltb i m)) [
          | inl above ↦
              let next : suc j ≡ m = ground arith in
              get_elem?-remove_above ks i j (ground arith) ∙ rw next there
          | inr below ↦
              let same : j ≡ m = ground arith in
              get_elem?-remove_below ks i j (ground arith) ∙ rw same there
        ]
  ]

  gap_backward :
      (id j : ℕ)
      → get_elem? (remove_at i ks) j ≡ some (sym_key id)
      → Option.map (move_down i) (kept_slots id) ≡ some j
  gap_backward id j h = elim (Bool-cases (ltb j i)) [
    | inl below ↦
        let slot = (iff id j).1 (sym (get_elem?-remove_below ks i j (ground arith)) ∙ h) in
        rw (kept_complete id j slot (λ e. ground arith)) (ground arith)
    | inr above ↦
        let slot = (iff id (suc j)).1 (sym (get_elem?-remove_above ks i j (ground arith)) ∙ h) in
        rw (kept_complete id (suc j) slot (λ e. ground arith)) (ground arith)
  ]

  -- The moved slots are those of the keys that are left.
  pub gap_iff :
      (id j : ℕ)
      → (Option.map (move_down i) (drop_slot slots (sym_of x) id) ≡ some j)
        ↔ (get_elem? (remove_at i ks) j ≡ some (sym_key id))
  unfolding kept_slots
  gap_iff id j = (gap_forward id j, gap_backward id j)
