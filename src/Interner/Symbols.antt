-- ===== src/Interner/Symbols.antt =====
-- Symbols stand for strings one to one.
use formlogic_rust.Interner.Table.{Interner, find, empty, add, intern, resolve}
use formlogic_rust.Token.Text.{text_eq, text_eq_sound, text_eq_refl}
use formlogic_rust.Common.{
  Bool-cases, Bytes, List, Option, Option-cases, [], ap, arith, false, get_elem?,
  get_elem?-append_head, get_elem?-append_left, get_elem?-lt, inl, inr, length, length-snoc, none,
  refl, snoc-cases, some, sym, true, ℕ, ◌%◌, ◌++◌, ◌+◌, ◌<◌, ◌^◌, ◌↔◌, ◌∙◌, ◌∷◌, ◌≡◌, ◌≤◌,
}

-- The map is the inverse of the vector.
pub record IsInverse (t : Interner) : Type 0 where
  pub sound : (s : Bytes) (i : ℕ) → find t.ids s ≡ some i → resolve i t ≡ some s
  pub complete : (s : Bytes) (i : ℕ) → resolve i t ≡ some s → find t.ids s ≡ some i

pub empty-IsInverse : IsInverse empty
unfolding empty find resolve
empty-IsInverse = record {
  sound = λ s i h. absurd (clash h);
  complete = λ s i h. absurd (clash' h);
}
  where
    clash : {i : ℕ} → none ≡ some i → ⊥
    clash h = cc

    clash' : {s : Bytes} → none ≡ some s → ⊥
    clash' h = cc

find-same :
    (s r : Bytes) (id : ℕ) (ids : List (Bytes × ℕ))
    → text_eq s r ≡ true
    → find ((s, id) ∷ ids) r ≡ some id
unfolding find
find-same s r id ids e = rw e refl

find-other :
    (s r : Bytes) (id : ℕ) (ids : List (Bytes × ℕ))
    → text_eq s r ≡ false
    → find ((s, id) ∷ ids) r ≡ find ids r
unfolding find
find-other s r id ids e = rw e refl

-- What an `intern` promises.
pub record IsInterned (s : Bytes) (t : Interner) (id : ℕ) (t' : Interner) : Type 0 where
  pub resolved : resolve id t' ≡ some s
  pub kept : (i : ℕ) (r : Bytes) → resolve i t ≡ some r → resolve i t' ≡ some r
  pub inverse : IsInverse t'
  pub grown : length t'.strings ≤ length t.strings + 1

some_eq : {i j : ℕ} → some i ≡ some j → i ≡ j
some_eq h = cc

some_same : {s r : Bytes} → some s ≡ some r → s ≡ r
some_same h = cc

no_clash : {i : ℕ} {o : Option ℕ} → o ≡ none → o ≡ some i → ⊥
no_clash h g = cc

-- With the next number.
abbrev added : Bytes → Interner → Interner
added s t = record { strings = t.strings ++ s ∷ []; ids = (s, length t.strings) ∷ t.ids }

module _ (s : Bytes) (t : Interner) (inv : IsInverse t) (fresh : find t.ids s ≡ none) where
  added_sound :
      (r : Bytes) (i : ℕ) → find (added s t).ids r ≡ some i → resolve i (added s t) ≡ some r
  unfolding resolve
  added_sound r i h = elim (Bool-cases (text_eq s r)) [
    | inl same ↦
        let id : length t.strings ≡ i =
          some_eq (sym (find-same s r (length t.strings) t.ids same) ∙ h) in
        rw (sym id, sym (text_eq_sound s r same)) (get_elem?-append_head t.strings s [])
    | inr other ↦
        let old : get_elem? t.strings i ≡ some r =
          inv.sound r i (sym (find-other s r (length t.strings) t.ids other) ∙ h) in
        get_elem?-append_left t.strings (s ∷ []) i (get_elem?-lt t.strings i old) ∙ old
  ]

  added_complete :
      (r : Bytes) (i : ℕ) → resolve i (added s t) ≡ some r → find (added s t).ids r ≡ some i
  unfolding resolve
  added_complete r i h = elim (snoc-cases t.strings s r i h) [
    | inl old ↦
        let known = inv.complete r i old in
        elim (Bool-cases (text_eq s r)) [
          | inl same ↦ absurd (no_clash {i = i} fresh (rw (text_eq_sound s r same) known))
          | inr other ↦ find-other s r (length t.strings) t.ids other ∙ known
        ]
    | inr (id, same) ↦
        find-same s r (length t.strings) t.ids (rw (sym same) (text_eq_refl s)) ∙ ap some (sym id)
  ]

  added-IsInterned : IsInterned s t (length t.strings) (added s t)
  unfolding resolve
  added-IsInterned = record {
    resolved = get_elem?-append_head t.strings s [];
    kept = λ i r h. get_elem?-append_left t.strings (s ∷ []) i (get_elem?-lt t.strings i h) ∙ h;
    inverse = record { sound = added_sound; complete = added_complete };
    grown = omega (arith, length-snoc t.strings s);
  }

  add-IsInterned : length t.strings < 2 ^ 32 → IsInterned s t (add s t).0 (add s t).1
  unfolding add
  add-IsInterned small =
      let id : length t.strings % 2 ^ 32 ≡ length t.strings = omega arith in rw id added-IsInterned

-- Under an inverse map and fewer than 2^32 strings, `intern` gives a symbol that resolves to the
-- string, keeps what every earlier symbol resolves to, and keeps the map inverse.
pub intern-IsInterned :
    (s : Bytes) (t : Interner)
    → IsInverse t
    → length t.strings < 2 ^ 32
    → IsInterned s t (intern s t).0 (intern s t).1
unfolding intern
intern-IsInterned s t inv small = elim (Option-cases (find t.ids s)) [
  | inl fresh ↦ rw fresh (add-IsInterned s t inv fresh small)
  | inr (id, known) ↦ rw known (record {
    resolved = inv.sound s id known;
    kept = λ i r h. h;
    inverse = inv;
    grown = omega arith;
  })
]

-- Two strings interned one after the other get the same symbol exactly when they are equal, from
-- an inverse map with fewer than 2^32 - 1 strings.
pub intern_iff :
    (s r : Bytes) (t : Interner)
    → IsInverse t
    → length t.strings + 1 < 2 ^ 32
    → ((intern s t).0 ≡ (intern r (intern s t).1).0) ↔ (s ≡ r)
intern_iff s r t inv small =
    let a = intern-IsInterned s t inv (omega arith) in
    let b = intern-IsInterned r (intern s t).1 a.inverse (omega (arith, a.grown)) in
    let last = (intern r (intern s t).1).1 in
    let i = (intern s t).0 in
    let j = (intern r (intern s t).1).0 in
    let first = b.kept i s a.resolved in
    (
      λ e. some_same (sym first ∙ ap (λ (k : ℕ). resolve k last) e ∙ b.resolved),
      λ e. some_eq (
          sym (b.inverse.complete s i first)
          ∙ ap (find last.ids) e
          ∙ b.inverse.complete r j b.resolved),
    )
