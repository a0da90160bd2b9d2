-- ===== src/Globals/Writes.antt =====
-- Runs of writes between two calls of `clear_dirty`, for `SharedGlobals` of vm.rs.
use mathlib.Core.List.{Memᴰ}
use formlogic_rust.Bits.Single.{test_bit-zero}
use formlogic_rust.Globals.Dirty.{IsShared, IsWritten, set_unchecked_lem}
use formlogic_rust.Globals.{
  SharedGlobals, globals_size, set_unchecked, get_unchecked, is_dirty, clear_dirty,
}
use formlogic_rust.Common.{
  ==_iff, All, Bool, Bool-cases, List, Option, Option-cases, [], arith, false, get_elem?,
  get_elem?-map, get_elem?-none, get_elem?-none_le, if◌then◌else◌, inl, inr, length-map, map, none,
  refl, some, sym, true, ℕ, ◌%◌, ◌/◌, ◌<◌, ◌==◌, ◌>>=◌, ◌↔◌, ◌∙◌, ◌∷◌, ◌≡◌, ◌≢◌, ◌⊎◌,
}

-- The writes of one execution, first to last.
unfoldable pub write_all : List (ℕ × ℕ) → SharedGlobals → Option SharedGlobals
unfolding set_unchecked
write_all [] g = some g
write_all ((idx, value) ∷ ws) g = set_unchecked idx value g >>= write_all ws

abbrev pub indices : List (ℕ × ℕ) → List ℕ
indices = map (λ w. w.0)

-- What slot `j` holds after the writes, if it held `v`.
abbrev pub last_written : List (ℕ × ℕ) → ℕ → Option ℕ → Option ℕ
last_written [] j v = v
last_written ((idx, value) ∷ ws) j v = last_written ws j (if idx == j then some value else v)

pub record IsRun (ws : List (ℕ × ℕ)) (g g' : SharedGlobals) : Type 0 where
  pub shared : IsShared g'
  pub values : (j : ℕ) → get_unchecked g' j ≡ last_written ws j (get_unchecked g j)
  pub dirty_iff : (j : ℕ) → (is_dirty g' j ≡ true) ↔ ((is_dirty g j ≡ true) ⊎ Memᴰ j (indices ws))

IsRun-nil : (g : SharedGlobals) → IsShared g → IsRun [] g g
IsRun-nil g ok = record {
  shared = ok;
  values = λ j. refl;
  dirty_iff = λ j. (λ d. inl d, λ s. elim s [ inl d ↦ d | inr m ↦ absurd (elim m [ ]) ]);
}

module _ {idx value : ℕ} {ws : List (ℕ × ℕ)} {g g' g'' : SharedGlobals}
    (w : IsWritten idx value g g') (r : IsRun ws g' g'') where
  run_values :
      (j : ℕ) → get_unchecked g'' j ≡ last_written ((idx, value) ∷ ws) j (get_unchecked g j)
  run_values j = elim (Bool-cases (idx == j)) [
    | inl e ↦
        let same : idx ≡ j = (==_iff idx j).0 e in
        let now : get_unchecked g' j ≡ some value = rw (sym same) w.here in
        r.values j ∙ rw (e, now) refl
    | inr e ↦
        let other : idx ≢ j = λ k. ground arith in r.values j ∙ rw (e, w.elsewhere j other) refl
  ]

  run_dirty :
      (j : ℕ) → (is_dirty g'' j ≡ true) ↔ ((is_dirty g j ≡ true) ⊎ Memᴰ j (idx ∷ indices ws))
  run_dirty j = elim (Bool-cases (idx == j)) [
    | inl e ↦
        let same : idx ≡ j = (==_iff idx j).0 e in
        (λ d. inr (Memᴰ.head (sym same)), λ s. (r.dirty_iff j).1 (inl (rw (sym same) w.dirty_here)))
    | inr e ↦
        let other : idx ≢ j = λ k. ground arith in
        let before = w.dirty_elsewhere j other in
        (
          λ d. elim ((r.dirty_iff j).0 d) [
            | inl old ↦ inl (sym before ∙ old)
            | inr m ↦ inr (Memᴰ.tail m)
          ],
          λ s. (r.dirty_iff j).1 (elim s [
            | inl old ↦ inl (before ∙ old)
            | inr (Memᴰ.head k) ↦ absurd (other (sym k))
            | inr (Memᴰ.tail m) ↦ inr m
          ]),
        )
  ]

  IsRun-cons : IsRun ((idx, value) ∷ ws) g g''
  IsRun-cons = record { shared = r.shared; values = run_values; dirty_iff = run_dirty }

-- Writes inside the table all succeed. Each slot then holds the last value written to it, or else
-- the old one; and a slot is dirty just when it was before or one of the writes went to it.
pub write_all_lem :
    (ws : List (ℕ × ℕ)) (g : SharedGlobals)
    → IsShared g
    → All (λ idx. idx < globals_size) (indices ws)
    → (g' : SharedGlobals) × (write_all ws g ≡ some g') × IsRun ws g g'
unfolding write_all
write_all_lem [] g ok small = (g, refl, IsRun-nil g ok)
write_all_lem ((idx, value) ∷ ws) g ok (here, rest) =
    let (g', e, w) = set_unchecked_lem idx value g ok here in
    let (g'', e', r) = write_all_lem ws g' w.shared rest in (g'', rw e e', IsRun-cons w r)

clear-IsShared : (g : SharedGlobals) → IsShared g → IsShared (clear_dirty g)
unfolding clear_dirty get_unchecked
clear-IsShared g ok = record {
  slots = ok.slots;
  words = length-map g.dirty (λ word. 0) ∙ ok.words;
  bounded = ok.bounded;
  untouched = ok.untouched;
}

is_dirty-clear : (g : SharedGlobals) (j : ℕ) → is_dirty (clear_dirty g) j ≡ false
unfolding is_dirty clear_dirty
is_dirty-clear g j = elim (Option-cases (get_elem? g.dirty (j / 64))) [
  | inl e ↦
      let gone : get_elem? {A = ℕ} (map (λ (word : ℕ). 0) g.dirty) (j / 64) ≡ none =
        get_elem?-none {A = ℕ} (map (λ (word : ℕ). 0) g.dirty) (j / 64) (
          omega (
            arith,
            length-map {B = ℕ} g.dirty (λ (word : ℕ). 0),
            get_elem?-none_le g.dirty (j / 64) e,
          )) in
      rw gone refl
  | inr (word, e) ↦
      rw (get_elem?-map {B = ℕ} (λ (w : ℕ). 0) g.dirty (j / 64) e) (test_bit-zero (j % 64))
]

-- After `clear_dirty` and writes inside the table, the dirty slots are those written, and every
-- slot holds the last value written to it, or else the value from before.
pub clear_dirty_iff :
    (ws : List (ℕ × ℕ)) (g : SharedGlobals)
    → IsShared g
    → All (λ idx. idx < globals_size) (indices ws)
    → (g' : SharedGlobals) × (write_all ws (clear_dirty g) ≡ some g')
      × ((j : ℕ) → (is_dirty g' j ≡ true) ↔ Memᴰ j (indices ws))
      × ((j : ℕ) → get_unchecked g' j ≡ last_written ws j (get_unchecked g j))
unfolding clear_dirty get_unchecked
clear_dirty_iff ws g ok small =
    let (g', e, r) = write_all_lem ws (clear_dirty g) (clear-IsShared g ok) small in
    (
      g',
      e,
      λ j. (
        λ d. elim ((r.dirty_iff j).0 d) [
          | inl old ↦ absurd (clash (is_dirty-clear g j) old)
          | inr m ↦ m
        ],
        λ m. (r.dirty_iff j).1 (inr m),
      ),
      r.values,
    )
  where
    clash : {b : Bool} → b ≡ false → b ≡ true → ⊥
    clash h k = cc
