-- ===== src/Gc/Traced.antt =====
-- What a scan of engine.rs leaves in the marks: nothing is unmarked, what the scan starts from is
-- marked, and a slot that became marked is reachable and has all that is scanned of it marked.
use mathlib.Core.List.Memᴰ
use mathlib.Core.List.{Memᴰ}
use formlogic_rust.Heap.Store.{Heap}
use formlogic_rust.Gc.Mark.{Marks}
use formlogic_rust.Gc.Slots.{edges, Reach, root, step}
use formlogic_rust.Gc.Object.{Boxed}
use formlogic_rust.Common.{
  List, [], ap, get_or, inl, inr, length, length-set, refl, set, suc, sym, true, zero, ℕ, ◌++◌, ◌∙◌,
  ◌∷◌, ◌≡◌, ◌⊎◌,
}

-- A slot past the end counts as marked, as in the guard of the code.
abbrev pub IsMarked : Marks → ℕ → Type 0
IsMarked m i = get_or m i true ≡ true

pub record IsTraced (h : Heap Boxed) (from : List ℕ) (m m' : Marks) : Type 0 where
  pub same_length : length m' ≡ length m
  pub kept : (i : ℕ) → IsMarked m i → IsMarked m' i
  pub rooted : (i : ℕ) → Memᴰ i from → IsMarked m' i
  pub closed :
      (i : ℕ) → IsMarked m' i → IsMarked m i ⊎ ((j : ℕ) → Memᴰ j (edges h i) → IsMarked m' j)
  pub only : (i : ℕ) → IsMarked m' i → IsMarked m i ⊎ Reach h from i

pub IsMarked-set_self : (m : Marks) (i : ℕ) → IsMarked (set m i true) i
IsMarked-set_self [] i = refl
IsMarked-set_self (b ∷ m) zero = refl
IsMarked-set_self (b ∷ m) (suc i) = IsMarked-set_self m i

pub IsMarked-set : (m : Marks) (i j : ℕ) → IsMarked m j → IsMarked (set m i true) j
IsMarked-set [] i j h = h
IsMarked-set (b ∷ m) zero zero h = refl
IsMarked-set (b ∷ m) zero (suc j) h = h
IsMarked-set (b ∷ m) (suc i) zero h = h
IsMarked-set (b ∷ m) (suc i) (suc j) h = IsMarked-set m i j h

pub set-cases : (m : Marks) (i j : ℕ) → IsMarked (set m i true) j → IsMarked m j ⊎ (i ≡ j)
set-cases [] i j h = inl h
set-cases (b ∷ m) zero zero h = inr refl
set-cases (b ∷ m) zero (suc j) h = inl h
set-cases (b ∷ m) (suc i) zero h = inl h
set-cases (b ∷ m) (suc i) (suc j) h = elim (set-cases m i j h) [
  | inl old ↦ inl old
  | inr e ↦ inr (ap suc e)
]

module _ (h : Heap Boxed) where
  Reach-include :
      {xs ys : List ℕ} {i : ℕ} → ((j : ℕ) → Memᴰ j xs → Memᴰ j ys) → Reach h xs i → Reach h ys i
  Reach-include f (root m) = root (f _ m)
  Reach-include f (step r m) = step (Reach-include f r) m

  Reach-edges : {i j : ℕ} → Reach h (edges h i) j → Reach h (i ∷ []) j
  Reach-edges (root m) = step (root (Memᴰ.head refl)) m
  Reach-edges (step r m) = step (Reach-edges r) m

  pub IsTraced-none : (m : Marks) → IsTraced h [] m m
  IsTraced-none m = record {
    same_length = refl;
    kept = λ i k. k;
    rooted = λ i k. elim k [ ];
    closed = λ i k. inl k;
    only = λ i k. inl k;
  }

  pub IsTraced-marked : (m : Marks) (i : ℕ) → IsMarked m i → IsTraced h (i ∷ []) m m
  IsTraced-marked m i k = record {
    same_length = refl;
    kept = λ j k. k;
    rooted = λ j at. let e : j ≡ i = Memᴰ.eq_of_singleton at in rw e k;
    closed = λ i k. inl k;
    only = λ i k. inl k;
  }

  -- Marking a slot, then what it mentions.
  pub IsTraced-slot :
      (m : Marks) (i : ℕ) {m' : Marks}
      → IsTraced h (edges h i) (set m i true) m'
      → IsTraced h (i ∷ []) m m'
  IsTraced-slot m i {m'} t = record {
    same_length = t.same_length ∙ length-set m i true;
    kept = λ j k. t.kept j (IsMarked-set m i j k);
    rooted =
        λ j at. let e : j ≡ i = Memᴰ.eq_of_singleton at in rw e (t.kept i (IsMarked-set_self m i));
    closed = λ j k. elim (t.closed j k) [
      | inl early ↦ elim (set-cases m i j early) [
        | inl before ↦ inl before
        | inr e ↦ inr (rw (sym e) t.rooted)
      ]
      | inr done ↦ inr done
    ];
    only = λ j k. elim (t.only j k) [
      | inl early ↦ elim (set-cases m i j early) [
        | inl before ↦ inl before
        | inr e ↦ inr (root (Memᴰ.head (sym e)))
      ]
      | inr r ↦ inr (Reach-edges r)
    ];
  }

  pub IsTraced-append :
      (xs ys : List ℕ) {m m' m'' : Marks}
      → IsTraced h xs m m'
      → IsTraced h ys m' m''
      → IsTraced h (xs ++ ys) m m''
  IsTraced-append xs ys {m} {m'} {m''} s t = record {
    same_length = t.same_length ∙ s.same_length;
    kept = λ i k. t.kept i (s.kept i k);
    rooted = λ i at. elim (Memᴰ.append_cases xs at) [
      | inl first ↦ t.kept i (s.rooted i first)
      | inr second ↦ t.rooted i second
    ];
    closed = λ i k. elim (t.closed i k) [
      | inl between ↦ elim (s.closed i between) [
        | inl before ↦ inl before
        | inr done ↦ inr (λ j at. t.kept j (done j at))
      ]
      | inr done ↦ inr done
    ];
    only = λ i k. elim (t.only i k) [
      | inl between ↦ elim (s.only i between) [
        | inl before ↦ inl before
        | inr r ↦ inr (Reach-include (λ j. Memᴰ.append_left ys) r)
      ]
      | inr r ↦ inr (Reach-include (λ j. Memᴰ.append_right xs) r)
    ];
  }
