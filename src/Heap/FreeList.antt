-- ===== src/Heap/FreeList.antt =====
-- Free lists, as lists of numbers.
use formlogic_rust.Heap.Alloc.{contains, Distinct}
use formlogic_rust.Heap.Store.{keep_below}
use formlogic_rust.Common.{
  All, Bool-cases, List, [], arith, false, inl, inr, ltb, ltb→lt, refl, ℕ, ◌&&◌, ◌<◌, ◌∙◌, ◌∷◌, ◌≡◌,
  ◌≤◌,
}

pub below_fresh : (n i : ℕ) (fs : List ℕ) → All (λ k. k < n) fs → n ≤ i → contains fs i ≡ false
below_fresh n i [] a h = refl
below_fresh n i (k ∷ fs) a h = ground (arith, below_fresh n i fs a.1)

pub All-widen : (n m : ℕ) (fs : List ℕ) → n ≤ m → All (λ k. k < n) fs → All (λ k. k < m) fs
All-widen n m [] h a = tt
All-widen n m (k ∷ fs) h a = (omega (arith, a.0), All-widen n m fs h a.1)

pub contains-keep_below :
    (n k : ℕ) (fs : List ℕ) → contains (keep_below n fs) k ≡ (contains fs k && ltb k n)
unfolding keep_below
contains-keep_below n k [] = refl
contains-keep_below n k (i ∷ fs) = ground (arith, contains-keep_below n k fs)

pub keep_below-All : (n : ℕ) (fs : List ℕ) → All (λ k. k < n) (keep_below n fs)
unfolding keep_below
keep_below-All n [] = tt
keep_below-All n (i ∷ fs) = elim (Bool-cases (ltb i n)) [
  | inl small ↦ rw small (ltb→lt i n small, keep_below-All n fs)
  | inr large ↦ rw large (keep_below-All n fs)
]

pub keep_below-Distinct : (n : ℕ) (fs : List ℕ) → Distinct fs → Distinct (keep_below n fs)
unfolding keep_below
keep_below-Distinct n [] d = d
keep_below-Distinct n (i ∷ fs) d = elim (Bool-cases (ltb i n)) [
  | inl small ↦ rw small (contains-keep_below n i fs ∙ rw (d.0), keep_below-Distinct n fs d.1)
  | inr large ↦ rw large (keep_below-Distinct n fs d.1)
]
