-- ===== src/Heap/Slots.antt =====
-- Facts on the lists that the sweep works with.
use formlogic_rust.Heap.FreeList.{All-widen, below_fresh}
use native.Mathlib.Nat.{add-zero, zero-add, add-suc, suc-add}
use formlogic_rust.Heap.Collect.{freed, swept}
use formlogic_rust.Heap.Sweep.{is_cheap}
use formlogic_rust.Heap.Alloc.{contains, Distinct}
use formlogic_rust.Heap.Store.{Object}
use formlogic_rust.Common.{
  All, Bool, Bool-cases, List, [], arith, false, get_elem?, if◌then◌else◌, inl, inr, not, refl,
  some, suc, zero, ℕ, ◌+◌, ◌<◌, ◌||◌, ◌∙◌, ◌∷◌, ◌≡◌,
}

module _ {ℓ} {R : Type ℓ} where
  -- Slot `j` is put on the free list.
  abbrev pub collected : List Bool → List (Object R) → ℕ → Bool
  collected [] os j = false
  collected (m ∷ marks) [] j = false
  collected (m ∷ marks) (o ∷ os) zero = not (m || is_cheap o)
  collected (m ∷ marks) (o ∷ os) (suc j) = collected marks os j

  freed_before :
      (marks : List Bool) (os : List (Object R)) (i k : ℕ) (fs : List ℕ)
      → k < i
      → contains (freed marks os i fs) k ≡ contains fs k
  freed_before [] os i k fs h = refl
  freed_before (m ∷ marks) [] i k fs h = refl
  freed_before (m ∷ marks) (o ∷ os) i k fs h = elim (Bool-cases (m || is_cheap o)) [
    | inl keep ↦ rw keep (freed_before marks os (suc i) k fs (omega arith))
    | inr drop_it ↦
        rw drop_it (freed_before marks os (suc i) k (i ∷ fs) (omega arith) ∙ ground arith)
  ]

  freed_from :
      (marks : List Bool) (os : List (Object R)) (i j : ℕ) (fs : List ℕ)
      → contains (freed marks os i fs) (i + j) ≡ (contains fs (i + j) || collected marks os j)
  freed_from [] os i j fs = ground arith
  freed_from (m ∷ marks) [] i j fs = ground arith
  freed_from (m ∷ marks) (o ∷ os) i zero fs = elim (Bool-cases (m || is_cheap o)) [
    | inl keep ↦
        rw (keep, add-zero) (freed_before marks os (suc i) i fs (omega arith) ∙ ground arith)
    | inr drop_it ↦
        rw (drop_it, add-zero)
          (freed_before marks os (suc i) i (i ∷ fs) (omega arith) ∙ ground arith)
  ]
  freed_from (m ∷ marks) (o ∷ os) i (suc j) fs = elim (Bool-cases (m || is_cheap o)) [
    | inl keep ↦ rw (keep, add-suc, ← suc-add i j) (freed_from marks os (suc i) j fs)
    | inr drop_it ↦
        let ih = freed_from marks os (suc i) j (i ∷ fs) in
        rw (drop_it, add-suc, ← suc-add i j) (ground (arith, ih))
  ]

  pub contains-freed :
      (marks : List Bool) (os : List (Object R)) (j : ℕ)
      → contains (freed marks os 0 []) j ≡ collected marks os j
  contains-freed marks os j = rw zero-add at (freed_from marks os 0 j [])

  pub freed-Distinct :
      (marks : List Bool) (os : List (Object R)) (i : ℕ) (fs : List ℕ)
      → All (λ k. k < i) fs
      → Distinct fs
      → Distinct (freed marks os i fs)
  freed-Distinct [] os i fs a d = d
  freed-Distinct (m ∷ marks) [] i fs a d = d
  freed-Distinct (m ∷ marks) (o ∷ os) i fs a d = elim (Bool-cases (m || is_cheap o)) [
    | inl keep ↦
        rw keep (freed-Distinct marks os (suc i) fs (All-widen i (suc i) fs (omega arith) a) d)
    | inr drop_it ↦ rw drop_it (
        freed-Distinct marks os (suc i) (i ∷ fs)
          (omega arith, All-widen i (suc i) fs (omega arith) a)
          (below_fresh i i fs a (omega arith), d))
  ]

  -- What the slots hold after the loop.
  pub get_elem?-swept :
      (marks : List Bool) (os : List (Object R)) (i : ℕ)
      → get_elem? (swept marks os) i
        ≡ (if collected marks os i then some Object.null else get_elem? os i)
  get_elem?-swept [] os i = refl
  get_elem?-swept (m ∷ marks) [] i = refl
  get_elem?-swept (m ∷ marks) (o ∷ os) zero = ground arith
  get_elem?-swept (m ∷ marks) (o ∷ os) (suc i) = get_elem?-swept marks os i
