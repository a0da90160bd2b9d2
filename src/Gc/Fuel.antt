-- ===== src/Gc/Fuel.antt =====
-- The recursion of engine.rs through the heap ends: each jump marks a slot that was not marked, so
-- fuel above the number of unmarked slots is enough, and what comes back is traced.
use formlogic_rust.Heap.Store.{Heap, Object, get}
use formlogic_rust.Gc.Mark.{Marks, visit, mark_slot, mark_refs}
use formlogic_rust.Gc.Slots.{object_slots, edges}
use formlogic_rust.Gc.Scan.{visit_all, mark_refs_lem}
use formlogic_rust.Gc.Traced.{
  IsMarked, IsTraced, IsTraced-none, IsTraced-marked, IsTraced-slot, IsTraced-append,
}
use formlogic_rust.Gc.Object.{Boxed}
use formlogic_rust.Common.{
  Bool-cases, List, Option, [], arith, false, get_or, if◌then◌else◌, inl, inr, length, length-set,
  refl, set, some, some_below, suc, true, zero, ℕ, ◌+◌, ◌<◌, ◌∙◌, ◌∷◌, ◌≡◌, ◌≤◌,
}

-- The slots that are not marked.
unfoldable pub unmarked : Marks → ℕ
unmarked [] = 0
unmarked (b ∷ m) = if b then unmarked m else unmarked m + 1

pub unmarked-le : (m : Marks) → unmarked m ≤ length m
unfolding unmarked
unmarked-le [] = omega arith
unmarked-le (true ∷ m) = omega (arith, unmarked-le m)
unmarked-le (false ∷ m) = omega (arith, unmarked-le m)

unmarked-set_le : (m : Marks) (i : ℕ) → unmarked (set m i true) ≤ unmarked m
unfolding unmarked
unmarked-set_le [] i = omega arith
unmarked-set_le (true ∷ m) zero = omega arith
unmarked-set_le (false ∷ m) zero = omega arith
unmarked-set_le (true ∷ m) (suc i) = unmarked-set_le m i
unmarked-set_le (false ∷ m) (suc i) = omega (arith, unmarked-set_le m i)

-- Marking an unmarked slot leaves one fewer.
unmarked-set :
    (m : Marks) (i : ℕ) → get_or m i true ≡ false → unmarked (set m i true) + 1 ≡ unmarked m
unfolding unmarked
unmarked-set [] i h = cc
unmarked-set (true ∷ m) zero h = cc
unmarked-set (false ∷ m) zero h = refl
unmarked-set (true ∷ m) (suc i) h = unmarked-set m i h
unmarked-set (false ∷ m) (suc i) h = omega (arith, unmarked-set m i h)

unmarked_mono :
    (m m' : Marks)
    → length m' ≡ length m
    → ((i : ℕ) → IsMarked m i → IsMarked m' i)
    → unmarked m' ≤ unmarked m
unfolding unmarked
unmarked_mono [] [] e k = omega arith
unmarked_mono [] (b ∷ m') e k = absurd (omega arith)
unmarked_mono (b ∷ m) [] e k = absurd (omega arith)
unmarked_mono (true ∷ m) (b' ∷ m') e k =
    let here : b' ≡ true = k 0 refl in
    let rest = unmarked_mono m m' (omega arith) (λ i. k (suc i)) in rw here rest
unmarked_mono (false ∷ m) (true ∷ m') e k =
    omega (arith, unmarked_mono m m' (omega arith) (λ i. k (suc i)))
unmarked_mono (false ∷ m) (false ∷ m') e k =
    omega (arith, unmarked_mono m m' (omega arith) (λ i. k (suc i)))

in_range : (m : Marks) (i : ℕ) → get_or m i true ≡ false → i < length m
in_range [] i h = cc
in_range (b ∷ m) zero h = omega arith
in_range (b ∷ m) (suc i) h = omega (arith, in_range m i h)

module _ (h : Heap Boxed) where
  -- A scan that starts from `from` under the marks `m` gives `o`.
  abbrev pub Traces : List ℕ → Marks → Option Marks → Type 0
  Traces from m o = (m' : Marks) × (o ≡ some m') × IsTraced h from m m'

  -- One mark for each slot.
  abbrev pub Fits : Marks → Type 0
  Fits m = length m ≡ length h.objects

  -- What a jump with the fuel is good for.
  abbrev Jumps : ℕ → Type 0
  Jumps fuel =
      (i : ℕ) (m : Marks)
      → i < length h.objects
      → Fits m
      → unmarked m < fuel
      → Traces (edges h i) m (mark_slot h fuel i m)

  module _ (fuel : ℕ) (jumps : Jumps fuel) where
    visit-Traces :
        (i : ℕ) (m : Marks)
        → Fits m
        → unmarked m ≤ fuel
        → Traces (i ∷ []) m (visit h (mark_slot h fuel) i m)
    unfolding visit
    visit-Traces i m fits enough = elim (Bool-cases (get_or m i true)) [
      | inl old ↦ (m, rw old refl, IsTraced-marked h m i old)
      | inr new ↦
          let (m', e, t) =
            jumps i (set m i true) (omega (arith, fits, in_range m i new))
              (length-set m i true ∙ fits) (omega (arith, unmarked-set m i new)) in
          (m', rw new e, IsTraced-slot h m i t)
    ]

    pub visit_all-Traces :
        (is : List ℕ) (m : Marks)
        → Fits m
        → unmarked m ≤ fuel
        → Traces is m (visit_all h (mark_slot h fuel) is m)
    unfolding visit_all
    visit_all-Traces [] m fits enough = (m, refl, IsTraced-none h m)
    visit_all-Traces (i ∷ is) m fits enough =
        let (m', e, t) = visit-Traces i m fits enough in
        let (m'', e', t') =
          visit_all-Traces is m' (t.same_length ∙ fits)
            (omega (arith, unmarked_mono m m' t.same_length t.kept)) in
        (m'', rw e e', IsTraced-append h (i ∷ []) is t t')

    refs_trace :
        (o : Object Boxed) (m : Marks)
        → Fits m
        → unmarked m ≤ fuel
        → Traces (object_slots h o) m (mark_refs h (mark_slot h fuel) o m)
    refs_trace o m fits enough =
        rw (mark_refs_lem h (mark_slot h fuel) o m)
          (visit_all-Traces (object_slots h o) m fits enough)

  -- A jump to a slot of the heap ends on fuel above the number of unmarked slots, and what it marks
  -- is traced from what the scan visits of the slot. There is one mark for each slot.
  pub mark_slot_traces :
      (fuel i : ℕ) (m : Marks)
      → i < length h.objects
      → length m ≡ length h.objects
      → unmarked m < fuel
      → (m' : Marks) × (mark_slot h fuel i m ≡ some m') × IsTraced h (edges h i) m m'
  unfolding mark_slot edges get
  mark_slot_traces zero i m small fits enough = absurd (omega arith)
  mark_slot_traces (suc fuel) i m small fits enough =
      let (o, e) = some_below h.objects i small in
      rw e (refs_trace fuel (mark_slot_traces fuel) o m fits (omega arith))
