-- ===== src/Heap/Safety.antt =====
-- The sweep as a whole: nothing marked is lost, and the free list it leaves can be trusted.
use formlogic_rust.Heap.FreeList.{contains-keep_below, keep_below-All, keep_below-Distinct}
use formlogic_rust.Heap.Collect.{swept, freed, sweep_loop_lem}
use formlogic_rust.Heap.Alloc.{contains, IsWellFormed}
use formlogic_rust.Heap.Slots.{collected, get_elem?-swept, contains-freed, freed-Distinct}
use formlogic_rust.Heap.Sweep.{is_cheap, truncate, get_elem?-truncate, sweep}
use formlogic_rust.Heap.Store.{Object, Heap, get, keep_below, clear_free_list, trim_free_list}
use formlogic_rust.Common.{
  Bool, Bool-cases, List, Option, [], arith, false, get_elem?, get_elem?-none, get_elem?-none_le,
  inl, inr, length, ltb, ltb→lt, none, refl, some, suc, sym, tests, true, zero, ℕ, ◌&&◌, ◌∙◌, ◌∷◌,
  ◌≡◌, ◌⊎◌,
}

module _ {ℓ} {R : Type ℓ} where
  -- What the sweep makes of the heap `h` under the marks.
  pub record IsCollected (marks : List Bool) (h h' : Heap R) : Type ℓ where
    -- A marked slot keeps its object; only a null at the end of the vector may go.
    pub marked_kept :
        (i : ℕ) (o : Object R)
        → get_elem? marks i ≡ some true
        → get h i ≡ some o
        → (get h' i ≡ some o) ⊎ ((o ≡ Object.null) × (get h' i ≡ none))
    -- A free slot holds null and was not marked.
    pub free_unmarked :
        (i : ℕ)
        → contains h'.free_list i ≡ true
        → (get h' i ≡ some Object.null) × (get_elem? marks i ≡ some false)
    -- A string or a boxed object that was not marked leaves a free slot, or none at all.
    pub garbage_freed :
        (i : ℕ) (o : Object R)
        → get_elem? marks i ≡ some false
        → get h i ≡ some o
        → is_cheap o ≡ false
        → (contains h'.free_list i ≡ true) ⊎ (get h' i ≡ none)
    pub well_formed : IsWellFormed h'

module _ {ℓ} {R : Type ℓ} where
  collected_unmarked :
      (marks : List Bool) (os : List (Object R)) (i : ℕ)
      → collected marks os i ≡ true
      → get_elem? marks i ≡ some false
  collected_unmarked [] os i h = cc
  collected_unmarked (m ∷ marks) [] i h = cc
  collected_unmarked (m ∷ marks) (o ∷ os) zero h = ground arith
  collected_unmarked (m ∷ marks) (o ∷ os) (suc i) h = collected_unmarked marks os i h

  marked_uncollected :
      (marks : List Bool) (os : List (Object R)) (i : ℕ)
      → get_elem? marks i ≡ some true
      → collected marks os i ≡ false
  marked_uncollected [] os i h = refl
  marked_uncollected (m ∷ marks) [] i h = refl
  marked_uncollected (m ∷ marks) (o ∷ os) zero h = ground arith
  marked_uncollected (m ∷ marks) (o ∷ os) (suc i) h = marked_uncollected marks os i h

  heavy_collected :
      (marks : List Bool) (os : List (Object R)) (i : ℕ) {o : Object R}
      → get_elem? marks i ≡ some false
      → get_elem? os i ≡ some o
      → is_cheap o ≡ false
      → collected marks os i ≡ true
  heavy_collected [] os i h g c = cc
  heavy_collected (m ∷ marks) [] i h g c = cc
  heavy_collected (m ∷ marks) (p ∷ os) zero {o} h g c =
      let same : p ≡ o = cc in rw same (ground arith)
  heavy_collected (m ∷ marks) (p ∷ os) (suc i) h g c = heavy_collected marks os i h g c

  null_uncollected :
      (marks : List Bool) (os : List (Object R)) (i : ℕ)
      → get_elem? os i ≡ some Object.null
      → collected marks os i ≡ false
  unfolding is_cheap
  null_uncollected [] os i h = refl
  null_uncollected (m ∷ marks) [] i h = refl
  null_uncollected (m ∷ marks) (p ∷ os) zero h =
      let same : p ≡ Object.null = cc in rw same (ground arith)
  null_uncollected (m ∷ marks) (p ∷ os) (suc i) h = null_uncollected marks os i h

module _ {ℓ} {R : Type ℓ} (marks : List Bool) (os : List (Object R)) (rc : ℕ → Option ℕ) where
  -- The heap that `sweep` returns, up to `rc_index`.
  result : Heap R
  result =
      let kept = truncate (swept marks os) in
      record {
        objects = kept;
        free_list = keep_below (length kept) (freed marks os 0 []);
        rc_index = rc;
      }

  free_in_result :
      (i : ℕ)
      → contains result.free_list i
        ≡ (collected marks os i && ltb i (length (truncate (swept marks os))))
  unfolding result
  free_in_result i =
      contains-keep_below (length (truncate (swept marks os))) i (freed marks os 0 [])
      ∙ rw (contains-freed marks os i)

  result_kept :
      (i : ℕ) (o : Object R)
      → get_elem? (swept marks os) i ≡ some o
      → (get result i ≡ some o) ⊎ ((o ≡ Object.null) × (get result i ≡ none))
  unfolding result get
  result_kept i o h = elim (get_elem?-truncate (swept marks os) i) [
    | inl same ↦ inl (same ∙ h)
    | inr (nothing, gone) ↦ inr (cc, gone)
  ]

  result_null :
      (i : ℕ)
      → collected marks os i ≡ true
      → ltb i (length (truncate (swept marks os))) ≡ true
      → get result i ≡ some Object.null
  unfolding result get
  result_null i taken inside = elim (get_elem?-truncate (swept marks os) i) [
    | inl same ↦ same ∙ get_elem?-swept marks os i ∙ rw taken
    | inr (nothing, gone) ↦
        absurd
          (omega (tests, get_elem?-none_le (truncate (swept marks os)) i gone, ltb→lt _ _ inside))
  ]

  result_none : (i : ℕ) → ltb i (length (truncate (swept marks os))) ≡ false → get result i ≡ none
  unfolding result get
  result_none i outside = get_elem?-none (truncate (swept marks os)) i (ground arith)

  result-IsWellFormed : IsWellFormed result
  unfolding result
  result-IsWellFormed = record {
    bounded = keep_below-All (length (truncate (swept marks os))) (freed marks os 0 []);
    distinct = keep_below-Distinct _ (freed marks os 0 []) (freed-Distinct marks os 0 [] tt tt);
  }

  result_freed :
      (i : ℕ)
      → collected marks os i ≡ true
      → (contains result.free_list i ≡ true) ⊎ (get result i ≡ none)
  result_freed i taken = elim (Bool-cases (ltb i (length (truncate (swept marks os))))) [
    | inl inside ↦ inl (free_in_result i ∙ rw (taken, inside))
    | inr outside ↦ inr (result_none i outside)
  ]

  result-IsCollected :
      length marks ≡ length os → (h : Heap R) → h.objects ≡ os → IsCollected marks h result
  unfolding get
  result-IsCollected len h e = record {
    marked_kept = λ i o m g.
        let here : get_elem? os i ≡ some o = rw e at g in
        result_kept i o (get_elem?-swept marks os i ∙ rw (marked_uncollected marks os i m) here);
    free_unmarked = λ i f.
        let both : (collected marks os i && ltb i (length (truncate (swept marks os)))) ≡ true =
          sym (free_in_result i) ∙ f in
        let taken : collected marks os i ≡ true = ground arith in
        let inside : ltb i (length (truncate (swept marks os))) ≡ true = ground arith in
        (result_null i taken inside, collected_unmarked marks os i taken);
    garbage_freed = λ i o m g c.
        let here : get_elem? os i ≡ some o = rw e at g in
        result_freed i (heavy_collected marks os i m here c);
    well_formed = result-IsWellFormed;
  }

module _ {ℓ} {R : Type ℓ} (rc_ptr : R → Option ℕ) where
  sweep-result :
      (marks : List Bool) (h : Heap R)
      → length marks ≡ length h.objects
      → (rc : ℕ → Option ℕ) × (sweep rc_ptr marks h ≡ some (result marks h.objects rc))
  unfolding sweep result clear_free_list trim_free_list
  sweep-result marks h len =
      let (rc, loop) = sweep_loop_lem rc_ptr marks h.objects [] [] h.rc_index len in (rc, rw loop)

  -- With one mark for each slot the sweep does not panic. A marked slot keeps its object, except
  -- that a marked null may go with the end of the vector; a heavy object that was not marked leaves a
  -- free slot or none at all; and the free list names slots inside the vector, each once, that hold
  -- null and were not marked.
  pub sweep_safe :
      (marks : List Bool) (h : Heap R)
      → length marks ≡ length h.objects
      → (h' : Heap R) × (sweep rc_ptr marks h ≡ some h') × IsCollected marks h h'
  sweep_safe marks h len =
      let (rc, e) = sweep-result marks h len in
      (result marks h.objects rc, e, result-IsCollected marks h.objects rc len h refl)

  -- A slot that holds null when the sweep begins, as every slot freed by an earlier one does, is on
  -- no free list afterwards: the old list is cleared and null objects are passed over.
  pub sweep_forgets_null :
      (marks : List Bool) (h : Heap R) (i : ℕ) {h' : Heap R}
      → length marks ≡ length h.objects
      → get h i ≡ some Object.null
      → sweep rc_ptr marks h ≡ some h'
      → contains h'.free_list i ≡ false
  unfolding get
  sweep_forgets_null marks h i {h'} len nothing e =
      let (rc, made) = sweep-result marks h len in
      let same : h' ≡ result marks h.objects rc = cc in
      rw same
        (free_in_result marks h.objects rc i ∙ rw (null_uncollected marks h.objects i nothing))
