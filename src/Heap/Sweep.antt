-- ===== src/Heap/Sweep.antt =====
-- Phases 2 and 3 of `gc_collect` in crates/formlogic-core/src/engine.rs: null out what was not
-- marked, rebuild the free list, drop trailing nulls. The marks are an argument, one per slot.
use formlogic_rust.Heap.Store.{
  unregister_rc, Object, Heap, clear_free_list, trim_free_list, add_free,
}
use formlogic_rust.Common.{
  Bool, Bool-cases, List, Option, [], ap, false, get_elem?, if◌then◌else◌, inl, inr, length, none,
  refl, set, some, suc, true, zero, ℕ, ◌>>=◌, ◌∷◌, ◌≡◌, ◌⊎◌,
}

module _ {ℓ} {R : Type ℓ} where
  -- `matches!(obj, Null | Undefined | Integer | Float | Boolean)`
  unfoldable pub is_cheap : Object R → Bool
  is_cheap (Object.integer v) = true
  is_cheap (Object.float v) = true
  is_cheap (Object.boolean v) = true
  is_cheap Object.null = true
  is_cheap Object.undefined = true
  is_cheap (Object.string s) = false
  is_cheap (Object.other r) = false

  abbrev pub is_null_object : Object R → Bool
  is_null_object Object.null = true
  is_null_object (Object.integer v) = false
  is_null_object (Object.float v) = false
  is_null_object (Object.boolean v) = false
  is_null_object Object.undefined = false
  is_null_object (Object.string s) = false
  is_null_object (Object.other r) = false

  truncate_cons : Object R → List (Object R) → List (Object R)
  truncate_cons o [] = if is_null_object o then [] else o ∷ []
  truncate_cons o (x ∷ xs) = o ∷ x ∷ xs

  -- `while objects.last() is Null { objects.pop(); }`: the front is kept if anything after it is.
  unfoldable pub truncate : List (Object R) → List (Object R)
  unfolding truncate_cons
  truncate [] = []
  truncate (o ∷ os) = truncate_cons o (truncate os)

  null_of : (o : Object R) → is_null_object o ≡ true → o ≡ Object.null
  null_of Object.null h = refl
  null_of (Object.integer v) h = cc
  null_of (Object.float v) h = cc
  null_of (Object.boolean v) h = cc
  null_of Object.undefined h = cc
  null_of (Object.string s) h = cc
  null_of (Object.other r) h = cc

  truncate_cons-suc :
      (o : Object R) (ts : List (Object R)) (i : ℕ)
      → get_elem? (truncate_cons o ts) (suc i) ≡ get_elem? ts i
  unfolding truncate_cons
  truncate_cons-suc o [] i = elim (Bool-cases (is_null_object o)) [
    | inl nothing ↦ rw nothing
    | inr something ↦ rw something
  ]
  truncate_cons-suc o (x ∷ xs) i = refl

  truncate_cons_zero :
      (o : Object R) (ts : List (Object R))
      → (get_elem? (truncate_cons o ts) 0 ≡ some o)
        ⊎ ((some o ≡ some Object.null) × (get_elem? (truncate_cons o ts) 0 ≡ none))
  unfolding truncate_cons
  truncate_cons_zero o [] = elim (Bool-cases (is_null_object o)) [
    | inl nothing ↦ inr (ap some (null_of o nothing), rw nothing)
    | inr something ↦ inl (rw something)
  ]
  truncate_cons_zero o (x ∷ xs) = inl refl

  -- Popping trailing nulls leaves a slot alone, or drops it together with the null in it.
  pub get_elem?-truncate :
      (os : List (Object R)) (i : ℕ)
      → (get_elem? (truncate os) i ≡ get_elem? os i)
        ⊎ ((get_elem? os i ≡ some Object.null) × (get_elem? (truncate os) i ≡ none))
  unfolding truncate
  get_elem?-truncate [] i = inl refl
  get_elem?-truncate (o ∷ os) zero = truncate_cons_zero o (truncate os)
  get_elem?-truncate (o ∷ os) (suc i) =
      rw (truncate_cons-suc o (truncate os) i) (get_elem?-truncate os i)

module _ {ℓ} {R : Type ℓ} (rc_ptr : R → Option ℕ) where
  -- One round of the sweep.
  unfoldable pub sweep_slot : Bool → ℕ → Heap R → Option (Heap R)
  unfolding unregister_rc add_free is_cheap
  sweep_slot reachable i h = if reachable then some h else (do
    obj ← get_elem? h.objects i
    if is_cheap obj then some h else (do
      h' ← unregister_rc rc_ptr i h
      some (add_free i (record h' { objects = set h'.objects i Object.null }))))

  unfoldable pub sweep_loop : List Bool → ℕ → Heap R → Option (Heap R)
  sweep_loop [] i h = some h
  sweep_loop (reachable ∷ marks) i h = sweep_slot reachable i h >>= sweep_loop marks (suc i)

  unfoldable pub sweep : List Bool → Heap R → Option (Heap R)
  unfolding sweep_loop sweep_slot truncate clear_free_list trim_free_list
  sweep marks h = do
    swept ← sweep_loop marks 0 (clear_free_list h)
    let objects = truncate swept.objects
    some (trim_free_list (length objects) (record swept { objects = objects }))
