-- ===== src/Heap/Collect.antt =====
-- The loop of the sweep, as functions of the marks and the objects.
use formlogic_rust.Heap.Sweep.{sweep_slot, is_cheap, sweep_loop}
use formlogic_rust.Heap.Store.{Object, add_free, object_ptr, update}
use formlogic_rust.Common.{
  Bool, Bool-cases, List, Option, Option-cases, [], append_assoc, arith, false,
  get_elem?-append_head, if◌then◌else◌, inl, inr, length, length-snoc, none, refl, set-append, some,
  suc, true, ℕ, ◌++◌, ◌||◌, ◌∷◌, ◌≡◌,
}

module _ {ℓ} {R : Type ℓ} where
  -- The objects after the loop, and the free list that it builds.
  abbrev pub swept : List Bool → List (Object R) → List (Object R)
  swept [] os = os
  swept (m ∷ marks) [] = []
  swept (m ∷ marks) (o ∷ os) = (if m || is_cheap o then o else Object.null) ∷ swept marks os

  abbrev pub freed : List Bool → List (Object R) → ℕ → List ℕ → List ℕ
  freed [] os i fs = fs
  freed (m ∷ marks) [] i fs = fs
  freed (m ∷ marks) (o ∷ os) i fs = freed marks os (suc i) (if m || is_cheap o then fs else i ∷ fs)

module _ {ℓ} {R : Type ℓ} (rc_ptr : R → Option ℕ) where
  sweep_slot_lem :
      (m : Bool) (o : Object R) (pre os : List (Object R)) (fs : List ℕ) (rc : ℕ → Option ℕ)
      → (rc' : ℕ → Option ℕ) × (sweep_slot rc_ptr m
            (length pre)
            (record { objects = pre ++ o ∷ os; free_list = fs; rc_index = rc })
          ≡ some (record {
            objects = pre ++ (if m || is_cheap o then o else Object.null) ∷ os;
            free_list = if m || is_cheap o then fs else length pre ∷ fs;
            rc_index = rc';
          }))
  unfolding sweep_slot add_free
  sweep_slot_lem true o pre os fs rc = (rc, refl)
  sweep_slot_lem false o pre os fs rc = elim (Bool-cases (is_cheap o)) [
    | inl cheap ↦ (rc, rw (get_elem?-append_head pre o os) (rw cheap))
    | inr heavy ↦ elim (Option-cases (object_ptr rc_ptr o)) [
      | inl plain ↦ (
        rc,
        rw (get_elem?-append_head pre o os) (rw (heavy, plain, set-append pre o Object.null os)),
      )
      | inr (ptr, counted) ↦ (
        update rc ptr none,
        rw (get_elem?-append_head pre o os) (rw (heavy, counted, set-append pre o Object.null os)),
      )
    ]
  ]

  -- The loop computes `swept` and `freed`, and never panics.
  pub sweep_loop_lem :
      (marks : List Bool) (os pre : List (Object R)) (fs : List ℕ) (rc : ℕ → Option ℕ)
      → length marks ≡ length os
      → (rc' : ℕ → Option ℕ) × (sweep_loop rc_ptr marks
            (length pre)
            (record { objects = pre ++ os; free_list = fs; rc_index = rc })
          ≡ some (record {
            objects = pre ++ swept marks os;
            free_list = freed marks os (length pre) fs;
            rc_index = rc';
          }))
  unfolding sweep_loop
  sweep_loop_lem [] [] pre fs rc h = (rc, refl)
  sweep_loop_lem [] (o ∷ os) pre fs rc h = absurd (omega arith)
  sweep_loop_lem (m ∷ marks) [] pre fs rc h = absurd (omega arith)
  sweep_loop_lem (m ∷ marks) (o ∷ os) pre fs rc h =
      let o' = if m || is_cheap o then o else Object.null in
      let fs' = if m || is_cheap o then fs else length pre ∷ fs in
      let (rc1, first) = sweep_slot_lem m o pre os fs rc in
      let (rc2, rest) = sweep_loop_lem marks os (pre ++ o' ∷ []) fs' rc1 (omega arith) in
      (
        rc2,
        rw first (
            rw
              (
                length-snoc pre o',
                append_assoc pre (o' ∷ []) os,
                append_assoc pre (o' ∷ []) (swept marks os),
              )
              at rest),
      )
