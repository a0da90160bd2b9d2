-- ===== src/Heap/Alloc.antt =====
-- `alloc` hands out a slot that nothing uses, and disturbs no other.
use native.Mathlib.Nat.{mod-eq_of_lt}
use formlogic_rust.Common.{
  All, Bool, List, Option, Option-cases, [], arith, false, get_elem?, get_elem?-append_head,
  get_elem?-append_left, get_elem?-set_ne, get_elem?-set_self, if◌then◌else◌, inl, inr, length,
  length-append, length-set, lt→ltb, refl, set, some, true, ℕ, ◌++◌, ◌+◌, ◌<◌, ◌==◌, ◌^◌, ◌∷◌, ◌≡◌,
  ◌≢◌, ◌≤◌,
}
use formlogic_rust.Heap.Store.{Object, Heap, get, alloc, register_rc, registered, object_ptr}

abbrev pub contains : List ℕ → ℕ → Bool
contains [] i = false
contains (x ∷ xs) i = if x == i then true else contains xs i

abbrev pub Distinct : List ℕ → Type 0
Distinct [] = Unit
Distinct (x ∷ xs) = (contains xs x ≡ false) × Distinct xs

module _ {ℓ} {R : Type ℓ} where
  -- A slot that is in use.
  abbrev pub IsLive : Heap R → ℕ → Type 0
  IsLive h i = (i < length h.objects) × (contains h.free_list i ≡ false)

  -- The free list names slots of the vector, each once.
  pub record IsWellFormed (h : Heap R) : Type 0 where
    pub bounded : All (λ i. i < length h.objects) h.free_list
    pub distinct : Distinct h.free_list

  -- What `alloc` promises for the slot `idx` in `h'`.
  pub record IsFresh (obj : Object R) (h h' : Heap R) (idx : ℕ) : Type ℓ where
    pub stored : get h' idx ≡ some obj
    pub unused : ¬ IsLive h idx
    pub live : IsLive h' idx
    pub grown : length h'.objects ≤ length h.objects + 1
    pub kept : (i : ℕ) → IsLive h i → (get h' i ≡ get h i) × IsLive h' i
    pub well_formed : IsWellFormed h'
    pub one_more :
        length h'.objects + length h.free_list ≡ length h.objects + length h'.free_list + 1

  -- A heap that differs only in `rc_index`.
  abbrev SameSlots : Heap R → Heap R → Type ℓ
  SameSlots h h' = (h'.objects ≡ h.objects) × (h'.free_list ≡ h.free_list)

  module _ (obj : Object R) (os : List (Object R)) (rc : ℕ → Option ℕ) (h' : Heap R) where
    grow-IsFresh :
        SameSlots (record { objects = os ++ obj ∷ []; free_list = []; rc_index = rc }) h'
        → IsFresh obj (record { objects = os; free_list = []; rc_index = rc }) h' (length os)
    unfolding get
    grow-IsFresh (eo, ef) = record {
      stored = rw eo (get_elem?-append_head os obj []);
      unused = λ l. omega (arith, l.0);
      grown = rw (eo, length-append os (obj ∷ [])) (omega arith);
      live = rw (eo, ef, length-append os (obj ∷ [])) (omega arith, refl);
      kept = λ i l.
          rw (eo, ef, length-append os (obj ∷ []))
            (get_elem?-append_left os (obj ∷ []) i l.0, (omega (arith, l.0), refl));
      well_formed = record { bounded = rw (eo, ef) tt; distinct = rw ef tt };
      one_more = rw (eo, ef, length-append os (obj ∷ [])) (omega arith);
    }

    reuse-IsFresh :
        (idx : ℕ) (rest : List ℕ)
        → IsWellFormed (record { objects = os; free_list = idx ∷ rest; rc_index = rc })
        → SameSlots (record { objects = set os idx obj; free_list = rest; rc_index = rc }) h'
        → IsFresh obj (record { objects = os; free_list = idx ∷ rest; rc_index = rc }) h' idx
    unfolding get
    reuse-IsFresh idx rest wf (eo, ef) = record {
      stored = rw eo (get_elem?-set_self os idx obj wf.bounded.0);
      unused = λ l. ground (arith, l.1);
      grown = rw (eo, length-set os idx obj) (omega arith);
      live = rw (eo, ef, length-set os idx obj) (wf.bounded.0, wf.distinct.0);
      kept = λ i l.
          let other_slot : idx ≢ i = ground (arith, l.1) in
          let not_free : contains rest i ≡ false = ground (arith, l.1) in
          rw (eo, ef, length-set os idx obj) (get_elem?-set_ne os obj other_slot, (l.0, not_free));
      well_formed = record {
        bounded = rw (eo, ef, length-set os idx obj) wf.bounded.1;
        distinct = rw ef wf.distinct.1;
      };
      one_more = rw (eo, ef, length-set os idx obj) (omega arith);
    }

module _ {ℓ} {R : Type ℓ} (rc_ptr : R → Option ℕ) where
  registered-slots :
      (obj : Object R) (idx : ℕ) (h : Heap R)
      → ((registered rc_ptr obj idx h).objects ≡ h.objects)
        × ((registered rc_ptr obj idx h).free_list ≡ h.free_list)
  registered-slots obj idx h = elim (Option-cases (object_ptr rc_ptr obj)) [
    | inl plain ↦ rw (plain, registered) (refl, refl)
    | inr (ptr, counted) ↦ rw (counted, registered) (refl, refl)
  ]

  register_rc-registered :
      (obj : Object R) (idx : ℕ) (h : Heap R)
      → get_elem? h.objects idx ≡ some obj
      → register_rc rc_ptr idx h ≡ some (registered rc_ptr obj idx h)
  unfolding register_rc
  register_rc-registered obj idx h e = rw e

  alloc_parts :
      (obj : Object R) (os : List (Object R)) (fs : List ℕ) (rc : ℕ → Option ℕ)
      → let h : Heap R = record { objects = os; free_list = fs; rc_index = rc } in
        IsWellFormed h
        → length os < 2 ^ 32
        → (idx : ℕ) × (h' : Heap R) × (alloc rc_ptr obj h ≡ some (idx, h')) × IsFresh obj h h' idx
  unfolding alloc
  alloc_parts obj os [] rc wf small =
      let placed : Heap R = record { objects = os ++ obj ∷ []; free_list = []; rc_index = rc } in
      let h' = registered rc_ptr obj (length os) placed in
      (
        length os,
        h',
        rw (
          mod-eq_of_lt small,
          register_rc-registered obj (length os) placed (get_elem?-append_head os obj []),
        ),
        grow-IsFresh obj os rc h' (registered-slots obj (length os) placed),
      )
  alloc_parts obj os (idx ∷ rest) rc wf small =
      let placed : Heap R = record { objects = set os idx obj; free_list = rest; rc_index = rc } in
      let h' = registered rc_ptr obj idx placed in
      (
        idx,
        h',
        rw (
          lt→ltb idx (length os) wf.bounded.0,
          register_rc-registered obj idx placed (get_elem?-set_self os idx obj wf.bounded.0),
        ),
        reuse-IsFresh obj os rc h' idx rest wf (registered-slots obj idx placed),
      )

  -- On a well-formed heap whose indices fit in 32 bits, `alloc` never panics. The slot it returns
  -- was not in use, holds the object, and is in use from then on; every slot in use keeps its
  -- object; the heap stays well-formed and has one more slot in use.
  pub alloc-IsFresh :
      (obj : Object R) (h : Heap R)
      → IsWellFormed h
      → length h.objects < 2 ^ 32
      → (idx : ℕ) × (h' : Heap R) × (alloc rc_ptr obj h ≡ some (idx, h')) × IsFresh obj h h' idx
  alloc-IsFresh obj h wf small = alloc_parts obj h.objects h.free_list h.rc_index wf small
