-- ===== src/Gc/Safe.antt =====
-- `gc_collect` of engine.rs against reachability: marking, sweep and free list together.
use mathlib.Core.List.{Memᴰ}
use formlogic_rust.Heap.Store.{Heap, Object, get}
use formlogic_rust.Heap.Sweep.{is_cheap}
use formlogic_rust.Heap.Alloc.{contains, IsWellFormed}
use formlogic_rust.Heap.FreeList.{below_fresh}
use formlogic_rust.Heap.Safety.{IsCollected, sweep_safe}
use formlogic_rust.Globals.Dirty.{IsShared}
use formlogic_rust.Gc.Collect.{Vm, clear_caches, gc_collect}
use formlogic_rust.Gc.Mark.{Marks}
use formlogic_rust.Gc.Slots.{Reach, edges, root, step}
use formlogic_rust.Gc.Roots.{root_slots}
use formlogic_rust.Gc.RootScan.{mark_roots_trace}
use formlogic_rust.Gc.Traced.{IsMarked, IsTraced}
use formlogic_rust.Gc.Object.{Boxed, rc_ptr}
use formlogic_rust.Common.{
  ==_iff, Bool, Bool-cases, List, Option, [], ap, arith, false, get_elem?, get_elem?-lt,
  get_elem?-none, get_or, inl, inr, length, length-replicate, none, refl, replicate, some,
  some_below, suc, true, zero, ℕ, ◌<◌, ◌==◌, ◌∙◌, ◌∷◌, ◌≡◌, ◌≤◌, ◌⊎◌,
}

-- What a collection with the roots `from` makes of the heap `h`.
pub record IsGcResult (from : List ℕ) (h h' : Heap Boxed) : Type 0 where
  -- A reachable slot keeps its object; only a null at the end of the vector may go.
  pub live_kept :
      (i : ℕ) (o : Object Boxed)
      → Reach h from i
      → get h i ≡ some o
      → (get h' i ≡ some o) ⊎ ((o ≡ Object.null) × (get h' i ≡ none))
  -- A free slot holds null and was not reachable.
  pub free_dead :
      (i : ℕ) → contains h'.free_list i ≡ true → (get h' i ≡ some Object.null) × (¬ Reach h from i)
  -- A string or boxed object that was not reachable leaves a free slot, or none at all.
  pub garbage_freed :
      (i : ℕ) (o : Object Boxed)
      → ¬ Reach h from i
      → get h i ≡ some o
      → is_cheap o ≡ false
      → (contains h'.free_list i ≡ true) ⊎ (get h' i ≡ none)
  pub well_formed : IsWellFormed h'

get_or-some : (m : Marks) (i : ℕ) {b : Bool} → get_elem? m i ≡ some b → get_or m i true ≡ b
get_or-some [] i h = cc
get_or-some (x ∷ m) zero h = cc
get_or-some (x ∷ m) (suc i) h = get_or-some m i h

marked-some : (m : Marks) (i : ℕ) → i < length m → IsMarked m i → get_elem? m i ≡ some true
marked-some [] i small h = absurd (omega arith)
marked-some (x ∷ m) zero small h = ap some h
marked-some (x ∷ m) (suc i) small h = marked-some m i (omega arith) h

fresh_unmarked : (n i : ℕ) → IsMarked (replicate n false) i → n ≤ i
fresh_unmarked zero i h = omega arith
fresh_unmarked (suc n) zero h = cc
fresh_unmarked (suc n) (suc i) h = omega (arith, fresh_unmarked n i h)

clash : {o : Option Bool} → o ≡ some true → o ≡ some false → ⊥
clash h k = cc

module _ (from : List ℕ) (h : Heap Boxed) (marks : Marks)
    (t : IsTraced h from (replicate (length h.objects) false) marks) where
  marks-length : length marks ≡ length h.objects
  marks-length = t.same_length ∙ length-replicate (length h.objects) false

  past_edges : (k i : ℕ) → length h.objects ≤ k → Memᴰ i (edges h k) → ⊥
  unfolding edges get
  past_edges k i past m =
      let none_here : get_elem? h.objects k ≡ none = get_elem?-none h.objects k past in
      elim (rw none_here at m) [ ]

  -- The marked slots are the reachable ones.
  Reach-IsMarked : (i : ℕ) → Reach h from i → IsMarked marks i
  Reach-IsMarked i (root m) = t.rooted i m
  Reach-IsMarked i (step {i = k} r m) = elim (t.closed k (Reach-IsMarked k r)) [
    | inl early ↦ absurd (past_edges k i (fresh_unmarked (length h.objects) k early) m)
    | inr done ↦ done i m
  ]

  marked-Reach : (i : ℕ) → get_elem? marks i ≡ some true → Reach h from i
  marked-Reach i e = elim (t.only i (get_or-some marks i e)) [
    | inl early ↦ absurd (
        omega
          (arith, fresh_unmarked (length h.objects) i early, get_elem?-lt marks i e, marks-length))
    | inr r ↦ r
  ]

  result : (h' : Heap Boxed) → IsCollected marks h h' → IsGcResult from h h'
  unfolding get
  result h' c = record {
    live_kept = λ i o r e.
        c.marked_kept i o
          (marked-some marks i (omega (arith, marks-length, get_elem?-lt h.objects i e))
            (Reach-IsMarked i r))
          e;
    free_dead = λ i f.
        let (gone, dead) = c.free_unmarked i f in
        (
          gone,
          λ r. clash (marked-some marks i (get_elem?-lt marks i dead) (Reach-IsMarked i r)) dead,
        );
    garbage_freed = λ i o dead e heavy.
        let (b, at) =
          some_below marks i (omega (arith, marks-length, get_elem?-lt h.objects i e)) in
        elim (Bool-cases b) [
          | inl marked ↦ absurd (dead (marked-Reach i (at ∙ ap some marked)))
          | inr unseen ↦ c.garbage_freed i o (at ∙ ap some unseen) e heavy
        ];
    well_formed = c.well_formed;
  }

empty_result :
    (from : List ℕ) (h : Heap Boxed) → IsWellFormed h → length h.objects ≡ 0 → IsGcResult from h h
unfolding get
empty_result from h wf empty = record {
  live_kept = λ i o r e. inl e;
  free_dead = λ i f.
      absurd (clash' f (below_fresh (length h.objects) i h.free_list wf.bounded (omega arith)));
  garbage_freed = λ i o dead e heavy. absurd (omega (arith, get_elem?-lt h.objects i e));
  well_formed = wf;
}
  where
    clash' : {b : Bool} → b ≡ true → b ≡ false → ⊥
    clash' h k = cc

-- Under a well-formed free list and globals, and with the stack pointer inside the stack's vector,
-- `gc_collect` neither panics nor runs out of fuel. Of the references that its marking scans (not the captured values of functions, nor the chains of
-- super levels): a slot that they reach from the roots keeps its object, except that a null at the
-- end of the heap may go; a slot that they do not reach is freed if it holds a string or a boxed
-- object; and a slot on the new free list is out of reach and holds null.
pub gc_collect-IsGcResult :
    (vm : Vm) (h : Heap Boxed)
    → IsShared vm.globals
    → vm.sp ≤ length vm.stack
    → IsWellFormed h
    → (vm' : Vm) × (h' : Heap Boxed) × (gc_collect vm h ≡ some (vm', h'))
      × IsGcResult (root_slots h vm) h h'
unfolding gc_collect
gc_collect-IsGcResult vm h ok room wf = elim (Bool-cases (length h.objects == 0)) [
  | inl empty ↦ (vm, h, rw empty refl, empty_result (root_slots h vm) h wf ((==_iff _ 0).0 empty))
  | inr some_slots ↦
      let (marks, marked, t) =
        mark_roots_trace h vm ok room (replicate (length h.objects) false)
          (length-replicate (length h.objects) false) in
      let (h', swept, c) = sweep_safe rc_ptr marks h (marks-length (root_slots h vm) h marks t) in
      (
        clear_caches vm,
        h',
        rw (some_slots, marked, swept) refl,
        result (root_slots h vm) h marks t h' c,
      )
]
