-- ===== src/Gc/RootScan.antt =====
-- The marking of the roots in `gc_collect` of engine.rs traces from every slot that they name.
use mathlib.Core.Path.{subst}
use formlogic_rust.Heap.Store.{Heap}
use formlogic_rust.Globals.{SharedGlobals, get_unchecked}
use formlogic_rust.Globals.Dirty.{IsShared}
use formlogic_rust.Value.Word.{is_heap, heap_index, undefined_value}
use formlogic_rust.Gc.Collect.{
  Vm, CallFrame, mark_global, mark_globals, mark_stack, mark_frames, mark_listeners, mark_cache,
  mark_pool, mark_roots,
}
use formlogic_rust.Gc.Mark.{Marks, mark_slot, mark_value, mark_values, mark_nested_objects}
use formlogic_rust.Gc.Slots.{value_slots, nesteds_slots}
use formlogic_rust.Gc.Scan.{visit_all, mark_values_lem, nesteds_lem}
use formlogic_rust.Gc.Traced.{
  IsTraced-none, IsTraced-marked, IsTraced-slot, IsTraced-append, IsTraced-marked,
}
use formlogic_rust.Gc.Fuel.{Traces, Fits, unmarked-le, visit_all-Traces, mark_slot_traces}
use formlogic_rust.Gc.Object.{Boxed, Nesteds, option_list}
use formlogic_rust.Gc.Roots.{root_slots, frames_slots, listeners_slots, cache_slots, pool_slots}
use formlogic_rust.Value.Word.{has_tag}
use formlogic_rust.Common.{
  Bool-cases, List, Option, [], arith, drop, get_elem?, get_or, if◌then◌else◌, inl, inr, length,
  length-set, ltb, ltb→lt, none, refl, set, some, some_below, suc, sym, take, tests, true, zero, ℕ,
  ◌++◌, ◌+◌, ◌>>=◌, ◌∙◌, ◌∷◌, ◌≡◌, ◌≤◌,
}

module _ (h : Heap Boxed) where
  abbrev fuel : ℕ
  fuel = length h.objects + 1

  -- `f` traces from `from`, whatever was marked before.
  abbrev Scans : List ℕ → (Marks → Option Marks) → Type 0
  Scans from f = (m : Marks) → Fits h m → Traces h from m (f m)

  scan_chain :
      {f : Marks → Option Marks} {xs ys : List ℕ} {m : Marks} {o : Option Marks}
      → Fits h m
      → Traces h xs m o
      → Scans ys f
      → Traces h (xs ++ ys) m (o >>= f)
  scan_chain {xs} {ys} fits (m', e, t) g =
      let (m'', e', t') = g m' (t.same_length ∙ fits) in
      (m'', rw e e', IsTraced-append h xs ys t t')

  scan_list : (is : List ℕ) → Scans is (visit_all h (mark_slot h fuel) is)
  scan_list is m fits =
      visit_all-Traces h fuel (mark_slot_traces h fuel) is m fits
        (omega (arith, fits, unmarked-le m))

  scan_values : (vs : List ℕ) → Scans (value_slots vs) (mark_values h (mark_slot h fuel) vs)
  scan_values vs m fits =
      rw (mark_values_lem h (mark_slot h fuel) vs m) (scan_list (value_slots vs) m fits)

  scan_nesteds :
      (os : Nesteds) → Scans (nesteds_slots h os) (mark_nested_objects h (mark_slot h fuel) os)
  scan_nesteds os m fits =
      rw (nesteds_lem h (mark_slot h fuel) os m) (scan_list (nesteds_slots h os) m fits)

  bind_end : (o : Option Marks) → (o >>= mark_values h (mark_slot h fuel) []) ≡ o
  unfolding mark_values
  bind_end none = refl
  bind_end (some m) = refl

  scan_value : (v : ℕ) → Scans (value_slots (v ∷ [])) (mark_value h (mark_slot h fuel) v)
  unfolding mark_values
  scan_value v m fits =
      subst (λ o. Traces h (value_slots (v ∷ [])) m o)
        (bind_end (mark_value h (mark_slot h fuel) v m)) (scan_values (v ∷ []) m fits)

  scan_heap :
      (i : ℕ)
      → Scans (i ∷ []) (λ m. if ltb i (length m) then mark_slot h fuel i (set m i true) else some m)
  scan_heap i m fits = elim (Bool-cases (ltb i (length m))) [
    | inl inside ↦
        let set_fits : Fits h (set m i true) = length-set m i true ∙ fits in
        let (m', e, t) =
          mark_slot_traces h fuel i (set m i true) (omega (tests, fits, ltb→lt _ _ inside)) set_fits
            (omega (arith, set_fits, unmarked-le (set m i true))) in
        (m', rw inside e, IsTraced-slot h m i t)
    | inr outside ↦ (m, rw outside refl, IsTraced-marked h m i (past_end m i (ground arith)))
  ]
    where
      past_end : (m : Marks) (i : ℕ) → length m ≤ i → get_or m i true ≡ true
      past_end [] i h = refl
      past_end (b ∷ m) zero h = absurd (omega arith)
      past_end (b ∷ m) (suc i) h = past_end m i (omega arith)

  scan_global : (v : ℕ) → Scans (value_slots (v ∷ [])) (mark_global h fuel v)
  unfolding mark_global value_slots
  scan_global v m fits = elim (Bool-cases (is_heap v)) [
    | inl heap ↦ rw heap (scan_heap (heap_index v) m fits)
    | inr other ↦ rw other (m, refl, IsTraced-none h m)
  ]

  scan_frames : (fs : List CallFrame) → Scans (frames_slots h fs) (mark_frames h fuel fs)
  unfolding mark_frames frames_slots
  scan_frames [] m fits = (m, refl, IsTraced-none h m)
  scan_frames (f ∷ fs) m fits =
      scan_chain fits
        (scan_chain fits (scan_nesteds f.frame_locals m fits) (scan_nesteds f.frame_constants))
        (scan_frames fs)

  scan_listeners : (ls : List (List ℕ)) → Scans (listeners_slots h ls) (mark_listeners h fuel ls)
  unfolding mark_listeners listeners_slots
  scan_listeners [] m fits = (m, refl, IsTraced-none h m)
  scan_listeners (vs ∷ ls) m fits = scan_chain fits (scan_values vs m fits) (scan_listeners ls)

  scan_cache : (ls : List (ℕ × List ℕ)) → Scans (cache_slots h ls) (mark_cache h fuel ls)
  unfolding mark_cache cache_slots
  scan_cache [] m fits = (m, refl, IsTraced-none h m)
  scan_cache ((key, vs) ∷ ls) m fits = scan_chain fits (scan_values vs m fits) (scan_cache ls)

  scan_pool : (ls : List Nesteds) → Scans (pool_slots h ls) (mark_pool h fuel ls)
  unfolding mark_pool pool_slots
  scan_pool [] m fits = (m, refl, IsTraced-none h m)
  scan_pool (os ∷ ls) m fits = scan_chain fits (scan_nesteds os m fits) (scan_pool ls)

  pub value_slots_cons :
      (v : ℕ) (vs : List ℕ) → value_slots (v ∷ vs) ≡ value_slots (v ∷ []) ++ value_slots vs
  unfolding value_slots
  value_slots_cons v vs = elim (Bool-cases (is_heap v)) [
    | inl heap ↦ rw heap refl
    | inr other ↦ rw other refl
  ]

  drop-some :
      (xs : List ℕ) (i : ℕ) {v : ℕ} → get_elem? xs i ≡ some v → drop i xs ≡ v ∷ drop (suc i) xs
  drop-some [] i h = cc
  drop-some (x ∷ xs) zero h = cc
  drop-some (x ∷ xs) (suc i) h = drop-some xs i h

  scan_prefix :
      (g : SharedGlobals) (i n : ℕ)
      → i + n ≤ length g.inner
      → Scans (value_slots (take n (drop i g.inner))) (mark_globals h fuel g i n)
  unfolding mark_globals get_unchecked value_slots
  scan_prefix g i zero inside m fits = (m, refl, IsTraced-none h m)
  scan_prefix g i (suc n) inside m fits =
      let (v, at) = some_below g.inner i (omega arith) in
      rw (drop-some g.inner i at, at, value_slots_cons v (take n (drop (suc i) g.inner)))
        (scan_chain fits (scan_global v m fits) (scan_prefix g (suc i) n (omega arith)))

  scan_stack :
      (stack : List ℕ) (i n : ℕ)
      → i + n ≤ length stack
      → Scans (value_slots (take n (drop i stack))) (mark_stack h fuel stack i n)
  unfolding mark_stack value_slots
  scan_stack stack i zero inside m fits = (m, refl, IsTraced-none h m)
  scan_stack stack i (suc n) inside m fits =
      let (v, at) = some_below stack i (omega arith) in
      rw (drop-some stack i at, at, value_slots_cons v (take n (drop (suc i) stack)))
        (scan_chain fits (scan_value v m fits) (scan_stack stack (suc i) n (omega arith)))

  untouched_slots :
      (xs : List ℕ)
      → ((i : ℕ) (v : ℕ) → get_elem? xs i ≡ some v → v ≡ undefined_value)
      → value_slots xs ≡ []
  unfolding value_slots has_tag
  untouched_slots [] u = refl
  untouched_slots (x ∷ xs) u =
      let first : x ≡ undefined_value = u 0 x refl in rw first (untouched_slots xs (λ i. u (suc i)))

  -- The slots above the high-water mark name nothing.
  prefix_slots :
      (n : ℕ) (xs : List ℕ)
      → ((i v : ℕ) → n ≤ i → get_elem? xs i ≡ some v → v ≡ undefined_value)
      → value_slots (take n xs) ≡ value_slots xs
  unfolding value_slots
  prefix_slots zero xs u = sym (untouched_slots xs (λ i v. u i v (omega arith)))
  prefix_slots (suc n) [] u = refl
  prefix_slots (suc n) (x ∷ xs) u =
      rw (prefix_slots n xs (λ i v above. u (suc i) v (omega arith))) refl

  scan_globals :
      (g : SharedGlobals)
      → IsShared g
      → Scans (value_slots g.inner) (mark_globals h fuel g 0 g.high_water_mark)
  unfolding get_unchecked
  scan_globals g ok m fits =
      let whole : value_slots (take g.high_water_mark g.inner) ≡ value_slots g.inner =
        prefix_slots g.high_water_mark g.inner ok.untouched in
      rw (sym whole)
        (scan_prefix g 0 g.high_water_mark (omega (arith, ok.slots, ok.bounded)) m fits)

  pub mark_roots_trace :
      (vm : Vm)
      → IsShared vm.globals
      → vm.sp ≤ length vm.stack
      → Scans (root_slots h vm) (mark_roots h fuel vm)
  unfolding mark_roots root_slots
  mark_roots_trace vm ok room m fits =
      let at0 = scan_globals vm.globals ok m fits in
      let at1 = scan_chain fits at0 (scan_stack vm.stack 0 vm.sp (omega (arith, room))) in
      let at2 = scan_chain fits at1 (scan_nesteds vm.locals) in
      let at3 = scan_chain fits at2 (scan_frames vm.frames) in
      let at4 = scan_chain fits at3 (scan_nesteds vm.constants) in
      let at5 = scan_chain fits at4 (scan_values (option_list vm.last_popped)) in
      let at6 = scan_chain fits at5 (scan_values vm.arg_buffer) in
      let at7 = scan_chain fits at6 (scan_listeners vm.event_listeners) in
      let at8 = scan_chain fits at7 (scan_values vm.host_callbacks) in
      let at9 = scan_chain fits at8 (scan_cache vm.constants_values_cache) in
      let at10 = scan_chain fits at9 (scan_values vm.constants_values_buf) in
      let at11 = scan_chain fits at10 (scan_pool vm.locals_pool) in
      let at12 = scan_chain fits at11 (scan_value vm.new_target) in
      let at13 = scan_chain fits at12 (scan_value vm.typeof_undefined) in
      let at14 = scan_chain fits at13 (scan_value vm.typeof_number) in
      let at15 = scan_chain fits at14 (scan_value vm.typeof_string) in
      let at16 = scan_chain fits at15 (scan_value vm.typeof_boolean) in
      let at17 = scan_chain fits at16 (scan_value vm.typeof_function) in
      let at18 = scan_chain fits at17 (scan_value vm.typeof_object) in at18
