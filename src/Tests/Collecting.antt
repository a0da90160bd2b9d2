-- ===== src/Tests/Collecting.antt =====
-- Concrete heaps for the collection, and concrete writes to globals.
use formlogic_rust.Heap.Store.{Heap, Object}
use formlogic_rust.Globals.{SharedGlobals, new, set_unchecked, get_unchecked, is_dirty, clear_dirty}
use formlogic_rust.Globals.Writes.{write_all, indices, last_written, clear_dirty_iff}
use formlogic_rust.Gc.Mark.{Marks, mark_slot, mark_refs}
use formlogic_rust.Gc.Scan.{visit_all}
use formlogic_rust.Gc.Mentions.{object_mentions}
use formlogic_rust.Gc.Closed.{IsScanned}
use formlogic_rust.Gc.Within.{mark_refs-object_mentions}
use formlogic_rust.Gc.Slots.{edges, value_slots}
use formlogic_rust.Gc.Traced.{IsTraced}
use formlogic_rust.Gc.Fuel.{mark_slot_traces, unmarked}
use formlogic_rust.Value.Word.{has_tag}
use mathlib.Core.List.{Memᴰ}
use formlogic_rust.Globals.Dirty.{IsWritten, new-IsShared, set_unchecked_lem}
use formlogic_rust.Value.Word.{undefined_value, from_heap}
use formlogic_rust.Gc.Object.{
  Boxed, array, compiled_function, function, no_objects, hash_object, cons_function, cons_object,
  boxed, no_functions,
}
use formlogic_rust.Gc.Collect.{Vm, gc_collect, mark_roots}
use formlogic_rust.Gc.Roots.{root_slots}
use formlogic_rust.Gc.Safe.{IsGcResult, gc_collect-IsGcResult}
use formlogic_rust.Common.{
  List, Option, [], arith, false, length, none, refl, some, true, ℕ, ◌++◌, ◌↔◌, ◌∷◌, ◌≡◌,
}

-- A VM with these values on its stack, and a stale one above them.
abbrev vm_with : List ℕ → Vm
vm_with stack = record {
  globals = new;
  stack = stack ++ undefined_value ∷ [];
  sp = length stack;
  locals = no_objects;
  frames = [];
  constants = no_objects;
  last_popped = none;
  arg_buffer = [];
  event_listeners = [];
  host_callbacks = [];
  constants_values_cache = [];
  constants_values_buf = [];
  constants_values_ptr = none;
  constants_syms_cache = [];
  constants_syms_ptr = none;
  last_preconvert_key = 0;
  last_preconvert_values_ptr = none;
  last_preconvert_syms_ptr = none;
  locals_pool = [];
  new_target = undefined_value;
  typeof_undefined = undefined_value;
  typeof_number = undefined_value;
  typeof_string = undefined_value;
  typeof_boolean = undefined_value;
  typeof_function = undefined_value;
  typeof_object = undefined_value;
  typeof_symbol = undefined_value;
}

-- Slot 0 refers to slot 1; nothing refers to slot 2.
abbrev three_slots : Heap Boxed
three_slots = record {
  objects =
      Object.other (array 64 (from_heap 1 ∷ []))
      ∷ Object.string (1 ∷ 2 ∷ [])
      ∷ Object.string (3 ∷ [])
      ∷ [];
  free_list = [];
  rc_index = λ p. none;
}

-- Slot 1 is a closure that captured the value in slot 0.
abbrev capturing : Heap Boxed
capturing = record {
  objects =
      Object.string (1 ∷ 2 ∷ [])
      ∷ Object.other (compiled_function (function no_objects (from_heap 0 ∷ [])))
      ∷ [];
  free_list = [];
  rc_index = λ p. none;
}

abbrev free_after : Option (Vm × Heap Boxed) → Option (List ℕ)
free_after none = none
free_after (some r) = some r.1.free_list

-- The closure is on the stack, and the slot it captured is freed.
captured_freed : free_after (gc_collect (vm_with (from_heap 1 ∷ [])) capturing) ≡ some (0 ∷ [])
unfolding gc_collect mark_roots new has_tag from_heap
captured_freed = refl

abbrev typing : Heap Boxed
typing = record {
  objects = Object.string (1 ∷ 2 ∷ []) ∷ Object.other (array 64 []) ∷ [];
  free_list = [];
  rc_index = λ p. none;
}

-- The slot of the cached `typeof` string of symbols is freed.
typeof_symbol_freed :
    free_after
      (gc_collect (record (vm_with (from_heap 1 ∷ [])) { typeof_symbol = from_heap 0 }) typing)
    ≡ some (0 ∷ [])
unfolding gc_collect mark_roots new has_tag from_heap
typeof_symbol_freed = refl

gc_collect-IsGcResult_example :
    (vm' : Vm) × (h' : Heap Boxed) × (gc_collect (vm_with (from_heap 0 ∷ [])) three_slots
      ≡ some (vm', h'))
    × IsGcResult (root_slots three_slots (vm_with (from_heap 0 ∷ []))) three_slots h'
gc_collect-IsGcResult_example =
    gc_collect-IsGcResult (vm_with (from_heap 0 ∷ [])) three_slots new-IsShared (omega arith)
      (record { bounded = tt; distinct = tt })

mark_slot_traces_example :
    (m' : Marks) × (mark_slot three_slots 4 0 (false ∷ false ∷ false ∷ []) ≡ some m')
    × IsTraced three_slots (edges three_slots 0) (false ∷ false ∷ false ∷ []) m'
unfolding unmarked
mark_slot_traces_example =
    mark_slot_traces three_slots 4 0 (false ∷ false ∷ false ∷ []) (omega arith) refl (omega arith)

-- A hash object with a slot and a number, and a getter with an array as a constant.
abbrev pair : Object Boxed
pair = Object.other (
    hash_object 96 (from_heap 1 ∷ []) (from_heap 1 ∷ undefined_value ∷ []) no_objects
      (cons_function
        (function (cons_object (boxed (array 128 (from_heap 2 ∷ []))) no_objects)
          (undefined_value ∷ []))
        no_functions)
      no_functions)

pair-IsScanned : IsScanned three_slots pair
unfolding IsScanned has_tag value_slots
pair-IsScanned = (tt, (((tt, tt), refl), tt), tt)

mark_refs-object_mentions_example :
    (visited : List ℕ) × ((m : Marks)
      → mark_refs three_slots (mark_slot three_slots 4) pair m
        ≡ visit_all three_slots (mark_slot three_slots 4) visited m)
    × ((i : ℕ) → Memᴰ i visited → Memᴰ i (object_mentions three_slots pair))
    × (IsScanned three_slots pair → visited ≡ object_mentions three_slots pair)
mark_refs-object_mentions_example =
    mark_refs-object_mentions three_slots (mark_slot three_slots 4) pair

pair_mentions : object_mentions three_slots pair ≡ 1 ∷ 1 ∷ 2 ∷ []
unfolding object_mentions has_tag from_heap
pair_mentions = refl

set_unchecked_lem_example :
    (g' : SharedGlobals) × (set_unchecked 100 7 new ≡ some g') × IsWritten 100 7 new g'
set_unchecked_lem_example = set_unchecked_lem 100 7 new new-IsShared (omega arith)

abbrev two_writes : List (ℕ × ℕ)
two_writes = (100, 7) ∷ (3, 9) ∷ []

clear_dirty_iff_example :
    (g' : SharedGlobals) × (write_all two_writes (clear_dirty new) ≡ some g')
    × ((j : ℕ) → (is_dirty g' j ≡ true) ↔ Memᴰ j (indices two_writes))
    × ((j : ℕ) → get_unchecked g' j ≡ last_written two_writes j (get_unchecked new j))
clear_dirty_iff_example =
    clear_dirty_iff two_writes new new-IsShared (omega arith, (omega arith, tt))
