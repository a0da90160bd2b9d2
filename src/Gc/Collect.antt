-- ===== src/Gc/Collect.antt =====
-- `gc_collect` of engine.rs: the parts of the VM that it reads or clears, the order in which it
-- scans them, and the sweep.
use formlogic_rust.Globals.{get_unchecked, SharedGlobals}
use formlogic_rust.Heap.Sweep.{sweep}
use formlogic_rust.Value.Word.{heap_index, is_heap}
use formlogic_rust.Heap.Store.{Heap}
use formlogic_rust.Gc.Mark.{Marks, mark_value, mark_values, mark_nested_objects, mark_slot}
use formlogic_rust.Gc.Object.{Boxed, Nesteds, rc_ptr, option_list}
use formlogic_rust.Common.{
  List, Option, [], false, get_elem?, if◌then◌else◌, length, ltb, none, replicate, set, some, suc,
  true, zero, ℕ, ◌+◌, ◌-◌, ◌==◌, ◌>>=◌, ◌^◌, ◌∷◌,
}

-- The part of `CallFrame` that holds objects: `locals` and `constants`.
pub record CallFrame : Type 0 where
  pub frame_locals : Nesteds
  pub frame_constants : Nesteds

-- The fields of `VM` that `gc_collect` touches beside the heap.
-- A map is the list of its values; a null pointer is `none`.
pub record Vm : Type 0 where
  pub globals : SharedGlobals
  pub stack : List ℕ
  pub sp : ℕ
  pub locals : Nesteds
  pub frames : List CallFrame
  pub constants : Nesteds
  pub last_popped : Option ℕ
  pub arg_buffer : List ℕ
  pub event_listeners : List (List ℕ)
  pub host_callbacks : List ℕ
  pub constants_values_cache : List (ℕ × List ℕ)
  pub constants_values_buf : List ℕ
  pub constants_values_ptr : Option ℕ
  pub constants_syms_cache : List (ℕ × List ℕ)
  pub constants_syms_ptr : Option ℕ
  pub last_preconvert_key : ℕ
  pub last_preconvert_values_ptr : Option ℕ
  pub last_preconvert_syms_ptr : Option ℕ
  pub locals_pool : List Nesteds
  pub new_target : ℕ
  pub typeof_undefined : ℕ
  pub typeof_number : ℕ
  pub typeof_string : ℕ
  pub typeof_boolean : ℕ
  pub typeof_function : ℕ
  pub typeof_object : ℕ
  pub typeof_symbol : ℕ

module _ (h : Heap Boxed) (fuel : ℕ) where
  -- A slot that a global names is scanned again even when it is marked.
  unfoldable pub mark_global : ℕ → Marks → Option Marks
  unfolding heap_index mark_slot
  mark_global v reachable =
      if is_heap v
      then (if ltb (heap_index v) (length reachable)
          then mark_slot h fuel (heap_index v) (set reachable (heap_index v) true)
          else some reachable)
      else some reachable

  -- `for i in 0..globals_limit`, with `n` slots to go.
  unfoldable pub mark_globals : SharedGlobals → ℕ → ℕ → Marks → Option Marks
  unfolding mark_global get_unchecked
  mark_globals g i zero reachable = some reachable
  mark_globals g i (suc n) reachable = do
    val ← get_unchecked g i
    marked ← mark_global val reachable
    mark_globals g (suc i) n marked

  -- `for i in 0..sp`, with `n` slots to go; `stack[i]` panics past the end of the vector.
  unfoldable pub mark_stack : List ℕ → ℕ → ℕ → Marks → Option Marks
  unfolding mark_value
  mark_stack stack i zero reachable = some reachable
  mark_stack stack i (suc n) reachable = do
    val ← get_elem? stack i
    marked ← mark_value h (mark_slot h fuel) val reachable
    mark_stack stack (suc i) n marked

  unfoldable pub mark_frames : List CallFrame → Marks → Option Marks
  unfolding mark_nested_objects
  mark_frames [] reachable = some reachable
  mark_frames (f ∷ fs) reachable =
      mark_nested_objects h (mark_slot h fuel) f.frame_locals reachable
      >>= mark_nested_objects h (mark_slot h fuel) f.frame_constants
      >>= mark_frames fs

  unfoldable pub mark_listeners : List (List ℕ) → Marks → Option Marks
  unfolding mark_values
  mark_listeners [] reachable = some reachable
  mark_listeners (vs ∷ rest) reachable =
      mark_values h (mark_slot h fuel) vs reachable >>= mark_listeners rest

  unfoldable pub mark_cache : List (ℕ × List ℕ) → Marks → Option Marks
  unfolding mark_values
  mark_cache [] reachable = some reachable
  mark_cache ((key, vs) ∷ rest) reachable =
      mark_values h (mark_slot h fuel) vs reachable >>= mark_cache rest

  unfoldable pub mark_pool : List Nesteds → Marks → Option Marks
  unfolding mark_nested_objects
  mark_pool [] reachable = some reachable
  mark_pool (os ∷ rest) reachable =
      mark_nested_objects h (mark_slot h fuel) os reachable >>= mark_pool rest

  unfoldable pub mark_roots : Vm → Marks → Option Marks
  unfolding mark_globals mark_stack mark_frames mark_listeners mark_cache mark_pool mark_value
      mark_values mark_nested_objects
  mark_roots vm reachable =
      mark_globals vm.globals 0 vm.globals.high_water_mark reachable
      >>= mark_stack vm.stack 0 vm.sp
      >>= mark_nested_objects h (mark_slot h fuel) vm.locals
      >>= mark_frames vm.frames
      >>= mark_nested_objects h (mark_slot h fuel) vm.constants
      >>= mark_values h (mark_slot h fuel) (option_list vm.last_popped)
      >>= mark_values h (mark_slot h fuel) vm.arg_buffer
      >>= mark_listeners vm.event_listeners
      >>= mark_values h (mark_slot h fuel) vm.host_callbacks
      >>= mark_cache vm.constants_values_cache
      >>= mark_values h (mark_slot h fuel) vm.constants_values_buf
      >>= mark_pool vm.locals_pool
      >>= mark_value h (mark_slot h fuel) vm.new_target
      >>= mark_value h (mark_slot h fuel) vm.typeof_undefined
      >>= mark_value h (mark_slot h fuel) vm.typeof_number
      >>= mark_value h (mark_slot h fuel) vm.typeof_string
      >>= mark_value h (mark_slot h fuel) vm.typeof_boolean
      >>= mark_value h (mark_slot h fuel) vm.typeof_function
      >>= mark_value h (mark_slot h fuel) vm.typeof_object

unfoldable pub clear_caches : Vm → Vm
clear_caches vm = record vm {
  constants_values_cache = [];
  constants_values_ptr = none;
  constants_syms_cache = [];
  constants_syms_ptr = none;
  last_preconvert_key = 2 ^ 64 - 1;
  last_preconvert_values_ptr = none;
  last_preconvert_syms_ptr = none;
}

-- The fuel is one more than the number of slots.
unfoldable pub gc_collect : Vm → Heap Boxed → Option (Vm × Heap Boxed)
unfolding mark_roots sweep clear_caches rc_ptr
gc_collect vm h =
    let heap_len = length h.objects in
    if heap_len == 0 then some (vm, h) else (do
      reachable ← mark_roots h (heap_len + 1) vm (replicate heap_len false)
      swept ← sweep rc_ptr reachable h
      some (clear_caches vm, swept))
