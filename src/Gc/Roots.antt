-- ===== src/Gc/Roots.antt =====
-- The slots that the roots of `gc_collect` in engine.rs name.

use formlogic_rust.Heap.Store.{Heap}
use formlogic_rust.Gc.Collect.{Vm, CallFrame}
use formlogic_rust.Gc.Slots.{◌⧺◌, value_slots, nesteds_slots}
use formlogic_rust.Gc.Object.{Boxed, Nesteds, option_list}
use formlogic_rust.Common.{List, [], take, ℕ, ◌∷◌}

module _ (h : Heap Boxed) where
  unfoldable pub frames_slots : List CallFrame → List ℕ
  unfolding nesteds_slots
  frames_slots [] = []
  frames_slots (f ∷ fs) =
      nesteds_slots h f.frame_locals ⧺ nesteds_slots h f.frame_constants ⧺ frames_slots fs

  unfoldable pub listeners_slots : List (List ℕ) → List ℕ
  unfolding value_slots
  listeners_slots [] = []
  listeners_slots (vs ∷ rest) = value_slots vs ⧺ listeners_slots rest

  unfoldable pub cache_slots : List (ℕ × List ℕ) → List ℕ
  unfolding value_slots
  cache_slots [] = []
  cache_slots ((key, vs) ∷ rest) = value_slots vs ⧺ cache_slots rest

  unfoldable pub pool_slots : List Nesteds → List ℕ
  unfolding nesteds_slots
  pool_slots [] = []
  pool_slots (os ∷ rest) = nesteds_slots h os ⧺ pool_slots rest

  -- Every global counts, whatever the high-water mark; of the stack the part below `sp`.
  unfoldable pub root_slots : Vm → List ℕ
  unfolding frames_slots listeners_slots cache_slots pool_slots value_slots nesteds_slots
  root_slots vm =
      value_slots vm.globals.inner
      ⧺ value_slots (take vm.sp vm.stack)
      ⧺ nesteds_slots h vm.locals
      ⧺ frames_slots vm.frames
      ⧺ nesteds_slots h vm.constants
      ⧺ value_slots (option_list vm.last_popped)
      ⧺ value_slots vm.arg_buffer
      ⧺ listeners_slots vm.event_listeners
      ⧺ value_slots vm.host_callbacks
      ⧺ cache_slots vm.constants_values_cache
      ⧺ value_slots vm.constants_values_buf
      ⧺ pool_slots vm.locals_pool
      ⧺ value_slots (vm.new_target ∷ [])
      ⧺ value_slots (vm.typeof_undefined ∷ [])
      ⧺ value_slots (vm.typeof_number ∷ [])
      ⧺ value_slots (vm.typeof_string ∷ [])
      ⧺ value_slots (vm.typeof_boolean ∷ [])
      ⧺ value_slots (vm.typeof_function ∷ [])
      ⧺ value_slots (vm.typeof_object ∷ [])
