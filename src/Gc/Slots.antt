-- ===== src/Gc/Slots.antt =====
-- The slots that one scan of engine.rs visits of an object, without the marking. As in the code,
-- captured values and the chains of super levels do not count; Mentions has them too.
use formlogic_rust.Gc.Object.{
  Boxed, ClassBody, InstanceBody, Function, Functions, Nested, Nesteds, hash_object, array,
  compiled_function, map_object, generator, class, instance_object, bound_method, super_ref,
  builtin_function, return_value, promise, no_references, class_body, instance_body, function,
  no_functions, cons_function, plain, boxed, no_objects, cons_object, rc_ptr, option_list,
}
use formlogic_rust.Value.Word.{heap_index, is_heap}
use mathlib.Core.List.{Memᴰ}
use formlogic_rust.Heap.Store.{Object, Heap, rc_lookup, get}
use formlogic_rust.Common.{List, Option, [], if◌then◌else◌, none, some, ℕ, ◌++◌, ◌>>=◌, ◌∷◌}

infixl 20 ◌⧺◌
abbrev pub ◌⧺◌ {ℓ} : {A : Type ℓ} → List A → List A → List A
xs ⧺ ys = xs ++ ys

-- A value that stands for a heap slot mentions it.
unfoldable pub value_slots : List ℕ → List ℕ
unfolding heap_index
value_slots [] = []
value_slots (v ∷ vs) = let rest = value_slots vs in if is_heap v then heap_index v ∷ rest else rest

abbrev pub slot_or : Option ℕ → List ℕ → List ℕ
slot_or (some idx) inside = idx ∷ []
slot_or none inside = inside

module _ (h : Heap Boxed) where
  -- An object that an `Rc` holds and that has a slot is its slot, not its contents.
  unfoldable mutual
    unfolding value_slots rc_ptr rc_lookup

    pub slots : Boxed → List ℕ
    slots (hash_object ptr pairs values locals getters setters) =
        value_slots pairs
        ⧺ value_slots values
        ⧺ nesteds_slots locals
        ⧺ functions_slots getters
        ⧺ functions_slots setters
    slots (array ptr values) = value_slots values
    slots (compiled_function f) = function_slots f
    slots (map_object values) = value_slots values
    slots (generator ptr locals args receiver f) =
        nesteds_slots locals
        ⧺ value_slots args
        ⧺ value_slots (option_list receiver)
        ⧺ function_slots f
    slots (class body) = class_slots body
    slots (instance_object body) = instance_slots body
    slots (bound_method f receiver) = function_slots f ⧺ nested_slots receiver
    slots (super_ref receiver methods getters setters chain) =
        nested_slots receiver
        ⧺ functions_slots methods
        ⧺ functions_slots getters
        ⧺ functions_slots setters
    slots (builtin_function receiver) = nesteds_slots receiver
    slots (return_value inner) = nested_slots inner
    slots (promise inner) = nested_slots inner
    slots no_references = []

    pub class_slots : ClassBody → List ℕ
    class_slots (class_body ctor methods statics gs ss sms sgs sss chain inits blocks fields) =
        functions_slots ctor
        ⧺ functions_slots methods
        ⧺ functions_slots statics
        ⧺ functions_slots gs
        ⧺ functions_slots ss
        ⧺ functions_slots sms
        ⧺ functions_slots sgs
        ⧺ functions_slots sss
        ⧺ functions_slots inits
        ⧺ functions_slots blocks
        ⧺ nesteds_slots fields

    pub instance_slots : InstanceBody → List ℕ
    instance_slots (instance_body fields methods gs ss sms sgs sss chain) =
        nesteds_slots fields
        ⧺ functions_slots methods
        ⧺ functions_slots gs
        ⧺ functions_slots ss
        ⧺ functions_slots sms
        ⧺ functions_slots sgs
        ⧺ functions_slots sss

    pub function_slots : Function → List ℕ
    function_slots (function constants captured) = nesteds_slots constants

    pub functions_slots : Functions → List ℕ
    functions_slots no_functions = []
    functions_slots (cons_function f fs) = function_slots f ⧺ functions_slots fs

    pub nested_slots : Nested → List ℕ
    nested_slots (plain o) = []
    nested_slots (boxed b) = slot_or (rc_ptr b >>= rc_lookup h) (slots b)

    pub nesteds_slots : Nesteds → List ℕ
    nesteds_slots no_objects = []
    nesteds_slots (cons_object o os) = nested_slots o ⧺ nesteds_slots os

  unfoldable pub object_slots : Object Boxed → List ℕ
  unfolding slots
  object_slots (Object.other b) = slots b
  object_slots _ = []

  abbrev pub option_slots : Option (Object Boxed) → List ℕ
  unfolding object_slots
  option_slots (some o) = object_slots o
  option_slots none = []

  -- The slots that the scan visits from a slot.
  unfoldable pub edges : ℕ → List ℕ
  unfolding object_slots get
  edges i = option_slots (get h i)

  -- A slot of the heap that a chain of such visits leads to from one of the slots in `from`.
  pub data Reach (from : List ℕ) : ℕ → Type 0 where
    root : {i : ℕ} → Memᴰ i from → Reach from i
    step : {i j : ℕ} → Reach from i → Memᴰ j (edges i) → Reach from j
