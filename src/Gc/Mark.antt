-- ===== src/Gc/Mark.antt =====
-- The marking functions of engine.rs. `none` stands for running out of fuel or for an index that
-- panics. A jump to a slot of the heap takes one unit of fuel; inside one object the recursion is
-- on its contents.
use formlogic_rust.Gc.Object.{
  Boxed, ClassBody, InstanceBody, Function, Functions, Nested, Nesteds, hash_object, array,
  compiled_function, map_object, generator, class, instance_object, bound_method, super_ref,
  builtin_function, return_value, promise, no_references, class_body, instance_body, function,
  no_functions, cons_function, plain, boxed, no_objects, cons_object, rc_ptr, option_list,
}
use formlogic_rust.Value.Word.{heap_index, is_heap}
use formlogic_rust.Heap.Store.{Object, Heap, rc_lookup, get}
use formlogic_rust.Common.{
  Bool, List, Option, [], get_or, if◌then◌else◌, none, set, some, suc, true, zero, ℕ, ◌>>=◌, ◌∷◌,
}

abbrev pub Marks : Type 0
Marks = List Bool

module _ (h : Heap Boxed) (mark_slot : ℕ → Marks → Option Marks) where
  -- `if i < reachable.len() && !reachable[i] { reachable[i] = true; mark_object_refs(..) }`
  unfoldable pub visit : ℕ → Marks → Option Marks
  visit i reachable =
      if get_or reachable i true then some reachable else mark_slot i (set reachable i true)

  unfoldable pub mark_value : ℕ → Marks → Option Marks
  unfolding heap_index visit
  mark_value v reachable = if is_heap v then visit (heap_index v) reachable else some reachable

  unfoldable pub mark_values : List ℕ → Marks → Option Marks
  unfolding mark_value
  mark_values [] reachable = some reachable
  mark_values (v ∷ vs) reachable = mark_value v reachable >>= mark_values vs

  -- With a slot the object is its slot, else it is scanned in place.
  abbrev pub nested_at : Option ℕ → Option Marks → Marks → Option Marks
  unfolding visit
  nested_at (some idx) refs reachable = visit idx reachable
  nested_at none refs reachable = refs

  unfoldable mutual
    unfolding mark_values rc_ptr rc_lookup

    pub mark_object_refs : Boxed → Marks → Option Marks
    mark_object_refs (hash_object ptr pairs values locals getters setters) reachable =
        mark_values pairs reachable
        >>= mark_values values
        >>= mark_nested_objects locals
        >>= mark_functions getters
        >>= mark_functions setters
    mark_object_refs (array ptr values) reachable = mark_values values reachable
    mark_object_refs (compiled_function f) reachable = mark_compiled_fn_refs f reachable
    mark_object_refs (map_object values) reachable = mark_values values reachable
    mark_object_refs (generator ptr locals args receiver f) reachable =
        mark_nested_objects locals reachable
        >>= mark_values args
        >>= mark_values (option_list receiver)
        >>= mark_compiled_fn_refs f
    mark_object_refs (class body) reachable = mark_class body reachable
    mark_object_refs (instance_object body) reachable = mark_instance body reachable
    mark_object_refs (bound_method f receiver) reachable =
        mark_compiled_fn_refs f reachable >>= mark_nested_object receiver
    mark_object_refs (super_ref receiver methods getters setters chain) reachable =
        mark_nested_object receiver reachable
        >>= mark_functions methods
        >>= mark_functions getters
        >>= mark_functions setters
    mark_object_refs (builtin_function receiver) reachable = mark_nested_objects receiver reachable
    mark_object_refs (return_value inner) reachable = mark_nested_object inner reachable
    mark_object_refs (promise inner) reachable = mark_nested_object inner reachable
    mark_object_refs no_references reachable = some reachable

    -- The arms for `Class` and `Instance`.
    pub mark_class : ClassBody → Marks → Option Marks
    mark_class (class_body ctor methods statics gs ss sms sgs sss chain inits blocks fields)
          reachable =
        mark_functions ctor reachable
        >>= mark_functions methods
        >>= mark_functions statics
        >>= mark_functions gs
        >>= mark_functions ss
        >>= mark_functions sms
        >>= mark_functions sgs
        >>= mark_functions sss
        >>= mark_functions inits
        >>= mark_functions blocks
        >>= mark_nested_objects fields

    pub mark_instance : InstanceBody → Marks → Option Marks
    mark_instance (instance_body fields methods gs ss sms sgs sss chain) reachable =
        mark_nested_objects fields reachable
        >>= mark_functions methods
        >>= mark_functions gs
        >>= mark_functions ss
        >>= mark_functions sms
        >>= mark_functions sgs
        >>= mark_functions sss

    pub mark_compiled_fn_refs : Function → Marks → Option Marks
    mark_compiled_fn_refs (function constants captured) reachable =
        mark_nested_objects constants reachable

    pub mark_functions : Functions → Marks → Option Marks
    mark_functions no_functions reachable = some reachable
    mark_functions (cons_function f fs) reachable =
        mark_compiled_fn_refs f reachable >>= mark_functions fs

    pub mark_nested_object : Nested → Marks → Option Marks
    mark_nested_object (plain o) reachable = some reachable
    mark_nested_object (boxed b) reachable =
        nested_at (rc_ptr b >>= rc_lookup h) (mark_object_refs b reachable) reachable

    pub mark_nested_objects : Nesteds → Marks → Option Marks
    mark_nested_objects no_objects reachable = some reachable
    mark_nested_objects (cons_object o os) reachable =
        mark_nested_object o reachable >>= mark_nested_objects os

-- `mark_object_refs` of an object in a slot.
unfoldable pub mark_refs :
    (h : Heap Boxed) → (ℕ → Marks → Option Marks) → Object Boxed → Marks → Option Marks
unfolding mark_object_refs
mark_refs h jump (Object.other b) reachable = mark_object_refs h jump b reachable
mark_refs h jump _ reachable = some reachable

-- The recursive call for a slot, on fuel.
unfoldable pub mark_slot : Heap Boxed → ℕ → ℕ → Marks → Option Marks
unfolding mark_refs get
mark_slot h zero i reachable = none
mark_slot h (suc fuel) i reachable = do obj ← get h i; mark_refs h (mark_slot h fuel) obj reachable
