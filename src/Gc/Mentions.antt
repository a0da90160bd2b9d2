-- ===== src/Gc/Mentions.antt =====
-- Every slot that an object of object.rs mentions, in whatever field: also by the values that a
-- function captured and by the levels of a chain of super constructors, which the scan of engine.rs
-- leaves out.
use formlogic_rust.Gc.Object.{
  Boxed, ClassBody, InstanceBody, Function, Functions, SuperLevels, Nested, Nesteds, hash_object,
  array, compiled_function, map_object, generator, class, instance_object, bound_method, super_ref,
  builtin_function, return_value, promise, no_references, class_body, instance_body, function,
  no_functions, cons_function, no_levels, cons_level, plain, boxed, no_objects, cons_object, rc_ptr,
  option_list,
}
use formlogic_rust.Gc.Slots.{◌⧺◌, slot_or, value_slots}
use formlogic_rust.Heap.Store.{Object, Heap, rc_lookup}
use formlogic_rust.Common.{List, [], ℕ, ◌>>=◌}

module _ (h : Heap Boxed) where
  -- An object that an `Rc` holds and that has a slot is its slot, not its contents.
  unfoldable mutual
    unfolding value_slots rc_ptr rc_lookup

    pub mentions : Boxed → List ℕ
    mentions (hash_object ptr pairs values locals getters setters) =
        value_slots pairs
        ⧺ value_slots values
        ⧺ in_nesteds locals
        ⧺ in_functions getters
        ⧺ in_functions setters
    mentions (array ptr values) = value_slots values
    mentions (compiled_function f) = in_function f
    mentions (map_object values) = value_slots values
    mentions (generator ptr locals args receiver f) =
        in_nesteds locals ⧺ value_slots args ⧺ value_slots (option_list receiver) ⧺ in_function f
    mentions (class body) = in_class body
    mentions (instance_object body) = in_instance body
    mentions (bound_method f receiver) = in_function f ⧺ in_nested receiver
    mentions (super_ref receiver methods getters setters chain) =
        in_nested receiver
        ⧺ in_functions methods
        ⧺ in_functions getters
        ⧺ in_functions setters
        ⧺ in_levels chain
    mentions (builtin_function receiver) = in_nesteds receiver
    mentions (return_value inner) = in_nested inner
    mentions (promise inner) = in_nested inner
    mentions no_references = []

    pub in_class : ClassBody → List ℕ
    in_class (class_body ctor methods statics gs ss sms sgs sss chain inits blocks fields) =
        in_functions ctor
        ⧺ in_functions methods
        ⧺ in_functions statics
        ⧺ in_functions gs
        ⧺ in_functions ss
        ⧺ in_functions sms
        ⧺ in_functions sgs
        ⧺ in_functions sss
        ⧺ in_levels chain
        ⧺ in_functions inits
        ⧺ in_functions blocks
        ⧺ in_nesteds fields

    pub in_instance : InstanceBody → List ℕ
    in_instance (instance_body fields methods gs ss sms sgs sss chain) =
        in_nesteds fields
        ⧺ in_functions methods
        ⧺ in_functions gs
        ⧺ in_functions ss
        ⧺ in_functions sms
        ⧺ in_functions sgs
        ⧺ in_functions sss
        ⧺ in_levels chain

    pub in_function : Function → List ℕ
    in_function (function constants captured) = in_nesteds constants ⧺ value_slots captured

    pub in_functions : Functions → List ℕ
    in_functions no_functions = []
    in_functions (cons_function f fs) = in_function f ⧺ in_functions fs

    pub in_levels : SuperLevels → List ℕ
    in_levels no_levels = []
    in_levels (cons_level methods getters setters levels) =
        in_functions methods ⧺ in_functions getters ⧺ in_functions setters ⧺ in_levels levels

    pub in_nested : Nested → List ℕ
    in_nested (plain o) = []
    in_nested (boxed b) = slot_or (rc_ptr b >>= rc_lookup h) (mentions b)

    pub in_nesteds : Nesteds → List ℕ
    in_nesteds no_objects = []
    in_nesteds (cons_object o os) = in_nested o ⧺ in_nesteds os

  unfoldable pub object_mentions : Object Boxed → List ℕ
  unfolding mentions
  object_mentions (Object.other b) = mentions b
  object_mentions _ = []
