-- ===== src/Gc/Object.antt =====
-- The variants of `Object` in object.rs that are not stored inline, with the fields that can hold a
-- `Value` or another object. The contents of an `Rc` stand in place, beside its address; a hash map
-- of functions or fields is the list of its values, and an absent one is empty.
use formlogic_rust.Heap.Store.{Object}
use formlogic_rust.Common.{List, Option, [], none, some, ℕ, ◌∷◌}

mutual
  -- Arguments of `hash_object`: address, `pairs`, `values`, `local_objects`, `getters`, `setters`. Of
  -- `generator`: address, `locals`, `args`, `receiver`, `function`.
  pub data Boxed : Type 0 where
    hash_object : ℕ → List ℕ → List ℕ → Nesteds → Functions → Functions → Boxed
    array : ℕ → List ℕ → Boxed
    compiled_function : Function → Boxed
    map_object : List ℕ → Boxed
    generator : ℕ → Nesteds → List ℕ → Option ℕ → Function → Boxed
    class : ClassBody → Boxed
    instance_object : InstanceBody → Boxed
    bound_method : Function → Nested → Boxed
    super_ref : Nested → Functions → Functions → Functions → SuperLevels → Boxed
    builtin_function : Nesteds → Boxed
    return_value : Nested → Boxed
    promise : Nested → Boxed
    -- `RegExp`, `Set`, `Symbol` and `Error`.
    no_references : Boxed

  -- `constructor`, `methods`, `static_methods`, `getters`, `setters`, `super_methods`,
  -- `super_getters`, `super_setters`, `super_constructor_chain`, `field_initializers`, the thunks of
  -- `static_initializers`, `static_fields`.
  pub data ClassBody : Type 0 where
    class_body :
        Functions
        → Functions
        → Functions
        → Functions
        → Functions
        → Functions
        → Functions
        → Functions
        → SuperLevels
        → Functions
        → Functions
        → Nesteds
        → ClassBody

  -- `fields`, `methods`, `getters`, `setters`, `super_methods`, `super_getters`, `super_setters`,
  -- `super_constructor_chain`.
  pub data InstanceBody : Type 0 where
    instance_body :
        Nesteds
        → Functions
        → Functions
        → Functions
        → Functions
        → Functions
        → Functions
        → SuperLevels
        → InstanceBody

  -- `constants` and the values of `captured_values`.
  pub data Function : Type 0 where
    function : Nesteds → List ℕ → Function

  pub data Functions : Type 0 where
    no_functions : Functions
    cons_function : Function → Functions → Functions

  pub data SuperLevels : Type 0 where
    no_levels : SuperLevels
    cons_level : Functions → Functions → Functions → SuperLevels → SuperLevels

  -- An object inside another object, a constant pool or a frame.
  pub data Nested : Type 0 where
    plain : Object ⊥ → Nested
    boxed : Boxed → Nested

  pub data Nesteds : Type 0 where
    no_objects : Nesteds
    cons_object : Nested → Nesteds → Nesteds

-- `Rc::as_ptr`, for the variants that an `Rc` holds.
unfoldable pub rc_ptr : Boxed → Option ℕ
rc_ptr (hash_object ptr pairs values locals getters setters) = some ptr
rc_ptr (array ptr values) = some ptr
rc_ptr (generator ptr locals args receiver f) = some ptr
rc_ptr _ = none

abbrev pub option_list {ℓ} : {A : Type ℓ} → Option A → List A
option_list none = []
option_list (some a) = a ∷ []
