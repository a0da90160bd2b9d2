-- ===== src/Gc/Closed.antt =====
-- Objects of object.rs whose functions captured no heap value, and without super levels that mention
-- the heap: what the scan of engine.rs visits of them is all that they mention.
use formlogic_rust.Gc.Object.{
  Boxed, ClassBody, InstanceBody, Function, Functions, Nested, Nesteds, hash_object, array,
  compiled_function, map_object, generator, class, instance_object, bound_method, super_ref,
  builtin_function, return_value, promise, no_references, class_body, instance_body, function,
  no_functions, cons_function, plain, boxed, no_objects, cons_object,
}
use formlogic_rust.Gc.Slots.{
  slots, class_slots, instance_slots, function_slots, functions_slots, nested_slots, nesteds_slots,
  object_slots, value_slots, ◌⧺◌,
}
use formlogic_rust.Heap.Store.{Object, Heap}
use formlogic_rust.Common.{List, [], ap, append-nil, refl, sym, ℕ, ◌≡◌}
use formlogic_rust.Gc.Mentions.{
  mentions, in_class, in_instance, in_function, in_functions, in_levels, in_nested, in_nesteds,
  object_mentions,
}

module _ (h : Heap Boxed) where
  mutual
    pub Scanned : Boxed → Type 0
    Scanned (hash_object ptr pairs values locals getters setters) =
        AllScanned locals × CodeScanned getters × CodeScanned setters
    Scanned (array ptr values) = Unit
    Scanned (compiled_function f) = FunctionScanned f
    Scanned (map_object values) = Unit
    Scanned (generator ptr locals args receiver f) = AllScanned locals × FunctionScanned f
    Scanned (class body) = ClassScanned body
    Scanned (instance_object body) = InstanceScanned body
    Scanned (bound_method f receiver) = FunctionScanned f × PartScanned receiver
    Scanned (super_ref receiver methods getters setters chain) =
        PartScanned receiver
        × CodeScanned methods
        × CodeScanned getters
        × CodeScanned setters
        × (in_levels h chain ≡ [])
    Scanned (builtin_function receiver) = AllScanned receiver
    Scanned (return_value inner) = PartScanned inner
    Scanned (promise inner) = PartScanned inner
    Scanned no_references = Unit

    pub ClassScanned : ClassBody → Type 0
    ClassScanned (class_body ctor methods statics gs ss sms sgs sss chain inits blocks fields) =
        CodeScanned ctor
        × CodeScanned methods
        × CodeScanned statics
        × CodeScanned gs
        × CodeScanned ss
        × CodeScanned sms
        × CodeScanned sgs
        × CodeScanned sss
        × (in_levels h chain ≡ [])
        × CodeScanned inits
        × CodeScanned blocks
        × AllScanned fields

    pub InstanceScanned : InstanceBody → Type 0
    InstanceScanned (instance_body fields methods gs ss sms sgs sss chain) =
        AllScanned fields
        × CodeScanned methods
        × CodeScanned gs
        × CodeScanned ss
        × CodeScanned sms
        × CodeScanned sgs
        × CodeScanned sss
        × (in_levels h chain ≡ [])

    -- No captured value is a slot of the heap.
    pub FunctionScanned : Function → Type 0
    FunctionScanned (function constants captured) =
        AllScanned constants × (value_slots captured ≡ [])

    pub CodeScanned : Functions → Type 0
    CodeScanned no_functions = Unit
    CodeScanned (cons_function f fs) = FunctionScanned f × CodeScanned fs

    pub PartScanned : Nested → Type 0
    PartScanned (plain o) = Unit
    PartScanned (boxed b) = Scanned b

    pub AllScanned : Nesteds → Type 0
    AllScanned no_objects = Unit
    AllScanned (cons_object o os) = PartScanned o × AllScanned os

  unfoldable pub IsScanned : Object Boxed → Type 0
  unfolding Scanned
  IsScanned (Object.other b) = Scanned b
  IsScanned _ = Unit

  mutual
    unfolding Scanned slots mentions

    slots-mentions : (b : Boxed) → Scanned b → slots h b ≡ mentions h b
    slots-mentions (hash_object ptr pairs values locals getters setters) (a, b, c) =
        rw (nesteds-mentions locals a, functions-mentions getters b, functions-mentions setters c)
          refl
    slots-mentions (array ptr values) s = refl
    slots-mentions (compiled_function f) s = function-mentions f s
    slots-mentions (map_object values) s = refl
    slots-mentions (generator ptr locals args receiver f) (a, b) =
        rw (nesteds-mentions locals a, function-mentions f b) refl
    slots-mentions (class body) s = class-mentions body s
    slots-mentions (instance_object body) s = instance-mentions body s
    slots-mentions (bound_method f receiver) (a, b) =
        rw (function-mentions f a, nested-mentions receiver b) refl
    slots-mentions (super_ref receiver methods getters setters chain) (a, b, c, d, e) =
        rw
          (
            nested-mentions receiver a,
            functions-mentions methods b,
            functions-mentions getters c,
            functions-mentions setters d,
            e,
          )
          (sym (append-nil _))
    slots-mentions (builtin_function receiver) s = nesteds-mentions receiver s
    slots-mentions (return_value inner) s = nested-mentions inner s
    slots-mentions (promise inner) s = nested-mentions inner s
    slots-mentions no_references s = refl

    class-mentions : (body : ClassBody) → ClassScanned body → class_slots h body ≡ in_class h body
    class-mentions (class_body ctor methods statics gs ss sms sgs sss chain inits blocks fields)
          (a, b, c, d, e, f, g, i, j, k, l, m) =
        rw
          (
            functions-mentions ctor a,
            functions-mentions methods b,
            functions-mentions statics c,
            functions-mentions gs d,
            functions-mentions ss e,
            functions-mentions sms f,
            functions-mentions sgs g,
            functions-mentions sss i,
            functions-mentions inits k,
            functions-mentions blocks l,
            nesteds-mentions fields m,
            j,
          )
          (ap
            (λ (t : List ℕ). t ⧺ in_functions h inits ⧺ in_functions h blocks ⧺ in_nesteds h fields)
            (sym (append-nil _)))

    instance-mentions :
        (body : InstanceBody) → InstanceScanned body → instance_slots h body ≡ in_instance h body
    instance-mentions (instance_body fields methods gs ss sms sgs sss chain)
          (a, b, c, d, e, f, g, i) =
        rw
          (
            nesteds-mentions fields a,
            functions-mentions methods b,
            functions-mentions gs c,
            functions-mentions ss d,
            functions-mentions sms e,
            functions-mentions sgs f,
            functions-mentions sss g,
            i,
          )
          (sym (append-nil _))

    function-mentions : (f : Function) → FunctionScanned f → function_slots h f ≡ in_function h f
    function-mentions (function constants captured) (a, b) =
        rw (nesteds-mentions constants a, b) (sym (append-nil _))

    functions-mentions :
        (fs : Functions) → CodeScanned fs → functions_slots h fs ≡ in_functions h fs
    functions-mentions no_functions s = refl
    functions-mentions (cons_function f fs) (a, b) =
        rw (function-mentions f a, functions-mentions fs b) refl

    nested-mentions : (o : Nested) → PartScanned o → nested_slots h o ≡ in_nested h o
    nested-mentions (plain o) s = refl
    nested-mentions (boxed b) s = rw (slots-mentions b s) refl

    nesteds-mentions : (os : Nesteds) → AllScanned os → nesteds_slots h os ≡ in_nesteds h os
    nesteds-mentions no_objects s = refl
    nesteds-mentions (cons_object o os) (a, b) =
        rw (nested-mentions o a, nesteds-mentions os b) refl

  pub object_slots-object_mentions :
      (o : Object Boxed) → IsScanned o → object_slots h o ≡ object_mentions h o
  unfolding IsScanned object_slots object_mentions
  object_slots-object_mentions (Object.other b) s = slots-mentions b s
  object_slots-object_mentions (Object.integer v) s = refl
  object_slots-object_mentions (Object.float v) s = refl
  object_slots-object_mentions (Object.boolean v) s = refl
  object_slots-object_mentions Object.null s = refl
  object_slots-object_mentions Object.undefined s = refl
  object_slots-object_mentions (Object.string t) s = refl
