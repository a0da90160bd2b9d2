-- ===== src/Gc/Within.antt =====
-- What the scan of engine.rs visits of an object, the object mentions.
use formlogic_rust.Gc.Object.{
  Boxed, ClassBody, InstanceBody, Function, Functions, Nested, Nesteds, hash_object, array,
  compiled_function, map_object, generator, class, instance_object, bound_method, super_ref,
  builtin_function, return_value, promise, no_references, class_body, instance_body, function,
  no_functions, cons_function, plain, boxed, no_objects, cons_object, option_list, rc_ptr,
}
use formlogic_rust.Gc.Slots.{
  slots, class_slots, instance_slots, function_slots, functions_slots, nested_slots, nesteds_slots,
  object_slots, slot_or, value_slots, ◌⧺◌,
}
use formlogic_rust.Gc.Mentions.{
  mentions, in_class, in_instance, in_function, in_functions, in_levels, in_nested, in_nesteds,
  object_mentions,
}
use formlogic_rust.Gc.Mark.{mark_refs, Marks}
use formlogic_rust.Gc.Scan.{visit_all, mark_refs_lem}
use formlogic_rust.Gc.Closed.{IsScanned, object_slots-object_mentions}
use formlogic_rust.Heap.Store.{Object, Heap, rc_lookup}
use mathlib.Core.List.{Memᴰ}
use mathlib.Core.List.Memᴰ
use formlogic_rust.Common.{List, Option, [], inl, inr, none, some, ℕ, ◌>>=◌, ◌∷◌, ◌≡◌}

abbrev Within : List ℕ → List ℕ → Type 0
Within xs ys = (i : ℕ) → Memᴰ i xs → Memᴰ i ys

Within-refl : (xs : List ℕ) → Within xs xs
Within-refl xs i m = m

both-Within :
    {xs ys xs' ys' : List ℕ} → Within xs xs' → Within ys ys' → Within (xs ⧺ ys) (xs' ⧺ ys')
both-Within {xs} {ys} {xs'} {ys'} f g i m = elim (Memᴰ.append_cases xs m) [
  | inl a ↦ Memᴰ.append_left ys' (f i a)
  | inr b ↦ Memᴰ.append_right xs' (g i b)
]

extend-Within : {xs ys : List ℕ} (zs : List ℕ) → Within xs ys → Within xs (ys ⧺ zs)
extend-Within zs f i m = Memᴰ.append_left zs (f i m)

module _ (h : Heap Boxed) where
  slot_or-Within :
      (at : Option ℕ) (xs ys : List ℕ) → Within xs ys → Within (slot_or at xs) (slot_or at ys)
  slot_or-Within (some idx) xs ys f = Within-refl (idx ∷ [])
  slot_or-Within none xs ys f = f

  mutual
    unfolding slots mentions

    slots-Within : (b : Boxed) → Within (slots h b) (mentions h b)
    slots-Within (hash_object ptr pairs values locals getters setters) =
        both-Within
          (both-Within
            (both-Within (Within-refl (value_slots pairs ⧺ value_slots values))
              (nesteds-Within locals))
            (functions-Within getters))
          (functions-Within setters)
    slots-Within (array ptr values) = Within-refl (value_slots values)
    slots-Within (compiled_function f) = function-Within f
    slots-Within (map_object values) = Within-refl (value_slots values)
    slots-Within (generator ptr locals args receiver f) =
        both-Within
          (both-Within (both-Within (nesteds-Within locals) (Within-refl (value_slots args)))
            (Within-refl (value_slots (option_list receiver))))
          (function-Within f)
    slots-Within (class body) = class-Within body
    slots-Within (instance_object body) = instance-Within body
    slots-Within (bound_method f receiver) =
        both-Within (function-Within f) (nested-Within receiver)
    slots-Within (super_ref receiver methods getters setters chain) =
        extend-Within (in_levels h chain) (
          both-Within
            (both-Within (both-Within (nested-Within receiver) (functions-Within methods))
              (functions-Within getters))
            (functions-Within setters))
    slots-Within (builtin_function receiver) = nesteds-Within receiver
    slots-Within (return_value inner) = nested-Within inner
    slots-Within (promise inner) = nested-Within inner
    slots-Within no_references = Within-refl []

    class-Within : (body : ClassBody) → Within (class_slots h body) (in_class h body)
    class-Within (class_body ctor methods statics gs ss sms sgs sss chain inits blocks fields) =
        let first = both-Within (functions-Within ctor) (functions-Within methods) in
        let static = both-Within first (functions-Within statics) in
        let getting = both-Within static (functions-Within gs) in
        let setting = both-Within getting (functions-Within ss) in
        let up = both-Within setting (functions-Within sms) in
        let up_getting = both-Within up (functions-Within sgs) in
        let up_setting = both-Within up_getting (functions-Within sss) in
        let initial =
          both-Within (extend-Within (in_levels h chain) up_setting) (functions-Within inits) in
        both-Within (both-Within initial (functions-Within blocks)) (nesteds-Within fields)

    instance-Within : (body : InstanceBody) → Within (instance_slots h body) (in_instance h body)
    instance-Within (instance_body fields methods gs ss sms sgs sss chain) =
        let first = both-Within (nesteds-Within fields) (functions-Within methods) in
        let getting = both-Within first (functions-Within gs) in
        let setting = both-Within getting (functions-Within ss) in
        let up = both-Within setting (functions-Within sms) in
        let up_getting = both-Within up (functions-Within sgs) in
        extend-Within (in_levels h chain) (both-Within up_getting (functions-Within sss))

    function-Within : (f : Function) → Within (function_slots h f) (in_function h f)
    function-Within (function constants captured) =
        extend-Within (value_slots captured) (nesteds-Within constants)

    functions-Within : (fs : Functions) → Within (functions_slots h fs) (in_functions h fs)
    functions-Within no_functions = Within-refl []
    functions-Within (cons_function f fs) = both-Within (function-Within f) (functions-Within fs)

    nested-Within : (o : Nested) → Within (nested_slots h o) (in_nested h o)
    nested-Within (plain o) = Within-refl []
    nested-Within (boxed b) =
        let inside = slots-Within b in
        slot_or-Within (rc_ptr b >>= rc_lookup h) (slots h b) (mentions h b) inside

    nesteds-Within : (os : Nesteds) → Within (nesteds_slots h os) (in_nesteds h os)
    nesteds-Within no_objects = Within-refl []
    nesteds-Within (cons_object o os) = both-Within (nested-Within o) (nesteds-Within os)

  object_slots-Within : (o : Object Boxed) → Within (object_slots h o) (object_mentions h o)
  unfolding object_slots object_mentions
  object_slots-Within (Object.other b) = slots-Within b
  object_slots-Within (Object.integer v) = Within-refl []
  object_slots-Within (Object.float v) = Within-refl []
  object_slots-Within (Object.boolean v) = Within-refl []
  object_slots-Within Object.null = Within-refl []
  object_slots-Within Object.undefined = Within-refl []
  object_slots-Within (Object.string t) = Within-refl []

  -- Marking what an object refers to visits a list of slots one after the other, each jump by way of
  -- the same function. Every one of them is a slot that the object mentions in some field. They are
  -- all that it mentions, in order, if none of its functions captured a heap value and no level of a
  -- chain of super constructors mentions a slot, for it and for the objects that it holds in place or by an `Rc`.
  pub mark_refs-object_mentions :
      (jump : ℕ → Marks → Option Marks) (o : Object Boxed)
      → (visited : List ℕ) × ((m : Marks) → mark_refs h jump o m ≡ visit_all h jump visited m)
        × ((i : ℕ) → Memᴰ i visited → Memᴰ i (object_mentions h o))
        × (IsScanned h o → visited ≡ object_mentions h o)
  mark_refs-object_mentions jump o = (
    object_slots h o,
    mark_refs_lem h jump o,
    object_slots-Within o,
    object_slots-object_mentions h o,
  )
