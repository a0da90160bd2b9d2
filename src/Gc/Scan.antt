-- ===== src/Gc/Scan.antt =====
-- One scan of engine.rs visits the slots of `object_slots`, in their order.
use formlogic_rust.Value.Word.{is_heap, heap_index}
use formlogic_rust.Gc.Object.{
  Boxed, ClassBody, InstanceBody, Function, Functions, Nested, Nesteds, hash_object, array,
  compiled_function, map_object, generator, class, instance_object, bound_method, super_ref,
  builtin_function, return_value, promise, no_references, class_body, instance_body, function,
  no_functions, cons_function, plain, boxed, no_objects, cons_object, rc_ptr, option_list,
}
use formlogic_rust.Gc.Slots.{
  object_slots, class_slots, function_slots, functions_slots, instance_slots, nested_slots, slots,
  value_slots, ◌⧺◌, nesteds_slots,
}
use formlogic_rust.Gc.Mark.{
  mark_refs, Marks, visit, mark_values, mark_object_refs, mark_value, mark_class, mark_instance,
  mark_compiled_fn_refs, mark_functions, mark_nested_object, mark_nested_objects,
}
use formlogic_rust.Heap.Store.{Object, Heap, rc_lookup}
use formlogic_rust.Common.{
  Bool-cases, List, Option, Option-cases, [], inl, inr, refl, some, ℕ, ◌++◌, ◌>>=◌, ◌∷◌, ◌≡◌,
}

module _ (h : Heap Boxed) (jump : ℕ → Marks → Option Marks) where
  unfoldable pub visit_all : List ℕ → Marks → Option Marks
  unfolding visit
  visit_all [] m = some m
  visit_all (i ∷ is) m = visit h jump i m >>= visit_all is

  pub visit_all-append :
      (xs ys : List ℕ) (m : Marks) → visit_all (xs ++ ys) m ≡ (visit_all xs m >>= visit_all ys)
  unfolding visit_all
  visit_all-append [] ys m = refl
  visit_all-append (x ∷ xs) ys m = elim (Option-cases (visit h jump x m)) [
    | inl e ↦ rw e refl
    | inr (k, e) ↦ rw e (visit_all-append xs ys k)
  ]

  -- A scan that visits `xs`, then one that visits `ys`.
  scan_then :
      {o : Option Marks} {f : Marks → Option Marks} (m : Marks) (xs ys : List ℕ)
      → o ≡ visit_all xs m
      → ((k : Marks) → f k ≡ visit_all ys k)
      → (o >>= f) ≡ visit_all (xs ⧺ ys) m
  scan_then {f} m xs ys e g =
      rw (e, visit_all-append xs ys m)
        (elim (Option-cases (visit_all xs m)) [ inl n ↦ rw n refl | inr (k, n) ↦ rw n (g k) ])

  pub mark_values_lem :
      (vs : List ℕ) (m : Marks) → mark_values h jump vs m ≡ visit_all (value_slots vs) m
  unfolding mark_values mark_value value_slots visit_all
  mark_values_lem [] m = refl
  mark_values_lem (v ∷ vs) m = elim (Bool-cases (is_heap v)) [
    | inl heap ↦ rw heap (elim (Option-cases (visit h jump (heap_index v) m)) [
      | inl n ↦ rw n refl
      | inr (k, n) ↦ rw n (mark_values_lem vs k)
    ])
    | inr other ↦ rw other (mark_values_lem vs m)
  ]

  visit_one : (i : ℕ) (m : Marks) → visit h jump i m ≡ visit_all (i ∷ []) m
  unfolding visit_all
  visit_one i m = elim (Option-cases (visit h jump i m)) [
    | inl n ↦ rw n refl
    | inr (k, n) ↦ rw n refl
  ]

  mutual
    unfolding mark_object_refs slots visit_all mark_value

    mark_object_refs_lem :
        (b : Boxed) (m : Marks) → mark_object_refs h jump b m ≡ visit_all (slots h b) m
    mark_object_refs_lem (hash_object ptr pairs values locals getters setters) m =
        scan_then m _ _
          (scan_then m _ _
            (scan_then m _ _ (scan_then m _ _ (mark_values_lem pairs m) (mark_values_lem values))
              (nesteds_lem locals))
            (functions_lem getters))
          (functions_lem setters)
    mark_object_refs_lem (array ptr values) m = mark_values_lem values m
    mark_object_refs_lem (compiled_function f) m = function_lem f m
    mark_object_refs_lem (map_object values) m = mark_values_lem values m
    mark_object_refs_lem (generator ptr locals args receiver f) m =
        scan_then m _ _
          (scan_then m _ _ (scan_then m _ _ (nesteds_lem locals m) (mark_values_lem args))
            (mark_values_lem (option_list receiver)))
          (function_lem f)
    mark_object_refs_lem (class body) m = class_lem body m
    mark_object_refs_lem (instance_object body) m = instance_lem body m
    mark_object_refs_lem (bound_method f receiver) m =
        scan_then m _ _ (function_lem f m) (nested_lem receiver)
    mark_object_refs_lem (super_ref receiver methods getters setters chain) m =
        scan_then m _ _
          (scan_then m _ _ (scan_then m _ _ (nested_lem receiver m) (functions_lem methods))
            (functions_lem getters))
          (functions_lem setters)
    mark_object_refs_lem (builtin_function receiver) m = nesteds_lem receiver m
    mark_object_refs_lem (return_value inner) m = nested_lem inner m
    mark_object_refs_lem (promise inner) m = nested_lem inner m
    mark_object_refs_lem no_references m = refl

    class_lem :
        (body : ClassBody) (m : Marks) → mark_class h jump body m ≡ visit_all (class_slots h body) m
    class_lem (class_body ctor methods statics gs ss sms sgs sss chain inits blocks fields) m =
        scan_then m _ _
          (scan_then m _ _
            (scan_then m _ _
              (scan_then m _ _
                (scan_then m _ _
                  (scan_then m _ _
                    (scan_then m _ _
                      (scan_then m _ _
                        (scan_then m _ _
                          (scan_then m _ _ (functions_lem ctor m) (functions_lem methods))
                          (functions_lem statics))
                        (functions_lem gs))
                      (functions_lem ss))
                    (functions_lem sms))
                  (functions_lem sgs))
                (functions_lem sss))
              (functions_lem inits))
            (functions_lem blocks))
          (nesteds_lem fields)

    instance_lem :
        (body : InstanceBody) (m : Marks)
        → mark_instance h jump body m ≡ visit_all (instance_slots h body) m
    instance_lem (instance_body fields methods gs ss sms sgs sss chain) m =
        scan_then m _ _
          (scan_then m _ _
            (scan_then m _ _
              (scan_then m _ _
                (scan_then m _ _ (scan_then m _ _ (nesteds_lem fields m) (functions_lem methods))
                  (functions_lem gs))
                (functions_lem ss))
              (functions_lem sms))
            (functions_lem sgs))
          (functions_lem sss)

    function_lem :
        (f : Function) (m : Marks)
        → mark_compiled_fn_refs h jump f m ≡ visit_all (function_slots h f) m
    function_lem (function constants captured) m = nesteds_lem constants m

    functions_lem :
        (fs : Functions) (m : Marks)
        → mark_functions h jump fs m ≡ visit_all (functions_slots h fs) m
    functions_lem no_functions m = refl
    functions_lem (cons_function f fs) m = scan_then m _ _ (function_lem f m) (functions_lem fs)

    pub nested_lem :
        (o : Nested) (m : Marks) → mark_nested_object h jump o m ≡ visit_all (nested_slots h o) m
    nested_lem (plain o) m = refl
    nested_lem (boxed b) m =
        let inside = mark_object_refs_lem b m in
        elim (Option-cases (rc_ptr b >>= rc_lookup h)) [
          | inl n ↦ rw n inside
          | inr (i, n) ↦ rw n (visit_one i m)
        ]

    pub nesteds_lem :
        (os : Nesteds) (m : Marks)
        → mark_nested_objects h jump os m ≡ visit_all (nesteds_slots h os) m
    nesteds_lem no_objects m = refl
    nesteds_lem (cons_object o os) m = scan_then m _ _ (nested_lem o m) (nesteds_lem os)

  -- Marking what an object refers to visits the slots of `object_slots`, in their order, each jump by
  -- way of the same function.
  pub mark_refs_lem :
      (o : Object Boxed) (m : Marks) → mark_refs h jump o m ≡ visit_all (object_slots h o) m
  unfolding mark_refs object_slots visit_all
  mark_refs_lem (Object.other b) m = mark_object_refs_lem b m
  mark_refs_lem (Object.integer v) m = refl
  mark_refs_lem (Object.float v) m = refl
  mark_refs_lem (Object.boolean v) m = refl
  mark_refs_lem Object.null m = refl
  mark_refs_lem Object.undefined m = refl
  mark_refs_lem (Object.string s) m = refl
