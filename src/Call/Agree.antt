-- ===== src/Call/Agree.antt =====
-- A message is a call of the implementation that the runtime finds for it, and calling an array of
-- implementations backwards is calling the reversed array.
use mulle_obj_c.Base.{ℕ, ◌≡◌, refl, sym, ap, ◌∙◌, List, [], ◌∷◌, ◌++◌}
use mulle_obj_c.Call.Abi.{Parameter, word, block, Returned, CallRuntime, cell}
use mulle_obj_c.Call.Imp.{
  imp_call0, imp_call, imp_call1, imp_call2, imp_call3, imp_call4, imp_call5, imp_call_with_float,
  imp_call_with_double, imp_call_with_long_double, imp_call_with_long, imp_call_with_unsigned_long,
  imp_call_with_long_long, imp_call_with_unsigned_long_long,
}
use mulle_obj_c.Call.ImpReturning.{
  imp_call0_returning_float, imp_call0_returning_double, imp_call0_returning_long,
  imp_call0_returning_unsigned_long, imp_call0_returning_long_long,
  imp_call0_returning_unsigned_long_long,
}
use mulle_obj_c.Call.Perform.{
  perform_selector0, perform_selector, perform_selector1, perform_selector2, perform_selector3,
  perform_selector4, perform_selector5,
}
use mulle_obj_c.Call.Large.{
  object_set_float, object_set_double, object_set_long_double, object_set_long,
  object_set_unsigned_long, object_set_long_long, object_set_unsigned_long_long, object_get_float,
  object_get_double, object_get_long, object_get_unsigned_long, object_get_long_long,
  object_get_unsigned_long_long,
}
use mulle_obj_c.Call.ImpArray.{
  ImpArray, call_each, call_each_reverse, imp_array_call, imp_array_call_reverse,
}

-- Sending a message finds the implementation and calls it.
abbrev pub Dispatches : (rt : CallRuntime) → (rt.World → (obj sel : ℕ) → ℕ) → Type 0
Dispatches rt lookup =
    (w : rt.World) (obj sel : ℕ) (p : Parameter)
    → rt.object_call w obj sel p ≡ rt.implementation_invoke w (lookup w obj sel) obj sel p

module _ (rt : CallRuntime) (lookup : rt.World → (obj sel : ℕ) → ℕ)
    (dispatches : Dispatches rt lookup) where
  -- Where sending a message is finding its implementation and calling it, performing a selector with
  -- up to five arguments is calling the implementation with them.
  pub perform_selector-imp_call :
      (w : rt.World) (obj sel a b c d e : ℕ)
      → (perform_selector0 rt w obj sel ≡ imp_call0 rt w (lookup w obj sel) obj sel)
        × (perform_selector1 rt w obj sel a ≡ imp_call1 rt w (lookup w obj sel) obj sel a)
        × (perform_selector2 rt w obj sel a b ≡ imp_call2 rt w (lookup w obj sel) obj sel a b)
        × (perform_selector3 rt w obj sel a b c ≡ imp_call3 rt w (lookup w obj sel) obj sel a b c)
        × (perform_selector4 rt w obj sel a b c d
            ≡ imp_call4 rt w (lookup w obj sel) obj sel a b c d)
        × (perform_selector5 rt w obj sel a b c d e
            ≡ imp_call5 rt w (lookup w obj sel) obj sel a b c d e)
        × (perform_selector rt w obj sel a ≡ imp_call rt w (lookup w obj sel) obj sel a)
  unfolding perform_selector0 perform_selector perform_selector1 perform_selector2 perform_selector3
      perform_selector4 perform_selector5 imp_call0 imp_call imp_call1 imp_call2 imp_call3 imp_call4
      imp_call5
  perform_selector-imp_call w obj sel a b c d e = (
    dispatches w obj sel (word obj),
    dispatches w obj sel (word a),
    dispatches w obj sel (block (a ∷ b ∷ [])),
    dispatches w obj sel (block (a ∷ b ∷ c ∷ [])),
    dispatches w obj sel (block (a ∷ b ∷ c ∷ d ∷ [])),
    dispatches w obj sel (block (a ∷ b ∷ c ∷ d ∷ e ∷ [])),
    dispatches w obj sel (word a),
  )

  -- There, the accessor shortcuts of types that may be longer than a pointer pass values and results
  -- as the calls of implementations do that key value coding makes.
  pub object_set-imp_call_with :
      (w : rt.World) (obj sel a : ℕ)
      → ((object_set_float rt w obj sel a
            ≡ (imp_call_with_float rt w (lookup w obj sel) obj sel a).world)
          × (object_set_double rt w obj sel a
              ≡ (imp_call_with_double rt w (lookup w obj sel) obj sel a).world)
          × (object_set_long_double rt w obj sel a
              ≡ (imp_call_with_long_double rt w (lookup w obj sel) obj sel a).world)
          × (object_set_long rt w obj sel a
              ≡ (imp_call_with_long rt w (lookup w obj sel) obj sel a).world)
          × (object_set_unsigned_long rt w obj sel a
              ≡ (imp_call_with_unsigned_long rt w (lookup w obj sel) obj sel a).world)
          × (object_set_long_long rt w obj sel a
              ≡ (imp_call_with_long_long rt w (lookup w obj sel) obj sel a).world)
          × (object_set_unsigned_long_long rt w obj sel a
              ≡ (imp_call_with_unsigned_long_long rt w (lookup w obj sel) obj sel a).world))
        × ((object_get_float rt w obj sel
              ≡ imp_call0_returning_float rt w (lookup w obj sel) obj sel)
            × (object_get_double rt w obj sel
                ≡ imp_call0_returning_double rt w (lookup w obj sel) obj sel)
            × (object_get_long rt w obj sel
                ≡ imp_call0_returning_long rt w (lookup w obj sel) obj sel)
            × (object_get_unsigned_long rt w obj sel
                ≡ imp_call0_returning_unsigned_long rt w (lookup w obj sel) obj sel)
            × (object_get_long_long rt w obj sel
                ≡ imp_call0_returning_long_long rt w (lookup w obj sel) obj sel)
            × (object_get_unsigned_long_long rt w obj sel
                ≡ imp_call0_returning_unsigned_long_long rt w (lookup w obj sel) obj sel))
  unfolding object_set_float imp_call_with_float object_set_double imp_call_with_double
      object_set_long_double imp_call_with_long_double object_set_long imp_call_with_long
      object_set_unsigned_long imp_call_with_unsigned_long object_set_long_long
      imp_call_with_long_long object_set_unsigned_long_long imp_call_with_unsigned_long_long
      object_get_float imp_call0_returning_float object_get_double imp_call0_returning_double
      object_get_long imp_call0_returning_long object_get_unsigned_long
      imp_call0_returning_unsigned_long object_get_long_long imp_call0_returning_long_long
      object_get_unsigned_long_long imp_call0_returning_unsigned_long_long imp_call0 imp_call
  object_set-imp_call_with w obj sel a =
      let by_word = ap (λ (r : Returned rt.World). r.world) (dispatches w obj sel (word a)) in
      let by_block =
        ap (λ (r : Returned rt.World). r.world) (dispatches w obj sel (block (a ∷ []))) in
      let got =
        ap (λ (r : Returned rt.World). (r.value, r.world)) (dispatches w obj sel (word obj)) in
      let read =
        ap (λ (r : Returned rt.World). (cell r.block 0, r.world))
          (dispatches w obj sel (block rt.stack)) in
      (
        (by_block, by_block, by_block, by_word, by_word, by_word, by_word),
        (read, read, got, got, got, got),
      )

module _ (rt : CallRuntime) where
  abbrev pub reverse : List ℕ → List ℕ
  reverse [] = []
  reverse (x ∷ xs) = reverse xs ++ (x ∷ [])

  call_each-append :
      (xs ys : List ℕ) (obj sel argument : ℕ) (w : rt.World)
      → call_each rt (xs ++ ys) obj sel argument w
        ≡ call_each rt ys obj sel argument (call_each rt xs obj sel argument w)
  unfolding call_each
  call_each-append [] ys obj sel argument w = refl
  call_each-append (x ∷ xs) ys obj sel argument w = call_each-append xs ys obj sel argument _

  call_each_reverse-reverse :
      (imps : List ℕ) (obj sel argument : ℕ) (w : rt.World)
      → call_each_reverse rt imps obj sel argument w
        ≡ call_each rt (reverse imps) obj sel argument w
  unfolding call_each call_each_reverse
  call_each_reverse-reverse [] obj sel argument w = refl
  call_each_reverse-reverse (x ∷ xs) obj sel argument w =
      ap (λ w'. (imp_call rt w' x obj sel argument).world)
        (call_each_reverse-reverse xs obj sel argument w)
      ∙ sym (call_each-append (reverse xs) (x ∷ []) obj sel argument w)

  -- Calling the implementations of an array in reverse has the effect of calling those of the array
  -- that is reversed.
  pub imp_array_call_reverse-imp_array_call :
      (imps : ImpArray) (obj argument : ℕ) (w : rt.World)
      → imp_array_call_reverse rt imps obj argument w
        ≡ imp_array_call rt (record imps { imps = reverse imps.imps }) obj argument w
  unfolding imp_array_call imp_array_call_reverse
  imp_array_call_reverse-imp_array_call imps obj argument w =
      call_each_reverse-reverse imps.imps obj imps.selector argument w
