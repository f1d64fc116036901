-- ===== src/Call/Perform.antt =====
-- src/function/MulleObjCFunctions.h: the message sending helpers.
use mulle_obj_c.Base.{ℕ, ◌%◌, List, [], ◌∷◌}
use mulle_obj_c.Call.Abi.{word, block, Returned, CallRuntime, int_mod}

module _ (rt : CallRuntime) where
  unfoldable pub perform_selector0 : rt.World → (obj sel : ℕ) → Returned rt.World
  perform_selector0 w obj sel = rt.object_call w obj sel (word obj)

  unfoldable pub perform_selector1 : rt.World → (obj sel argument : ℕ) → Returned rt.World
  perform_selector1 w obj sel argument = rt.object_call w obj sel (word argument)

  unfoldable pub perform_selector : rt.World → (obj sel argument : ℕ) → Returned rt.World
  perform_selector w obj sel argument = rt.object_call w obj sel (word argument)

  unfoldable pub perform_selector_double_argument : rt.World → (obj sel a : ℕ) → Returned rt.World
  perform_selector_double_argument w obj sel a = rt.object_call w obj sel (block (a ∷ []))

  unfoldable pub perform_selector_double_argument2 :
      rt.World → (obj sel a b : ℕ) → Returned rt.World
  perform_selector_double_argument2 w obj sel a b = rt.object_call w obj sel (block (a ∷ b ∷ []))

  unfoldable pub perform_selector_double_argument3 :
      rt.World → (obj sel a b c : ℕ) → Returned rt.World
  perform_selector_double_argument3 w obj sel a b c =
      rt.object_call w obj sel (block (a ∷ b ∷ c ∷ []))

  unfoldable pub perform_selector_double_argument4 :
      rt.World → (obj sel a b c d : ℕ) → Returned rt.World
  perform_selector_double_argument4 w obj sel a b c d =
      rt.object_call w obj sel (block (a ∷ b ∷ c ∷ d ∷ []))

  unfoldable pub make_objects_perform_selector0 :
      rt.World → (objects : List ℕ) → (sel : ℕ) → rt.World
  make_objects_perform_selector0 w objects sel = rt.objects_call w objects sel (word 0)

  unfoldable pub make_objects_perform_selector :
      rt.World → (objects : List ℕ) → (sel a : ℕ) → rt.World
  make_objects_perform_selector w objects sel a = rt.objects_call w objects sel (word a)

  unfoldable pub perform_selector2 : rt.World → (obj sel a b : ℕ) → Returned rt.World
  perform_selector2 w obj sel a b = rt.object_call w obj sel (block (a ∷ b ∷ []))

  unfoldable pub perform_selector3 : rt.World → (obj sel a b c : ℕ) → Returned rt.World
  perform_selector3 w obj sel a b c = rt.object_call w obj sel (block (a ∷ b ∷ c ∷ []))

  unfoldable pub perform_selector4 : rt.World → (obj sel a b c d : ℕ) → Returned rt.World
  perform_selector4 w obj sel a b c d = rt.object_call w obj sel (block (a ∷ b ∷ c ∷ d ∷ []))

  unfoldable pub perform_selector5 : rt.World → (obj sel a b c d e : ℕ) → Returned rt.World
  perform_selector5 w obj sel a b c d e = rt.object_call w obj sel (block (a ∷ b ∷ c ∷ d ∷ e ∷ []))

  unfoldable pub perform_selector0_returning_bool : rt.World → (obj sel : ℕ) → ℕ × rt.World
  perform_selector0_returning_bool w obj sel =
      let r : Returned rt.World = rt.object_call w obj sel (word obj) in
      (r.value % int_mod, r.world)

  unfoldable pub perform_selector_returning_bool : rt.World → (obj sel argument : ℕ) → ℕ × rt.World
  perform_selector_returning_bool w obj sel argument =
      let r : Returned rt.World = rt.object_call w obj sel (word argument) in
      (r.value % int_mod, r.world)
