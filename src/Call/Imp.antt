-- ===== src/Call/Imp.antt =====
-- src/function/MulleObjCFunctions.h: calls of an implementation with arguments.
use mulle_obj_c.Base.{ℕ, leb, if◌then◌else◌, [], ◌∷◌}
use mulle_obj_c.Call.Abi.{
  word, block, Returned, CallRuntime, size_of_long, size_of_long_long, size_of_pointer,
}

module _ (rt : CallRuntime) where
  unfoldable pub imp_call0 : rt.World → (imp obj sel : ℕ) → Returned rt.World
  imp_call0 w imp obj sel = rt.implementation_invoke w imp obj sel (word obj)

  unfoldable pub imp_call : rt.World → (imp obj sel argument : ℕ) → Returned rt.World
  imp_call w imp obj sel argument = rt.implementation_invoke w imp obj sel (word argument)

  unfoldable pub imp_call1 : rt.World → (imp obj sel argument : ℕ) → Returned rt.World
  imp_call1 w imp obj sel argument = imp_call w imp obj sel argument

  unfoldable pub imp_call2 : rt.World → (imp obj sel a b : ℕ) → Returned rt.World
  imp_call2 w imp obj sel a b = rt.implementation_invoke w imp obj sel (block (a ∷ b ∷ []))

  unfoldable pub imp_call3 : rt.World → (imp obj sel a b c : ℕ) → Returned rt.World
  imp_call3 w imp obj sel a b c = rt.implementation_invoke w imp obj sel (block (a ∷ b ∷ c ∷ []))

  unfoldable pub imp_call4 : rt.World → (imp obj sel a b c d : ℕ) → Returned rt.World
  imp_call4 w imp obj sel a b c d =
      rt.implementation_invoke w imp obj sel (block (a ∷ b ∷ c ∷ d ∷ []))

  unfoldable pub imp_call5 : rt.World → (imp obj sel a b c d e : ℕ) → Returned rt.World
  imp_call5 w imp obj sel a b c d e =
      rt.implementation_invoke w imp obj sel (block (a ∷ b ∷ c ∷ d ∷ e ∷ []))

  unfoldable pub imp_call_with_float : rt.World → (imp obj sel argument : ℕ) → Returned rt.World
  imp_call_with_float w imp obj sel argument =
      rt.implementation_invoke w imp obj sel (block (argument ∷ []))

  unfoldable pub imp_call_with_double : rt.World → (imp obj sel argument : ℕ) → Returned rt.World
  imp_call_with_double w imp obj sel argument =
      rt.implementation_invoke w imp obj sel (block (argument ∷ []))

  unfoldable pub imp_call_with_long_double :
      rt.World → (imp obj sel argument : ℕ) → Returned rt.World
  imp_call_with_long_double w imp obj sel argument =
      rt.implementation_invoke w imp obj sel (block (argument ∷ []))

  unfoldable pub imp_call_with_long : rt.World → (imp obj sel argument : ℕ) → Returned rt.World
  imp_call_with_long w imp obj sel argument =
      if leb size_of_long size_of_pointer
      then imp_call w imp obj sel argument
      else rt.implementation_invoke w imp obj sel (block (argument ∷ []))

  unfoldable pub imp_call_with_unsigned_long :
      rt.World → (imp obj sel argument : ℕ) → Returned rt.World
  imp_call_with_unsigned_long w imp obj sel argument =
      if leb size_of_long size_of_pointer
      then imp_call w imp obj sel argument
      else rt.implementation_invoke w imp obj sel (block (argument ∷ []))

  unfoldable pub imp_call_with_long_long : rt.World → (imp obj sel argument : ℕ) → Returned rt.World
  imp_call_with_long_long w imp obj sel argument =
      if leb size_of_long_long size_of_pointer
      then imp_call w imp obj sel argument
      else rt.implementation_invoke w imp obj sel (block (argument ∷ []))

  unfoldable pub imp_call_with_unsigned_long_long :
      rt.World → (imp obj sel argument : ℕ) → Returned rt.World
  imp_call_with_unsigned_long_long w imp obj sel argument =
      if leb size_of_long_long size_of_pointer
      then imp_call w imp obj sel argument
      else rt.implementation_invoke w imp obj sel (block (argument ∷ []))
