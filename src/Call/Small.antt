-- ===== src/Call/Small.antt =====
-- src/function/MulleObjCFunctions.h: the accessor shortcuts for types that are shorter than a
-- pointer. A value of a signed type is its bit pattern.
use mulle_obj_c.Base.{ℕ, ◌%◌}
use mulle_obj_c.Call.Abi.{word, Returned, CallRuntime, sign_extend, char_mod, short_mod, int_mod}

module _ (rt : CallRuntime) where
  unfoldable pub object_set_bool : rt.World → (obj sel value : ℕ) → rt.World
  object_set_bool w obj sel value =
      (rt.object_call w obj sel (word (sign_extend int_mod value))).world

  unfoldable pub object_get_bool : rt.World → (obj sel : ℕ) → ℕ × rt.World
  object_get_bool w obj sel =
      let r : Returned rt.World = rt.object_call w obj sel (word obj) in
      (r.value % int_mod, r.world)

  unfoldable pub object_set_char : rt.World → (obj sel value : ℕ) → rt.World
  object_set_char w obj sel value =
      (rt.object_call w obj sel (word (sign_extend char_mod value))).world

  unfoldable pub object_get_char : rt.World → (obj sel : ℕ) → ℕ × rt.World
  object_get_char w obj sel =
      let r : Returned rt.World = rt.object_call w obj sel (word obj) in
      (r.value % char_mod, r.world)

  unfoldable pub object_set_unsigned_char : rt.World → (obj sel value : ℕ) → rt.World
  object_set_unsigned_char w obj sel value = (rt.object_call w obj sel (word value)).world

  unfoldable pub object_get_unsigned_char : rt.World → (obj sel : ℕ) → ℕ × rt.World
  object_get_unsigned_char w obj sel =
      let r : Returned rt.World = rt.object_call w obj sel (word obj) in
      (r.value % char_mod, r.world)

  unfoldable pub object_set_short : rt.World → (obj sel value : ℕ) → rt.World
  object_set_short w obj sel value =
      (rt.object_call w obj sel (word (sign_extend short_mod value))).world

  unfoldable pub object_get_short : rt.World → (obj sel : ℕ) → ℕ × rt.World
  object_get_short w obj sel =
      let r : Returned rt.World = rt.object_call w obj sel (word obj) in
      (r.value % short_mod, r.world)

  unfoldable pub object_set_unsigned_short : rt.World → (obj sel value : ℕ) → rt.World
  object_set_unsigned_short w obj sel value = (rt.object_call w obj sel (word value)).world

  unfoldable pub object_get_unsigned_short : rt.World → (obj sel : ℕ) → ℕ × rt.World
  object_get_unsigned_short w obj sel =
      let r : Returned rt.World = rt.object_call w obj sel (word obj) in
      (r.value % short_mod, r.world)

  unfoldable pub object_set_int : rt.World → (obj sel value : ℕ) → rt.World
  object_set_int w obj sel value =
      (rt.object_call w obj sel (word (sign_extend int_mod value))).world

  unfoldable pub object_get_int : rt.World → (obj sel : ℕ) → ℕ × rt.World
  object_get_int w obj sel =
      let r : Returned rt.World = rt.object_call w obj sel (word obj) in
      (r.value % int_mod, r.world)

  unfoldable pub object_set_unsigned_int : rt.World → (obj sel value : ℕ) → rt.World
  object_set_unsigned_int w obj sel value = (rt.object_call w obj sel (word value)).world

  unfoldable pub object_get_unsigned_int : rt.World → (obj sel : ℕ) → ℕ × rt.World
  object_get_unsigned_int w obj sel =
      let r : Returned rt.World = rt.object_call w obj sel (word obj) in
      (r.value % int_mod, r.world)
