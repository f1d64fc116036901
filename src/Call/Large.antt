-- ===== src/Call/Large.antt =====
-- src/function/MulleObjCFunctions.h: the accessor shortcuts for types that may be longer than a
-- pointer, which then go through a parameter block.
use mulle_obj_c.Base.{ℕ, leb, if◌then◌else◌, [], ◌∷◌}
use mulle_obj_c.Range.{Range, make}
use mulle_obj_c.Call.Abi.{
  word, block, cell, Returned, CallRuntime, size_of_long, size_of_long_long, size_of_pointer,
}

module _ (rt : CallRuntime) where
  unfoldable pub object_set_long : rt.World → (obj sel value : ℕ) → rt.World
  object_set_long w obj sel value =
      if leb size_of_long size_of_pointer
      then (rt.object_call w obj sel (word value)).world
      else (rt.object_call w obj sel (block (value ∷ []))).world

  unfoldable pub object_get_long : rt.World → (obj sel : ℕ) → ℕ × rt.World
  object_get_long w obj sel =
      let by_value : Returned rt.World = rt.object_call w obj sel (word obj) in
      let by_block : Returned rt.World = rt.object_call w obj sel (block rt.stack) in
      if leb size_of_long size_of_pointer
      then (by_value.value, by_value.world)
      else (cell by_block.block 0, by_block.world)

  unfoldable pub object_set_unsigned_long : rt.World → (obj sel value : ℕ) → rt.World
  object_set_unsigned_long w obj sel value =
      if leb size_of_long size_of_pointer
      then (rt.object_call w obj sel (word value)).world
      else (rt.object_call w obj sel (block (value ∷ []))).world

  unfoldable pub object_get_unsigned_long : rt.World → (obj sel : ℕ) → ℕ × rt.World
  object_get_unsigned_long w obj sel =
      let by_value : Returned rt.World = rt.object_call w obj sel (word obj) in
      let by_block : Returned rt.World = rt.object_call w obj sel (block rt.stack) in
      if leb size_of_long size_of_pointer
      then (by_value.value, by_value.world)
      else (cell by_block.block 0, by_block.world)

  unfoldable pub object_set_long_long : rt.World → (obj sel value : ℕ) → rt.World
  object_set_long_long w obj sel value =
      if leb size_of_long_long size_of_pointer
      then (rt.object_call w obj sel (word value)).world
      else (rt.object_call w obj sel (block (value ∷ []))).world

  unfoldable pub object_get_long_long : rt.World → (obj sel : ℕ) → ℕ × rt.World
  object_get_long_long w obj sel =
      let by_value : Returned rt.World = rt.object_call w obj sel (word obj) in
      let by_block : Returned rt.World = rt.object_call w obj sel (block rt.stack) in
      if leb size_of_long_long size_of_pointer
      then (by_value.value, by_value.world)
      else (cell by_block.block 0, by_block.world)

  unfoldable pub object_set_unsigned_long_long : rt.World → (obj sel value : ℕ) → rt.World
  object_set_unsigned_long_long w obj sel value =
      if leb size_of_long_long size_of_pointer
      then (rt.object_call w obj sel (word value)).world
      else (rt.object_call w obj sel (block (value ∷ []))).world

  unfoldable pub object_get_unsigned_long_long : rt.World → (obj sel : ℕ) → ℕ × rt.World
  object_get_unsigned_long_long w obj sel =
      let by_value : Returned rt.World = rt.object_call w obj sel (word obj) in
      let by_block : Returned rt.World = rt.object_call w obj sel (block rt.stack) in
      if leb size_of_long_long size_of_pointer
      then (by_value.value, by_value.world)
      else (cell by_block.block 0, by_block.world)

  unfoldable pub object_set_ns_integer : rt.World → (obj sel value : ℕ) → rt.World
  object_set_ns_integer w obj sel value = (rt.object_call w obj sel (word value)).world

  unfoldable pub object_get_ns_integer : rt.World → (obj sel : ℕ) → ℕ × rt.World
  object_get_ns_integer w obj sel =
      let r : Returned rt.World = rt.object_call w obj sel (word obj) in (r.value, r.world)

  unfoldable pub object_set_float : rt.World → (obj sel value : ℕ) → rt.World
  object_set_float w obj sel value = (rt.object_call w obj sel (block (value ∷ []))).world

  unfoldable pub object_get_float : rt.World → (obj sel : ℕ) → ℕ × rt.World
  object_get_float w obj sel =
      let r : Returned rt.World = rt.object_call w obj sel (block rt.stack) in
      (cell r.block 0, r.world)

  unfoldable pub object_set_double : rt.World → (obj sel value : ℕ) → rt.World
  object_set_double w obj sel value = (rt.object_call w obj sel (block (value ∷ []))).world

  unfoldable pub object_get_double : rt.World → (obj sel : ℕ) → ℕ × rt.World
  object_get_double w obj sel =
      let r : Returned rt.World = rt.object_call w obj sel (block rt.stack) in
      (cell r.block 0, r.world)

  unfoldable pub object_set_long_double : rt.World → (obj sel value : ℕ) → rt.World
  object_set_long_double w obj sel value = (rt.object_call w obj sel (block (value ∷ []))).world

  -- The return type is `double`, to which C converts.
  unfoldable pub object_get_long_double : rt.World → (obj sel : ℕ) → ℕ × rt.World
  object_get_long_double w obj sel =
      let r : Returned rt.World = rt.object_call w obj sel (block rt.stack) in
      (rt.to_double (cell r.block 0), r.world)

  unfoldable pub object_set_range : rt.World → (obj sel : ℕ) → Range → rt.World
  object_set_range w obj sel value =
      (rt.object_call w obj sel (block (value.location ∷ value.length ∷ []))).world

  unfoldable pub object_get_range : rt.World → (obj sel : ℕ) → Range × rt.World
  object_get_range w obj sel =
      let r : Returned rt.World = rt.object_call w obj sel (block rt.stack) in
      (make (cell r.block 0) (cell r.block 1), r.world)
