-- ===== src/Call/ImpReturning.antt =====
-- src/function/MulleObjCFunctions.h: calls of an implementation for a result that may be longer than
-- a pointer.
use mulle_obj_c.Base.{ℕ, leb, if◌then◌else◌}
use mulle_obj_c.Call.Abi.{
  block, cell, Returned, CallRuntime, size_of_long, size_of_long_long, size_of_pointer,
}
use mulle_obj_c.Call.Imp.{imp_call0}

module _ (rt : CallRuntime) where
  unfoldable pub imp_call0_returning_float : rt.World → (imp obj sel : ℕ) → ℕ × rt.World
  imp_call0_returning_float w imp obj sel =
      let r : Returned rt.World = rt.implementation_invoke w imp obj sel (block rt.stack) in
      (cell r.block 0, r.world)

  unfoldable pub imp_call0_returning_double : rt.World → (imp obj sel : ℕ) → ℕ × rt.World
  imp_call0_returning_double w imp obj sel =
      let r : Returned rt.World = rt.implementation_invoke w imp obj sel (block rt.stack) in
      (cell r.block 0, r.world)

  unfoldable pub imp_call0_returning_long_double : rt.World → (imp obj sel : ℕ) → ℕ × rt.World
  imp_call0_returning_long_double w imp obj sel =
      let r : Returned rt.World = rt.implementation_invoke w imp obj sel (block rt.stack) in
      (cell r.block 0, r.world)

  unfoldable pub imp_call0_returning_long : rt.World → (imp obj sel : ℕ) → ℕ × rt.World
  imp_call0_returning_long w imp obj sel =
      let by_value : Returned rt.World = imp_call0 rt w imp obj sel in
      let by_block : Returned rt.World = rt.implementation_invoke w imp obj sel (block rt.stack) in
      if leb size_of_long size_of_pointer
      then (by_value.value, by_value.world)
      else (cell by_block.block 0, by_block.world)

  unfoldable pub imp_call0_returning_unsigned_long : rt.World → (imp obj sel : ℕ) → ℕ × rt.World
  imp_call0_returning_unsigned_long w imp obj sel =
      let by_value : Returned rt.World = imp_call0 rt w imp obj sel in
      let by_block : Returned rt.World = rt.implementation_invoke w imp obj sel (block rt.stack) in
      if leb size_of_long size_of_pointer
      then (by_value.value, by_value.world)
      else (cell by_block.block 0, by_block.world)

  unfoldable pub imp_call0_returning_long_long : rt.World → (imp obj sel : ℕ) → ℕ × rt.World
  imp_call0_returning_long_long w imp obj sel =
      let by_value : Returned rt.World = imp_call0 rt w imp obj sel in
      let by_block : Returned rt.World = rt.implementation_invoke w imp obj sel (block rt.stack) in
      if leb size_of_long_long size_of_pointer
      then (by_value.value, by_value.world)
      else (cell by_block.block 0, by_block.world)

  unfoldable pub imp_call0_returning_unsigned_long_long :
      rt.World → (imp obj sel : ℕ) → ℕ × rt.World
  imp_call0_returning_unsigned_long_long w imp obj sel =
      let by_value : Returned rt.World = imp_call0 rt w imp obj sel in
      let by_block : Returned rt.World = rt.implementation_invoke w imp obj sel (block rt.stack) in
      if leb size_of_long_long size_of_pointer
      then (by_value.value, by_value.world)
      else (cell by_block.block 0, by_block.world)
