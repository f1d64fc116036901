-- ===== src/Pool/Api.antt =====
-- src/class/NSAutoreleasePool.h and src/class/MulleObjCAutoreleasePool.h: the functions that programs
-- and compilers call. A thread has a configuration for each universe.
pub mod Scope
use mathlib.Core.Path.{subst}
use mulle_obj_c.Base.{
  ℕ, ◌+◌, ◌≡◌, ◌≢◌, ◌<◌, refl, sym, ap, ◌∙◌, Option, none, some, true, false, List, [], ◌∷◌, arith,
  ◌==◌, if◌then◌else◌, Bool-cases, inl, inr, All, update, ==_iff,
}
use mulle_obj_c.Array.{ObjectId, nil, init}
use mulle_obj_c.Pool.Runtime.{Runtime, MapLaws}
use mulle_obj_c.Pool.Ops.{
  Pool, Config, Outcome, done, autorelease_object, autorelease_objects, push,
}
use mulle_obj_c.Pool.Drain.{pop}
use mulle_obj_c.Pool.Induct.{Chain}
use mulle_obj_c.Pool.Frame.{put, tail-autorelease_object}
use mulle_obj_c.Pool.Total.{Chain-put}
use mulle_obj_c.Pool.Ledger.Add.{autorelease_object-Books, push-Books}
use mulle_obj_c.Pool.Pop.{has_pool, behind, RanksBelow, Ranked, AllBooks, pop_lem}

-- `MULLE_OBJC_DEFAULTUNIVERSEID`
abbrev pub default_universeid : ℕ
default_universeid = 0

module _ (rt : Runtime) where
  -- The thread's configuration for each universe that there is
  abbrev pub Universes : Type 0
  Universes = ℕ → Option (Config rt)

  -- `__MulleAutoreleasePoolPush`, where `adr` is what the allocation of the pool returns
  unfoldable pub universe_pool_push : (adr : ℕ) → Option (Config rt) → ℕ × Option (Config rt)
  universe_pool_push adr none = (0, none)
  universe_pool_push adr (some config) = (adr, some (push rt adr config))

  -- `_MulleAutoreleasePoolPush`
  unfoldable pub universeid_pool_push : (adr universeid : ℕ) → Universes → ℕ × Universes
  universeid_pool_push adr universeid universes =
      let (pool, config) = universe_pool_push adr (universes universeid) in
      (pool, update universes universeid config)

  -- `MulleAutoreleasePoolPush`; the compiler knows the universe
  unfoldable pub autorelease_pool_push : (universeid adr : ℕ) → Universes → ℕ × Universes
  autorelease_pool_push universeid adr universes = universeid_pool_push adr universeid universes

  -- `NSPushAutoreleasePool`
  unfoldable pub push_autorelease_pool : (adr size : ℕ) → Universes → ℕ × Universes
  push_autorelease_pool adr size universes =
      let (pool, config) = universe_pool_push adr (universes default_universeid) in
      (pool, update universes default_universeid config)

  -- `MulleAutoreleasePoolPop` in the universe of the pool
  unfoldable pub autorelease_pool_pop : (fuel : ℕ) → (pool : ℕ) → Config rt → Outcome (Config rt)
  autorelease_pool_pop fuel pool config = if pool == 0 then done config else pop rt fuel config pool

  -- `NSPopAutoreleasePool`
  unfoldable pub pop_autorelease_pool : (fuel : ℕ) → (pool : ℕ) → Config rt → Outcome (Config rt)
  pop_autorelease_pool fuel pool config = autorelease_pool_pop fuel pool config

  -- `_MulleObjCAutoreleaseObject`
  unfoldable pub objc_autorelease_object : (obj : ObjectId) → Config rt → ObjectId × Config rt
  objc_autorelease_object obj config = (obj, autorelease_object rt config obj)

  -- `NSAutoreleaseObject`
  unfoldable pub ns_autorelease_object : (obj : ObjectId) → Config rt → ObjectId × Config rt
  ns_autorelease_object obj config =
      if obj == nil then (obj, config) else (obj, (objc_autorelease_object obj config).1)

  -- `_MulleObjCAutoreleaseObjects`, with a step of one id
  unfoldable pub objc_autorelease_objects :
      (objects : ℕ → ObjectId) → (count : ℕ) → Config rt → Config rt
  objc_autorelease_objects objects count config = autorelease_objects rt config objects count 1

  -- `_MulleObjCAutoreleaseSpacedObjects`; the step counts ids
  unfoldable pub objc_autorelease_spaced_objects :
      (objects : ℕ → ObjectId) → (count step : ℕ) → Config rt → Config rt
  objc_autorelease_spaced_objects objects count step config =
      autorelease_objects rt config objects count step
