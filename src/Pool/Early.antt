-- ===== src/Pool/Early.antt =====
-- The functions of NSAutoreleasePool.m that take objects out of the pools early, and leave holes.
-- A pool is named by the number of its owners, an array by the number of arrays behind it, since
-- what a -dealloc autoreleases goes in front of both.
pub mod Holes
pub mod Balance
pub mod Slots
pub mod Emptied
use mulle_obj_c.Base.{
  ℕ, zero, suc, ◌+◌, ◌-◌, ◌%◌, Bool, true, false, Option, none, some, List, [], ◌∷◌, ◌==◌,
  if◌then◌else◌, length, update,
}
use mulle_obj_c.Array.{ObjectId, nil, word, Array}
use mulle_obj_c.Pool.Runtime.{Runtime}
use mulle_obj_c.Pool.Ops.{Pool, Config, with_map}
use mulle_obj_c.Pool.Drain.{storage_of, release, map_decrement}

abbrev pub used_in : (j : ℕ) → List Array → ℕ
used_in j [] = 0
used_in j (a ∷ previous) = if length previous == j then a.used else used_in j previous

abbrev pub slot_in : (j i : ℕ) → List Array → ObjectId
slot_in j i [] = nil
slot_in j i (a ∷ previous) = if length previous == j then a.objects i else slot_in j i previous

-- `*q = NULL; array->count--;`
abbrev pub punch_in : (j i : ℕ) → List Array → List Array
punch_in j i [] = []
punch_in j i (a ∷ previous) =
    if length previous == j
    then record a { objects = update a.objects i nil; count = (a.count + word - 1) % word }
      ∷ previous
    else a ∷ punch_in j i previous

abbrev pub punch : (d j i : ℕ) → List Pool → List Pool
punch d j i [] = []
punch d j i (p ∷ owner) =
    if length owner == d
    then record p { storage = punch_in j i p.storage } ∷ owner
    else p ∷ punch d j i owner

-- `for( p = objects; p < p_sentinel; ++p) if( *p == obj)`
abbrev pub is_listed : ObjectId → List ObjectId → Bool
is_listed x [] = false
is_listed x (p ∷ objects) = if p == x then true else is_listed x objects

module _ (rt : Runtime) (objects : List ObjectId) where
  -- One slot of `_mulle_autoreleasepointerarray_release_objects`.
  unfoldable pub release_listed : (d j i : ℕ) → Config rt → Config rt
  release_listed d j i c =
      let obj : ObjectId = slot_in j i (storage_of d c.tail) in
      if is_listed obj objects
      then release rt obj
          (with_map rt (map_decrement rt obj) (record c { tail = punch d j i c.tail }))
      else c

  -- `while( q > q_sentinel)`, from slot `i` down
  unfoldable pub release_listed_slots : (d j i : ℕ) → Config rt → Config rt
  release_listed_slots d j zero c = c
  release_listed_slots d j (suc i) c = release_listed_slots d j i (release_listed d j i c)

  -- `while( array = array->previous)`, with `n` arrays to go
  unfoldable pub release_listed_arrays : (d n : ℕ) → Config rt → Config rt
  release_listed_arrays d zero c = c
  release_listed_arrays d (suc j) c =
      release_listed_arrays d j (release_listed_slots d j (used_in j (storage_of d c.tail)) c)

  -- `releaseObjects` on the pool with `d` owners
  unfoldable pub release_pool_objects : (d : ℕ) → Config rt → Config rt
  release_pool_objects d c = release_listed_arrays d (length (storage_of d c.tail)) c

  -- `for( pool = config->tail; pool; pool = pool->_owner)`, with `n` pools to go
  unfoldable pub release_pools_objects : (n : ℕ) → Config rt → Config rt
  release_pools_objects zero c = c
  release_pools_objects (suc d) c = release_pools_objects d (release_pool_objects d c)

  -- +mulleReleasePoolObjects:count:
  unfoldable pub release_objects : Config rt → Config rt
  release_objects c = release_pools_objects (length c.tail) c
