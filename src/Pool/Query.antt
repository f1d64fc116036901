-- ===== src/Pool/Query.antt =====
-- What NSAutoreleasePool.m answers about the pools: membership and counts.
pub mod Live
use mulle_obj_c.Base.{
  ℕ, ◌+◌, ◌-◌, ◌%◌, ◌^◌, Bool, true, false, not, Option, none, some, List, [], ◌∷◌, ltb, ◌==◌,
  if◌then◌else◌,
}
use mulle_obj_c.Array
use mulle_obj_c.Array.{ObjectId, word}
use mulle_obj_c.Pool.Runtime.{Runtime}
use mulle_obj_c.Pool.Ops.{Pool, Config}

-- an `unsigned int` that is returned as `int` and added to an NSUInteger
abbrev pub int_to_word : ℕ → ℕ
int_to_word n = if ltb n (2 ^ 31) then n else n + word - 2 ^ 32

-- the functions on one pool, where `[]` is a pool that is nil
unfoldable pub pool_contains_object : List Pool → ObjectId → Bool
pool_contains_object [] p = false
pool_contains_object (pool ∷ _) p = Array.contains pool.storage p

unfoldable pub pool_count_object : List Pool → ObjectId → ℕ
pool_count_object [] p = 0
pool_count_object (pool ∷ _) p = int_to_word (Array.count_object pool.storage p)

unfoldable pub pool_count : List Pool → ℕ
pool_count [] = 0
pool_count (pool ∷ _) = Array.count pool.storage

-- `for( pool = config->tail; pool; pool = pool->_owner)`
unfoldable pub contains_loop : List Pool → ObjectId → Bool
contains_loop [] p = false
contains_loop (pool ∷ owner) p =
    if pool_contains_object (pool ∷ owner) p then true else contains_loop owner p

unfoldable pub count_object_loop : List Pool → ObjectId → ℕ → ℕ
count_object_loop [] p n = n
count_object_loop (pool ∷ owner) p n =
    count_object_loop owner p ((n + pool_count_object (pool ∷ owner) p) % word)

unfoldable pub count_loop : List Pool → ℕ → ℕ
count_loop [] n = n
count_loop (pool ∷ owner) n = count_loop owner ((n + pool_count (pool ∷ owner)) % word)

module _ (rt : Runtime) where
  -- +mulleDefaultAutoreleasePool and +mulleParentAutoreleasePool
  unfoldable pub default_pool : Config rt → Option Pool
  default_pool c = elim c.tail [ [] ↦ none | pool ∷ _ ↦ some pool ]

  unfoldable pub parent_pool : Config rt → Option Pool
  parent_pool c = elim c.tail [
    | [] ↦ none
    | _ ∷ owner ↦ elim owner [ [] ↦ none | pool ∷ _ ↦ some pool ]
  ]

  -- +mulleContainsObject:
  unfoldable pub contains_object : Config rt → ObjectId → Bool
  unfolding contains_loop
  contains_object c p = elim c.object_map [
    | some m ↦ not (rt.get m p == 0)
    | none ↦ contains_loop c.tail p
  ]

  -- +mulleCountObject:
  unfoldable pub count_object : Config rt → ObjectId → ℕ
  unfolding count_object_loop
  count_object c p = elim c.object_map [ some m ↦ rt.get m p | none ↦ count_object_loop c.tail p 0 ]

  -- +mulleCount
  unfoldable pub count : Config rt → ℕ
  unfolding count_loop
  count c = count_loop c.tail 0
