-- ===== src/Pool/Query/Live.antt =====
-- The answers about the pools are true of what the pools hold.
use mulle_obj_c.Base.{
  ℕ, ltb, ◌-◌, ◌+◌, ◌%◌, ◌^◌, ◌≡◌, ◌↔◌, ◌<◌, true, Option, none, some, List, [], ◌∷◌, arith,
  if◌then◌else◌,
}
use mulle_obj_c.Array.{ObjectId, word, uint}
use mulle_obj_c.Array.Slots.{
  occurrences_in, contains_iff, count_object_lem, counted, count_lem as chain_count_lem,
}
use mulle_obj_c.Pool.Runtime.{Runtime}
use mulle_obj_c.Pool.Ops.{Pool, Config}
use mulle_obj_c.Pool.Ledger.{live, Mapped}
use mulle_obj_c.Pool.Query.{
  pool_contains_object, pool_count_object, contains_loop, count_object_loop, contains_object,
  count_object, pool_count, count_loop, count,
}

contains_loop_iff : (t : List Pool) (p : ObjectId) → (contains_loop t p ≡ true) ↔ (0 < live p t)
unfolding contains_loop pool_contains_object
contains_loop_iff [] p = ground arith
contains_loop_iff (pool ∷ owner) p =
    ground (arith, contains_iff pool.storage p, contains_loop_iff owner p)

count_object_loop_lem :
    (t : List Pool) (p : ObjectId) (n : ℕ)
    → n + live p t < 2 ^ 31
    → count_object_loop t p n ≡ n + live p t
unfolding count_object_loop pool_count_object
count_object_loop_lem [] p n h = omega arith
count_object_loop_lem (pool ∷ owner) p n h =
    let k : ℕ = occurrences_in p pool.storage in
    let r : ℕ = k % uint in
    let step : (n + (if ltb r (2 ^ 31) then r else r + word - 2 ^ 32)) % word ≡ n + k =
      ground arith in
    rw (count_object_lem pool.storage p, step)
      (omega (arith, count_object_loop_lem owner p (n + k) (omega arith)))

module _ (rt : Runtime) (c : Config rt) (p : ObjectId) where
  contains_at :
      (m : Option rt.Map)
      → live p c.tail < word
      → Mapped rt p (live p c.tail) m
      → (contains_object rt (record c { object_map = m }) p ≡ true) ↔ (0 < live p c.tail)
  unfolding contains_object
  contains_at none few mapped = contains_loop_iff c.tail p
  contains_at (some m) few mapped = rw mapped (ground arith)

  -- +mulleContainsObject: is YES exactly when a pool of the thread holds the object, by the walk
  -- over the pools, and by the object map where it counts the object right and the pools hold it
  -- fewer than 2^64 times.
  pub contains_object_iff :
      live p c.tail < word
      → Mapped rt p (live p c.tail) c.object_map
      → (contains_object rt c p ≡ true) ↔ (0 < live p c.tail)
  contains_object_iff few mapped = contains_at c.object_map few mapped

  count_at :
      (m : Option rt.Map)
      → live p c.tail < 2 ^ 31
      → Mapped rt p (live p c.tail) m
      → count_object rt (record c { object_map = m }) p ≡ live p c.tail
  unfolding count_object
  count_at none few mapped = omega (arith, count_object_loop_lem c.tail p 0 (omega arith))
  count_at (some m) few mapped = rw mapped (omega arith)

  -- +mulleCountObject: is the number of times that the pools of the thread hold the object, where
  -- that is below 2^31: by the walk over the pools, and by the object map where it counts right.
  pub count_object-live :
      live p c.tail < 2 ^ 31
      → Mapped rt p (live p c.tail) c.object_map
      → count_object rt c p ≡ live p c.tail
  count_object-live few mapped = count_at c.object_map few mapped

-- the sum of the `count` fields over all pools
abbrev pub counted_in : List Pool → ℕ
counted_in [] = 0
counted_in (p ∷ owner) = counted p.storage + counted_in owner

count_loop_lem :
    (t : List Pool) (n : ℕ) → n + counted_in t < uint → count_loop t n ≡ n + counted_in t
unfolding count_loop pool_count
count_loop_lem [] n h = omega arith
count_loop_lem (pool ∷ owner) n h =
    rw (chain_count_lem pool.storage)
      (omega (arith, count_loop_lem owner ((n + counted pool.storage % uint) % word) (omega arith)))

-- +mulleCount is the sum of the `count` fields, where that is below 2^32.
pub count_lem :
    (rt : Runtime) (c : Config rt) → counted_in c.tail < uint → count rt c ≡ counted_in c.tail
unfolding count
count_lem rt c few = omega (arith, count_loop_lem c.tail 0 (omega arith))
