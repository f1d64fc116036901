-- ===== src/Pool/Early/Balance.antt =====
-- Taking objects out of the pools early keeps the books.
use mathlib.Core.Path.{subst}
use mulle_obj_c.Base.{
  ℕ, zero, suc, ◌≢◌, ◌≤◌, ◌<◌, List, [], ◌∷◌, arith, Bool-cases, inl, inr, length, All,
}
use mulle_obj_c.Array.{ObjectId, nil}
use mulle_obj_c.Pool.Runtime.{Runtime, MapLaws}
use mulle_obj_c.Pool.Ops.{Config}
use mulle_obj_c.Pool.Drain.{storage_of, release}
use mulle_obj_c.Pool.Induct.{autorelease_all-ind}
use mulle_obj_c.Pool.Ledger.{Mapped, Books}
use mulle_obj_c.Pool.Ledger.Drain.{released-Books}
use mulle_obj_c.Pool.Early.{
  used_in, slot_in, punch, is_listed, release_listed, release_listed_slots, release_listed_arrays,
  release_pool_objects, release_pools_objects, release_objects,
}
use mulle_obj_c.Pool.Early.Holes.{
  live-punch, heap_arrays-punch, AllBounded-punch, used-punch, used-autorelease_object,
}

pub All-unit : (ys : List ObjectId) → All (λ _. Unit {0}) ys
All-unit [] = tt
All-unit (y ∷ ys) = (tt, All-unit ys)

module _ (rt : Runtime) (objects : List ObjectId) where
  used-release_listed :
      (d j i n : ℕ) (c : Config rt)
      → n ≤ used_in j (storage_of d c.tail)
      → n ≤ used_in j (storage_of d (release_listed rt objects d j i c).tail)
  unfolding release_listed release
  used-release_listed d j i n c h =
      let obj : ObjectId = slot_in j i (storage_of d c.tail) in
      elim (Bool-cases (is_listed obj objects)) [
        | inl e ↦ rw e (
            autorelease_all-ind rt (λ t. n ≤ used_in j (storage_of d t)) (λ _. Unit {0})
              (λ c p _ h. used-autorelease_object rt j d n c p h) _ _ (All-unit _)
              (rw (used-punch j i d c.tail) h))
        | inr e ↦ rw e h
      ]

  module _ (laws : MapLaws rt) (x : ObjectId) (named : x ≢ nil) where
    release_listed-Books :
        (d j i : ℕ) (c : Config rt)
        → i < used_in j (storage_of d c.tail)
        → Books rt x 0 0 c
        → Books rt x 0 0 (release_listed rt objects d j i c)
    unfolding release_listed
    release_listed-Books d j i c lt b =
        let obj : ObjectId = slot_in j i (storage_of d c.tail) in
        let gone = live-punch x named d j i c.tail lt in
        elim (Bool-cases (is_listed obj objects)) [
          | inl e ↦ rw e (
              released-Books rt laws x named obj (record c { tail = punch d j i c.tail })
                (record {
                  refs = omega (arith, b.refs);
                  arrays = rw (heap_arrays-punch j i d c.tail) b.arrays;
                  bounded = AllBounded-punch j i d c.tail b.bounded;
                  mapped = subst (λ n. Mapped rt x n c.object_map) (omega arith) b.mapped;
                }))
          | inr e ↦ rw e b
        ]

    release_listed_slots-Books :
        (d j n : ℕ) (c : Config rt)
        → n ≤ used_in j (storage_of d c.tail)
        → Books rt x 0 0 c
        → Books rt x 0 0 (release_listed_slots rt objects d j n c)
    unfolding release_listed_slots
    release_listed_slots-Books d j zero c h b = b
    release_listed_slots-Books d j (suc i) c h b =
        release_listed_slots-Books d j i _ (used-release_listed d j i i c (omega arith))
          (release_listed-Books d j i c h b)

    release_listed_arrays-Books :
        (d n : ℕ) (c : Config rt)
        → Books rt x 0 0 c
        → Books rt x 0 0 (release_listed_arrays rt objects d n c)
    unfolding release_listed_arrays
    release_listed_arrays-Books d zero c b = b
    release_listed_arrays-Books d (suc j) c b =
        release_listed_arrays-Books d j _
          (release_listed_slots-Books d j (used_in j (storage_of d c.tail)) c (omega arith) b)

    release_pools_objects-Books :
        (n : ℕ) (c : Config rt)
        → Books rt x 0 0 c
        → Books rt x 0 0 (release_pools_objects rt objects n c)
    unfolding release_pools_objects release_pool_objects
    release_pools_objects-Books zero c b = b
    release_pools_objects-Books (suc d) c b =
        release_pools_objects-Books d _ (release_listed_arrays-Books d _ c b)

    -- +mulleReleasePoolObjects:count: keeps the books of every object.
    pub release_objects-Books :
        (c : Config rt) → Books rt x 0 0 c → Books rt x 0 0 (release_objects rt objects c)
    unfolding release_objects
    release_objects-Books c b = release_pools_objects-Books (length c.tail) c b
