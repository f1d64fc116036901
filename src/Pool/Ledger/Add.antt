-- ===== src/Pool/Ledger/Add.antt =====
-- `_autoreleaseObject` and `pushAutoreleasePool` keep the books.
use mulle_obj_c.Base.{
  ℕ, ◌+◌, ◌≡◌, refl, true, not, ◌&&◌, Option, none, some, List, [], ◌∷◌, arith, ◌==◌, if◌then◌else◌,
  Bool-cases, inl, inr,
}
use native.Mathlib.Nat.{zero-add}
use mulle_obj_c.Array.{ObjectId, nil, Array, can_add, add, create, init}
use mulle_obj_c.Array.Slots.{occurrences_in, occurrences-add}
use mulle_obj_c.Pool.Runtime.{Runtime, MapLaws}
use mulle_obj_c.Pool.Ops.{
  Pool, Config, add_top, add_object, with_map, autorelease_object, push, add_to_pool, map_increment,
}
use mulle_obj_c.Pool.Ledger.{
  live, heap_arrays, heap_arrays_in, Bounded, AllBounded, autoreleases, releases, creations, frees,
  Mapped, Books,
}

module _ (x : ObjectId) (p : ObjectId) where
  occurrences_in-add_top :
      (s : List Array)
      → can_add s ≡ true
      → occurrences_in x (add_top s p) ≡ (if p == x then 1 else 0) + occurrences_in x s
  occurrences_in-add_top [] h = cc
  occurrences_in-add_top (a ∷ previous) h = omega (arith, occurrences-add x a p (ground arith))

heap_arrays_in-add_top :
    (s : List Array) (p : ObjectId) → heap_arrays_in (add_top s p) ≡ heap_arrays_in s
unfolding add
heap_arrays_in-add_top [] p = refl
heap_arrays_in-add_top (a ∷ previous) p = refl

Bounded-add_top :
    (s : List Array) (p : ObjectId) → can_add s ≡ true → Bounded s → Bounded (add_top s p)
unfolding add
Bounded-add_top [] p h b = tt
Bounded-add_top (a ∷ previous) p h b = (ground arith, b.1)

module _ (rt : Runtime) (x : ObjectId) where
  module _ (pool : Pool) (owner : List Pool) (p : ObjectId) (c : Config rt) where
    live-add_to_pool :
        live x (add_to_pool rt pool owner p c).tail
        ≡ (if p == x then 1 else 0) + live x (pool ∷ owner)
    unfolding add_to_pool create init
    live-add_to_pool = ground (
      arith,
      occurrences_in-add_top x p pool.storage,
      occurrences_in-add_top x p (create rt.memory pool.storage),
    )

    refs-add_to_pool :
        (k : ℕ)
        → live x (pool ∷ owner) + k + releases x c.history ≡ autoreleases x c.history
        → live x (add_to_pool rt pool owner p c).tail
            + k
            + releases x (add_to_pool rt pool owner p c).history
          ≡ autoreleases x (add_to_pool rt pool owner p c).history
    refs-add_to_pool k h = rw live-add_to_pool (unfold add_to_pool in ground arith)

    arrays-add_to_pool :
        (j : ℕ)
        → heap_arrays (pool ∷ owner) + j + frees c.history ≡ creations c.history
        → heap_arrays (add_to_pool rt pool owner p c).tail
            + j
            + frees (add_to_pool rt pool owner p c).history
          ≡ creations (add_to_pool rt pool owner p c).history
    unfolding add_to_pool create init
    arrays-add_to_pool j h = ground (
      arith,
      heap_arrays_in-add_top pool.storage p,
      heap_arrays_in-add_top (create rt.memory pool.storage) p,
    )

    bounded-add_to_pool :
        AllBounded (pool ∷ owner) → AllBounded (add_to_pool rt pool owner p c).tail
    unfolding add_to_pool create init
    bounded-add_to_pool b = elim (Bool-cases (can_add pool.storage)) [
      | inl h ↦ rw h (Bounded-add_top pool.storage p h b.0, b.1)
      | inr h ↦
          rw h (Bounded-add_top (create rt.memory pool.storage) p refl (omega arith, b.0), b.1)
    ]

    map-add_to_pool : (add_to_pool rt pool owner p c).object_map ≡ c.object_map
    unfolding add_to_pool
    map-add_to_pool = ground arith

  module _ (laws : MapLaws rt) where
    Mapped-increment :
        (m : Option rt.Map) (n k : ℕ) (p : ObjectId)
        → Mapped rt x (n + k) m
        → Mapped rt x
            ((if p == x then 1 else 0) + n + k)
            (elim m [ none ↦ none | some m ↦ some (map_increment rt p m) ])
    unfolding map_increment
    Mapped-increment none n k p h = tt
    Mapped-increment (some m) n k p h = rw (laws.get-set m p _ x) (ground arith)

    added-Books :
        (pool : Pool) (owner : List Pool) (p : ObjectId) (c : Config rt) {k j : ℕ}
        → Books rt x k j (record c { tail = pool ∷ owner })
        → Books rt x k j (add_to_pool rt pool owner p (with_map rt (map_increment rt p) c))
    added-Books pool owner p c {k} {j} b =
        let c' = with_map rt (map_increment rt p) c in
        record {
          refs = refs-add_to_pool pool owner p c' k b.refs;
          arrays = arrays-add_to_pool pool owner p c' j b.arrays;
          bounded = bounded-add_to_pool pool owner p c' b.bounded;
          mapped =
              rw (map-add_to_pool pool owner p c', live-add_to_pool pool owner p c')
                (Mapped-increment c.object_map (live x (pool ∷ owner)) k p b.mapped);
        }

    autorelease_object_at :
        (t : List Pool) (c : Config rt) (p : ObjectId) {k j : ℕ}
        → Books rt x k j (record c { tail = t })
        → Books rt x k j (autorelease_object rt (record c { tail = t }) p)
    unfolding autorelease_object add_object
    autorelease_object_at [] c p b = elim (Bool-cases (not (p == nil) && rt.is_constant p)) [
      | inl h ↦ rw h b
      | inr h ↦ rw h b
    ]
    autorelease_object_at (pool ∷ owner) c p b =
        elim (Bool-cases (not (p == nil) && rt.is_constant p)) [
          | inl h ↦ rw h b
          | inr h ↦ rw h (added-Books pool owner p (record c { tail = pool ∷ owner }) b)
        ]

    pub autorelease_object-Books :
        (c : Config rt) (p : ObjectId) {k j : ℕ}
        → Books rt x k j c
        → Books rt x k j (autorelease_object rt c p)
    autorelease_object-Books c p b = autorelease_object_at c.tail c p b

    -- `pushAutoreleasePool` keeps the books.
    pub push-Books :
        (adr : ℕ) (c : Config rt) {k j : ℕ} → Books rt x k j c → Books rt x k j (push rt adr c)
    unfolding push init
    push-Books adr c b = record {
      refs = omega (arith, b.refs);
      arrays = omega (arith, b.arrays);
      bounded = ((omega arith, tt), b.bounded);
      mapped = rw zero-add b.mapped;
    }
