-- ===== src/Pool/Later.antt =====
-- src/class/NSAutoreleasePool.m: what was autoreleased stays in the history, whatever is released.
use mulle_obj_c.Base.{
  ℕ, zero, suc, ◌+◌, ◌≤◌, ◌≡◌, refl, true, false, some, not, ◌&&◌, List, [], ◌∷◌, arith, ◌==◌,
  Bool-cases, Option-cases, List-cases, inl, inr, length, if◌then◌else◌,
}
use mulle_obj_c.Array.{ObjectId, nil, Array, can_add}
use mulle_obj_c.Pool.Runtime.{Runtime}
use mulle_obj_c.Pool.Ops.{
  Pool, Config, done, aborted, out_of_fuel, Outcome-cases, add_object, add_to_pool,
  autorelease_object,
}
use mulle_obj_c.Pool.Drain.{
  storage_of, clear_storage, autorelease_all, release, release_slot, release_slots, free_array,
  release_and_free, release_all, drop_pool, pop_one, pop_loop, pop, tail_adr,
}
use mulle_obj_c.Pool.Ledger.{autoreleases}

module _ (rt : Runtime) (x : ObjectId) where
  -- `x` was autoreleased in the later state as often as before, or more.
  abbrev pub Later : Config rt → Config rt → Type 0
  Later c c' = autoreleases x c.history ≤ autoreleases x c'.history

  add_to_pool-Later :
      (pool : Pool) (owner : List Pool) (p : ObjectId) (c : Config rt)
      → autoreleases x (add_to_pool rt pool owner p c).history
        ≡ (if p == x then 1 else 0) + autoreleases x c.history
  unfolding add_to_pool
  add_to_pool-Later pool owner p c = elim (Bool-cases (can_add pool.storage)) [
    | inl h ↦ rw h refl
    | inr h ↦ rw h refl
  ]

  -- With a pool, `_autoreleaseObject` counts for its object, unless that is constant.
  pub autorelease_object-counts :
      (pool : Pool) (owner : List Pool) (c : Config rt) (p : ObjectId)
      → (not (p == nil) && rt.is_constant p) ≡ false
      → autoreleases x (autorelease_object rt (record c { tail = pool ∷ owner }) p).history
        ≡ (if p == x then 1 else 0) + autoreleases x c.history
  unfolding autorelease_object add_object
  autorelease_object-counts pool owner c p h = rw h (add_to_pool-Later pool owner p _)

  autorelease_object_at :
      (t : List Pool) (c : Config rt) (p : ObjectId)
      → Later c (autorelease_object rt (record c { tail = t }) p)
  unfolding autorelease_object
  autorelease_object_at [] c p = elim (Bool-cases (not (p == nil) && rt.is_constant p)) [
    | inl h ↦ rw h (omega arith)
    | inr h ↦ rw h (omega arith)
  ]
  autorelease_object_at (pool ∷ owner) c p =
      elim (Bool-cases (not (p == nil) && rt.is_constant p)) [
        | inl h ↦ rw (autorelease_object, h) (omega arith)
        | inr h ↦ omega (arith, autorelease_object-counts pool owner c p h)
      ]

  pub autorelease_object-Later :
      (c : Config rt) (p : ObjectId) → Later c (autorelease_object rt c p)
  autorelease_object-Later c p = autorelease_object_at c.tail c p

  autorelease_all-Later : (ys : List ObjectId) (c : Config rt) → Later c (autorelease_all rt ys c)
  unfolding autorelease_all
  autorelease_all-Later [] c = omega arith
  autorelease_all-Later (y ∷ ys) c =
      omega
        (arith, autorelease_object-Later c y, autorelease_all-Later ys (autorelease_object rt c y))

  release_slot-Later : (y : ObjectId) (c : Config rt) → Later c (release_slot rt y c)
  unfolding release_slot release
  release_slot-Later y c = elim (Bool-cases (y == nil)) [
    | inl e ↦ rw e (omega arith)
    | inr e ↦ rw e (autorelease_all-Later _ _)
  ]

  release_slots-Later :
      (i : ℕ) (objects : ℕ → ObjectId) (c : Config rt) → Later c (release_slots rt i objects c)
  unfolding release_slots
  release_slots-Later zero objects c = omega arith
  release_slots-Later (suc i) objects c = omega (
    arith,
    release_slot-Later (objects i) c,
    release_slots-Later i objects (release_slot rt (objects i) c),
  )

  free_array-Later : (a : Array) (c : Config rt) → Later c (free_array rt a c)
  unfolding free_array
  free_array-Later a c = elim (Bool-cases a.is_static) [
    | inl e ↦ rw e (omega arith)
    | inr e ↦ rw e (omega arith)
  ]

  release_and_free-Later :
      (chain : List Array) (c : Config rt) → Later c (release_and_free rt chain c)
  unfolding release_and_free
  release_and_free-Later [] c = omega arith
  release_and_free-Later (a ∷ previous) c =
      let c1 : Config rt = release_slots rt a.used a.objects c in
      omega (
        arith,
        release_slots-Later a.used a.objects c,
        free_array-Later a c1,
        release_and_free-Later previous (free_array rt a c1),
      )

  release_all-Later :
      (fuel d : ℕ) (c c' : Config rt) → release_all rt fuel d c ≡ some c' → Later c c'
  unfolding release_all
  release_all-Later zero d c c' e = cc
  release_all-Later (suc fuel) d c c' e = elim (List-cases (storage_of d c.tail)) [
    | inl h ↦
        let returned : some c ≡ some c' = rw (h, release_all) at e in
        let arrived : c ≡ c' = cc in rw (← arrived) (omega arith)
    | inr (a, previous, h) ↦
        let cleared : Config rt = record c { tail = clear_storage d c.tail } in
        let next : Config rt = release_and_free rt (a ∷ previous) cleared in
        omega (
          arith,
          release_and_free-Later (a ∷ previous) cleared,
          release_all-Later fuel d next c' (rw (h, release_all) at e),
        )
  ]

  pop_one_at :
      (fuel : ℕ) (t : List Pool) (c c' : Config rt)
      → pop_one rt fuel (record c { tail = t }) ≡ done c'
      → Later c c'
  unfolding pop_one
  pop_one_at fuel [] c c' e = cc
  pop_one_at fuel (p ∷ owner) c c' e =
      let c1 : Config rt = record c { tail = p ∷ owner; releasing = true } in
      elim (Option-cases (release_all rt fuel (length owner) c1)) [
        | inl h ↦ let stuck : out_of_fuel ≡ done c' = rw (h, pop_one) at e in cc
        | inr (c2, h) ↦
            let left : done (drop_pool rt c2) ≡ done c' = rw (h, pop_one) at e in
            let arrived : drop_pool rt c2 ≡ c' = cc in
            rw (← arrived) (release_all-Later fuel (length owner) c1 c2 h)
      ]

  pop_loop-Later :
      (rounds fuel adr : ℕ) (c c' : Config rt)
      → pop_loop rt rounds fuel c adr ≡ done c'
      → Later c c'
  unfolding pop_loop
  pop_loop-Later zero fuel adr c c' e = cc
  pop_loop-Later (suc rounds) fuel adr c c' e = elim (Outcome-cases (pop_one rt fuel c)) [
    | inl (c2, h) ↦
        let first = pop_one_at fuel c.tail c c2 h in
        elim (Bool-cases (tail_adr rt c.tail == adr)) [
          | inl here ↦
              let left : done c2 ≡ done c' = rw (h, pop_loop, here) at e in
              let arrived : c2 ≡ c' = cc in rw (← arrived) first
          | inr other ↦
              omega
                (arith, first, pop_loop-Later rounds fuel adr c2 c' (rw (h, pop_loop, other) at e))
        ]
    | inr (inl h) ↦ let stuck : aborted ≡ done c' = rw (h, pop_loop) at e in cc
    | inr (inr h) ↦ let stuck : out_of_fuel ≡ done c' = rw (h, pop_loop) at e in cc
  ]

  -- `popAutoreleasePool` forgets nothing that was autoreleased.
  pub pop-Later : (fuel adr : ℕ) (c c' : Config rt) → pop rt fuel c adr ≡ done c' → Later c c'
  unfolding pop
  pop-Later fuel adr c c' e = pop_loop-Later (suc (length c.tail)) fuel adr c c' e
