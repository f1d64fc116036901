-- ===== src/Pool/Drain.antt =====
-- The functions of NSAutoreleasePool.m that release what the pools hold.
use mulle_obj_c.Base.{
  ℕ, zero, suc, ◌+◌, ◌-◌, ◌%◌, Bool, true, false, Option, none, some, List, [], ◌∷◌, ◌==◌,
  if◌then◌else◌, length,
}
use mulle_obj_c.Array.{ObjectId, nil, word, Array}
use mulle_obj_c.Pool.Runtime.{Runtime, released, freed}
use mulle_obj_c.Pool.Ops.{
  Pool, Config, Outcome, done, aborted, out_of_fuel, log, with_map, autorelease_object,
}

-- The storage of the pool that has `depth` owners; so the pools are told apart while the
-- innermost one grows.
abbrev pub storage_of : (depth : ℕ) → List Pool → List Array
storage_of depth [] = []
storage_of depth (p ∷ owner) = if length owner == depth then p.storage else storage_of depth owner

abbrev pub clear_storage : (depth : ℕ) → List Pool → List Pool
clear_storage depth [] = []
clear_storage depth (p ∷ owner) =
    if length owner == depth
    then record p { storage = [] } ∷ owner
    else p ∷ clear_storage depth owner

abbrev pub is_null : List Pool → Bool
is_null [] = true
is_null (_ ∷ _) = false

abbrev pub owner_of : List Pool → List Pool
owner_of [] = []
owner_of (_ ∷ owner) = owner

module _ (rt : Runtime) where
  unfoldable pub autorelease_all : List ObjectId → Config rt → Config rt
  autorelease_all [] c = c
  autorelease_all (x ∷ xs) c = autorelease_all xs (autorelease_object rt c x)

  -- `-release` of an object by a pool, with what its -dealloc autoreleases
  unfoldable pub release : ObjectId → Config rt → Config rt
  release x c = autorelease_all (rt.dealloc c.history x) (log rt (released x) c)

  -- `_mulle_object_map_release_and_free`; `--value` wraps round
  unfoldable pub map_decrement : ObjectId → rt.Map → rt.Map
  map_decrement x m =
      let value : ℕ = (rt.get m x + word - 1) % word in
      if value == 0 then rt.remove m x else rt.set m x value

  -- One object of `_mulle_autoreleasepointerarray_release_and_free`: holes are left out, by the
  -- code in the one loop and by the release of nil in the other.
  unfoldable pub release_slot : ObjectId → Config rt → Config rt
  release_slot x c = if x == nil then c else release x (with_map rt (map_decrement x) c)

  -- `while( objects > sentinel)`, from slot `i` down
  unfoldable pub release_slots : ℕ → (ℕ → ObjectId) → Config rt → Config rt
  release_slots zero objects c = c
  release_slots (suc i) objects c = release_slots i objects (release_slot (objects i) c)

  unfoldable pub free_array : Array → Config rt → Config rt
  free_array a c = if a.is_static then c else log rt freed c

  -- `_mulle_autoreleasepointerarray_release_and_free`
  unfoldable pub release_and_free : List Array → Config rt → Config rt
  release_and_free [] c = c
  release_and_free (a ∷ previous) c =
      release_and_free previous (free_array a (release_slots a.used a.objects c))

  -- `releaseAllObjectsInPool`, for the pool with `depth` owners. `none`: the fuel ran out.
  unfoldable pub release_all : (fuel : ℕ) → (depth : ℕ) → Config rt → Option (Config rt)
  release_all zero depth c = none
  release_all (suc fuel) depth c = elim (storage_of depth c.tail) [
    | [] ↦ some c
    | a ∷ previous ↦
        release_all fuel depth
          (release_and_free (a ∷ previous) (record c { tail = clear_storage depth c.tail }))
  ]

  abbrev pub drop_pool : Config rt → Config rt
  drop_pool c = record c { tail = owner_of c.tail; releasing = is_null (owner_of c.tail) }

  -- One round of `popAutoreleasePool`: the innermost pool, at `tail`, goes.
  unfoldable pub pop_one : (fuel : ℕ) → Config rt → Outcome (Config rt)
  pop_one fuel c = elim c.tail [
    | [] ↦ aborted
    | p ∷ owner ↦ elim (release_all fuel (length owner) (record c { releasing = true })) [
      | none ↦ out_of_fuel
      | some c' ↦ done (drop_pool c')
    ]
  ]

  abbrev pub tail_adr : List Pool → ℕ
  tail_adr [] = 0
  tail_adr (p ∷ _) = p.adr

  -- `do … while( pool != aPool)`, a round for each pool that is there
  unfoldable pub pop_loop : (rounds fuel : ℕ) → Config rt → (adr : ℕ) → Outcome (Config rt)
  pop_loop zero fuel c adr = out_of_fuel
  pop_loop (suc rounds) fuel c adr = elim (pop_one fuel c) [
    | aborted ↦ aborted
    | out_of_fuel ↦ out_of_fuel
    | done c' ↦ elim (tail_adr c.tail == adr) [
      | true ↦ done c'
      | false ↦ pop_loop rounds fuel c' adr
    ]
  ]

  -- `popAutoreleasePool`
  unfoldable pub pop : (fuel : ℕ) → Config rt → (adr : ℕ) → Outcome (Config rt)
  pop fuel c adr = pop_loop (suc (length c.tail)) fuel c adr
