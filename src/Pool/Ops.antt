-- ===== src/Pool/Ops.antt =====
-- The functions of NSAutoreleasePool.m over the `poolconfiguration` of one thread.
use mulle_obj_c.Base.{
  ◌≡◌, ◌⊎◌, inl, inr, refl, not, ◌*◌, ◌&&◌, ℕ, zero, suc, ◌+◌, ◌-◌, ◌%◌, Bool, true, false, Option,
  none, some, List, [], ◌∷◌, ltb, ◌==◌, if◌then◌else◌,
}
use mulle_obj_c.Array.{
  ObjectId, nil, word, n_objects, Array, init, create, can_add, space_left, add, count, copy,
}
use mulle_obj_c.Pool.Runtime.{Runtime, Event, History, autoreleased, created}

-- `adr` is the pool's address. `_owner` is the pool behind this one in `tail`.
pub record Pool : Type 0 where
  pub adr : ℕ
  pub storage : List Array

-- `config->tail` is the innermost pool, with its owners behind it.
pub record Config (rt : Runtime) : Type 0 where
  pub tail : List Pool
  pub releasing : Bool
  pub object_map : Option rt.Map
  pub history : History

-- How a loop that may abort ends.
pub data Outcome (A : Type 0) : Type 0 where
  done : A → Outcome A
  aborted : Outcome A
  out_of_fuel : Outcome A

pub Outcome-cases :
    {A : Type 0} (o : Outcome A) → ((a : A) × (o ≡ done a)) ⊎ ((o ≡ aborted) ⊎ (o ≡ out_of_fuel))
Outcome-cases (done a) = inl (a, refl)
Outcome-cases aborted = inr (inl refl)
Outcome-cases out_of_fuel = inr (inr refl)

-- `pool->_storage = s` of the innermost pool
abbrev pub set_storage : List Array → List Pool → List Pool
set_storage s [] = []
set_storage s (p ∷ owner) = record p { storage = s } ∷ owner

abbrev pub add_top : List Array → ObjectId → List Array
add_top [] p = []
add_top (a ∷ previous) p = add a p ∷ previous

-- `objects[ 0]` to `objects[ amount - 1]` go behind the used slots; `count` is left alone.
abbrev pub fill_top : List Array → (ℕ → ObjectId) → (amount : ℕ) → List Array
fill_top [] objects amount = []
fill_top (a ∷ previous) objects amount =
    record a { used = (a.used + amount) % word; objects = copy a.objects a.used objects amount }
    ∷ previous

abbrev pub log_all : (ℕ → ObjectId) → (amount : ℕ) → History → History
log_all objects zero h = h
log_all objects (suc k) h = autoreleased (objects k) ∷ log_all objects k h

module _ (rt : Runtime) where
  abbrev pub log : Event → Config rt → Config rt
  log e c = record c { history = e ∷ c.history }

  abbrev pub with_map : (rt.Map → rt.Map) → Config rt → Config rt
  with_map f c = record c { object_map = elim c.object_map [ none ↦ none | some m ↦ some (f m) ] }

  -- `addObject` at a pool that is there
  unfoldable pub add_to_pool : Pool → List Pool → ObjectId → Config rt → Config rt
  add_to_pool pool owner p c =
      if can_add pool.storage
      then log (autoreleased p)
          (record c { tail = record pool { storage = add_top pool.storage p } ∷ owner })
      else log (autoreleased p) (
          log created (record c {
            tail = record pool { storage = add_top (create rt.memory pool.storage) p } ∷ owner;
          }))

  unfoldable pub add_object : Config rt → ObjectId → Config rt
  add_object c p = elim c.tail [ [] ↦ c | pool ∷ owner ↦ add_to_pool pool owner p c ]

  unfoldable pub map_increment : ObjectId → rt.Map → rt.Map
  map_increment p m = rt.set m p ((rt.get m p + 1) % word)

  -- `_autoreleaseObject`
  unfoldable pub autorelease_object : Config rt → ObjectId → Config rt
  autorelease_object c p =
      if not (p == nil) && rt.is_constant p
      then c
      else elim c.tail [ [] ↦ c | _ ∷ _ ↦ add_object (with_map (map_increment p) c) p ]

  -- `if( ! amount)` of `addObjects`: the storage in which a round goes on
  abbrev pub grow : List Array → List Array
  grow s = if space_left s == 0 then create rt.memory s else s

  abbrev pub log_growth : List Array → History → History
  log_growth s h = if space_left s == 0 then created ∷ h else h

  abbrev pub amount_for : List Array → (count : ℕ) → ℕ
  amount_for s count =
      let room : ℕ = if space_left s == 0 then n_objects else space_left s in
      if ltb count room then count else room

  -- The loop of `addObjects`. `objects` are the ids still to be added, those that the strided
  -- walk reads. A round adds at least one, so `count` rounds are enough.
  unfoldable pub add_objects_loop :
      ℕ → (objects : ℕ → ObjectId) → (count : ℕ) → Pool → History → Pool × History
  add_objects_loop zero objects count pool h = (pool, h)
  add_objects_loop (suc fuel) objects count pool h =
      let amount = amount_for pool.storage count in
      let rest =
        add_objects_loop fuel (λ i. objects (amount + i)) (count - amount)
          (record pool { storage = fill_top (grow pool.storage) objects amount })
          (log_all objects amount (log_growth pool.storage h)) in
      if count == 0 then (pool, h) else rest

  -- `addObjects` at a pool that is there. `step` counts ids: it is `step / sizeof( id)`.
  unfoldable pub add_objects : Config rt → (objects : ℕ → ObjectId) → (count step : ℕ) → Config rt
  add_objects c objects count step = elim c.tail [
    | [] ↦ c
    | pool ∷ owner ↦
        let (pool', h) = add_objects_loop count (λ i. objects (i * step)) count pool c.history in
        record c { tail = pool' ∷ owner; history = h }
  ]

  -- The loop over the map in `_autoreleaseObjects`, which goes by `++p`, whatever the step.
  unfoldable pub map_increments : (objects : ℕ → ObjectId) → (count : ℕ) → rt.Map → rt.Map
  map_increments objects zero m = m
  map_increments objects (suc n) m =
      map_increments (λ i. objects (suc i)) n (map_increment (objects 0) m)

  -- `_autoreleaseObjects` with `objects` not NULL
  unfoldable pub autorelease_objects :
      Config rt → (objects : ℕ → ObjectId) → (count step : ℕ) → Config rt
  autorelease_objects c objects count step = if count == 0 then c else elim c.tail [
    | [] ↦ c
    | _ ∷ _ ↦ add_objects (with_map (map_increments objects count) c) objects count step
  ]

  -- `pushAutoreleasePool`, where `adr` is what the allocation of the pool returned
  unfoldable pub push : (adr : ℕ) → Config rt → Config rt
  push adr c = record c {
    tail = record { adr = adr; storage = init rt.memory true ∷ [] } ∷ c.tail;
    releasing = false;
  }
