-- ===== src/Pool/Reach.antt =====
-- The states that a thread's pools reach by any sequence of calls.
use mathlib.Core.Path.{subst}
use mulle_obj_c.Base.{
  ℕ, zero, suc, ◌+◌, ◌≡◌, ◌≢◌, ◌⊎◌, refl, true, false, Option, none, some, List, [], ◌∷◌, arith,
  ◌==◌, Bool-cases, Option-cases, inl, inr, length,
}
use mulle_obj_c.Array.{ObjectId, nil}
use mulle_obj_c.Pool.Runtime.{Runtime, MapLaws}
use mulle_obj_c.Pool.Ops.{
  Pool, Config, done, aborted, out_of_fuel, Outcome-cases, autorelease_object, autorelease_objects,
  push,
}
use mulle_obj_c.Pool.Drain.{release_all, drop_pool, pop_one, pop_loop, pop, tail_adr}
use mulle_obj_c.Pool.Ledger.{
  live, releases, autoreleases, heap_arrays, creations, frees, Mapped, Books,
}
use mulle_obj_c.Pool.Ledger.Add.{autorelease_object-Books, push-Books}
use mulle_obj_c.Pool.Ledger.Drain.{release_all-Books}
use mulle_obj_c.Pool.Frame.{storage_of-release_all, release_all_same}
use mulle_obj_c.Pool.Pop.{drop_pool-Books}
use mulle_obj_c.Pool.Early.{release_objects}
use mulle_obj_c.Pool.Early.Balance.{release_objects-Books}
use mulle_obj_c.Pool.Bulk.Effect.{autorelease_objects-Books}

-- What the memory for the configuration of a new thread is taken to hold: it is cleared
abbrev pub cleared : (rt : Runtime) → Config rt
cleared rt = record { tail = []; releasing = false; object_map = none; history = [] }

-- `_mulle_objc_poolconfiguration_init`, with the object map that the environment asks for
unfoldable pub config_init :
    (rt : Runtime) → (object_map : Option rt.Map) → (config : Config rt) → Config rt
config_init rt object_map config = record config { object_map = object_map }

-- One call. Where there is an object map, many objects are autoreleased with a step of one id.
pub data Step (rt : Runtime) : Config rt → Config rt → Type 0 where
  autorelease : (c : Config rt) (p : ObjectId) → Step rt c (autorelease_object rt c p)
  autorelease_many :
      (c : Config rt) (objects : ℕ → ObjectId) (count step : ℕ)
      → (step ≡ 1) ⊎ (c.object_map ≡ none)
      → Step rt c (autorelease_objects rt c objects count step)
  pushing : (c : Config rt) (adr : ℕ) → Step rt c (push rt adr c)
  popping : {c c' : Config rt} (fuel adr : ℕ) → pop rt fuel c adr ≡ done c' → Step rt c c'
  releasing_objects :
      (c : Config rt) (objects : List ObjectId) → Step rt c (release_objects rt objects c)
  releasing_all :
      {c c' : Config rt} (fuel depth : ℕ) → release_all rt fuel depth c ≡ some c' → Step rt c c'

pub data Reach (rt : Runtime) (m : Option rt.Map) : Config rt → Type 0 where
  start : Reach rt m (config_init rt m (cleared rt))
  next : {c c' : Config rt} → Reach rt m c → Step rt c c' → Reach rt m c'

module _ (rt : Runtime) (laws : MapLaws rt) (x : ObjectId) (named : x ≢ nil) where
  pop_one_at :
      (fuel : ℕ) (t : List Pool) (c c' : Config rt)
      → pop_one rt fuel (record c { tail = t }) ≡ done c'
      → Books rt x 0 0 (record c { tail = t })
      → Books rt x 0 0 c'
  unfolding pop_one
  pop_one_at fuel [] c c' e b = cc
  pop_one_at fuel (p ∷ owner) c c' e b =
      let c1 : Config rt = record c { tail = p ∷ owner; releasing = true } in
      elim (Option-cases (release_all rt fuel (length owner) c1)) [
        | inl h ↦ let stuck : out_of_fuel ≡ done c' = rw (h, pop_one) at e in cc
        | inr (c2, h) ↦
            let same : done (drop_pool rt c2) ≡ done c' = rw (h, pop_one) at e in
            let arrived : drop_pool rt c2 ≡ c' = cc in
            let now : Books rt x 0 0 c1 = record {
              refs = b.refs;
              arrays = b.arrays;
              bounded = b.bounded;
              mapped = b.mapped;
            } in
            rw (← arrived) (
              drop_pool-Books rt p owner c2.tail c2 x
                (release_all_same rt fuel p owner c1 c2 (refl, refl) h)
                (storage_of-release_all rt fuel (length owner) c1 c2 h)
                (release_all-Books rt laws x named fuel (length owner) c1 c2 h now))
      ]

  pop_loop_at :
      (rounds fuel adr : ℕ) (c c' : Config rt)
      → pop_loop rt rounds fuel c adr ≡ done c'
      → Books rt x 0 0 c
      → Books rt x 0 0 c'
  unfolding pop_loop
  pop_loop_at zero fuel adr c c' e b = cc
  pop_loop_at (suc rounds) fuel adr c c' e b = elim (Outcome-cases (pop_one rt fuel c)) [
    | inl (c2, h) ↦
        let b2 = pop_one_at fuel c.tail c c2 h b in
        elim (Bool-cases (tail_adr rt c.tail == adr)) [
          | inl here ↦
              let same : done c2 ≡ done c' = rw (h, pop_loop, here) at e in
              let arrived : c2 ≡ c' = cc in rw (← arrived) b2
          | inr other ↦ pop_loop_at rounds fuel adr c2 c' (rw (h, pop_loop, other) at e) b2
        ]
    | inr (inl h) ↦ let stuck : aborted ≡ done c' = rw (h, pop_loop) at e in cc
    | inr (inr h) ↦ let stuck : out_of_fuel ≡ done c' = rw (h, pop_loop) at e in cc
  ]

  -- Every call that returns keeps the books of every object.
  pub Step-Books : {c c' : Config rt} → Step rt c c' → Books rt x 0 0 c → Books rt x 0 0 c'
  Step-Books (autorelease c p) b = autorelease_object-Books rt x laws c p b
  Step-Books (autorelease_many c objects count step counts) b =
      autorelease_objects-Books rt laws x objects count c step counts b
  Step-Books (pushing c adr) b = push-Books rt x laws adr c b
  Step-Books (popping {c} {c'} fuel adr e) b =
      pop_loop_at (suc (length c.tail)) fuel adr c c' (unfold pop in e) b
  Step-Books (releasing_objects c objects) b = release_objects-Books rt objects laws x named c b
  Step-Books (releasing_all {c} {c'} fuel depth e) b =
      release_all-Books rt laws x named fuel depth c c' e b

  pub Reach-Books :
      {m : Option rt.Map} {c : Config rt} → Mapped rt x 0 m → Reach rt m c → Books rt x 0 0 c
  unfolding config_init
  Reach-Books empty start = record { refs = refl; arrays = refl; bounded = tt; mapped = empty }
  Reach-Books empty (next r s) = Step-Books s (Reach-Books empty r)

  -- Let a thread push and pop pools, autorelease objects one by one or many, by any step without an
  -- object map and by a step of one id with one, release listed objects early and release all
  -- objects of a pool, in any order. In every state that is reached, an object that is not nil has
  -- been released exactly as often as it was put into a pool less the times that the pools still
  -- hold it (without a pool, an autorelease counts for nothing), the object map, if there is one,
  -- counts these times (modulo 2^64), and as many heap arrays are in use as were allocated and not
  -- freed. The map has its laws, and was empty at first.
  pub Reach-balance :
      {m : Option rt.Map} {c : Config rt}
      → Mapped rt x 0 m
      → Reach rt m c
      → (live x c.tail + releases x c.history ≡ autoreleases x c.history)
        × Mapped rt x (live x c.tail) c.object_map
        × (heap_arrays c.tail + frees c.history ≡ creations c.history)
  Reach-balance {c} empty r =
      let b = Reach-Books empty r in
      (
        omega (arith, b.refs),
        subst (λ n. Mapped rt x n c.object_map) (omega arith) b.mapped,
        omega (arith, b.arrays),
      )
