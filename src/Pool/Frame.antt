-- ===== src/Pool/Frame.antt =====
-- Releasing objects leaves every pool but the innermost as it was, and empties the pool.
use mulle_obj_c.Base.{
  ℕ, zero, suc, ◌≡◌, ◌⊎◌, refl, ◌∙◌, true, some, List, [], ◌∷◌, ◌==◌, not, ◌&&◌, if◌then◌else◌,
  Bool-cases, inl, inr, length, List-cases, ==_iff, ap, All,
}
use mulle_obj_c.Array.{ObjectId, nil, Array, can_add, create}
use mulle_obj_c.Pool.Runtime.{Runtime, History}
use mulle_obj_c.Pool.Ops.{Pool, Config, add_top, add_object, add_to_pool, autorelease_object}
use mulle_obj_c.Pool.Drain.{storage_of, clear_storage, release_and_free, release_all}
use mulle_obj_c.Pool.Induct.{Slots, Chain, release_and_free-ind}

-- The same pools, and the same storage in all but the innermost.
abbrev pub SameOwners : List Pool → List Pool → Type 0
SameOwners [] [] = Unit
SameOwners [] (_ ∷ _) = ⊥
SameOwners (_ ∷ _) [] = ⊥
SameOwners (p ∷ owner) (p' ∷ owner') = (p'.adr ≡ p.adr) × (owner' ≡ owner)

SameOwners-refl : (t : List Pool) → SameOwners t t
SameOwners-refl [] = tt
SameOwners-refl (p ∷ owner) = (refl, refl)

SameOwners-trans : (t u v : List Pool) → SameOwners t u → SameOwners u v → SameOwners t v
SameOwners-trans [] [] v a b = b
SameOwners-trans [] (_ ∷ _) v a b = elim a [ ]
SameOwners-trans (_ ∷ _) [] v a b = elim a [ ]
SameOwners-trans (_ ∷ _) (_ ∷ _) [] a b = elim b [ ]
SameOwners-trans (_ ∷ _) (_ ∷ _) (_ ∷ _) a b = (b.0 ∙ a.0, b.1 ∙ a.1)

module _ (rt : Runtime) where
  -- what `addObject` makes of the storage of the pool
  abbrev pub put : List Array → ObjectId → List Array
  put s p = if can_add s then add_top s p else add_top (create rt.memory s) p

  -- The pools after `_autoreleaseObject`: as before, for a constant, or with `p` in the innermost.
  pub tail-autorelease_object :
      (pool : Pool) (owner : List Pool) (c : Config rt) (p : ObjectId)
      → let t = (autorelease_object rt (record c { tail = pool ∷ owner }) p).tail in
        (t ≡ pool ∷ owner) ⊎ (t ≡ record pool { storage = put pool.storage p } ∷ owner)
  unfolding autorelease_object add_object add_to_pool
  tail-autorelease_object pool owner c p = elim (Bool-cases (not (p == nil) && rt.is_constant p)) [
    | inl e ↦ inl (rw e)
    | inr e ↦ elim (Bool-cases (can_add pool.storage)) [
      | inl room ↦ inr (rw (e, room))
      | inr full ↦ inr (rw (e, full))
    ]
  ]

  pub tail-autorelease_object_nil :
      (c : Config rt) (p : ObjectId) → (autorelease_object rt (record c { tail = [] }) p).tail ≡ []
  unfolding autorelease_object
  tail-autorelease_object_nil c p = elim (Bool-cases (not (p == nil) && rt.is_constant p)) [
    | inl e ↦ rw e
    | inr e ↦ rw e
  ]

  -- Adding an object touches the innermost pool alone.
  autorelease_object_same :
      (t : List Pool) (c : Config rt) (p : ObjectId)
      → SameOwners t (autorelease_object rt (record c { tail = t }) p).tail
  autorelease_object_same [] c p = rw (tail-autorelease_object_nil c p) tt
  autorelease_object_same (pool ∷ owner) c p = elim (tail-autorelease_object pool owner c p) [
    | inl e ↦ rw e (refl, refl)
    | inr e ↦ rw e (refl, refl)
  ]

  Slots-any :
      {R : ObjectId → Type 0} (all : (y : ObjectId) → R y) (n : ℕ) (o : ℕ → ObjectId) → Slots R n o
  Slots-any all zero o = tt
  Slots-any all (suc n) o = (all (o n), Slots-any all n o)

  Chain-any : {R : ObjectId → Type 0} (all : (y : ObjectId) → R y) (s : List Array) → Chain R s
  Chain-any all [] = tt
  Chain-any all (a ∷ previous) = (Slots-any all a.used a.objects, Chain-any all previous)

  All-unit : (ys : List ObjectId) → All (λ _. Unit {0}) ys
  All-unit [] = tt
  All-unit (y ∷ ys) = (tt, All-unit ys)

  -- Releasing a chain of arrays touches the innermost pool alone.
  pub release_and_free_same :
      (chain : List Array) (c : Config rt) → SameOwners c.tail (release_and_free rt chain c).tail
  release_and_free_same chain c =
      release_and_free-ind rt (SameOwners c.tail) (λ _. Unit {0})
        (λ d p _ h. SameOwners-trans c.tail d.tail _ h (autorelease_object_same d.tail d p)) chain c
        (Chain-any {R = λ y. (h : History) → All (λ _. Unit {0}) (rt.dealloc h y)}
          (λ y h. All-unit (rt.dealloc h y)) chain)
        (SameOwners-refl c.tail)

  -- `releaseAllObjectsInPool` leaves the storage of the pool empty.
  pub storage_of-release_all :
      (fuel d : ℕ) (c c' : Config rt)
      → release_all rt fuel d c ≡ some c'
      → storage_of d c'.tail ≡ []
  unfolding release_all
  storage_of-release_all zero d c c' e = cc
  storage_of-release_all (suc fuel) d c c' e = elim (List-cases (storage_of d c.tail)) [
    | inl h ↦
        let same : some c ≡ some c' = rw (h, release_all) at e in
        let arrived : c ≡ c' = cc in rw (← arrived) h
    | inr (a, previous, h) ↦ storage_of-release_all fuel d _ c' (rw (h, release_all) at e)
  ]

  -- The innermost pool is the one with as many owners as it has.
  clear_storage_same :
      (p : Pool) (owner t : List Pool)
      → SameOwners (p ∷ owner) t
      → SameOwners (p ∷ owner) (clear_storage (length owner) t)
  clear_storage_same p owner [] s = s
  clear_storage_same p owner (p' ∷ owner') s =
      let innermost : (length owner' == length owner) ≡ true = (==_iff _ _).1 (ap length s.1) in
      rw innermost s

  -- Releasing all objects of the innermost pool leaves its owners as they were.
  pub release_all_same :
      (fuel : ℕ) (p : Pool) (owner : List Pool) (c c' : Config rt)
      → SameOwners (p ∷ owner) c.tail
      → release_all rt fuel (length owner) c ≡ some c'
      → SameOwners (p ∷ owner) c'.tail
  unfolding release_all
  release_all_same zero p owner c c' s e = cc
  release_all_same (suc fuel) p owner c c' s e =
      elim (List-cases (storage_of (length owner) c.tail)) [
        | inl h ↦
            let same : some c ≡ some c' = rw (h, release_all) at e in
            let arrived : c ≡ c' = cc in rw (← arrived) s
        | inr (a, previous, h) ↦
            release_all_same fuel p owner _ c'
              (SameOwners-trans (p ∷ owner) (clear_storage (length owner) c.tail) _
                (clear_storage_same p owner c.tail s)
                (release_and_free_same (a ∷ previous)
                  (record c { tail = clear_storage (length owner) c.tail })))
              (rw (h, release_all) at e)
      ]
