-- ===== src/Pool/Total.antt =====
-- `releaseAllObjectsInPool` ends: a bound on the rounds of its loop.
use mulle_obj_c.Base.{
  ℕ, zero, suc, ◌+◌, ◌%◌, ◌≡◌, ◌≤◌, ◌<◌, refl, true, false, some, List, [], ◌∷◌, arith, ◌==◌,
  Bool-cases, inl, inr, length, List-cases, All, update,
}
use mulle_obj_c.Array.{ObjectId, word, n_objects, Array, can_add, create, add, init}
use mulle_obj_c.Pool.Runtime.{Runtime, History}
use mulle_obj_c.Pool.Ops.{Pool, Config, autorelease_object}
use mulle_obj_c.Pool.Drain.{storage_of, clear_storage, release_and_free, release_all}
use mulle_obj_c.Pool.Induct.{Slots, Chain, release_and_free-ind}
use mulle_obj_c.Pool.Frame.{put, tail-autorelease_object, tail-autorelease_object_nil}

Slots-update :
    (R : ObjectId → Type 0) (n : ℕ) (objects : ℕ → ObjectId) (i : ℕ) (p : ObjectId)
    → n ≤ i
    → Slots R n objects
    → Slots R n (update objects i p)
Slots-update R zero objects i p h s = tt
Slots-update R (suc n) objects i p h s =
    let other : (i == n) ≡ false = ground arith in
    (rw other s.0, Slots-update R n objects i p (omega arith) s.1)

Slots-add :
    (R : ObjectId → Type 0) (a : Array) (p : ObjectId)
    → a.used < n_objects
    → R p
    → Slots R a.used a.objects
    → Slots R (add a p).used (add a p).objects
unfolding add
Slots-add R a p h r s =
    let next : (a.used + 1) % word ≡ suc a.used = omega arith in
    let here : (a.used == a.used) ≡ true = ground arith in
    rw next (rw here r, Slots-update R a.used a.objects a.used p (omega arith) s)

-- What `addObject` stores is in the storage, and nothing else is new there.
pub Chain-put :
    (rt : Runtime) (R : ObjectId → Type 0) (s : List Array) (p : ObjectId)
    → R p
    → Chain R s
    → Chain R (put rt s p)
unfolding create init
Chain-put rt R [] p r c = (Slots-add R _ p (omega arith) r tt, tt)
Chain-put rt R (a ∷ previous) p r c = elim (Bool-cases (can_add (a ∷ previous))) [
  | inl room ↦ rw room (Slots-add R a p (ground arith) r c.0, c.1)
  | inr full ↦ rw full (Slots-add R _ p (omega arith) r tt, c)
]

length-clear_storage : (d : ℕ) (t : List Pool) → length (clear_storage d t) ≡ length t
length-clear_storage d [] = refl
length-clear_storage d (p ∷ owner) = ground (arith, length-clear_storage d owner)

storage_of-clear_storage : (d : ℕ) (t : List Pool) → storage_of d (clear_storage d t) ≡ []
storage_of-clear_storage d [] = refl
storage_of-clear_storage d (p ∷ owner) = elim (Bool-cases (length owner == d)) [
  | inl h ↦ rw (h, h) refl
  | inr h ↦ rw (h, length-clear_storage d owner, h) (storage_of-clear_storage d owner)
]

module _ (rank : ObjectId → ℕ) where
  -- what is left to do after `n` more rounds
  abbrev pub Fits : ℕ → ObjectId → Type 0
  Fits n y = suc (rank y) < n

  abbrev pub Level : ℕ → List Array → Type 0
  Level zero s = s ≡ []
  Level (suc n) s = Chain (Fits (suc n)) s

  Level-nil : (n : ℕ) (s : List Array) → s ≡ [] → Level n s
  Level-nil zero s e = e
  Level-nil (suc n) s e = rw e tt

  Level-put :
      (rt : Runtime) (n : ℕ) (s : List Array) (p : ObjectId)
      → Fits n p
      → Level n s
      → Level n (put rt s p)
  Level-put rt zero s p f l = absurd (omega arith)
  Level-put rt (suc n) s p f l = Chain-put rt (Fits (suc n)) s p f l

  All-mono :
      (P Q : ObjectId → Type 0) (ys : List ObjectId)
      → ((y : ObjectId) → P y → Q y)
      → All P ys
      → All Q ys
  All-mono P Q [] f a = tt
  All-mono P Q (y ∷ ys) f a = (f y a.0, All-mono P Q ys f a.1)

  Slots-mono :
      (P Q : ObjectId → Type 0) (n : ℕ) (o : ℕ → ObjectId)
      → ((y : ObjectId) → P y → Q y)
      → Slots P n o
      → Slots Q n o
  Slots-mono P Q zero o f a = tt
  Slots-mono P Q (suc n) o f a = (f (o n) a.0, Slots-mono P Q n o f a.1)

  pub Chain-mono :
      (P Q : ObjectId → Type 0) (s : List Array)
      → ((y : ObjectId) → P y → Q y)
      → Chain P s
      → Chain Q s
  Chain-mono P Q [] f c = tt
  Chain-mono P Q (a ∷ previous) f c =
      (Slots-mono P Q a.used a.objects f c.0, Chain-mono P Q previous f c.1)

  module _ (rt : Runtime) (d : ℕ) where
    Level-autorelease_object_at :
        (n : ℕ) (t : List Pool) (c : Config rt) (p : ObjectId)
        → Fits n p
        → Level n (storage_of d t)
        → Level n (storage_of d (autorelease_object rt (record c { tail = t }) p).tail)
    Level-autorelease_object_at n [] c p f l = rw (tail-autorelease_object_nil rt c p) l
    Level-autorelease_object_at n (pool ∷ owner) c p f l =
        elim (tail-autorelease_object rt pool owner c p) [
          | inl e ↦ rw e l
          | inr e ↦ rw e (elim (Bool-cases (length owner == d)) [
            | inl h ↦ rw h (Level-put rt n pool.storage p f (rw h at l))
            | inr h ↦ rw h (rw h at l)
          ])
        ]

    -- One round of the loop: the objects that it autoreleases are of lower rank.
    Level-release_and_free :
        (ranked : (h : History) (y : ObjectId) → All (λ p. rank p < rank y) (rt.dealloc h y))
        (n : ℕ) (chain : List Array) (c : Config rt)
        → Level (suc n) chain
        → Level n (storage_of d c.tail)
        → Level n (storage_of d (release_and_free rt chain c).tail)
    Level-release_and_free ranked n chain c l start =
        release_and_free-ind rt (λ t. Level n (storage_of d t)) (Fits n)
          (λ c' p f h. Level-autorelease_object_at n c'.tail c' p f h) chain c
          (Chain-mono (Fits (suc n)) (λ y. (h : History) → All (Fits n) (rt.dealloc h y)) chain
            (λ y f h.
              All-mono (λ p. rank p < rank y) (Fits n) (rt.dealloc h y) (λ p less. omega arith)
                (ranked h y))
            l)
          start

    -- `releaseAllObjectsInPool` ends, if what is autoreleased while an object is released is of
    -- lower rank than the object: `n` rounds are enough for a pool in which every object's rank,
    -- plus one, is below `n`, and, for `n` zero, for a pool without storage.
    pub release_all_ends :
        (ranked : (h : History) (y : ObjectId) → All (λ p. rank p < rank y) (rt.dealloc h y))
        (fuel n : ℕ) (c : Config rt)
        → n < fuel
        → Level n (storage_of d c.tail)
        → (c' : Config rt) × (release_all rt fuel d c ≡ some c')
    unfolding release_all
    release_all_ends ranked zero n c lt l = absurd (omega arith)
    release_all_ends ranked (suc fuel) zero c lt l = (c, rw (l, release_all))
    release_all_ends ranked (suc fuel) (suc n) c lt l = elim (List-cases (storage_of d c.tail)) [
      | inl h ↦ (c, rw (h, release_all))
      | inr (a, previous, h) ↦
          let c' = record c { tail = clear_storage d c.tail } in
          let c'' = release_and_free rt (a ∷ previous) c' in
          let chain : Chain (Fits (suc n)) (a ∷ previous) = rw h at l in
          rw (h, release_all)
            (release_all_ends ranked fuel n c'' (omega arith) (
              Level-release_and_free ranked n (a ∷ previous) c' chain
                (Level-nil n _ (storage_of-clear_storage d c.tail))))
    ]
