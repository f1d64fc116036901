-- ===== src/Pool/Pop.antt =====
-- `popAutoreleasePool`: it ends, leaves the outer pools as they were, and releases what the
-- popped pools held.
use mathlib.Core.Path.{subst}
use mulle_obj_c.Base.{
  ℕ, zero, suc, ◌+◌, ◌≡◌, ◌≢◌, ◌<◌, refl, ap, ◌∙◌, Bool, true, false, List, [], ◌∷◌, arith, ◌==◌,
  ◌||◌, if◌then◌else◌, Bool-cases, inl, inr, length, All, ==_iff,
}
use mulle_obj_c.Array.{ObjectId, nil}
use mulle_obj_c.Pool.Runtime.{Runtime, MapLaws, History}
use mulle_obj_c.Pool.Ops.{Pool, Config, done}
use mulle_obj_c.Pool.Drain.{storage_of, drop_pool, pop_one, pop_loop, pop, owner_of}
use mulle_obj_c.Pool.Induct.{Chain}
use mulle_obj_c.Pool.Ledger.{heap_arrays_in, Mapped, Books}
use mulle_obj_c.Array.Slots.{occurrences_in}
use mulle_obj_c.Pool.Ledger.Drain.{release_all-Books}
use mulle_obj_c.Pool.Frame.{SameOwners, storage_of-release_all, release_all_same}
use mulle_obj_c.Pool.Total.{Fits, Level, Chain-mono, release_all_ends}

abbrev pub has_pool : (adr : ℕ) → List Pool → Bool
has_pool adr [] = false
has_pool adr (p ∷ owner) = (p.adr == adr) || has_pool adr owner

-- the pools behind the first one at `adr`
abbrev pub behind : (adr : ℕ) → List Pool → List Pool
behind adr [] = []
behind adr (p ∷ owner) = if p.adr == adr then owner else behind adr owner

-- every object in the pools is of rank below `b`
abbrev pub RanksBelow : (ObjectId → ℕ) → ℕ → List Pool → Type 0
RanksBelow rank b [] = Unit
RanksBelow rank b (p ∷ owner) = Chain (λ y. rank y < b) p.storage × RanksBelow rank b owner

-- What is autoreleased while an object is released is of lower rank than the object: the cascade
-- of releases ends.
abbrev pub Ranked : (ObjectId → ℕ) → Runtime → Type 0
Ranked rank rt = (h : History) (y : ObjectId) → All (λ p. rank p < rank y) (rt.dealloc h y)

-- The books of every object balance, with nothing in hand.
abbrev pub AllBooks : (rt : Runtime) → Config rt → Type 0
AllBooks rt c = (x : ObjectId) → x ≢ nil → Books rt x 0 0 c

module _ (rt : Runtime) where
  -- A pool whose storage is empty can go.
  pub drop_pool-Books :
      (p : Pool) (owner t : List Pool) (c : Config rt) (x : ObjectId) {k j : ℕ}
      → SameOwners (p ∷ owner) t
      → storage_of (length owner) t ≡ []
      → Books rt x k j (record c { tail = t })
      → Books rt x k j (drop_pool rt (record c { tail = t }))
  drop_pool-Books p owner [] c x s e b = elim s [ ]
  drop_pool-Books p owner (p' ∷ owner') c x {k} {j} s e b =
      let innermost : (length owner' == length owner) ≡ true = (==_iff _ _).1 (ap length s.1) in
      let empty : p'.storage ≡ [] = rw innermost at e in
      record {
        refs = omega (arith, b.refs, ap (occurrences_in x) empty);
        arrays = omega (arith, b.arrays, ap heap_arrays_in empty);
        bounded = b.bounded.1;
        mapped =
            subst (λ n. Mapped rt x n c.object_map) (omega (arith, ap (occurrences_in x) empty))
              b.mapped;
      }

  owner_of_same : (p : Pool) (owner t : List Pool) → SameOwners (p ∷ owner) t → owner_of t ≡ owner
  owner_of_same p owner [] s = elim s [ ]
  owner_of_same p owner (p' ∷ owner') s = s.1

  storage_of_innermost :
      (p : Pool) (owner : List Pool) → storage_of (length owner) (p ∷ owner) ≡ p.storage
  storage_of_innermost p owner =
      let innermost : (length owner == length owner) ≡ true = (==_iff _ _).1 refl in rw innermost

  module _ (laws : MapLaws rt) (rank : ObjectId → ℕ) (ranked : Ranked rank rt) (fuel b : ℕ)
      (enough : b + 1 < fuel) where
    -- One round: the innermost pool goes, its owners stay as they are, and the books balance.
    pop_one_at :
        (p : Pool) (owner : List Pool) (c : Config rt)
        → RanksBelow rank b (p ∷ owner)
        → AllBooks rt (record c { tail = p ∷ owner })
        → (c' : Config rt) × (pop_one rt fuel (record c { tail = p ∷ owner }) ≡ done c')
          × (c'.tail ≡ owner)
          × AllBooks rt c'
    unfolding pop_one
    pop_one_at p owner c r books =
        let c1 : Config rt = record c { tail = p ∷ owner; releasing = true } in
        let level : Level rank (suc b) (storage_of (length owner) c1.tail) =
          rw (storage_of_innermost p owner) (
            Chain-mono rank (λ y. rank y < b) (Fits rank (suc b)) p.storage (λ y h. omega arith)
              r.0) in
        let (c2, e) =
          release_all_ends rank rt (length owner) ranked fuel (suc b) c1 (omega arith) level in
        let same = release_all_same rt fuel p owner c1 c2 (refl, refl) e in
        let empty = storage_of-release_all rt fuel (length owner) c1 c2 e in
        (
          drop_pool rt c2,
          rw (e, pop_one),
          owner_of_same p owner c2.tail same,
          λ x named.
              let now : Books rt x 0 0 c1 = record {
                refs = (books x named).refs;
                arrays = (books x named).arrays;
                bounded = (books x named).bounded;
                mapped = (books x named).mapped;
              } in
              drop_pool-Books p owner c2.tail c2 x same empty
                (release_all-Books rt laws x named fuel (length owner) c1 c2 e now),
        )

    pop_loop_at :
        (rounds : ℕ) (t : List Pool) (c : Config rt) (adr : ℕ)
        → length t < rounds
        → RanksBelow rank b t
        → has_pool adr t ≡ true
        → AllBooks rt (record c { tail = t })
        → (c' : Config rt) × (pop_loop rt rounds fuel (record c { tail = t }) adr ≡ done c')
          × (c'.tail ≡ behind adr t)
          × AllBooks rt c'
    unfolding pop_loop
    pop_loop_at zero t c adr lt r h books = absurd (omega arith)
    pop_loop_at (suc rounds) [] c adr lt r h books = cc
    pop_loop_at (suc rounds) (p ∷ owner) c adr lt r h books =
        let (c', e, tail, books') = pop_one_at p owner c r books in
        elim (Bool-cases (p.adr == adr)) [
          | inl here ↦ (c', rw (e, here, pop_loop), rw here tail, books')
          | inr other ↦
              let (c'', e', tail', books'') =
                pop_loop_at rounds c'.tail c' adr (omega (arith, ap length tail)) (rw tail r.1)
                  (rw tail (rw other at h)) books' in
              (c'', rw (e, other, pop_loop) e', rw other (tail' ∙ ap (behind adr) tail), books'')
        ]

    -- Let releasing an object autorelease only objects of lower rank, the objects in the pools be
    -- of rank below a bound, the fuel be more than the bound and one, the map have its laws, and the
    -- books balance at first. `popAutoreleasePool` with the address of a pool that is there then
    -- returns, the pools left are those behind that pool, as they were, and the books balance: every
    -- reference that was autoreleased, and is not in a pool that is left, has been released.
    pub pop_lem :
        (c : Config rt) (adr : ℕ)
        → RanksBelow rank b c.tail
        → has_pool adr c.tail ≡ true
        → AllBooks rt c
        → (c' : Config rt) × (pop rt fuel c adr ≡ done c')
          × (c'.tail ≡ behind adr c.tail)
          × AllBooks rt c'
    unfolding pop
    pop_lem c adr r h books = pop_loop_at (suc (length c.tail)) c.tail c adr (omega arith) r h books
