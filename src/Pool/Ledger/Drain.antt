-- ===== src/Pool/Ledger/Drain.antt =====
-- The functions that release the objects of a pool keep the books.
use mathlib.Core.Path.{subst}
use mulle_obj_c.Base.{
  ℕ, zero, suc, ◌+◌, ◌-◌, ◌%◌, ◌≡◌, ◌≢◌, refl, true, Option, none, some, List, [], ◌∷◌, arith, ◌==◌,
  if◌then◌else◌, Bool-cases, inl, inr, length, List-cases,
}
use mulle_obj_c.Array.{ObjectId, nil, word, Array}
use mulle_obj_c.Array.Slots.{occurrences, occurrences_in}
use mulle_obj_c.Pool.Runtime.{Runtime, MapLaws}
use mulle_obj_c.Pool.Ops.{Pool, Config, with_map, autorelease_object}
use mulle_obj_c.Pool.Drain.{
  storage_of, clear_storage, autorelease_all, release, map_decrement, release_slot, release_slots,
  free_array, release_and_free, release_all,
}
use mulle_obj_c.Pool.Ledger.{live, heap_arrays, heap_arrays_in, AllBounded, Mapped, Books}
use mulle_obj_c.Pool.Ledger.Add.{autorelease_object-Books}

-- What a pool's storage holds is taken off the pools when it is detached.
live-clear_storage :
    (x : ObjectId) (d : ℕ) (t : List Pool)
    → live x t ≡ live x (clear_storage d t) + occurrences_in x (storage_of d t)
live-clear_storage x d [] = refl
live-clear_storage x d (p ∷ owner) = ground (arith, live-clear_storage x d owner)

heap_arrays-clear_storage :
    (d : ℕ) (t : List Pool)
    → heap_arrays t ≡ heap_arrays (clear_storage d t) + heap_arrays_in (storage_of d t)
heap_arrays-clear_storage d [] = refl
heap_arrays-clear_storage d (p ∷ owner) = ground (arith, heap_arrays-clear_storage d owner)

AllBounded-clear_storage : (d : ℕ) (t : List Pool) → AllBounded t → AllBounded (clear_storage d t)
AllBounded-clear_storage d [] b = tt
AllBounded-clear_storage d (p ∷ owner) b = elim (Bool-cases (length owner == d)) [
  | inl h ↦ rw h (tt, b.1)
  | inr h ↦ rw h (b.0, AllBounded-clear_storage d owner b.1)
]

module _ (rt : Runtime) (laws : MapLaws rt) (x : ObjectId) (named : x ≢ nil) where
  recast : {k n j : ℕ} {c : Config rt} → k ≡ n → Books rt x k j c → Books rt x n j c
  recast {j} {c} e b = subst (λ n. Books rt x n j c) e b

  rearray : {k j n : ℕ} {c : Config rt} → j ≡ n → Books rt x k j c → Books rt x k n c
  rearray {k} {c} e b = subst (λ n. Books rt x k n c) e b

  -- nil is not `x`
  absent : (y k : ℕ) → (y == nil) ≡ true → (if y == x then 1 else 0) + k ≡ k
  absent y k e = ground arith

  autorelease_all-Books :
      (ys : List ObjectId) (c : Config rt) {k j : ℕ}
      → Books rt x k j c
      → Books rt x k j (autorelease_all rt ys c)
  unfolding autorelease_all
  autorelease_all-Books [] c b = b
  autorelease_all-Books (y ∷ ys) c b =
      autorelease_all-Books ys (autorelease_object rt c y)
        (autorelease_object-Books rt x laws c y b)

  Mapped-decrement :
      (m : Option rt.Map) (n k : ℕ) (y : ObjectId)
      → Mapped rt x (n + ((if y == x then 1 else 0) + k)) m
      → Mapped rt x (n + k) (elim m [ none ↦ none | some m ↦ some (map_decrement rt y m) ])
  unfolding map_decrement
  Mapped-decrement none n k y h = tt
  Mapped-decrement (some m) n k y h =
      let value : ℕ = (rt.get m y + word - 1) % word in
      elim (Bool-cases (value == 0)) [
        | inl e ↦ rw (e, laws.get-remove m y x) (ground arith)
        | inr e ↦ rw (e, laws.get-set m y value x) (ground arith)
      ]

  -- The release of an object turns one reference in hand into a release.
  pub released-Books :
      (y : ObjectId) (c : Config rt) {k j : ℕ}
      → Books rt x ((if y == x then 1 else 0) + k) j c
      → Books rt x k j (release rt y (with_map rt (map_decrement rt y) c))
  unfolding release
  released-Books y c {k} {j} b = autorelease_all-Books _ _ (record {
    refs = omega (arith, b.refs);
    arrays = b.arrays;
    bounded = b.bounded;
    mapped = Mapped-decrement c.object_map (live x c.tail) k y b.mapped;
  })

  release_slot-Books :
      (y : ObjectId) (c : Config rt) {k j : ℕ}
      → Books rt x ((if y == x then 1 else 0) + k) j c
      → Books rt x k j (release_slot rt y c)
  unfolding release_slot
  release_slot-Books y c {k} {j} b = elim (Bool-cases (y == nil)) [
    | inl e ↦ rw e (recast (absent y k e) b)
    | inr e ↦ rw e (released-Books y c b)
  ]

  release_slots-Books :
      (i : ℕ) (objects : ℕ → ObjectId) (c : Config rt) {k j : ℕ}
      → Books rt x (occurrences x i objects + k) j c
      → Books rt x k j (release_slots rt i objects c)
  unfolding release_slots
  release_slots-Books zero objects c b = recast (omega arith) b
  release_slots-Books (suc i) objects c {k} b =
      release_slots-Books i objects (release_slot rt (objects i) c)
        (release_slot-Books (objects i) c (recast (omega arith) b))

  free_array-Books :
      (a : Array) (c : Config rt) {k j : ℕ}
      → Books rt x k ((if a.is_static then 0 else 1) + j) c
      → Books rt x k j (free_array rt a c)
  unfolding free_array
  free_array-Books a c b = elim (Bool-cases a.is_static) [
    | inl h ↦
        rw h
          (record { refs = b.refs; arrays = ground arith; bounded = b.bounded; mapped = b.mapped })
    | inr h ↦
        rw h
          (record { refs = b.refs; arrays = ground arith; bounded = b.bounded; mapped = b.mapped })
  ]

  -- `_mulle_autoreleasepointerarray_release_and_free` turns what the chain holds into releases,
  -- and its heap arrays into frees.
  pub release_and_free-Books :
      (chain : List Array) (c : Config rt) {k j : ℕ}
      → Books rt x (occurrences_in x chain + k) (heap_arrays_in chain + j) c
      → Books rt x k j (release_and_free rt chain c)
  unfolding release_and_free
  release_and_free-Books [] c b = recast (omega arith) (rearray (omega arith) b)
  release_and_free-Books (a ∷ previous) c b =
      release_and_free-Books previous (free_array rt a (release_slots rt a.used a.objects c)) (
        free_array-Books a _
          (release_slots-Books a.used a.objects c (recast (omega arith) (rearray (omega arith) b))))

  detach-Books :
      (d : ℕ) (c : Config rt) {k j : ℕ}
      → Books rt x k j c
      → Books rt x
          (occurrences_in x (storage_of d c.tail) + k)
          (heap_arrays_in (storage_of d c.tail) + j)
          (record c { tail = clear_storage d c.tail })
  detach-Books d c {k} b = record {
    refs = omega (arith, b.refs, live-clear_storage x d c.tail);
    arrays = omega (arith, b.arrays, heap_arrays-clear_storage d c.tail);
    bounded = AllBounded-clear_storage d c.tail b.bounded;
    mapped =
        subst (λ n. Mapped rt x n c.object_map) (omega (arith, live-clear_storage x d c.tail))
          b.mapped;
  }

  -- `releaseAllObjectsInPool`, when it returns, has kept the books.
  pub release_all-Books :
      (fuel d : ℕ) (c c' : Config rt) {k j : ℕ}
      → release_all rt fuel d c ≡ some c'
      → Books rt x k j c
      → Books rt x k j c'
  unfolding release_all
  release_all-Books zero d c c' e b = cc
  release_all-Books (suc fuel) d c c' {k} {j} e b = elim (List-cases (storage_of d c.tail)) [
    | inl h ↦
        let same : some c ≡ some c' = rw (h, release_all) at e in
        let arrived : c ≡ c' = cc in subst (λ z. Books rt x k j z) arrived b
    | inr (a, previous, h) ↦
        release_all-Books fuel d
          (release_and_free rt (a ∷ previous) (record c { tail = clear_storage d c.tail })) c'
          (rw (h, release_all) at e)
          (release_and_free-Books (a ∷ previous) _ (rw h at (detach-Books d c b)))
  ]
