-- ===== src/Pool/Ledger.antt =====
-- The books of the pools: references that came in, went out and are still there.
pub mod Add
pub mod Drain
use mulle_obj_c.Base.{
  ℕ, zero, suc, ◌+◌, ◌%◌, ◌≤◌, ◌≡◌, Bool, true, false, Option, none, some, List, [], ◌∷◌, ◌==◌,
  if◌then◌else◌,
}
use mulle_obj_c.Array.{ObjectId, word, n_objects, Array}
use mulle_obj_c.Array.Slots.{occurrences_in}
use mulle_obj_c.Pool.Runtime.{Runtime, History, autoreleased, released, created, freed}
use mulle_obj_c.Pool.Ops.{Pool, Config}

-- how many references to `x` the pools hold
abbrev pub live : ObjectId → List Pool → ℕ
live x [] = 0
live x (p ∷ owner) = occurrences_in x p.storage + live x owner

-- the arrays that do not lie inside of a pool
abbrev pub heap_arrays_in : List Array → ℕ
heap_arrays_in [] = 0
heap_arrays_in (a ∷ previous) = (if a.is_static then 0 else 1) + heap_arrays_in previous

abbrev pub heap_arrays : List Pool → ℕ
heap_arrays [] = 0
heap_arrays (p ∷ owner) = heap_arrays_in p.storage + heap_arrays owner

abbrev pub Bounded : List Array → Type 0
Bounded [] = Unit
Bounded (a ∷ previous) = (a.used ≤ n_objects) × Bounded previous

abbrev pub AllBounded : List Pool → Type 0
AllBounded [] = Unit
AllBounded (p ∷ owner) = Bounded p.storage × AllBounded owner

abbrev pub autoreleases : ObjectId → History → ℕ
autoreleases x [] = 0
autoreleases x (autoreleased y ∷ h) = (if y == x then 1 else 0) + autoreleases x h
autoreleases x (released y ∷ h) = autoreleases x h
autoreleases x (created ∷ h) = autoreleases x h
autoreleases x (freed ∷ h) = autoreleases x h

abbrev pub releases : ObjectId → History → ℕ
releases x [] = 0
releases x (autoreleased y ∷ h) = releases x h
releases x (released y ∷ h) = (if y == x then 1 else 0) + releases x h
releases x (created ∷ h) = releases x h
releases x (freed ∷ h) = releases x h

abbrev pub creations : History → ℕ
creations [] = 0
creations (autoreleased y ∷ h) = creations h
creations (released y ∷ h) = creations h
creations (created ∷ h) = suc (creations h)
creations (freed ∷ h) = creations h

abbrev pub frees : History → ℕ
frees [] = 0
frees (autoreleased y ∷ h) = frees h
frees (released y ∷ h) = frees h
frees (created ∷ h) = frees h
frees (freed ∷ h) = suc (frees h)

-- the object map, where there is one, counts `n` references to `x`, as an NSUInteger
abbrev pub Mapped : (rt : Runtime) → ObjectId → ℕ → Option rt.Map → Type 0
Mapped rt x n none = Unit
Mapped rt x n (some m) = rt.get m x ≡ n % word

-- The books of `x` balance. `k` references and `j` heap arrays are in hand: taken off the pools,
-- and not yet released or freed.
pub record Books (rt : Runtime) (x : ObjectId) (k j : ℕ) (c : Config rt) : Type 0 where
  pub refs : live x c.tail + k + releases x c.history ≡ autoreleases x c.history
  pub arrays : heap_arrays c.tail + j + frees c.history ≡ creations c.history
  pub bounded : AllBounded c.tail
  pub mapped : Mapped rt x (live x c.tail + k) c.object_map
