-- ===== src/Pool/Order.antt =====
-- The order in which a pool releases its objects.
use mathlib.Core.List.{append_assoc}
use mulle_obj_c.Base.{
  ℕ, zero, suc, ◌≡◌, refl, List, [], ◌∷◌, ◌++◌, ◌==◌, if◌then◌else◌, Bool-cases, inl, inr,
}
use mulle_obj_c.Array.{ObjectId, nil, Array}
use mulle_obj_c.Pool.Runtime.{Runtime, History, autoreleased, released, created, freed}
use mulle_obj_c.Pool.Ops.{Config}
use mulle_obj_c.Pool.Drain.{
  autorelease_all, release, release_slot, release_slots, free_array, release_and_free,
}

-- the objects released, the last one first
abbrev pub released_list : History → List ObjectId
released_list [] = []
released_list (autoreleased y ∷ h) = released_list h
released_list (released y ∷ h) = y ∷ released_list h
released_list (created ∷ h) = released_list h
released_list (freed ∷ h) = released_list h

-- the objects in the slots below `n`, without the holes, the oldest first
abbrev pub slot_contents : ℕ → (ℕ → ObjectId) → List ObjectId
slot_contents zero o = []
slot_contents (suc i) o = slot_contents i o ++ (if o i == nil then [] else o i ∷ [])

-- the objects of a chain of arrays, the oldest first
abbrev pub contents : List Array → List ObjectId
contents [] = []
contents (a ∷ previous) = contents previous ++ slot_contents a.used a.objects

module _ (rt : Runtime) (quiet : (h : History) (y : ObjectId) → rt.dealloc h y ≡ []) where
  released_list-release_slot :
      (y : ObjectId) (c : Config rt)
      → released_list (release_slot rt y c).history
        ≡ (if y == nil then [] else y ∷ []) ++ released_list c.history
  unfolding release_slot release autorelease_all
  released_list-release_slot y c = elim (Bool-cases (y == nil)) [
    | inl e ↦ rw e
    | inr e ↦ rw (e, quiet, autorelease_all)
  ]

  released_list-release_slots :
      (i : ℕ) (o : ℕ → ObjectId) (c : Config rt)
      → released_list (release_slots rt i o c).history
        ≡ slot_contents i o ++ released_list c.history
  unfolding release_slots
  released_list-release_slots zero o c = refl
  released_list-release_slots (suc i) o c = rw (
    released_list-release_slots i o (release_slot rt (o i) c),
    released_list-release_slot (o i) c,
    append_assoc,
  )

  released_list-free_array :
      (a : Array) (c : Config rt)
      → released_list (free_array rt a c).history ≡ released_list c.history
  unfolding free_array
  released_list-free_array a c = elim (Bool-cases a.is_static) [ inl e ↦ rw e | inr e ↦ rw e ]

  -- Where no -dealloc autoreleases anything, a chain is released newest object first: read from
  -- the last release back, the objects are those of the chain from the oldest on.
  pub released_list-release_and_free :
      (chain : List Array) (c : Config rt)
      → released_list (release_and_free rt chain c).history
        ≡ contents chain ++ released_list c.history
  unfolding release_and_free
  released_list-release_and_free [] c = refl
  released_list-release_and_free (a ∷ previous) c = rw (
    released_list-release_and_free previous (free_array rt a (release_slots rt a.used a.objects c)),
    released_list-free_array a (release_slots rt a.used a.objects c),
    released_list-release_slots a.used a.objects c,
    append_assoc,
  )
