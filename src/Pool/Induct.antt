-- ===== src/Pool/Induct.antt =====
-- What holds of the pools while objects are released: a rule of induction over the releases, for
-- a predicate that adding an object of a certain kind keeps.
use mulle_obj_c.Base.{ℕ, zero, suc, List, [], ◌∷◌, ◌==◌, Bool-cases, inl, inr, All}
use mulle_obj_c.Array.{ObjectId, nil, Array}
use mulle_obj_c.Pool.Runtime.{Runtime, History}
use mulle_obj_c.Pool.Ops.{Pool, Config, autorelease_object}
use mulle_obj_c.Pool.Drain.{
  autorelease_all, release, release_slot, release_slots, free_array, release_and_free,
}

-- Every slot below `n` satisfies `R`.
abbrev pub Slots : (ObjectId → Type 0) → ℕ → (ℕ → ObjectId) → Type 0
Slots R zero objects = Unit
Slots R (suc i) objects = R (objects i) × Slots R i objects

abbrev pub Chain : (ObjectId → Type 0) → List Array → Type 0
Chain R [] = Unit
Chain R (a ∷ previous) = Slots R a.used a.objects × Chain R previous

module _ (rt : Runtime) (P : List Pool → Type 0) (Q : ObjectId → Type 0)
    (adds : (c : Config rt) (p : ObjectId)
      → Q p
      → P c.tail
      → P (autorelease_object rt c p).tail) where
  -- All that the release of the object autoreleases is of the kind `Q`
  abbrev pub Quiet : ObjectId → Type 0
  Quiet y = (h : History) → All Q (rt.dealloc h y)

  pub autorelease_all-ind :
      (ys : List ObjectId) (c : Config rt) → All Q ys → P c.tail → P (autorelease_all rt ys c).tail
  unfolding autorelease_all
  autorelease_all-ind [] c q h = h
  autorelease_all-ind (y ∷ ys) c q h =
      autorelease_all-ind ys (autorelease_object rt c y) q.1 (adds c y q.0 h)

  pub release_slot-ind :
      (y : ObjectId) (c : Config rt) → Quiet y → P c.tail → P (release_slot rt y c).tail
  unfolding release_slot release
  release_slot-ind y c q h = elim (Bool-cases (y == nil)) [
    | inl e ↦ rw e h
    | inr e ↦ rw e (autorelease_all-ind _ _ (q c.history) h)
  ]

  release_slots-ind :
      (i : ℕ) (objects : ℕ → ObjectId) (c : Config rt)
      → Slots Quiet i objects
      → P c.tail
      → P (release_slots rt i objects c).tail
  unfolding release_slots
  release_slots-ind zero objects c q h = h
  release_slots-ind (suc i) objects c q h =
      release_slots-ind i objects _ q.1 (release_slot-ind (objects i) c q.0 h)

  free_array-ind : (a : Array) (c : Config rt) → P c.tail → P (free_array rt a c).tail
  unfolding free_array
  free_array-ind a c h = elim (Bool-cases a.is_static) [ inl e ↦ rw e h | inr e ↦ rw e h ]

  pub release_and_free-ind :
      (chain : List Array) (c : Config rt)
      → Chain Quiet chain
      → P c.tail
      → P (release_and_free rt chain c).tail
  unfolding release_and_free
  release_and_free-ind [] c q h = h
  release_and_free-ind (a ∷ previous) c q h =
      release_and_free-ind previous _ q.1
        (free_array-ind a _ (release_slots-ind a.used a.objects c q.0 h))
