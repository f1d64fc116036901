-- ===== src/Array/Walk.antt =====
-- src/mulle-objc-autoreleasepointerarray-private.h: walking over the objects of a chain of arrays.
use mulle_obj_c.Base.{
  ℕ, zero, suc, ◌+◌, ◌≡◌, refl, sym, ap, ◌∙◌, Bool, not, List, [], ◌∷◌, ◌++◌, inl, inr, ◌==◌,
  if◌then◌else◌, Bool-cases,
}
use mulle_obj_c.Array.{ObjectId, nil, Array}

-- `mulle_objc_walk_ok` of mulle-objc-runtime
abbrev pub walk_ok : ℕ
walk_ok = 0

module _ {World : Type 0} where
  -- The rest of the slots of an array, from `at` on
  unfoldable pub dump_slots :
      (print : World → ObjectId → World) → (objects : ℕ → ObjectId) → (at rest : ℕ) → World → World
  dump_slots print objects at zero w = w
  dump_slots print objects at (suc rest) w =
      let obj : ObjectId = objects at in
      dump_slots print objects (at + 1) rest (if obj == nil then w else print w obj)

  -- `_mulle_autoreleasepointerarray_dump_objects`, where `print` prints a line for an object
  unfoldable pub dump_objects : (print : World → ObjectId → World) → List Array → World → World
  dump_objects print [] w = w
  dump_objects print (p ∷ q) w = dump_objects print q (dump_slots print p.objects 0 p.used w)

  unfoldable pub walk_slots :
      (callback : World → ObjectId → ℕ × World)
      → (objects : ℕ → ObjectId) → (at rest : ℕ) → World
      → World
  walk_slots callback objects at zero w = w
  walk_slots callback objects at (suc rest) w =
      let obj : ObjectId = objects at in
      let (command, w') = callback w obj in
      let skipped = walk_slots callback objects (at + 1) rest w in
      let walked = walk_slots callback objects (at + 1) rest w' in
      if obj == nil then skipped else if command == walk_ok then walked else w'

  -- `_mulle_autoreleasepointerarray_walk_objects`, with `userinfo` in the world of the callback
  unfoldable pub walk_objects :
      (callback : World → ObjectId → ℕ × World) → List Array → World → World
  walk_objects callback [] w = w
  walk_objects callback (p ∷ q) w =
      walk_objects callback q (walk_slots callback p.objects 0 p.used w)

-- The objects in some slots, without nil
abbrev pub present : (objects : ℕ → ObjectId) → (at rest : ℕ) → List ObjectId
present objects at zero = []
present objects at (suc rest) =
    let others = present objects (at + 1) rest in
    if objects at == nil then others else objects at ∷ others

-- A list up to and with the first element that has a property
abbrev pub up_to : (stops : ObjectId → Bool) → List ObjectId → List ObjectId
up_to stops [] = []
up_to stops (x ∷ xs) = let rest = up_to stops xs in if stops x then x ∷ [] else x ∷ rest

-- What a walk sees: in each array, what comes before a stop
abbrev pub seen : (stops : ObjectId → Bool) → List Array → List ObjectId
seen stops [] = []
seen stops (a ∷ previous) = up_to stops (present a.objects 0 a.used) ++ seen stops previous

-- All objects, newest array first
abbrev pub objects_of : List Array → List ObjectId
objects_of [] = []
objects_of (a ∷ previous) = present a.objects 0 a.used ++ objects_of previous

module _ {World : Type 0} where
  abbrev pub visit_all : (visit : World → ObjectId → World) → List ObjectId → World → World
  visit_all visit [] w = w
  visit_all visit (x ∷ xs) w = visit_all visit xs (visit w x)

  visit_all-append :
      (visit : World → ObjectId → World) (xs ys : List ObjectId) (w : World)
      → visit_all visit (xs ++ ys) w ≡ visit_all visit ys (visit_all visit xs w)
  visit_all-append visit [] ys w = refl
  visit_all-append visit (x ∷ xs) ys w = visit_all-append visit xs ys (visit w x)

  dump_slots-visit_all :
      (print : World → ObjectId → World) (objects : ℕ → ObjectId) (at rest : ℕ) (w : World)
      → dump_slots print objects at rest w ≡ visit_all print (present objects at rest) w
  unfolding dump_slots
  dump_slots-visit_all print objects at zero w = refl
  dump_slots-visit_all print objects at (suc rest) w = elim (Bool-cases (objects at == nil)) [
    | inl none ↦ rw (none) (dump_slots-visit_all print objects (at + 1) rest w)
    | inr there ↦
        rw (there) (dump_slots-visit_all print objects (at + 1) rest (print w (objects at)))
  ]

  dump_objects-visit_all :
      (print : World → ObjectId → World) (arrays : List Array) (w : World)
      → dump_objects print arrays w ≡ visit_all print (objects_of arrays) w
  unfolding dump_objects
  dump_objects-visit_all print [] w = refl
  dump_objects-visit_all print (a ∷ previous) w =
      let here = dump_slots-visit_all print a.objects 0 a.used w in
      dump_objects-visit_all print previous _
      ∙ ap (visit_all print (objects_of previous)) here
      ∙ sym (visit_all-append print (present a.objects 0 a.used) (objects_of previous) w)

  module _ (callback : World → ObjectId → ℕ × World) (stops : ObjectId → Bool)
      (answers : (w : World) (x : ObjectId) → ((callback w x).0 == walk_ok) ≡ not (stops x)) where
    walk_slots-visit_all :
        (objects : ℕ → ObjectId) (at rest : ℕ) (w : World)
        → walk_slots callback objects at rest w
          ≡ visit_all (λ w x. (callback w x).1) (up_to stops (present objects at rest)) w
    unfolding walk_slots
    walk_slots-visit_all objects at zero w = refl
    walk_slots-visit_all objects at (suc rest) w = elim (Bool-cases (objects at == nil)) [
      | inl none ↦ rw (none) (walk_slots-visit_all objects (at + 1) rest w)
      | inr there ↦ elim (Bool-cases (stops (objects at))) [
        | inl stop ↦
            let command = answers w (objects at) ∙ ap not stop in rw (there, command, stop) refl
        | inr go ↦
            let command = answers w (objects at) ∙ ap not go in
            rw (there, command, go)
              (walk_slots-visit_all objects (at + 1) rest (callback w (objects at)).1)
      ]
    ]

    walk_objects-visit_all :
        (arrays : List Array) (w : World)
        → walk_objects callback arrays w ≡ visit_all (λ w x. (callback w x).1) (seen stops arrays) w
    unfolding walk_objects
    walk_objects-visit_all [] w = refl
    walk_objects-visit_all (a ∷ previous) w =
        let visit = λ (w : World) (x : ObjectId). (callback w x).1 in
        walk_objects-visit_all previous _
        ∙ ap (visit_all visit (seen stops previous)) (walk_slots-visit_all a.objects 0 a.used w)
        ∙ sym (
            visit_all-append visit (up_to stops (present a.objects 0 a.used)) (seen stops previous)
              w)

    -- A walk calls its callback, from the newest array on, for the objects of each array that are
    -- not nil, up to the first at which the callback asks to stop, and then goes on with the array
    -- before: a stop ends the walk of one array only. A dump prints all objects in that order.
    -- Whether the callback asks to stop depends on the object.
    pub walk_objects_lem :
        (print : World → ObjectId → World) (arrays : List Array) (w : World)
        → (walk_objects callback arrays w
            ≡ visit_all (λ w x. (callback w x).1) (seen stops arrays) w)
          × (dump_objects print arrays w ≡ visit_all print (objects_of arrays) w)
    walk_objects_lem print arrays w =
        (walk_objects-visit_all arrays w, dump_objects-visit_all print arrays w)
