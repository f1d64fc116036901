-- ===== src/Pool/Examples.antt =====
-- The pools on a small runtime: runs of them, and the theorems at their states.
use mulle_obj_c.Base.{
  ℕ, ◌*◌, ◌+◌, ◌%◌, ◌≡◌, ◌≢◌, ◌<◌, ◌≤◌, ◌↔◌, refl, true, false, Option, none, some, List, [], ◌∷◌,
  ◌++◌, arith, ◌==◌, if◌then◌else◌, Bool-cases, inl, inr,
}
use mulle_obj_c.Array.{count as chain_count}
use mulle_obj_c.Array.{ObjectId, nil, Array, create, add, init, copy}
use mulle_obj_c.Array.Walk.{walk_objects, dump_objects, walk_slots, walk_objects_lem}
use mulle_obj_c.Array.Slots.{occurrences}
use mulle_obj_c.Pool.Runtime.{Runtime, MapLaws}
use mulle_obj_c.Pool.Ops.{
  Config, done, autorelease_object, autorelease_objects, add_objects, add_objects_loop,
  map_increments, add_object, add_to_pool, map_increment, push,
}
use mulle_obj_c.Pool.Drain.{
  storage_of, autorelease_all, release, map_decrement, release_slot, release_slots, free_array,
  release_and_free, release_all, pop_one, pop_loop, pop,
}
use mulle_obj_c.Pool.Ledger.{
  live, releases, autoreleases, creations, frees, heap_arrays, Mapped, Books,
}
use mulle_obj_c.Pool.Pop.{RanksBelow, Ranked, AllBooks, behind, pop_lem}
use mulle_obj_c.Pool.Api.{Universes, push_autorelease_pool, pop_autorelease_pool}
use mulle_obj_c.Pool.Api.Scope.{autorelease_each, times, pop_autorelease_pool-push_autorelease_pool}
use mulle_obj_c.Pool.Teardown.{finish, dealloc, checked_in, finish_lem, dealloc-pop}
use mulle_obj_c.Pool.Early.{release_objects, slot_in}
use mulle_obj_c.Pool.Early.Emptied.{release_objects_lem}
use mulle_obj_c.Pool.Bulk.Effect.{autorelease_objects-Books, autorelease_objects_effect}
use mulle_obj_c.Pool.Query
use mulle_obj_c.Pool.Query.Live.{contains_object_iff}
use mulle_obj_c.Pool.Order.{released_list, contents, released_list-release_and_free}
use mulle_obj_c.Pool.Reach.{
  cleared, config_init, autorelease, pushing, Reach, start, next, Reach-Books, Reach-balance,
}

-- Object 9 is constant, and the -dealloc of object 5 autoreleases object 4.
abbrev rt : Runtime
rt = record {
  is_constant = λ x. x == 9;
  dealloc = λ h x. if x == 5 then 4 ∷ [] else [];
  memory = λ i. 77;
  Map = ℕ → ℕ;
  get = λ m k. m k;
  set = λ m k v j. if k == j then v else m j;
  remove = λ m k j. if k == j then 0 else m j;
}

laws : MapLaws rt
laws = record { get-set = λ m k v j. refl; get-remove = λ m k j. refl }

abbrev rank : ObjectId → ℕ
rank x = x

ranked : Ranked rank rt
ranked h y = elim (Bool-cases (y == 5)) [ inl e ↦ rw e (ground arith, tt) | inr e ↦ rw e tt ]

abbrev map : Option (ℕ → ℕ)
map = some (λ k. 0)

-- two pools, at 100 and 200, and the objects 3, 5 and 3 in the inner one
abbrev outer : Config rt
outer = push rt 100 (config_init rt map (cleared rt))

abbrev inner : Config rt
inner =
    autorelease_object rt (autorelease_object rt (autorelease_object rt (push rt 200 outer) 3) 5) 3

inner-Reach : Reach rt map inner
inner-Reach =
    next
      (next (next (next (next start (pushing _ 100)) (pushing _ 200)) (autorelease _ 3))
        (autorelease _ 5))
      (autorelease _ 3)

inner-AllBooks : AllBooks rt inner
inner-AllBooks x named = Reach-Books rt laws x named refl inner-Reach

inner-RanksBelow : RanksBelow rank 6 inner.tail
unfolding autorelease_object add_object add_to_pool push config_init create add init
inner-RanksBelow = omega arith

-- Object 4, which the release of object 5 autoreleases, is released too.
inner_popped :
    (c : Config rt) × (pop rt 3 inner 200 ≡ done c)
    × (c.tail ≡ outer.tail)
    × (releases 4 c.history ≡ 1)
    × (releases 3 c.history ≡ 2)
unfolding pop pop_loop pop_one release_all release_and_free release_slots release_slot release
    autorelease_all map_decrement free_array autorelease_object add_object add_to_pool map_increment
    push config_init create add init
inner_popped = (_, refl, refl, refl, refl)

Reach-balance_example :
    (live 3 inner.tail + releases 3 inner.history ≡ autoreleases 3 inner.history)
    × Mapped rt 3 (live 3 inner.tail) inner.object_map
    × (heap_arrays inner.tail + frees inner.history ≡ creations inner.history)
Reach-balance_example = Reach-balance rt laws 3 (λ e. omega arith) refl inner-Reach

pop_lem_example :
    (c : Config rt) × (pop rt 8 inner 200 ≡ done c)
    × (c.tail ≡ behind 200 inner.tail)
    × AllBooks rt c
unfolding autorelease_object add_object add_to_pool push init add
pop_lem_example =
    pop_lem rt laws rank ranked 8 6 (omega arith) inner 200 inner-RanksBelow refl inner-AllBooks

finish_lem_example :
    (c : Config rt) × (finish rt 8 inner ≡ done c)
    × (c.tail ≡ [])
    × ((x : ObjectId)
        → x ≢ nil
        → (releases x c.history ≡ autoreleases x c.history)
          × (frees c.history ≡ creations c.history))
finish_lem_example =
    finish_lem rt laws rank ranked 8 6 (omega arith) inner inner-RanksBelow inner-AllBooks

dealloc-pop_example :
    dealloc rt 8 (λ gc. gc + 1) inner 5 100 ≡ checked_in rt 8 (λ gc. gc + 1) 5 (pop rt 8 inner 100)
dealloc-pop_example = dealloc-pop rt 8 (λ gc. gc + 1) 5 inner 100

-- Object 3 stands in the first slot of the inner pool, and object 5 behind it.
release_objects_lem_example :
    (slot_in 0 0 (storage_of 1 (release_objects rt (3 ∷ []) inner).tail) ≡ nil)
    × AllBooks rt (release_objects rt (3 ∷ []) inner)
unfolding autorelease_object add_object add_to_pool map_increment push config_init create add init
release_objects_lem_example =
    release_objects_lem rt (3 ∷ []) laws inner 1 0 0 inner-AllBooks (omega arith)

-- ids at even places are objects to add, those at odd places belong to something else
abbrev strided : ℕ → ObjectId
strided i = if i % 2 == 0 then 3 else 8

autorelease_objects-Books_example : Books rt 3 0 0 (autorelease_objects rt inner (λ i. 3) 2000 1)
autorelease_objects-Books_example =
    autorelease_objects-Books rt laws 3 (λ i. 3) 2000 inner 1 (inl refl)
      (inner-AllBooks 3 (λ e. omega arith))

autorelease_objects_effect_example :
    let c' = autorelease_objects rt inner strided 2 2 in
    (live 3 c'.tail ≡ live 3 inner.tail + occurrences 3 2 (λ i. strided (i * 2)))
    × (Query.count rt c' ≡ Query.count rt inner)
    × Mapped rt 3 (live 3 inner.tail + occurrences 3 2 strided) c'.object_map
unfolding autorelease_object add_object add_to_pool map_increment push config_init create add init
autorelease_objects_effect_example =
    autorelease_objects_effect rt laws 3 strided 2 inner 2 (λ e. cc) refl (omega arith)

-- Two references to object 3 are added with a step of two ids, and the map counts one of them.
strided_miscounted :
    let c' = autorelease_objects rt inner strided 2 2 in
    (live 3 c'.tail ≡ 4) × (Query.count_object rt c' 3 ≡ 3) × (Query.count rt c' ≡ 3)
unfolding autorelease_objects add_objects add_objects_loop map_increments copy autorelease_object
    add_object add_to_pool map_increment push config_init create add init Query.count_object
    Query.count Query.count_loop Query.pool_count chain_count
strided_miscounted = (refl, refl, refl)

contains_object_iff_example : (Query.contains_object rt inner 5 ≡ true) ↔ (0 < live 5 inner.tail)
unfolding autorelease_object add_object add_to_pool map_increment push config_init create add init
contains_object_iff_example = contains_object_iff rt inner 5 (omega arith) refl

abbrev quiet : Runtime
quiet = record rt { dealloc = λ h x. [] }

-- a full array in front of an older one with a hole in it
abbrev chain : List Array
chain =
    record { used = 2; count = 2; objects = λ i. i + 10; is_static = false }
    ∷ record { used = 3; count = 2; objects = λ i. i; is_static = true }
    ∷ []

released_list-release_and_free_example :
    released_list (release_and_free quiet chain (config_init quiet none (cleared quiet))).history
    ≡ contents chain ++ released_list (config_init quiet none (cleared quiet)).history
released_list-release_and_free_example =
    released_list-release_and_free quiet (λ h y. refl) chain
      (config_init quiet none (cleared quiet))

contents-chain : contents chain ≡ 1 ∷ 2 ∷ 10 ∷ 11 ∷ []
contents-chain = refl

-- A callback that lists the object and asks to stop, and a printer that lists it
abbrev stop_at_once : List ObjectId → ObjectId → ℕ × List ObjectId
stop_at_once w x = (1, x ∷ w)

abbrev list_object : List ObjectId → ObjectId → List ObjectId
list_object w x = x ∷ w

-- The callback asked to stop at 10, and is called for 1 of the array before.
called_twice : walk_objects stop_at_once chain [] ≡ 1 ∷ 10 ∷ []
unfolding walk_objects walk_slots
called_twice = refl

walk_objects_lem_example :
    (walk_objects stop_at_once chain [] ≡ 1 ∷ 10 ∷ [])
    × (dump_objects list_object chain [] ≡ 2 ∷ 1 ∷ 11 ∷ 10 ∷ [])
walk_objects_lem_example =
    walk_objects_lem stop_at_once (λ x. true) (λ w x. refl) list_object chain []

abbrev universes : Universes rt
universes universeid = if universeid == 0 then some inner else none

pop_autorelease_pool-push_autorelease_pool_example :
    (c1 c' : Config rt) × ((push_autorelease_pool rt 300 0 universes).1 0 ≡ some c1)
    × (pop_autorelease_pool rt 8
          (push_autorelease_pool rt 300 0 universes).0
          (autorelease_each rt (5 ∷ 0 ∷ 3 ∷ []) c1)
        ≡ done c')
    × (c'.tail ≡ inner.tail)
    × AllBooks rt c'
    × ((x : ObjectId)
        → x ≢ nil
        → rt.is_constant x ≡ false
        → releases x inner.history + times rt x (5 ∷ 0 ∷ 3 ∷ []) ≤ releases x c'.history)
pop_autorelease_pool-push_autorelease_pool_example =
    pop_autorelease_pool-push_autorelease_pool rt laws rank ranked 8 6 (omega arith) universes inner
      300 0 (5 ∷ 0 ∷ 3 ∷ []) refl (λ e. omega (arith, e)) inner-RanksBelow (omega arith)
      inner-AllBooks
