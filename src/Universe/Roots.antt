-- ===== src/Universe/Roots.antt =====
-- src/mulle-objc-universefoundationinfo.m: the root objects, from their addition to their release.
use mulle_obj_c.Base.{
  ℕ, ◌+◌, ◌-◌, true, false, Option, none, some, List, [], ◌∷◌, ◌==◌, ==_iff, if◌then◌else◌, times,
  ◌≡◌, update, refl, arith, ap, ◌∙◌, inl, inr, Bool-cases,
}
use mulle_obj_c.Array.{ObjectId, nil}
use mulle_obj_c.Threads.{PointerMap}
use mulle_obj_c.Universe.{
  PointerSet, PointerSetLaws, FoundationInfo, Universe, info_add_rootobject, info_remove_rootobject,
  info_set_threadobject, info_remove_threadobject, info_lookup_threadobject, release_each,
  info_release_rootobjects, lockedcall, lockedcall1, lockedcall2, lockedgetcall1, add_rootobject,
  remove_rootobject, release_rootobjects, set_threadobject_for_thread_id,
  lookup_threadobject_for_thread_id, remove_threadobject_for_thread_id,
}

-- The calls on the universe
pub data Request : Type 0 where
  add_root remove_root : (obj : ObjectId) → Request
  set_thread remove_thread : (thread_id : ℕ) → (obj : ObjectId) → Request
  lookup_thread : (thread_id : ℕ) → Request

-- Which objects are roots, 1 or 0, after calls
abbrev pub rooted : (before : ObjectId → ℕ) → List Request → ObjectId → ℕ
rooted before [] = before
rooted before (add_root obj ∷ rest) = rooted (update before obj 1) rest
rooted before (remove_root obj ∷ rest) = rooted (update before obj 0) rest
rooted before (set_thread thread_id obj ∷ rest) = rooted before rest
rooted before (remove_thread thread_id obj ∷ rest) = rooted before rest
rooted before (lookup_thread thread_id ∷ rest) = rooted before rest

-- No object is added as a root that is one already.
abbrev pub AddsOnce : (before : ObjectId → ℕ) → List Request → Type 0
AddsOnce before [] = Unit
AddsOnce before (add_root obj ∷ rest) = (before obj ≡ 0) × AddsOnce (update before obj 1) rest
AddsOnce before (remove_root obj ∷ rest) = AddsOnce (update before obj 0) rest
AddsOnce before (set_thread thread_id obj ∷ rest) = AddsOnce before rest
AddsOnce before (remove_thread thread_id obj ∷ rest) = AddsOnce before rest
AddsOnce before (lookup_thread thread_id ∷ rest) = AddsOnce before rest

module _ {ps : PointerSet} {mp : PointerMap} where
  abbrev pub answer : Request → Universe ps mp → Option (Universe ps mp)
  answer (add_root obj) u = add_rootobject u obj
  answer (remove_root obj) u = remove_rootobject u obj
  answer (set_thread thread_id obj) u = some (set_threadobject_for_thread_id u thread_id obj)
  answer (remove_thread thread_id obj) u = some (remove_threadobject_for_thread_id u thread_id obj)
  answer (lookup_thread thread_id) u = some (lookup_threadobject_for_thread_id u thread_id).1

  abbrev pub answer_all : List Request → Universe ps mp → Option (Universe ps mp)
  answer_all [] u = some u
  answer_all (request ∷ rest) u = elim (answer request u) [
    | none ↦ none
    | some u' ↦ answer_all rest u'
  ]

  -- The universe has just these roots, its lock is held so often, and so much was released.
  pub record Rooted (before : ObjectId → ℕ) (locks : ℕ) (released : List ObjectId)
      (u : Universe ps mp) : Type 0 where
    pub roots_are : (y : ObjectId) → times y (ps.elements u.info.roots) ≡ before y
    pub locks_are : u.locks ≡ locks
    pub released_are : u.released ≡ released

module _ (ps : PointerSet) (laws : PointerSetLaws ps) (mp : PointerMap) where
  info_add_rootobject-fresh :
      (info : FoundationInfo ps mp) (obj : ObjectId)
      → (ps.insert info.roots obj).0 ≡ false
      → info_add_rootobject info obj ≡ some (record info { roots = (ps.insert info.roots obj).1 })
  unfolding info_add_rootobject
  info_add_rootobject-fresh info obj h = rw (h) refl

  add_rootobject-Rooted :
      (before : ObjectId → ℕ) (locks : ℕ) (released : List ObjectId) (u : Universe ps mp)
      (obj : ObjectId)
      → Rooted before locks released u
      → before obj ≡ 0
      → (u' : Universe ps mp) × ((add_rootobject u obj ≡ some u')
          × Rooted (update before obj 1) locks released u')
  unfolding add_rootobject lockedcall1
  add_rootobject-Rooted before locks released u obj h free =
      let absent : (times obj (ps.elements u.info.roots) == 0) ≡ true =
        (==_iff _ _).1 (h.roots_are obj ∙ free) in
      let fresh = laws.insert-present u.info.roots obj in
      let not_there : (ps.insert u.info.roots obj).0 ≡ false = rw (fresh, absent) refl in
      let added : info_add_rootobject u.info obj
          ≡ some (record u.info { roots = (ps.insert u.info.roots obj).1 }) =
        info_add_rootobject-fresh u.info obj not_there in
      (
        record u {
          info = record u.info { roots = (ps.insert u.info.roots obj).1 };
          locks = u.locks + 1 - 1;
        },
        (
          ap
              (λ o. elim o [
                | none ↦ none
                | some info ↦ some (record u { info = info; locks = u.locks + 1 - 1 })
              ])
              added,
          record {
            roots_are = λ y.
                laws.insert-elements u.info.roots obj y
                ∙ ap (λ n. if obj == y then 1 else n) (h.roots_are y);
            locks_are = omega (arith, h.locks_are);
            released_are = h.released_are;
          },
        ),
      )

  remove_rootobject-Rooted :
      (before : ObjectId → ℕ) (locks : ℕ) (released : List ObjectId) (u : Universe ps mp)
      → (obj : ObjectId) → Rooted before locks released u
      → (u' : Universe ps mp) × ((remove_rootobject u obj ≡ some u')
          × Rooted (update before obj 0) locks released u')
  unfolding remove_rootobject lockedcall1 info_remove_rootobject
  remove_rootobject-Rooted before locks released u obj h = (
    record u {
      info = record u.info { roots = ps.remove u.info.roots obj };
      locks = u.locks + 1 - 1;
    },
    (
      refl,
      record {
        roots_are = λ y.
            laws.remove-elements u.info.roots obj y
            ∙ ap (λ n. if obj == y then 0 else n) (h.roots_are y);
        locks_are = omega (arith, h.locks_are);
        released_are = h.released_are;
      },
    ),
  )

  -- The calls for thread objects leave the roots alone.
  thread-Rooted :
      (before : ObjectId → ℕ) (locks : ℕ) (released : List ObjectId) (u : Universe ps mp)
      → (thread_id : ℕ) (obj : ObjectId) → Rooted before locks released u
      → Rooted before locks released (set_threadobject_for_thread_id u thread_id obj)
        × (Rooted before locks released (remove_threadobject_for_thread_id u thread_id obj)
            × Rooted before locks released (lookup_threadobject_for_thread_id u thread_id).1)
  unfolding set_threadobject_for_thread_id lockedcall2 info_set_threadobject
      remove_threadobject_for_thread_id info_remove_threadobject lookup_threadobject_for_thread_id
      lockedgetcall1 info_lookup_threadobject
  thread-Rooted before locks released u thread_id obj h = (
    record {
      roots_are = h.roots_are;
      locks_are = omega (arith, h.locks_are);
      released_are = h.released_are;
    },
    (
      record {
        roots_are = h.roots_are;
        locks_are = omega (arith, h.locks_are);
        released_are = h.released_are;
      },
      elim (Bool-cases (mp.get u.info.threads thread_id == nil)) [
        | inl missing ↦ rw (missing) (record {
          roots_are = h.roots_are;
          locks_are = omega (arith, h.locks_are);
          released_are = h.released_are;
        })
        | inr there ↦ rw (there) (record {
          roots_are = h.roots_are;
          locks_are = omega (arith, h.locks_are);
          released_are = h.released_are;
        })
      ],
    ),
  )

  -- Calls that add no root twice all return, and leave the roots that the calls say, the lock as
  -- often held as before, and nothing released.
  answer_all-Rooted :
      (requests : List Request) (before : ObjectId → ℕ) (locks : ℕ) (released : List ObjectId)
      → (u : Universe ps mp) → Rooted before locks released u
      → AddsOnce before requests
      → (u' : Universe ps mp) × ((answer_all requests u ≡ some u')
          × Rooted (rooted before requests) locks released u')
  answer_all-Rooted [] before locks released u h once = (u, (refl, h))
  answer_all-Rooted (add_root obj ∷ rest) before locks released u h once =
      let (u', (e, h')) = add_rootobject-Rooted before locks released u obj h once.0 in
      let (u'', (e', h'')) = answer_all-Rooted rest _ locks released u' h' once.1 in
      (u'', (ap (λ o. elim o [ none ↦ none | some v ↦ answer_all rest v ]) e ∙ e', h''))
  answer_all-Rooted (remove_root obj ∷ rest) before locks released u h once =
      let (u', (e, h')) = remove_rootobject-Rooted before locks released u obj h in
      let (u'', (e', h'')) = answer_all-Rooted rest _ locks released u' h' once in
      (u'', (ap (λ o. elim o [ none ↦ none | some v ↦ answer_all rest v ]) e ∙ e', h''))
  answer_all-Rooted (set_thread thread_id obj ∷ rest) before locks released u h once =
      answer_all-Rooted rest before locks released _
        (thread-Rooted before locks released u thread_id obj h).0 once
  answer_all-Rooted (remove_thread thread_id obj ∷ rest) before locks released u h once =
      answer_all-Rooted rest before locks released _
        (thread-Rooted before locks released u thread_id obj h).1.0 once
  answer_all-Rooted (lookup_thread thread_id ∷ rest) before locks released u h once =
      answer_all-Rooted rest before locks released _
        (thread-Rooted before locks released u thread_id nil h).1.1 once

  release_each_lem :
      (objs : List ObjectId) (u : Universe ps mp) (y : ObjectId)
      → (times y (release_each objs u).released ≡ times y objs + times y u.released)
        × ((release_each objs u).locks ≡ u.locks)
  unfolding release_each
  release_each_lem [] u y = (omega arith, refl)
  release_each_lem (obj ∷ objs) u y =
      let rest = release_each_lem objs (record u { released = obj ∷ u.released }) y in
      (omega (arith, rest), rest.1)

  -- Let a universe have no roots, nothing released and its lock free. Calls of its functions for root
  -- objects and thread objects, in any order, that add no root twice all return, and the release of
  -- the root objects after them releases each object once that was added last rather than removed,
  -- and no other, with the lock free in the end.
  pub release_rootobjects_lem :
      (requests : List Request) (u : Universe ps mp) (y : ObjectId)
      → Rooted (λ obj. 0) 0 [] u
      → AddsOnce (λ obj. 0) requests
      → (u' : Universe ps mp) × ((answer_all requests u ≡ some u')
          × ((times y (release_rootobjects u').released ≡ rooted (λ obj. 0) requests y)
              × ((release_rootobjects u').locks ≡ 0)))
  unfolding release_rootobjects lockedcall info_release_rootobjects
  release_rootobjects_lem requests u y h once =
      let (u', (e, h')) = answer_all-Rooted requests (λ obj. 0) 0 [] u h once in
      let each =
        release_each_lem (ps.elements u'.info.roots) (record u' { locks = u'.locks + 1 }) y in
      let empty : times y u'.released ≡ 0 = rw (h'.released_are) refl in
      (u', (e, (omega (arith, each, empty, h'.roots_are y), omega (arith, each, h'.locks_are))))
