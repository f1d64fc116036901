-- ===== src/Pool/Bulk/Effect.antt =====
-- `_autoreleaseObjects` against the books, and where it leaves them.
use mathlib.Core.Path.{subst}
use mulle_obj_c.Base.{
  ℕ, zero, suc, ◌+◌, ◌*◌, ◌≡◌, ◌≢◌, ◌<◌, ◌⊎◌, refl, ap, true, false, Option, none, some, List, [],
  ◌∷◌, arith, ◌==◌, Bool-cases, inl, inr,
}
use mulle_obj_c.Array.{ObjectId, uint}
use mulle_obj_c.Array.Slots.{occurrences}
use mulle_obj_c.Pool.Runtime.{Runtime, MapLaws, History}
use mulle_obj_c.Pool.Ops.{
  Pool, Config, with_map, add_objects_loop, add_objects, map_increments, autorelease_objects,
}
use mulle_obj_c.Pool.Ledger.{live, Mapped, Books}
use mulle_obj_c.Pool.Query
use mulle_obj_c.Pool.Query.Live.{counted_in, count_lem}
use mulle_obj_c.Pool.Bulk.{add_objects_loop-Added, get-map_increments}

occurrences-adjacent :
    (x : ObjectId) (n : ℕ) (o : ℕ → ObjectId) → occurrences x n (λ i. o (i * 1)) ≡ occurrences x n o
occurrences-adjacent x zero o = refl
occurrences-adjacent x (suc n) o =
    let same : o (n * 1) ≡ o n = ap o (omega arith) in
    rw same (omega (arith, occurrences-adjacent x n o))

module _ (rt : Runtime) (objects : ℕ → ObjectId) (count step : ℕ) (pool : Pool) (owner : List Pool)
    (c : Config rt) (some_given : count ≢ 0) where
  abbrev before : Config rt
  before = record c { tail = pool ∷ owner }

  abbrev out : Pool × History
  out = add_objects_loop rt count (λ i. objects (i * step)) count pool c.history

  -- the state after the call
  after_lem :
      autorelease_objects rt before objects count step
      ≡ record (with_map rt (map_increments rt objects count) c) {
        tail = out.0 ∷ owner;
        history = out.1;
      }
  unfolding autorelease_objects add_objects
  after_lem = let given : (count == 0) ≡ false = ground arith in rw given

module _ (rt : Runtime) (laws : MapLaws rt) (x : ObjectId) (objects : ℕ → ObjectId)
    (count : ℕ) where
  Mapped-increments :
      (m : Option rt.Map) (n : ℕ)
      → Mapped rt x n m
      → Mapped rt x
          (n + occurrences x count objects)
          (elim m [ none ↦ none | some m ↦ some (map_increments rt objects count m) ])
  Mapped-increments none n h = tt
  Mapped-increments (some m) n h = get-map_increments rt x laws objects count n m h

  none_given :
      (t : List Pool) (c : Config rt) (step : ℕ)
      → count ≡ 0
      → autorelease_objects rt (record c { tail = t }) objects count step ≡ record c { tail = t }
  unfolding autorelease_objects
  none_given t c step e = let zero : (count == 0) ≡ true = ground arith in rw zero

  none_there :
      (c : Config rt) (step : ℕ)
      → autorelease_objects rt (record c { tail = [] }) objects count step ≡ record c { tail = [] }
  unfolding autorelease_objects
  none_there c step = elim (Bool-cases (count == 0)) [ inl e ↦ rw e | inr e ↦ rw e ]

  -- The ids are adjacent, or there is no object map.
  abbrev pub Counts : Config rt → (step : ℕ) → Type 0
  Counts c step = (step ≡ 1) ⊎ (c.object_map ≡ none)

  spaced_at :
      (t : List Pool) (c : Config rt) (step : ℕ)
      → Counts c step
      → Books rt x 0 0 (record c { tail = t })
      → Books rt x 0 0 (autorelease_objects rt (record c { tail = t }) objects count step)
  spaced_at [] c step counts b = rw (none_there c step) b
  spaced_at (pool ∷ owner) c step counts b = elim (Bool-cases (count == 0)) [
    | inl e ↦ rw (none_given (pool ∷ owner) c step (ground arith)) b
    | inr e ↦
        let a =
          (add_objects_loop-Added rt x count (λ i. objects (i * step)) count pool c.history
            (omega arith)).0 in
        rw (after_lem rt objects count step pool owner c (ground arith)) (record {
          refs = omega (arith, b.refs, a.holds, a.logged, a.no_release);
          arrays = omega (arith, b.arrays, a.arrays, a.no_free);
          bounded = (a.bounded b.bounded.0, b.bounded.1);
          mapped = elim counts [
            | inl one ↦
                let same : occurrences x count (λ i. objects (i * step))
                    ≡ occurrences x count objects =
                  rw (one) (occurrences-adjacent x count objects) in
                subst
                  (λ n. Mapped rt x n (elim c.object_map [
                    | none ↦ none
                    | some m ↦ some (map_increments rt objects count m)
                  ]))
                  (omega (arith, a.holds, same))
                  (Mapped-increments c.object_map (live x (pool ∷ owner) + 0) b.mapped)
            | inr no_map ↦ rw (no_map) tt
          ];
        })
  ]

  -- `_autoreleaseObjects` of adjacent ids, or of any without an object map, keeps the books.
  pub autorelease_objects-Books :
      (c : Config rt) (step : ℕ)
      → Counts c step
      → Books rt x 0 0 c
      → Books rt x 0 0 (autorelease_objects rt c objects count step)
  autorelease_objects-Books c step counts b = spaced_at c.tail c step counts b

  effect_at :
      (t : List Pool) (c : Config rt) (step : ℕ)
      → t ≢ []
      → Mapped rt x (live x t) c.object_map
      → let c' = autorelease_objects rt (record c { tail = t }) objects count step in
        (live x c'.tail ≡ live x t + occurrences x count (λ i. objects (i * step)))
        × (counted_in c'.tail ≡ counted_in t)
        × Mapped rt x (live x t + occurrences x count objects) c'.object_map
  effect_at [] c step there m = absurd (there refl)
  effect_at (pool ∷ owner) c step there m = elim (Bool-cases (count == 0)) [
    | inl e ↦
        let zero : count ≡ 0 = ground arith in
        rw (none_given (pool ∷ owner) c step zero, zero)
          (omega arith, refl, subst (λ n. Mapped rt x n c.object_map) (omega arith) m)
    | inr e ↦
        let a =
          (add_objects_loop-Added rt x count (λ i. objects (i * step)) count pool c.history
            (omega arith)).0 in
        rw (after_lem rt objects count step pool owner c (ground arith)) (
          omega (arith, a.holds),
          omega (arith, a.counts),
          Mapped-increments c.object_map (live x (pool ∷ owner)) m,
        )
  ]

  -- With a pool in place, and fewer than 2^32 objects counted, `_autoreleaseObjects` adds to the
  -- pools the ids that stand `step` apart, adds to the object map the ids that stand next to one
  -- another, whatever the step, and leaves what +mulleCount answers as it was.
  pub autorelease_objects_effect :
      (c : Config rt) (step : ℕ)
      → c.tail ≢ []
      → Mapped rt x (live x c.tail) c.object_map
      → counted_in c.tail < uint
      → let c' = autorelease_objects rt c objects count step in
        (live x c'.tail ≡ live x c.tail + occurrences x count (λ i. objects (i * step)))
        × (Query.count rt c' ≡ Query.count rt c)
        × Mapped rt x (live x c.tail + occurrences x count objects) c'.object_map
  autorelease_objects_effect c step there m few =
      let (holds, counts, mapped) = effect_at c.tail c step there m in
      let c' = autorelease_objects rt c objects count step in
      let few' : counted_in c'.tail < uint = rw counts few in
      (holds, rw (count_lem rt c' few', count_lem rt c few) counts, mapped)
