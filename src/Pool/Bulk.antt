-- ===== src/Pool/Bulk.antt =====
-- `_autoreleaseObjects`: what it adds, what it counts, and what the object map makes of it.
pub mod Effect
use mathlib.Core.Path.{subst}
use mulle_obj_c.Base.{
  ℕ, zero, suc, ◌+◌, ◌-◌, ◌*◌, ◌%◌, ◌≡◌, ◌≢◌, ◌≤◌, ◌<◌, refl, sym, ap, Bool, true, false, Option,
  none, some, List, [], ◌∷◌, arith, ◌==◌, if◌then◌else◌, Bool-cases, inl, inr, ltb,
}
use mulle_obj_c.Array.{ObjectId, nil, word, n_objects, Array, space_left, create, init, copy}
use mulle_obj_c.Array.Slots.{counted, occurrences, occurrences_in, occurrences-copy}
use mulle_obj_c.Pool.Runtime.{Runtime, MapLaws, History, autoreleased, created}
use mulle_obj_c.Pool.Ops.{
  Pool, Config, fill_top, log_all, grow, log_growth, amount_for, add_objects_loop, add_objects,
  map_increment, map_increments, autorelease_objects,
}
use mulle_obj_c.Pool.Ledger.{
  live, heap_arrays, heap_arrays_in, Bounded, AllBounded, autoreleases, releases, creations, frees,
  Mapped, Books,
}

occurrences-shift :
    (x : ObjectId) (n k : ℕ) (o : ℕ → ObjectId)
    → occurrences x (n + k) o ≡ occurrences x n o + occurrences x k (λ i. o (n + i))
occurrences-shift x n zero o = let same : n + 0 ≡ n = omega arith in rw same (omega arith)
occurrences-shift x n (suc k) o =
    let next : n + suc k ≡ suc (n + k) = omega arith in
    rw next (omega (arith, occurrences-shift x n k o))

occurrences-first :
    (x : ObjectId) (n : ℕ) (o : ℕ → ObjectId)
    → occurrences x (suc n) o ≡ (if o 0 == x then 1 else 0) + occurrences x n (λ i. o (suc i))
occurrences-first x zero o = refl
occurrences-first x (suc n) o = omega (arith, occurrences-first x n o)

module _ (objects : ℕ → ObjectId) (h : History) where
  autoreleases-log_all :
      (x : ObjectId) (n : ℕ)
      → autoreleases x (log_all objects n h) ≡ occurrences x n objects + autoreleases x h
  autoreleases-log_all x zero = omega arith
  autoreleases-log_all x (suc n) = omega (arith, autoreleases-log_all x n)

  releases-log_all : (x : ObjectId) (n : ℕ) → releases x (log_all objects n h) ≡ releases x h
  releases-log_all x zero = refl
  releases-log_all x (suc n) = releases-log_all x n

  creations-log_all : (n : ℕ) → creations (log_all objects n h) ≡ creations h
  creations-log_all zero = refl
  creations-log_all (suc n) = creations-log_all n

  frees-log_all : (n : ℕ) → frees (log_all objects n h) ≡ frees h
  frees-log_all zero = refl
  frees-log_all (suc n) = frees-log_all n

-- What a run of the loop makes of a pool and the history.
pub record Added (x : ObjectId) (n : ℕ) (objects : ℕ → ObjectId) (s s' : List Array)
    (h h' : History) : Type 0 where
  pub holds : occurrences_in x s' ≡ occurrences x n objects + occurrences_in x s
  pub counts : counted s' ≡ counted s
  pub arrays : heap_arrays_in s' + creations h ≡ heap_arrays_in s + creations h'
  pub bounded : Bounded s → Bounded s'
  pub logged : autoreleases x h' ≡ occurrences x n objects + autoreleases x h
  pub no_release : releases x h' ≡ releases x h
  pub no_free : frees h' ≡ frees h

module _ (x : ObjectId) (objects : ℕ → ObjectId) (n : ℕ) (h : History) where
  fill-Added :
      (a : Array) (previous : List Array)
      → a.used + n ≤ n_objects
      → Added x n objects (a ∷ previous) (fill_top (a ∷ previous) objects n) h (log_all objects n h)
  fill-Added a previous room =
      let used : (a.used + n) % word ≡ a.used + n = omega arith in
      record {
        holds = rw used (omega (arith, occurrences-copy x a.objects a.used objects n));
        counts = refl;
        arrays = omega (arith, creations-log_all objects h n);
        bounded = λ b. (omega arith, b.1);
        logged = autoreleases-log_all objects h x n;
        no_release = releases-log_all objects h x n;
        no_free = frees-log_all objects h n;
      }

module _ (rt : Runtime) (x : ObjectId) where
  create-Added :
      (s : List Array) (h : History) (n : ℕ) (objects : ℕ → ObjectId)
      → n ≤ n_objects
      → Added x n objects s
          (fill_top (create rt.memory s) objects n)
          h
          (log_all objects n (created ∷ h))
  unfolding create init
  create-Added s h n objects room =
      let a : Array = record { used = 0; count = 0; objects = rt.memory; is_static = false } in
      let r = fill-Added x objects n (created ∷ h) a s (omega arith) in
      record {
        holds = omega (arith, r.holds);
        counts = omega (arith, r.counts);
        arrays = omega (arith, r.arrays);
        bounded = λ b. r.bounded (omega arith, b);
        logged = r.logged;
        no_release = r.no_release;
        no_free = r.no_free;
      }

  -- One round of the loop.
  fill_top-Added :
      (s : List Array) (h : History) (count : ℕ) (objects : ℕ → ObjectId)
      → let n = amount_for rt s count in
        Added x n objects s
          (fill_top (grow rt s) objects n)
          h
          (log_all objects n (log_growth rt s h))
  fill_top-Added [] h count objects = create-Added [] h _ objects (ground arith)
  fill_top-Added (a ∷ previous) h count objects = elim (Bool-cases (n_objects - a.used == 0)) [
    | inl full ↦ rw full (create-Added (a ∷ previous) h _ objects (ground arith))
    | inr room ↦ rw room (fill-Added x objects _ h a previous (ground arith))
  ]

  amount_for_bounds :
      (s : List Array) (count : ℕ)
      → count ≢ 0
      → (0 < amount_for rt s count) × (amount_for rt s count ≤ count)
  amount_for_bounds s count h = ground arith

  Added-none : (objects : ℕ → ObjectId) (s : List Array) (h : History) → Added x 0 objects s s h h
  Added-none objects s h = record {
    holds = omega arith;
    counts = refl;
    arrays = refl;
    bounded = λ b. b;
    logged = omega arith;
    no_release = refl;
    no_free = refl;
  }

  Added-trans :
      {s s' s'' : List Array} {h h' h'' : History} (objects : ℕ → ObjectId) (n k : ℕ)
      → Added x n objects s s' h h'
      → Added x k (λ i. objects (n + i)) s' s'' h' h''
      → Added x (n + k) objects s s'' h h''
  Added-trans objects n k a b =
      let split = occurrences-shift x n k objects in
      record {
        holds = omega (arith, split, a.holds, b.holds);
        counts = omega (arith, a.counts, b.counts);
        arrays = omega (arith, a.arrays, b.arrays);
        bounded = λ c. b.bounded (a.bounded c);
        logged = omega (arith, split, a.logged, b.logged);
        no_release = omega (arith, a.no_release, b.no_release);
        no_free = omega (arith, a.no_free, b.no_free);
      }

  -- The loop adds all the objects, in `count` rounds at most.
  pub add_objects_loop-Added :
      (fuel : ℕ) (objects : ℕ → ObjectId) (count : ℕ) (pool : Pool) (h : History)
      → count ≤ fuel
      → let (pool', h') = add_objects_loop rt fuel objects count pool h in
        Added x count objects pool.storage pool'.storage h h' × (pool'.adr ≡ pool.adr)
  unfolding add_objects_loop
  add_objects_loop-Added zero objects count pool h le =
      let none_left : count ≡ 0 = omega arith in
      rw none_left (Added-none objects pool.storage h, refl)
  add_objects_loop-Added (suc fuel) objects count pool h le = elim (Bool-cases (count == 0)) [
    | inl e ↦
        let none_left : count ≡ 0 = ground arith in
        rw (add_objects_loop, e)
          (
            subst (λ n. Added x n objects pool.storage pool.storage h h) (sym none_left)
                (Added-none objects pool.storage h),
            refl,
          )
    | inr e ↦
        let n : ℕ = amount_for rt pool.storage count in
        let (some_go, fits) = amount_for_bounds pool.storage count (ground arith) in
        let pool' : Pool = record pool { storage = fill_top (grow rt pool.storage) objects n } in
        let h' : History = log_all objects n (log_growth rt pool.storage h) in
        let out = add_objects_loop rt fuel (λ i. objects (n + i)) (count - n) pool' h' in
        let (rest, adr) =
          add_objects_loop-Added fuel (λ i. objects (n + i)) (count - n) pool' h' (omega arith) in
        let all : n + (count - n) ≡ count = omega arith in
        rw (add_objects_loop, e)
          (
            subst (λ k. Added x k objects pool.storage out.0.storage h out.1) all
                (Added-trans objects n (count - n) (fill_top-Added pool.storage h count objects)
                  rest),
            adr,
          )
  ]

  -- The map counts the ids that stand next to one another.
  pub get-map_increments :
      (laws : MapLaws rt) (objects : ℕ → ObjectId) (count n : ℕ) (m : rt.Map)
      → rt.get m x ≡ n % word
      → rt.get (map_increments rt objects count m) x ≡ (n + occurrences x count objects) % word
  unfolding map_increments map_increment
  get-map_increments laws objects zero n m h = omega arith
  get-map_increments laws objects (suc k) n m h =
      let m' = rt.set m (objects 0) ((rt.get m (objects 0) + 1) % word) in
      let here : ℕ = if objects 0 == x then 1 else 0 in
      let one : rt.get m' x ≡ (n + here) % word = rw laws.get-set (ground arith) in
      omega (
        arith,
        get-map_increments laws (λ i. objects (suc i)) k (n + here) m' one,
        occurrences-first x k objects,
      )
