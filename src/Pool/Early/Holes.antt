-- ===== src/Pool/Early/Holes.antt =====
-- What a hole in a pool changes, and what it leaves alone.
use mulle_obj_c.Base.{
  ℕ, zero, suc, ◌+◌, ◌≡◌, ◌≢◌, ◌≤◌, ◌<◌, refl, List, [], ◌∷◌, arith, ◌==◌, if◌then◌else◌,
  Bool-cases, inl, inr, ==_iff, length, update,
}
use mulle_obj_c.Array.{ObjectId, nil, Array, can_add, create, init, add}
use mulle_obj_c.Array.Slots.{occurrences, occurrences_in, occurrences-update}
use mulle_obj_c.Pool.Runtime.{Runtime}
use mulle_obj_c.Pool.Ops.{Pool, Config, autorelease_object}
use mulle_obj_c.Pool.Drain.{storage_of}
use mulle_obj_c.Pool.Ledger.{live, heap_arrays, heap_arrays_in, Bounded, AllBounded}
use mulle_obj_c.Pool.Frame.{put, tail-autorelease_object, tail-autorelease_object_nil}
use mulle_obj_c.Pool.Early.{used_in, slot_in, punch_in, punch}

module _ (x : ObjectId) (named : x ≢ nil) where
  occurrences-punch :
      (n : ℕ) (o : ℕ → ObjectId) (i : ℕ)
      → i < n
      → occurrences x n (update o i nil) + (if o i == x then 1 else 0) ≡ occurrences x n o
  occurrences-punch zero o i lt = absurd (omega arith)
  occurrences-punch (suc n) o i lt = elim (Bool-cases (i == n)) [
    | inl e ↦
        let same : i ≡ n = (==_iff i n).0 e in
        rw (same) (ground (arith, occurrences-update x n o n nil))
    | inr e ↦ ground (arith, occurrences-punch n o i)
  ]

  occurrences_in-punch :
      (j i : ℕ) (s : List Array)
      → i < used_in j s
      → occurrences_in x (punch_in j i s) + (if slot_in j i s == x then 1 else 0)
        ≡ occurrences_in x s
  occurrences_in-punch j i [] lt = absurd (omega arith)
  occurrences_in-punch j i (a ∷ previous) lt = elim (Bool-cases (length previous == j)) [
    | inl e ↦ rw e (omega (arith, occurrences-punch a.used a.objects i (rw e at lt)))
    | inr e ↦ rw e (omega (arith, occurrences_in-punch j i previous (rw e at lt)))
  ]

  -- A hole takes away the reference that the slot held, and no other.
  pub live-punch :
      (d j i : ℕ) (t : List Pool)
      → i < used_in j (storage_of d t)
      → live x (punch d j i t) + (if slot_in j i (storage_of d t) == x then 1 else 0) ≡ live x t
  live-punch d j i [] lt = absurd (omega arith)
  live-punch d j i (p ∷ owner) lt = elim (Bool-cases (length owner == d)) [
    | inl e ↦ rw e (omega (arith, occurrences_in-punch j i p.storage (rw e at lt)))
    | inr e ↦ rw e (omega (arith, live-punch d j i owner (rw e at lt)))
  ]

module _ (j i : ℕ) where
  pub length-punch_in : (s : List Array) → length (punch_in j i s) ≡ length s
  length-punch_in [] = refl
  length-punch_in (a ∷ previous) = ground (arith, length-punch_in previous)

  heap_arrays_in-punch : (s : List Array) → heap_arrays_in (punch_in j i s) ≡ heap_arrays_in s
  heap_arrays_in-punch [] = refl
  heap_arrays_in-punch (a ∷ previous) = ground (arith, heap_arrays_in-punch previous)

  Bounded-punch : (s : List Array) → Bounded s → Bounded (punch_in j i s)
  Bounded-punch [] b = tt
  Bounded-punch (a ∷ previous) b = elim (Bool-cases (length previous == j)) [
    | inl e ↦ rw e b
    | inr e ↦ rw e (b.0, Bounded-punch previous b.1)
  ]

  used_in-punch : (s : List Array) → used_in j (punch_in j i s) ≡ used_in j s
  used_in-punch [] = refl
  used_in-punch (a ∷ previous) = elim (Bool-cases (length previous == j)) [
    | inl e ↦ rw (e, e) refl
    | inr e ↦ rw (e, length-punch_in previous, e) (used_in-punch previous)
  ]

  module _ (d : ℕ) where
    pub length-punch : (t : List Pool) → length (punch d j i t) ≡ length t
    length-punch [] = refl
    length-punch (p ∷ owner) = ground (arith, length-punch owner)

    pub heap_arrays-punch : (t : List Pool) → heap_arrays (punch d j i t) ≡ heap_arrays t
    heap_arrays-punch [] = refl
    heap_arrays-punch (p ∷ owner) =
        ground (arith, heap_arrays_in-punch p.storage, heap_arrays-punch owner)

    pub AllBounded-punch : (t : List Pool) → AllBounded t → AllBounded (punch d j i t)
    AllBounded-punch [] b = tt
    AllBounded-punch (p ∷ owner) b = elim (Bool-cases (length owner == d)) [
      | inl e ↦ rw e (Bounded-punch p.storage b.0, b.1)
      | inr e ↦ rw e (b.0, AllBounded-punch owner b.1)
    ]

    -- A hole leaves the arrays as long as they were.
    pub used-punch :
        (t : List Pool) → used_in j (storage_of d (punch d j i t)) ≡ used_in j (storage_of d t)
    used-punch [] = refl
    used-punch (p ∷ owner) = elim (Bool-cases (length owner == d)) [
      | inl e ↦ rw (e, e) (used_in-punch p.storage)
      | inr e ↦ rw (e, length-punch owner, e) (used-punch owner)
    ]

pub used_in-out_of_range : (j : ℕ) (s : List Array) → length s ≤ j → used_in j s ≡ 0
used_in-out_of_range j [] h = refl
used_in-out_of_range j (a ∷ previous) h = ground (arith, used_in-out_of_range j previous)

module _ (rt : Runtime) (j : ℕ) where
  used_in-put : (s : List Array) (p : ObjectId) → used_in j s ≤ used_in j (put rt s p)
  unfolding create init add
  used_in-put [] p = omega arith
  used_in-put (a ∷ previous) p = elim (Bool-cases (can_add (a ∷ previous))) [
    | inl room ↦ rw room (ground arith)
    | inr full ↦ rw full (ground (arith, used_in-out_of_range j (a ∷ previous)))
  ]

  module _ (d n : ℕ) where
    used_at :
        (t : List Pool) (c : Config rt) (p : ObjectId)
        → n ≤ used_in j (storage_of d t)
        → n ≤ used_in j (storage_of d (autorelease_object rt (record c { tail = t }) p).tail)
    used_at [] c p h = rw (tail-autorelease_object_nil rt c p) h
    used_at (pool ∷ owner) c p h = elim (tail-autorelease_object rt pool owner c p) [
      | inl e ↦ rw e h
      | inr e ↦ rw e (elim (Bool-cases (length owner == d)) [
        | inl i ↦ rw i (omega (arith, used_in-put pool.storage p, (rw i at h)))
        | inr o ↦ rw o (rw o at h)
      ])
    ]

    -- An array never gets shorter while objects are added.
    pub used-autorelease_object :
        (c : Config rt) (p : ObjectId)
        → n ≤ used_in j (storage_of d c.tail)
        → n ≤ used_in j (storage_of d (autorelease_object rt c p).tail)
    used-autorelease_object c p h = used_at c.tail c p h
