-- ===== src/Pool/Early/Emptied.antt =====
-- +mulleReleasePoolObjects:count: empties all slots with listed objects, in all pools.
use mulle_obj_c.Base.{
  ℕ, zero, suc, ◌≡◌, ◌≤◌, refl, Bool, true, false, ◌&&◌, List, [], ◌∷◌, arith, ◌==◌, if◌then◌else◌,
  Bool-cases, inl, inr, ==_iff, length,
}
use mulle_obj_c.Array.{ObjectId, nil, Array}
use mulle_obj_c.Pool.Runtime.{Runtime, MapLaws}
use mulle_obj_c.Pool.Ops.{Pool, Config}
use mulle_obj_c.Pool.Drain.{storage_of, release}
use mulle_obj_c.Pool.Induct.{autorelease_all-ind}
use mulle_obj_c.Pool.Pop.{AllBooks}
use mulle_obj_c.Pool.Early.{
  used_in, slot_in, punch_in, punch, is_listed, release_listed, release_listed_slots,
  release_listed_arrays, release_pool_objects, release_pools_objects, release_objects,
}
use mulle_obj_c.Pool.Early.Holes.{length-punch_in, length-punch, used_in-out_of_range}
use mulle_obj_c.Pool.Early.Balance.{All-unit, release_objects-Books}
use mulle_obj_c.Pool.Early.Slots.{Holds, slot-punch, autorelease_object-Holds}

used_in-punch_in : (j j' i : ℕ) (s : List Array) → used_in j (punch_in j' i s) ≡ used_in j s
used_in-punch_in j j' i [] = refl
used_in-punch_in j j' i (a ∷ previous) =
    ground (arith, used_in-punch_in j j' i previous, length-punch_in j' i previous)

used-punch_any :
    (d j d' j' i : ℕ) (t : List Pool)
    → used_in j (storage_of d (punch d' j' i t)) ≡ used_in j (storage_of d t)
used-punch_any d j d' j' i [] = refl
used-punch_any d j d' j' i (p ∷ owner) = ground (
  arith,
  used-punch_any d j d' j' i owner,
  used_in-punch_in j j' i p.storage,
  length-punch j' i d' owner,
)

used-no_pool : (d j : ℕ) (t : List Pool) → length t ≤ d → used_in j (storage_of d t) ≡ 0
used-no_pool d j [] h = refl
used-no_pool d j (p ∷ owner) h = ground (arith, used-no_pool d j owner)

module _ (rt : Runtime) (objects : List ObjectId) where
  -- What is left of an object in a slot
  abbrev pub left : ObjectId → ObjectId
  left v = if is_listed v objects then nil else v

  left-left : (v : ObjectId) → left (left v) ≡ left v
  left-left v = elim (Bool-cases (is_listed v objects)) [
    | inl e ↦ rw e (ground arith)
    | inr e ↦ rw e (rw e refl)
  ]

  -- A rule of induction for the loops
  module _ (P : List Pool → Type 0) where
    slots-ind :
        (d j : ℕ)
        → ((i : ℕ) (c : Config rt) → P c.tail → P (release_listed rt objects d j i c).tail)
        → (n : ℕ) (c : Config rt) → P c.tail
        → P (release_listed_slots rt objects d j n c).tail
    unfolding release_listed_slots
    slots-ind d j step zero c h = h
    slots-ind d j step (suc i) c h = slots-ind d j step i _ (step i c h)

    arrays-ind :
        (d : ℕ)
        → ((j i : ℕ) (c : Config rt) → P c.tail → P (release_listed rt objects d j i c).tail)
        → (n : ℕ) (c : Config rt) → P c.tail
        → P (release_listed_arrays rt objects d n c).tail
    unfolding release_listed_arrays
    arrays-ind d step zero c h = h
    arrays-ind d step (suc j) c h =
        arrays-ind d step j _ (slots-ind d j (step j) (used_in j (storage_of d c.tail)) c h)

    pools-ind :
        ((d j i : ℕ) (c : Config rt) → P c.tail → P (release_listed rt objects d j i c).tail)
        → (n : ℕ) (c : Config rt) → P c.tail
        → P (release_pools_objects rt objects n c).tail
    unfolding release_pools_objects release_pool_objects
    pools-ind step zero c h = h
    pools-ind step (suc d) c h = pools-ind step d _ (arrays-ind d (step d) _ c h)

  module _ (d j k : ℕ) (v : ObjectId) where
    abbrev here : (d' j' i : ℕ) → Bool
    here d' j' i = (d' == d) && ((j' == j) && (i == k))

    same : (d' j' i : ℕ) → here d' j' i ≡ true → (d' ≡ d) × ((j' ≡ j) × (i ≡ k))
    same d' j' i at = ground (arith, at)

    punched-Holds :
        (d' j' i : ℕ) (w : ObjectId) (c : Config rt)
        → Holds d j k w c.tail
        → Holds d j k (if here d' j' i then nil else w) (punch d' j' i c.tail)
    punched-Holds d' j' i w c h =
        (rw (used-punch_any d j d' j' i c.tail) h.0, rw (slot-punch d j k d' j' i c.tail, h.1) refl)

    -- One slot of the loops: it empties the slot `k` if it is that one and its object is listed.
    release_listed-Holds :
        (d' j' i : ℕ) (w : ObjectId) (c : Config rt)
        → Holds d j k w c.tail
        → Holds d j k
            (if here d' j' i then left w else w)
            (release_listed rt objects d' j' i c).tail
    unfolding release_listed release
    release_listed-Holds d' j' i w c h =
        let obj : ObjectId = slot_in j' i (storage_of d' c.tail) in
        elim (Bool-cases (is_listed obj objects)) [
          | inl e ↦ rw e (
              autorelease_all-ind rt (Holds d j k (if here d' j' i then left w else w))
                (λ _. Unit {0})
                (λ c p _ h.
                  autorelease_object-Holds d j k rt (if here d' j' i then left w else w) c p h)
                _ _ (All-unit _) (punched d' j' i e h))
          | inr e ↦ rw e (kept d' j' i e h)
        ]
      where
        punched :
            (d' j' i : ℕ)
            → is_listed (slot_in j' i (storage_of d' c.tail)) objects ≡ true
            → Holds d j k w c.tail
            → Holds d j k (if here d' j' i then left w else w) (punch d' j' i c.tail)
        punched d' j' i e h = elim (Bool-cases (here d' j' i)) [
          | inl at ↦
              let (dd, (jj, kk)) = same d' j' i at in
              let listed : is_listed w objects ≡ true = rw (dd, jj, kk, h.1) at e in
              rw (at, listed) (rw at at (punched-Holds d' j' i w c h))
          | inr off ↦ rw off (rw off at (punched-Holds d' j' i w c h))
        ]

        kept :
            (d' j' i : ℕ)
            → is_listed (slot_in j' i (storage_of d' c.tail)) objects ≡ false
            → Holds d j k w c.tail
            → Holds d j k (if here d' j' i then left w else w) c.tail
        kept d' j' i e h = elim (Bool-cases (here d' j' i)) [
          | inl at ↦
              let (dd, (jj, kk)) = same d' j' i at in
              let unlisted : is_listed w objects ≡ false = rw (dd, jj, kk, h.1) at e in
              rw (at, unlisted) h
          | inr off ↦ rw off h
        ]

    keeps :
        (d' j' i : ℕ) (c : Config rt)
        → Holds d j k (left v) c.tail
        → Holds d j k (left v) (release_listed rt objects d' j' i c).tail
    keeps d' j' i c h = elim (Bool-cases (here d' j' i)) [
      | inl at ↦
          let twice : Holds d j k (left (left v)) (release_listed rt objects d' j' i c).tail =
            rw at at (release_listed-Holds d' j' i (left v) c h) in
          rw (left-left v) at twice
      | inr off ↦ rw off at (release_listed-Holds d' j' i (left v) c h)
    ]

    elsewhere :
        (d' j' i : ℕ)
        → here d' j' i ≡ false
        → (c : Config rt) → Holds d j k v c.tail
        → Holds d j k v (release_listed rt objects d' j' i c).tail
    elsewhere d' j' i off c h = rw off at (release_listed-Holds d' j' i v c h)

    slots_here :
        (n : ℕ) (c : Config rt)
        → suc k ≤ n
        → Holds d j k v c.tail
        → Holds d j k (left v) (release_listed_slots rt objects d j n c).tail
    unfolding release_listed_slots
    slots_here zero c lt h = absurd (omega arith)
    slots_here (suc i) c lt h = elim (Bool-cases (i == k)) [
      | inl e ↦
          let at : here d j i ≡ true = ground (arith, e) in
          slots-ind (Holds d j k (left v)) d j (keeps d j) i _
            (rw at at (release_listed-Holds d j i v c h))
      | inr e ↦
          let off : here d j i ≡ false = ground (arith, e) in
          slots_here i _ (ground (arith, e, lt)) (elsewhere d j i off c h)
    ]

    arrays_here :
        (n : ℕ) (c : Config rt)
        → suc j ≤ n
        → Holds d j k v c.tail
        → Holds d j k (left v) (release_listed_arrays rt objects d n c).tail
    unfolding release_listed_arrays
    arrays_here zero c lt h = absurd (omega arith)
    arrays_here (suc j') c lt h = elim (Bool-cases (j' == j)) [
      | inl e ↦
          let done : Holds d j k (left v)
              (release_listed_slots rt objects d j' (used_in j' (storage_of d c.tail)) c).tail =
            rw ((==_iff j' j).0 e) (slots_here (used_in j (storage_of d c.tail)) c h.0 h) in
          arrays-ind (Holds d j k (left v)) d (keeps d) j' _ done
      | inr e ↦ arrays_here j' _ (ground (arith, e, lt)) (
          slots-ind (Holds d j k v) d j' (λ i. elsewhere d j' i (ground (arith, e)))
            (used_in j' (storage_of d c.tail)) c h)
    ]

    in_storage : (t : List Pool) → Holds d j k v t → suc j ≤ length (storage_of d t)
    in_storage t h = ground (arith, h.0, used_in-out_of_range j (storage_of d t))

    pools_here :
        (n : ℕ) (c : Config rt)
        → suc d ≤ n
        → Holds d j k v c.tail
        → Holds d j k (left v) (release_pools_objects rt objects n c).tail
    unfolding release_pools_objects release_pool_objects
    pools_here zero c lt h = absurd (omega arith)
    pools_here (suc d') c lt h = elim (Bool-cases (d' == d)) [
      | inl e ↦
          let done : Holds d j k (left v)
              (release_listed_arrays rt objects d' (length (storage_of d' c.tail)) c).tail =
            rw ((==_iff d' d).0 e)
              (arrays_here (length (storage_of d c.tail)) c (in_storage c.tail h) h) in
          pools-ind (Holds d j k (left v)) keeps d' _ done
      | inr e ↦ pools_here d' _ (ground (arith, e, lt)) (
          arrays-ind (Holds d j k v) d' (λ j' i. elsewhere d' j' i (ground (arith, e)))
            (length (storage_of d' c.tail)) c h)
    ]

  -- +mulleReleasePoolObjects:count: empties each slot in use, of any array and any pool, that held
  -- one of the listed objects, and leaves all other slots in use as they were, whatever the
  -- releases autorelease. The books of every object but nil still balance, if they did before and
  -- the map has its laws, so that each reference that was taken out of a slot has been released.
  pub release_objects_lem :
      MapLaws rt
      → (c : Config rt) (d j k : ℕ) → AllBooks rt c
      → suc k ≤ used_in j (storage_of d c.tail)
      → (slot_in j k (storage_of d (release_objects rt objects c).tail) ≡ (
          if is_listed (slot_in j k (storage_of d c.tail)) objects
          then nil
          else slot_in j k (storage_of d c.tail)))
        × AllBooks rt (release_objects rt objects c)
  unfolding release_objects
  release_objects_lem laws c d j k books used =
      let v : ObjectId = slot_in j k (storage_of d c.tail) in
      let there : suc d ≤ length c.tail = ground (arith, used, used-no_pool d j c.tail) in
      (
        (pools_here d j k v (length c.tail) c there (used, refl)).1,
        λ x named. release_objects-Books rt objects laws x named c (books x named),
      )
