-- ===== src/Pool/Early/Slots.antt =====
-- Taking objects out of the pools early empties the slots that held them, and no other slot.
use mulle_obj_c.Base.{
  ℕ, suc, ◌≡◌, ◌≤◌, ◌∙◌, ◌&&◌, List, [], ◌∷◌, arith, ◌==◌, if◌then◌else◌, Bool-cases, inl, inr,
  length,
}
use mulle_obj_c.Array.{ObjectId, nil, Array, can_add, create, init, add}
use mulle_obj_c.Pool.Runtime.{Runtime}
use mulle_obj_c.Pool.Ops.{Pool, Config, autorelease_object}
use mulle_obj_c.Pool.Drain.{storage_of}
use mulle_obj_c.Pool.Frame.{put, tail-autorelease_object}
use mulle_obj_c.Pool.Early.{used_in, slot_in, punch_in, punch}
use mulle_obj_c.Pool.Early.Holes.{
  length-punch_in, length-punch, used_in-out_of_range, used-autorelease_object,
}

-- The slot `k` of the array with `j` arrays behind it, in the pool with `d` owners
module _ (d j k : ℕ) where
  slot_in-punch_in :
      (j' i : ℕ) (s : List Array)
      → slot_in j k (punch_in j' i s) ≡ (if (j' == j) && (i == k) then nil else slot_in j k s)
  slot_in-punch_in j' i [] = ground arith
  slot_in-punch_in j' i (a ∷ previous) =
      ground (arith, slot_in-punch_in j' i previous, length-punch_in j' i previous)

  pub slot-punch :
      (d' j' i : ℕ) (t : List Pool)
      → slot_in j k (storage_of d (punch d' j' i t))
        ≡ (if (d' == d) && ((j' == j) && (i == k)) then nil else slot_in j k (storage_of d t))
  slot-punch d' j' i [] = ground arith
  slot-punch d' j' i (p ∷ owner) =
      ground (
        arith,
        slot-punch d' j' i owner,
        slot_in-punch_in j' i p.storage,
        length-punch j' i d' owner,
      )

  -- The slot is in use and holds `v`.
  abbrev pub Holds : ObjectId → List Pool → Type 0
  Holds v t = (suc k ≤ used_in j (storage_of d t)) × (slot_in j k (storage_of d t) ≡ v)

  slot_in-put :
      (rt : Runtime) (s : List Array) (p : ObjectId)
      → suc k ≤ used_in j s
      → slot_in j k (put rt s p) ≡ slot_in j k s
  unfolding create init add
  slot_in-put rt [] p h = absurd (omega arith)
  slot_in-put rt (a ∷ previous) p h = elim (Bool-cases (can_add (a ∷ previous))) [
    | inl room ↦ rw room (ground arith)
    | inr full ↦ rw full (ground (arith, used_in-out_of_range j (a ∷ previous)))
  ]

  module _ (rt : Runtime) (v : ObjectId) where
    slot_at :
        (t : List Pool) (c : Config rt) (p : ObjectId)
        → Holds v t
        → slot_in j k (storage_of d (autorelease_object rt (record c { tail = t }) p).tail) ≡ v
    slot_at [] c p h = absurd (omega (arith, h.0))
    slot_at (pool ∷ owner) c p h = elim (tail-autorelease_object rt pool owner c p) [
      | inl e ↦ rw e h.1
      | inr e ↦ rw e (elim (Bool-cases (length owner == d)) [
        | inl i ↦
            let used : suc k ≤ used_in j pool.storage = rw i at h.0 in
            let same : slot_in j k pool.storage ≡ v = rw i at h.1 in
            rw i (slot_in-put rt pool.storage p used ∙ same)
        | inr o ↦ rw o (rw o at h.1)
      ])
    ]

    -- Adding an object leaves the slots in use as they are.
    pub autorelease_object-Holds :
        (c : Config rt) (p : ObjectId) → Holds v c.tail → Holds v (autorelease_object rt c p).tail
    autorelease_object-Holds c p h =
        (used-autorelease_object rt j d (suc k) c p h.0, slot_at c.tail c p h)
