-- ===== src/Ownership/Balance.antt =====
-- Every reference that the functions on an instance variable take is given up, is in the variable
-- or is in the hands of a call.
use mulle_obj_c.Base.{
  ◌+◌, ◌≡◌, ◌≢◌, refl, List, [], ◌∷◌, arith, All, All-split, All-join, total, total-append, hit,
  times,
}
use mulle_obj_c.Array.{ObjectId, nil}
use mulle_obj_c.Atomic.{AtomicPointer, AtomicPointerLaws}
use mulle_obj_c.Ownership.{
  Stage, Shared, Request, get_request, update_request, set_request, release_request, lazy_request,
  advance, thread, start_of, Reach, start, next,
}
use mulle_obj_c.Ownership.Moves.{IsOwning, held, value_of}
use mulle_obj_c.Ownership.Advance.{advance-Moves}

module _ (pointer : AtomicPointer) (laws : AtomicPointerLaws pointer)
    (copy_of : ObjectId → ObjectId) (y : ObjectId) (named : y ≢ nil) where
  entering_lem :
      (ivar : pointer.Pointer) (requests : List Request)
      → All IsOwning requests
      → All (λ (t : Request × Stage). IsOwning t.0) (start_of pointer copy_of ivar requests).1
        × (total (held y) (start_of pointer copy_of ivar requests).1 ≡ 0)
  entering_lem ivar [] h = (tt, refl)
  entering_lem ivar (get_request ∷ requests) (h, hs) =
      let rest = entering_lem ivar requests hs in ((tt, rest.0), omega (arith, rest.1))
  entering_lem ivar (update_request ivar_type value ∷ requests) (h, hs) =
      let rest = entering_lem ivar requests hs in ((h, rest.0), omega (arith, rest.1))
  entering_lem ivar (set_request ivar_type value ∷ requests) (h, hs) =
      let rest = entering_lem ivar requests hs in ((h, rest.0), omega (arith, rest.1))
  entering_lem ivar (release_request ∷ requests) (h, hs) =
      let rest = entering_lem ivar requests hs in ((tt, rest.0), omega (arith, rest.1))
  entering_lem ivar (lazy_request ivar_type load return_type ∷ requests) (h, hs) =
      let rest = entering_lem ivar requests hs in ((h, rest.0), omega (arith, rest.1))

  abbrev Balanced : pointer.Pointer → Shared pointer × List (Request × Stage) → Type 0
  Balanced ivar t =
      All (λ (t : Request × Stage). IsOwning t.0) t.1
      × (times y t.0.gained + hit (pointer.read ivar) y
          ≡ times y t.0.autoreleased
            + times y t.0.released
            + hit (value_of pointer laws copy_of y named t.0) y
            + total (held y) t.1)

  Reach-Balanced :
      {ivar : pointer.Pointer} {requests : List Request}
      {t : Shared pointer × List (Request × Stage)}
      → All IsOwning requests
      → Reach pointer copy_of ivar requests t
      → Balanced ivar t
  Reach-Balanced {ivar} {requests} owning start =
      let (all, none_held) = entering_lem ivar requests owning in (all, omega (arith, none_held))
  Reach-Balanced owning (next r (thread s before request stage after)) =
      let (all, books) = Reach-Balanced owning r in
      let t' : Shared pointer × Stage = advance pointer copy_of request s stage in
      let (left, (here, right)) =
        All-split (λ (t : Request × Stage). IsOwning t.0) before ((request, stage) ∷ after) all in
      (
        All-join (λ (t : Request × Stage). IsOwning t.0) before ((request, t'.1) ∷ after) left
            (here, right),
        omega (
          arith,
          books,
          advance-Moves pointer laws copy_of y named request s stage here,
          total-append (held y) before ((request, stage) ∷ after),
          total-append (held y) before ((request, t'.1) ∷ after),
        ),
      )

  -- However many threads get, set, load and release an instance variable in any order, the
  -- references to an object that they took by retaining, copying or loading, with the one in the
  -- variable at the start, are those that were autoreleased or released, the one in the variable,
  -- those that unfinished calls hold, and one for each call that found its value in place and
  -- returned without giving up the reference it took. No call sets the variable with _C_ASSIGN_ID,
  -- and the compare and swap has its two laws.
  pub Reach-references :
      {ivar : pointer.Pointer} {requests : List Request}
      {t : Shared pointer × List (Request × Stage)}
      → All IsOwning requests
      → Reach pointer copy_of ivar requests t
      → times y t.0.gained + hit (pointer.read ivar) y
        ≡ times y t.0.autoreleased
          + times y t.0.released
          + hit (value_of pointer laws copy_of y named t.0) y
          + total (held y) t.1
  Reach-references owning r = (Reach-Balanced owning r).1
