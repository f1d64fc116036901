-- ===== src/Transfer.antt =====
-- src/function/MulleObjCProperty.h: handing objects from one thread to another through an atomic
-- pointer.
pub mod Conserve
mod Examples
use mulle_obj_c.Base.{ℕ, Bool, List, [], ◌∷◌, ◌++◌, ◌≡◌, ◌≢◌, ◌||◌, ◌==◌, if◌then◌else◌}
use mulle_obj_c.Array.{ObjectId, nil}
use mulle_obj_c.Atomic.{AtomicPointer}

-- mulle-thread: `__mulle_atomic_pointer_cas`, which returns what the pointer had
pub record Exchange (ap : AtomicPointer) : Type 0 where
  pub cas_actual : ap.Pointer → (value expect : ℕ) → ℕ × ap.Pointer

pub record ExchangeLaws (ap : AtomicPointer) (ex : Exchange ap) : Type 0 where
  pub actual : (p : ap.Pointer) (value expect : ℕ) → (ex.cas_actual p value expect).0 ≡ ap.read p
  pub actual_expected :
      (p : ap.Pointer) (value expect : ℕ)
      → ap.read p ≡ expect
      → ap.read (ex.cas_actual p value expect).1 ≡ value
  pub actual_changed :
      (p : ap.Pointer) (value expect : ℕ)
      → ap.read p ≢ expect
      → ap.read (ex.cas_actual p value expect).1 ≡ ap.read p

-- Where a thread stands in one of the functions, with the object at hand
pub data Stage : Type 0 where
  entering : Stage
  swapping : (value : ObjectId) → Stage
  acquired : (value : ObjectId) → Stage
  storing : (obj : ObjectId) → Stage
  regaining : (obj : ObjectId) → Stage
  returned : (result : ℕ) → Stage

-- The pointer, and the objects to which `mulleGainAccess` and `mulleRelinquishAccess` were sent. A
-- message to nil is listed and does nothing.
pub record Shared (ap : AtomicPointer) : Type 0 where
  pub pointer : ap.Pointer
  pub gained : List ObjectId
  pub relinquished : List ObjectId

pub data Request : Type 0 where
  acquire_request : Request
  recycle_request : (obj : ObjectId) → Request

module _ (ap : AtomicPointer) (ex : Exchange ap) where
  -- `_MulleObjCAcquirePointerAtomically`, up to the next access to the pointer
  unfoldable pub acquire_pointer_atomically : ap.Pointer → Stage → ap.Pointer × Stage
  acquire_pointer_atomically p entering =
      let value : ObjectId = ap.read p in (p, if value == nil then acquired nil else swapping value)
  acquire_pointer_atomically p (swapping value) =
      let (actual, p') = ex.cas_actual p nil value in
      (p', if (actual == nil) || (actual == value) then acquired actual else swapping actual)
  acquire_pointer_atomically p stage = (p, stage)

  -- `_MulleObjCAcquireObjectAtomically`
  unfoldable pub acquire_object_atomically : Shared ap → Stage → Shared ap × Stage
  acquire_object_atomically s (acquired obj) = (record s { gained = obj ∷ s.gained }, returned obj)
  acquire_object_atomically s stage =
      let (p', stage') = acquire_pointer_atomically s.pointer stage in
      (record s { pointer = p' }, stage')

  -- `_MulleObjRecyclePointerAtomically`
  unfoldable pub recycle_pointer_atomically : ap.Pointer → (value : ObjectId) → Bool × ap.Pointer
  recycle_pointer_atomically p value = ap.cas p value nil

  -- `_MulleObjCRecycleObjectAtomically`, with YES as 1
  unfoldable pub recycle_object_atomically :
      (obj : ObjectId) → Shared ap → Stage → Shared ap × Stage
  recycle_object_atomically obj s entering =
      if obj == nil
      then (s, returned 1)
      else (record s { relinquished = obj ∷ s.relinquished }, storing obj)
  recycle_object_atomically argument s (storing obj) =
      let (rval, p') = recycle_pointer_atomically s.pointer obj in
      (record s { pointer = p' }, if rval then returned 1 else regaining obj)
  recycle_object_atomically argument s (regaining obj) =
      (record s { gained = obj ∷ s.gained }, returned 0)
  recycle_object_atomically argument s stage = (s, stage)

  unfoldable pub advance : Request → Shared ap → Stage → Shared ap × Stage
  advance acquire_request s stage = acquire_object_atomically s stage
  advance (recycle_request obj) s stage = recycle_object_atomically obj s stage

  -- The threads' calls on one pointer, interleaved in any order. New calls may come at any time.
  pub data Step
      : (Shared ap × List (Request × Stage)) → (Shared ap × List (Request × Stage)) → Type 0 where
    thread :
        (s : Shared ap) (before : List (Request × Stage)) (request : Request) (stage : Stage)
        → (after : List (Request × Stage))
        → Step
            (s, before ++ ((request, stage) ∷ after))
            (
              (advance request s stage).0,
              before ++ ((request, (advance request s stage).1) ∷ after),
            )
    begin :
        (s : Shared ap) (request : Request) (threads : List (Request × Stage))
        → Step (s, threads) (s, (request, entering) ∷ threads)

  abbrev pub start_of : ap.Pointer → Shared ap × List (Request × Stage)
  start_of p = (record { pointer = p; gained = []; relinquished = [] }, [])

  pub data Reach (p : ap.Pointer) : (Shared ap × List (Request × Stage)) → Type 0 where
    start : Reach p (start_of p)
    next : {t t' : Shared ap × List (Request × Stage)} → Reach p t → Step t t' → Reach p t'
