-- ===== src/Ownership.antt =====
-- src/mulle-objc-atomicid.h, src/mulle-objc-atomicid.m, src/function/MulleObjCIvar.h and
-- MulleObjCIvar.m: instance variables with an object that several threads get, set, load and release.
pub mod Ivar
pub mod Moves
pub mod Advance
pub mod Balance
mod Examples
use mulle_obj_c.Base.{ℕ, Bool, List, [], ◌∷◌, ◌++◌, ◌==◌, if◌then◌else◌}
use mulle_obj_c.Array.{ObjectId, nil}
use mulle_obj_c.Atomic.{AtomicPointer}

-- `_C_ASSIGN_ID`, `_C_COPY_ID` and `_C_RETAIN_ID`
pub data IvarType : Type 0 where
  assign_id : IvarType
  copy_id : IvarType
  retain_id : IvarType

-- Where a thread stands in one of the functions: what it is about to do, with the objects that it
-- does it to. `unchanged` is the return from an update that found the value in place, `loading` is
-- before the call of a lazy loader, and `raised` is after an exception.
pub data Stage : Type 0 where
  entering : Stage
  reading : (value : ObjectId) → Stage
  swapping : (value old : ObjectId) → Stage
  autoreleasing : (old : ObjectId) → Stage
  releasing : (old : ObjectId) → Stage
  unchanged : (old : ObjectId) → Stage
  returned : (result : ObjectId) → Stage
  loading : Stage
  raised : Stage

-- The instance variable, and which objects were retained or copied, autoreleased and released
-- by the functions. A message to nil is listed and does nothing.
pub record Shared (ap : AtomicPointer) : Type 0 where
  pub ivar : ap.Pointer
  pub gained : List ObjectId
  pub autoreleased : List ObjectId
  pub released : List ObjectId

-- A call of a function of src/mulle-objc-atomicid.h, or of `_MulleObjCAtomicIdGetLazy` of
-- src/function/MulleObjCIvar.m
pub data Request : Type 0 where
  get_request : Request
  update_request : IvarType → (value : ObjectId) → Request
  set_request : IvarType → (value : ObjectId) → Request
  release_request : Request
  lazy_request : IvarType → (load : List ObjectId → ObjectId) → (return_type : IvarType) → Request

-- What -copy of an object returns is a parameter.
module _ (ap : AtomicPointer) (copy_of : ObjectId → ObjectId) where
  -- `_mulle_atomic_id_get`
  unfoldable pub atomic_id_get : Shared ap → Stage → Shared ap × Stage
  atomic_id_get s entering = (s, returned (ap.read s.ivar))
  atomic_id_get s stage = (s, stage)

  -- `_mulle_atomic_id_update`, up to the next access to what the threads share
  unfoldable pub atomic_id_update :
      (ivar_type : IvarType) → (value : ObjectId) → Shared ap → Stage → Shared ap × Stage
  atomic_id_update assign_id value s entering = (s, reading value)
  atomic_id_update copy_id value s entering =
      (record s { gained = copy_of value ∷ s.gained }, reading (copy_of value))
  atomic_id_update retain_id value s entering =
      (record s { gained = value ∷ s.gained }, reading value)
  atomic_id_update ivar_type argument s (reading value) =
      let old : ObjectId = ap.read s.ivar in
      (s, if old == value then unchanged old else swapping value old)
  atomic_id_update ivar_type argument s (swapping value old) =
      let (swapped, ivar') = ap.cas s.ivar value old in
      (record s { ivar = ivar' }, if swapped then swapped_out ivar_type old else reading value)
    where
      swapped_out : IvarType → ObjectId → Stage
      swapped_out assign_id old = returned old
      swapped_out _ old = autoreleasing old
  atomic_id_update ivar_type argument s (autoreleasing old) =
      (record s { autoreleased = old ∷ s.autoreleased }, returned old)
  atomic_id_update ivar_type argument s stage = (s, stage)

  -- `_mulle_atomic_id_set`, which ignores the result
  unfoldable pub atomic_id_set :
      (ivar_type : IvarType) → (value : ObjectId) → Shared ap → Stage → Shared ap × Stage
  atomic_id_set ivar_type value s stage = atomic_id_update ivar_type value s stage

  -- `_mulle_atomic_id_release`
  unfoldable pub atomic_id_release : Shared ap → Stage → Shared ap × Stage
  atomic_id_release s entering =
      let value : ObjectId = ap.read s.ivar in
      (s, if value == nil then returned nil else swapping nil value)
  atomic_id_release s (swapping new value) =
      let (swapped, ivar') = ap.cas s.ivar nil value in
      (record s { ivar = ivar' }, if swapped then releasing value else entering)
  atomic_id_release s (releasing value) = (record s { released = value ∷ s.released }, returned nil)
  atomic_id_release s stage = (s, stage)

  -- What becomes of the object that a lazy loader returned, and what the listed events are then.
  -- A loader that does not return `_C_ASSIGN_ID` returns a reference.
  unfoldable pub loaded :
      (ivar_type return_type : IvarType) → (value : ObjectId) → Shared ap → Shared ap × Stage
  loaded copy_id copy_id value s = (record s { gained = value ∷ s.gained }, swapping value nil)
  loaded retain_id retain_id value s = (record s { gained = value ∷ s.gained }, swapping value nil)
  loaded assign_id assign_id value s = (s, swapping value nil)
  loaded copy_id assign_id value s =
      (record s { gained = copy_of value ∷ s.gained }, swapping (copy_of value) nil)
  loaded retain_id assign_id value s = (record s { gained = value ∷ s.gained }, swapping value nil)
  loaded _ _ value s =
      (record s { gained = value ∷ s.gained; autoreleased = value ∷ s.autoreleased }, raised)

  -- `_MulleObjCAtomicIdGetLazy`. What the loader returns may depend on what happened before.
  unfoldable pub atomic_id_get_lazy :
      (ivar_type : IvarType)
      → (load : List ObjectId → ObjectId) → (return_type : IvarType) → Shared ap
      → Stage
      → Shared ap × Stage
  atomic_id_get_lazy ivar_type load return_type s entering =
      let value : ObjectId = ap.read s.ivar in (s, if value == nil then loading else returned value)
  atomic_id_get_lazy ivar_type load return_type s loading =
      let value : ObjectId = load s.gained in
      if value == nil then (s, returned nil) else loaded ivar_type return_type value s
  atomic_id_get_lazy ivar_type load return_type s (swapping value old) =
      let (swapped, ivar') = ap.cas s.ivar value nil in
      (record s { ivar = ivar' }, if swapped then returned value else swapped_in ivar_type value)
    where
      swapped_in : IvarType → ObjectId → Stage
      swapped_in assign_id value = entering
      swapped_in _ value = releasing value
  atomic_id_get_lazy ivar_type load return_type s (releasing value) =
      (record s { released = value ∷ s.released }, entering)
  atomic_id_get_lazy ivar_type load return_type s stage = (s, stage)

  unfoldable pub advance : Request → Shared ap → Stage → Shared ap × Stage
  advance get_request s stage = atomic_id_get s stage
  advance (update_request ivar_type value) s stage = atomic_id_update ivar_type value s stage
  advance (set_request ivar_type value) s stage = atomic_id_set ivar_type value s stage
  advance release_request s stage = atomic_id_release s stage
  advance (lazy_request ivar_type load return_type) s stage =
      atomic_id_get_lazy ivar_type load return_type s stage

  -- The threads' calls on one instance variable, interleaved in any order
  pub data Step
      : (Shared ap × List (Request × Stage)) → (Shared ap × List (Request × Stage)) → Type 0 where
    thread :
        (s : Shared ap) (before : List (Request × Stage)) (request : Request) (stage : Stage)
        → (after : List (Request × Stage))
        → Step
            (s, before ++ ((request, stage) ∷ after))
            (
              (advance request s stage).0,
              before ++ ((request, (advance request s stage).1) ∷ after),
            )

  abbrev pub start_of : ap.Pointer → List Request → Shared ap × List (Request × Stage)
  start_of ivar requests =
      (record { ivar = ivar; gained = []; autoreleased = []; released = [] }, all_entering requests)
    where
      all_entering : List Request → List (Request × Stage)
      all_entering [] = []
      all_entering (request ∷ requests) = (request, entering) ∷ all_entering requests

  pub data Reach (ivar : ap.Pointer) (requests : List Request)
      : (Shared ap × List (Request × Stage)) → Type 0 where
    start : Reach ivar requests (start_of ivar requests)
    next :
        {t t' : Shared ap × List (Request × Stage)}
        → Reach ivar requests t
        → Step t t'
        → Reach ivar requests t'
