-- ===== src/Ownership/Ivar.antt =====
-- src/function/MulleObjCIvar.h: the functions on an instance variable that may be missing (NULL).
-- They give the call that they make of src/mulle-objc-atomicid.h, if any.
use mulle_obj_c.Base.{Option, none, some, List}
use mulle_obj_c.Array.{ObjectId}
use mulle_obj_c.Ownership.{
  assign_id, copy_id, retain_id, Request, get_request, update_request, release_request,
  lazy_request,
}

module _ {Ivar : Type 0} where
  -- `MulleObjCAtomicIdGet`
  unfoldable pub ivar_get : Option Ivar → Option Request
  ivar_get none = none
  ivar_get (some ivar) = some get_request

  -- `MulleObjCAtomicIdSet`
  unfoldable pub ivar_set : Option Ivar → (value : ObjectId) → Option Request
  ivar_set none value = none
  ivar_set (some ivar) value = some (update_request retain_id value)

  -- `MulleObjCAtomicIdSetRetain`
  unfoldable pub ivar_set_retain : Option Ivar → (value : ObjectId) → Option Request
  ivar_set_retain none value = none
  ivar_set_retain (some ivar) value = some (update_request retain_id value)

  -- `MulleObjCAtomicIdSetCopy`
  unfoldable pub ivar_set_copy : Option Ivar → (value : ObjectId) → Option Request
  ivar_set_copy none value = none
  ivar_set_copy (some ivar) value = some (update_request copy_id value)

  -- `MulleObjCAtomicIdSetAssign`
  unfoldable pub ivar_set_assign : Option Ivar → (value : ObjectId) → Option Request
  ivar_set_assign none value = none
  ivar_set_assign (some ivar) value = some (update_request assign_id value)

  -- `MulleObjCAtomicIdRelease`
  unfoldable pub ivar_release : Option Ivar → Option Request
  ivar_release none = none
  ivar_release (some ivar) = some release_request

  -- `MulleObjCAtomicIdGetLazy`
  unfoldable pub ivar_get_lazy : Option Ivar → (load : List ObjectId → ObjectId) → Option Request
  ivar_get_lazy none load = none
  ivar_get_lazy (some ivar) load = some (lazy_request retain_id load assign_id)

  -- `MulleObjCAtomicIdGetLazyRetain`
  unfoldable pub ivar_get_lazy_retain :
      Option Ivar → (load : List ObjectId → ObjectId) → Option Request
  ivar_get_lazy_retain ivar load = ivar_get_lazy ivar load

  -- `MulleObjCAtomicIdGetLazyCopy`
  unfoldable pub ivar_get_lazy_copy :
      Option Ivar → (load : List ObjectId → ObjectId) → Option Request
  ivar_get_lazy_copy none load = none
  ivar_get_lazy_copy (some ivar) load = some (lazy_request copy_id load assign_id)

  -- `MulleObjCAtomicIdGetLazyAssign`
  unfoldable pub ivar_get_lazy_assign :
      Option Ivar → (load : List ObjectId → ObjectId) → Option Request
  ivar_get_lazy_assign none load = none
  ivar_get_lazy_assign (some ivar) load = some (lazy_request assign_id load assign_id)
