-- ===== src/Allocation/Object.antt =====
-- src/function/MulleObjCAllocation.h: making objects, freeing them and counting their references.
use mulle_obj_c.Base.{ℕ, ◌-◌, Bool, false, ◌==◌, if◌then◌else◌}
use mulle_obj_c.Array.{ObjectId, nil}
use mulle_obj_c.Allocation.{Thread, Allocators, class_get_allocator}

-- mulle-objc-runtime, and `_MulleObjCInstanceFree` of src/function/MulleObjCAllocation.m
pub record ObjectRuntime : Type 1 where
  pub World : Type 0
  pub alloc_instance_extra : World → (infra extra allocator : ℕ) → ObjectId × World
  pub alloc_instance_extra_nonzeroed : World → (infra extra allocator : ℕ) → ObjectId × World
  pub instance_free : World → ObjectId → World
  pub allocationsize_of : (infra : ℕ) → ℕ
  pub headerextrasize_of : (infra : ℕ) → ℕ
  pub size_of_objectheader : ℕ
  pub alloc_get_objectheader : (bytes headerextrasize : ℕ) → ℕ
  pub objectheader_init : World → (header cls headerextrasize : ℕ) → (is_zeroed : Bool) → World
  pub objectheader_get_object : (header : ℕ) → ObjectId
  pub memset : World → (p value length : ℕ) → World
  pub increment_retaincount : World → ObjectId → World
  pub decrement_retaincount_waszero : World → ObjectId → ℕ × World
  pub get_retaincount : World → ObjectId → ℕ
  pub retain_inline : World → ObjectId → World
  pub release_inline : World → ObjectId → World

module _ (al : Allocators) (rt : ObjectRuntime) where
  -- `_MulleObjCClassAllocateInstance`
  unfoldable pub class_allocate_instance :
      Thread → rt.World → (infra_cls extra : ℕ) → ObjectId × rt.World
  class_allocate_instance thread w infra_cls extra =
      rt.alloc_instance_extra w infra_cls extra (class_get_allocator al thread infra_cls)

  -- `_MulleObjCClassAllocateNonZeroedObject`
  unfoldable pub class_allocate_non_zeroed_object :
      Thread → rt.World → (infra_cls extra : ℕ) → ObjectId × rt.World
  class_allocate_non_zeroed_object thread w infra_cls extra =
      rt.alloc_instance_extra_nonzeroed w infra_cls extra (class_get_allocator al thread infra_cls)

  -- `NSAllocateObject`, which ignores its zone
  unfoldable pub allocate_object : Thread → rt.World → (infra extra zone : ℕ) → ObjectId × rt.World
  allocate_object thread w infra extra zone =
      if infra == 0 then (nil, w) else class_allocate_instance thread w infra extra

module _ (rt : ObjectRuntime) where
  -- `_MulleObjCClassAllocateInstanceWithAllocator`
  unfoldable pub class_allocate_instance_with_allocator :
      rt.World → (infra_cls extra allocator : ℕ) → ObjectId × rt.World
  class_allocate_instance_with_allocator w infra_cls extra allocator =
      rt.alloc_instance_extra w infra_cls extra allocator

  -- `_MulleObjCClassAllocateNonZeroedObjectWithAllocator`
  unfoldable pub class_allocate_non_zeroed_object_with_allocator :
      rt.World → (infra_cls extra allocator : ℕ) → ObjectId × rt.World
  class_allocate_non_zeroed_object_with_allocator w infra_cls extra allocator =
      rt.alloc_instance_extra_nonzeroed w infra_cls extra allocator

  -- `NSDeallocateObject`
  unfoldable pub deallocate_object : rt.World → (obj : ObjectId) → rt.World
  deallocate_object w obj = if obj == nil then w else rt.instance_free w obj

  -- `MulleObjCClassGetInstanceSize`
  unfoldable pub class_get_instance_size : (infra : ℕ) → ℕ
  class_get_instance_size infra = if infra == 0 then 0 else rt.allocationsize_of infra

  -- `MulleObjCClassConstructInstance`; `length` is at least the class's allocation size
  unfoldable pub class_construct_instance :
      rt.World → (infra bytes length : ℕ) → (is_zeroed : Bool) → ObjectId × rt.World
  class_construct_instance w infra bytes length is_zeroed =
      if infra == 0
      then (nil, w)
      else let extra : ℕ = rt.headerextrasize_of infra in
        let header : ℕ = rt.alloc_get_objectheader bytes extra in
        let w' : rt.World = rt.objectheader_init w header infra extra is_zeroed in
        let obj : ObjectId = rt.objectheader_get_object header in
        (
          obj,
          if is_zeroed then w' else rt.memset w' obj 0 (length - extra - rt.size_of_objectheader),
        )

  -- `NSIncrementExtraRefCount`
  unfoldable pub increment_extra_ref_count : rt.World → (obj : ObjectId) → rt.World
  increment_extra_ref_count w obj = rt.increment_retaincount w obj

  -- `NSDecrementExtraRefCountWasZero`
  unfoldable pub decrement_extra_ref_count_was_zero : rt.World → (obj : ObjectId) → ℕ × rt.World
  decrement_extra_ref_count_was_zero w obj =
      if obj == nil then (0, w) else rt.decrement_retaincount_waszero w obj

  -- `NSExtraRefCount`
  unfoldable pub extra_ref_count : rt.World → (obj : ObjectId) → ℕ
  extra_ref_count w obj = rt.get_retaincount w obj

  -- `NSShouldRetainWithZone`
  unfoldable pub should_retain_with_zone : (p : ObjectId) → (zone : ℕ) → Bool
  should_retain_with_zone p zone = false

  -- `_MulleObjCRetainObject`
  unfoldable pub retain_object : rt.World → (obj : ObjectId) → ObjectId × rt.World
  retain_object w obj = (obj, rt.retain_inline w obj)

  -- `_MulleObjCReleaseObject`
  unfoldable pub release_object : rt.World → (obj : ObjectId) → rt.World
  release_object w obj = rt.release_inline w obj
