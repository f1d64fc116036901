-- ===== src/Allocation/Memory.antt =====
-- src/function/MulleObjCAllocation.h: memory for instances and for class methods. A pointer is a
-- number, and NULL is 0.
use mulle_obj_c.Base.{ℕ, ◌==◌, if◌then◌else◌}
use mulle_obj_c.Array.{ObjectId}
use mulle_obj_c.Allocation.{Thread, Allocators, instance_get_allocator, class_get_allocator}

-- mulle-allocator: `_mulle_allocator_malloc`, `_realloc`, `_calloc`, `_strdup` and `_free`
pub record MulleAllocator : Type 1 where
  pub Heap : Type 0
  pub malloc : Heap → (allocator size : ℕ) → ℕ × Heap
  pub realloc : Heap → (allocator p size : ℕ) → ℕ × Heap
  pub calloc : Heap → (allocator n size : ℕ) → ℕ × Heap
  pub strdup : Heap → (allocator s : ℕ) → ℕ × Heap
  pub free : Heap → (allocator p : ℕ) → Heap

module _ (al : Allocators) (ma : MulleAllocator) where
  -- `MulleObjCInstanceAllocateNonZeroedMemory`
  unfoldable pub instance_allocate_non_zeroed_memory :
      ma.Heap → (self : ObjectId) → (size : ℕ) → ℕ × ma.Heap
  instance_allocate_non_zeroed_memory h self size =
      ma.malloc h (instance_get_allocator al self) size

  -- `MulleObjCInstanceReallocateNonZeroedMemory`
  unfoldable pub instance_reallocate_non_zeroed_memory :
      ma.Heap → (self : ObjectId) → (p size : ℕ) → ℕ × ma.Heap
  instance_reallocate_non_zeroed_memory h self p size =
      ma.realloc h (instance_get_allocator al self) p size

  -- `MulleObjCInstanceAllocateMemory`
  unfoldable pub instance_allocate_memory : ma.Heap → (self : ObjectId) → (size : ℕ) → ℕ × ma.Heap
  instance_allocate_memory h self size = ma.calloc h (instance_get_allocator al self) 1 size

  -- `MulleObjCInstanceDuplicateUTF8String`
  unfoldable pub instance_duplicate_utf8_string :
      ma.Heap → (self : ObjectId) → (s : ℕ) → ℕ × ma.Heap
  instance_duplicate_utf8_string h self s = ma.strdup h (instance_get_allocator al self) s

  -- `MulleObjCInstanceDeallocateMemory`
  unfoldable pub instance_deallocate_memory : ma.Heap → (self : ObjectId) → (p : ℕ) → ma.Heap
  instance_deallocate_memory h self p =
      if p == 0 then h else ma.free h (instance_get_allocator al self) p

  -- `MulleObjCClassAllocateNonZeroedMemory`
  unfoldable pub class_allocate_non_zeroed_memory : Thread → ma.Heap → (cls size : ℕ) → ℕ × ma.Heap
  class_allocate_non_zeroed_memory thread h cls size =
      ma.malloc h (class_get_allocator al thread cls) size

  -- `MulleObjCClassReallocateNonZeroedMemory`
  unfoldable pub class_reallocate_non_zeroed_memory :
      Thread → ma.Heap → (cls p size : ℕ) → ℕ × ma.Heap
  class_reallocate_non_zeroed_memory thread h cls p size =
      ma.realloc h (class_get_allocator al thread cls) p size

  -- `MulleObjCClassAllocateMemory`
  unfoldable pub class_allocate_memory : Thread → ma.Heap → (cls size : ℕ) → ℕ × ma.Heap
  class_allocate_memory thread h cls size = ma.calloc h (class_get_allocator al thread cls) 1 size

  -- `MulleObjCClassDuplicateUTF8String`
  unfoldable pub class_duplicate_utf8_string : Thread → ma.Heap → (cls s : ℕ) → ℕ × ma.Heap
  class_duplicate_utf8_string thread h cls s = ma.strdup h (class_get_allocator al thread cls) s

  -- `MulleObjCClassDeallocateMemory`
  unfoldable pub class_deallocate_memory : Thread → ma.Heap → (cls p : ℕ) → ma.Heap
  class_deallocate_memory thread h cls p =
      if p == 0 then h else ma.free h (class_get_allocator al thread cls) p
