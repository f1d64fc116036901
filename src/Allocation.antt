-- ===== src/Allocation.antt =====
-- src/function/MulleObjCAllocation.h: which allocator an object's memory comes from, memory for
-- instances and classes, making and freeing objects, and copying objects to an array.
pub mod Memory
pub mod Object
pub mod Copy
pub mod Agree
mod Examples
use mulle_obj_c.Base.{ℕ, Bool, ◌==◌, if◌then◌else◌}
use mulle_obj_c.Array.{ObjectId, nil}

-- The allocator that a thread makes instances with, 0 for none: `instance_allocator` of its
-- `struct _mulle_objc_threadfoundationinfo`
pub record Thread : Type 0 where
  pub instance_allocator : ℕ

-- mulle-objc-runtime: the class of an object, the allocator of a class, and the one in an
-- object's header. `embedded` says whether MULLE_OBJC_EMBEDDED_ALLOCATOR is defined.
pub record Allocators : Type 0 where
  pub embedded : Bool
  pub isa_of : ObjectId → ℕ
  pub allocator_of_class : (infra : ℕ) → ℕ
  pub allocator_in_header : ObjectId → ℕ

module _ (al : Allocators) where
  -- `MulleObjCInstanceGetAllocator`
  unfoldable pub instance_get_allocator : (obj : ObjectId) → ℕ
  instance_get_allocator obj =
      if obj == nil
      then 0
      else if al.embedded
      then al.allocator_in_header obj
      else al.allocator_of_class (al.isa_of obj)

  -- `MulleObjCClassGetAllocator`
  unfoldable pub class_get_allocator : Thread → (cls : ℕ) → ℕ
  class_get_allocator thread cls =
      if cls == 0
      then 0
      else if al.embedded
      then (if thread.instance_allocator == 0
          then al.allocator_of_class cls
          else thread.instance_allocator)
      else al.allocator_of_class cls

-- `MulleObjCThreadSetAllocator`
unfoldable pub thread_set_allocator : Thread → (allocator : ℕ) → Thread
thread_set_allocator thread allocator = record thread { instance_allocator = allocator }

-- `MulleObjCThreadGetAllocator`
unfoldable pub thread_get_allocator : Thread → ℕ
thread_get_allocator thread = thread.instance_allocator
