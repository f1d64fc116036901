-- ===== src/Allocation/Agree.antt =====
-- The memory of an instance comes from the allocator of its class.
use mulle_obj_c.Base.{
  ℕ, ◌≡◌, ◌≢◌, refl, ap, true, false, ◌==◌, if◌then◌else◌, arith, Bool-cases, inl, inr,
}
use mulle_obj_c.Array.{ObjectId, nil}
use mulle_obj_c.Allocation.{
  Thread, Allocators, instance_get_allocator, class_get_allocator, thread_set_allocator,
  thread_get_allocator,
}
use mulle_obj_c.Allocation.Memory.{
  MulleAllocator, instance_allocate_non_zeroed_memory, instance_reallocate_non_zeroed_memory,
  instance_allocate_memory, instance_duplicate_utf8_string, instance_deallocate_memory,
  class_allocate_non_zeroed_memory, class_reallocate_non_zeroed_memory, class_allocate_memory,
  class_duplicate_utf8_string, class_deallocate_memory,
}
use mulle_obj_c.Allocation.Object.{
  ObjectRuntime, class_allocate_instance, class_allocate_instance_with_allocator, allocate_object,
}

-- The thread's allocator, and the class's if there is none
abbrev pub embedded_allocator : Allocators → Thread → (cls : ℕ) → ℕ
embedded_allocator al thread cls =
    if thread.instance_allocator == 0 then al.allocator_of_class cls else thread.instance_allocator

module _ (al : Allocators) where
  -- What the object is made with is what its memory comes from later.
  abbrev pub Made : Thread → ObjectId → Type 0
  Made thread obj =
      (obj ≢ nil)
      × (al.isa_of obj ≢ 0)
      × (al.embedded ≡ true
          → al.allocator_in_header obj ≡ embedded_allocator al thread (al.isa_of obj))

  instance_get_allocator-class_get_allocator :
      (thread : Thread) (obj : ObjectId)
      → Made thread obj
      → instance_get_allocator al obj ≡ class_get_allocator al thread (al.isa_of obj)
  unfolding instance_get_allocator class_get_allocator
  instance_get_allocator-class_get_allocator thread obj (named, isa, header) =
      let there : (obj == nil) ≡ false = ground (arith, named) in
      let class : (al.isa_of obj == 0) ≡ false = ground (arith, isa) in
      elim (Bool-cases al.embedded) [
        | inl on ↦ rw (there, class, on) (header on)
        | inr off ↦ rw (there, class, off) refl
      ]

  -- Memory for an instance is allocated, reallocated, duplicated and freed as memory for its class
  -- is, so that the one may be freed as the other. Where allocators are embedded in objects, this
  -- is by the thread that made the instance, which has kept its allocator.
  pub instance_memory-class_memory :
      (ma : MulleAllocator) (thread : Thread) (obj : ObjectId) (h : ma.Heap) (p size s : ℕ)
      → Made thread obj
      → (instance_allocate_non_zeroed_memory al ma h obj size
          ≡ class_allocate_non_zeroed_memory al ma thread h (al.isa_of obj) size)
        × (instance_reallocate_non_zeroed_memory al ma h obj p size
            ≡ class_reallocate_non_zeroed_memory al ma thread h (al.isa_of obj) p size)
        × (instance_allocate_memory al ma h obj size
            ≡ class_allocate_memory al ma thread h (al.isa_of obj) size)
        × (instance_duplicate_utf8_string al ma h obj s
            ≡ class_duplicate_utf8_string al ma thread h (al.isa_of obj) s)
        × (instance_deallocate_memory al ma h obj p
            ≡ class_deallocate_memory al ma thread h (al.isa_of obj) p)
  unfolding instance_allocate_non_zeroed_memory class_allocate_non_zeroed_memory
      instance_reallocate_non_zeroed_memory class_reallocate_non_zeroed_memory
      instance_allocate_memory class_allocate_memory instance_duplicate_utf8_string
      class_duplicate_utf8_string instance_deallocate_memory class_deallocate_memory
  instance_memory-class_memory ma thread obj h p size s made =
      let same = instance_get_allocator-class_get_allocator thread obj made in
      (
        ap (λ a. ma.malloc h a size) same,
        ap (λ a. ma.realloc h a p size) same,
        ap (λ a. ma.calloc h a 1 size) same,
        ap (λ a. ma.strdup h a s) same,
        ap (λ a. if p == 0 then h else ma.free h a p) same,
      )

  -- An object that a thread makes after setting its allocator, where objects embed theirs, is made
  -- with that allocator. Without one, and where objects embed none, it is made with its class's.
  pub allocate_object-class_allocate_instance_with_allocator :
      (rt : ObjectRuntime) (thread : Thread) (w : rt.World) (infra extra zone allocator : ℕ)
      → infra ≢ 0
      → (thread_get_allocator (thread_set_allocator thread allocator) ≡ allocator)
        × (allocate_object al rt (thread_set_allocator thread allocator) w infra extra zone
            ≡ class_allocate_instance_with_allocator rt w infra extra (
                if al.embedded
                then (if allocator == 0 then al.allocator_of_class infra else allocator)
                else al.allocator_of_class infra))
  unfolding thread_get_allocator thread_set_allocator allocate_object class_allocate_instance
      class_allocate_instance_with_allocator class_get_allocator
  allocate_object-class_allocate_instance_with_allocator rt thread w infra extra zone allocator
        named =
      let there : (infra == 0) ≡ false = ground (arith, named) in
      (refl, rw (class_allocate_instance, class_get_allocator, there) refl)
