-- ===== src/Allocation/Examples.antt =====
-- A class with an allocator, and the theorems at it.
use mulle_obj_c.Base.{ℕ, ◌+◌, ◌≡◌, refl, true, List, [], ◌∷◌, if◌then◌else◌, ◌==◌}
use mulle_obj_c.Allocation.{Thread, Allocators}
use mulle_obj_c.Allocation.Memory.{MulleAllocator}
use mulle_obj_c.Allocation.Copy.{copy_objects, copy_object_array, copy_loop, copy_objects_lem}

-- Object 5 has class 6, whose allocator is 7, and was made with allocator 9.
abbrev al : Allocators
al = record {
  embedded = true;
  isa_of = λ obj. obj + 1;
  allocator_of_class = λ infra. infra + 1;
  allocator_in_header = λ obj. obj + 4;
}

abbrev nines : Thread
nines = record { instance_allocator = 9 }

-- The heap lists what was freed.
abbrev ma : MulleAllocator
ma = record {
  Heap = List ℕ;
  malloc = λ h allocator size. (allocator + size, h);
  realloc = λ h allocator p size. (p, h);
  calloc = λ h allocator n size. (allocator + size, h);
  strdup = λ h allocator s. (allocator + s, h);
  free = λ h allocator p. p ∷ h;
}

abbrev array : ℕ → ℕ
array i = if i == 1 then 0 else i + 10

two_of_three : (copy_objects (λ i. 99) 2 (10 ∷ 0 ∷ 12 ∷ 13 ∷ [])).0 ≡ 3
unfolding copy_objects copy_loop
two_of_three = refl

copy_objects_lem_example :
    ((copy_objects (λ i. 99) 2 (10 ∷ 0 ∷ 12 ∷ 13 ∷ [])).0 ≡ 3)
    × ((copy_objects (λ i. 99) 2 (10 ∷ 0 ∷ 12 ∷ 13 ∷ [])).1 1 ≡ 12)
    × (copy_object_array (λ i. 99) 2 array 4 ≡ copy_objects (λ i. 99) 2 (10 ∷ 0 ∷ 12 ∷ 13 ∷ []))
copy_objects_lem_example = copy_objects_lem (λ i. 99) 2 (10 ∷ 0 ∷ 12 ∷ 13 ∷ []) array 4 1
