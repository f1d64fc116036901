-- ===== src/Array.antt =====
-- src/mulle-objc-autoreleasepointerarray-private.h: the arrays that hold a pool's objects.
-- A `struct _mulle_autoreleasepointerarray *` is a list of arrays: the head is the array pointed
-- to, the tail is what `previous` leads to, and `[]` is NULL. An `id` is a number, nil is 0.
pub mod Slots
pub mod Walk
use mulle_obj_c.Base.{
  ℕ, zero, suc, ◌+◌, ◌-◌, ◌*◌, ◌/◌, ◌%◌, ◌^◌, Bool, true, false, not, List, [], ◌∷◌, ltb, leb, ◌==◌,
  if◌then◌else◌, update,
}

abbrev pub ObjectId : Type 0
ObjectId = ℕ

abbrev pub nil : ObjectId
nil = 0

-- NSUInteger on a 64-bit machine, and `unsigned int`
abbrev pub word : ℕ
word = 2 ^ 64

abbrev pub uint : ℕ
uint = 2 ^ 32

-- `sizeof( intptr_t)` and `sizeof( id)` on a 64-bit machine
abbrev pub sizeof_id : ℕ
sizeof_id = 8

abbrev pub two_pages_less_pool : ℕ
two_pages_less_pool = 4096 * 2 - 4 * sizeof_id

abbrev pub n_objects : ℕ
n_objects = (two_pages_less_pool - 2 * sizeof_id) / sizeof_id

-- `is_static` says whether the array is the one inside the pool, `static_storage( config, pool)`.
-- What `objects` holds at `used` and above is whatever was in memory.
pub record Array : Type 0 where
  pub used : ℕ
  pub count : ℕ
  pub objects : ℕ → ObjectId
  pub is_static : Bool

-- `memory` is what the uninitialised storage holds.
unfoldable pub init : (memory : ℕ → ObjectId) → (is_static : Bool) → Array
init memory is_static = record { used = 0; count = 0; objects = memory; is_static = is_static }

unfoldable pub create : (memory : ℕ → ObjectId) → List Array → List Array
unfolding init
create memory previous = init memory false ∷ previous

abbrev pub is_full : Array → Bool
is_full a = leb n_objects a.used

abbrev pub can_add : List Array → Bool
can_add [] = false
can_add (a ∷ _) = not (is_full a)

abbrev pub space_left : List Array → ℕ
space_left [] = 0
space_left (a ∷ _) = n_objects - a.used

unfoldable pub add : Array → ObjectId → Array
add a p = record a {
  used = (a.used + 1) % word;
  count = (a.count + 1) % word;
  objects = update a.objects a.used p;
}

-- `while( q > sentinel) if( *--q == p) return( 1);` from slot `i` down
unfoldable pub contains_slots : ℕ → (ℕ → ObjectId) → ObjectId → Bool
contains_slots zero objects p = false
contains_slots (suc i) objects p = if objects i == p then true else contains_slots i objects p

unfoldable pub contains : List Array → ObjectId → Bool
unfolding contains_slots
contains [] p = false
contains (a ∷ previous) p = if contains_slots a.used a.objects p then true else contains previous p

-- `unsigned int` sum of the `count` fields
unfoldable pub count_loop : List Array → ℕ → ℕ
count_loop [] n = n
count_loop (a ∷ previous) n = count_loop previous ((n + a.count) % uint)

unfoldable pub count : List Array → ℕ
unfolding count_loop
count array = count_loop array 0

-- `while( q > sentinel) if( *--q == p) ++count;`
count_object_slots : ℕ → (ℕ → ObjectId) → ObjectId → ℕ → ℕ
count_object_slots zero objects p n = n
count_object_slots (suc i) objects p n =
    count_object_slots i objects p (if objects i == p then (n + 1) % uint else n)

count_object_loop : List Array → ObjectId → ℕ → ℕ
count_object_loop [] p n = n
count_object_loop (a ∷ previous) p n =
    count_object_loop previous p (count_object_slots a.used a.objects p n)

unfoldable pub count_object : List Array → ObjectId → ℕ
unfolding count_object_loop count_object_slots
count_object array p = count_object_loop array p 0

-- `mulle_id_copy`, or the loop over `step`: `amount` ids from `source` on to `dst`
unfoldable pub copy :
    (ℕ → ObjectId) → (dst : ℕ) → (source : ℕ → ObjectId) → (amount : ℕ) → ℕ → ObjectId
copy objects dst source zero = objects
copy objects dst source (suc k) = update (copy objects dst source k) (dst + k) (source k)
