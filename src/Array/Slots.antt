-- ===== src/Array/Slots.antt =====
-- What an array holds, as numbers of occurrences, and what its operations do to them.
use mulle_obj_c.Base.{
  ℕ, zero, suc, ◌+◌, ◌%◌, ◌≤◌, ◌<◌, ◌≡◌, ◌↔◌, refl, true, List, [], ◌∷◌, arith, ◌==◌, if◌then◌else◌,
  update,
}
use mulle_obj_c.Array.{
  ObjectId, word, uint, n_objects, Array, add, contains_slots, contains, count_object_slots,
  count_object_loop, count_object, copy, count, count_loop,
}

-- how many of the slots below `n` hold `x`
abbrev pub occurrences : ObjectId → ℕ → (ℕ → ObjectId) → ℕ
occurrences x zero objects = 0
occurrences x (suc i) objects = (if objects i == x then 1 else 0) + occurrences x i objects

abbrev pub occurrences_in : ObjectId → List Array → ℕ
occurrences_in x [] = 0
occurrences_in x (a ∷ previous) = occurrences x a.used a.objects + occurrences_in x previous

pub occurrences-update :
    (x : ObjectId) (n : ℕ) (objects : ℕ → ObjectId) (i : ℕ) (p : ObjectId)
    → n ≤ i
    → occurrences x n (update objects i p) ≡ occurrences x n objects
occurrences-update x zero objects i p h = refl
occurrences-update x (suc n) objects i p h = ground (arith, occurrences-update x n objects i p)

-- One more of `p`, and nothing else, when there is room.
pub occurrences-add :
    (x : ObjectId) (a : Array) (p : ObjectId)
    → a.used < n_objects
    → occurrences x (add a p).used (add a p).objects
      ≡ (if p == x then 1 else 0) + occurrences x a.used a.objects
unfolding add
occurrences-add x a p h =
    let next : (a.used + 1) % word ≡ suc a.used = omega arith in
    rw next (ground (arith, occurrences-update x a.used a.objects a.used p))

-- `amount` ids of the source, and nothing else.
pub occurrences-copy :
    (x : ObjectId) (objects : ℕ → ObjectId) (n : ℕ) (source : ℕ → ObjectId) (amount : ℕ)
    → occurrences x (n + amount) (copy objects n source amount)
      ≡ occurrences x amount source + occurrences x n objects
unfolding copy
occurrences-copy x objects n source zero =
    let same : n + 0 ≡ n = omega arith in rw same (omega arith)
occurrences-copy x objects n source (suc k) =
    let next : n + suc k ≡ suc (n + k) = omega arith in
    rw next (
      ground (
        arith,
        occurrences-update x (n + k) (copy objects n source k) (n + k) (source k),
        occurrences-copy x objects n source k,
      ))

contains_slots_iff :
    (n : ℕ) (objects : ℕ → ObjectId) (p : ObjectId)
    → (contains_slots n objects p ≡ true) ↔ (0 < occurrences p n objects)
unfolding contains_slots
contains_slots_iff zero objects p = ground arith
contains_slots_iff (suc n) objects p = ground (arith, contains_slots_iff n objects p)

-- `_mulle_autoreleasepointerarray_contains` answers whether some array of the chain holds `p`.
pub contains_iff :
    (chain : List Array) (p : ObjectId) → (contains chain p ≡ true) ↔ (0 < occurrences_in p chain)
unfolding contains
contains_iff [] p = ground arith
contains_iff (a ∷ previous) p =
    ground (arith, contains_slots_iff a.used a.objects p, contains_iff previous p)

count_object_slots_lem :
    (i : ℕ) (objects : ℕ → ObjectId) (p : ObjectId) (n : ℕ)
    → n < uint
    → count_object_slots i objects p n ≡ (n + occurrences p i objects) % uint
unfolding count_object_slots
count_object_slots_lem zero objects p n h = omega arith
count_object_slots_lem (suc i) objects p n h = ground (
  arith,
  count_object_slots_lem i objects p n h,
  count_object_slots_lem i objects p ((n + 1) % uint) (omega arith),
)

count_object_loop_lem :
    (chain : List Array) (p : ObjectId) (n : ℕ)
    → n < uint
    → count_object_loop chain p n ≡ (n + occurrences_in p chain) % uint
unfolding count_object_loop
count_object_loop_lem [] p n h = omega arith
count_object_loop_lem (a ∷ previous) p n h =
    let k : ℕ = occurrences p a.used a.objects in
    rw (count_object_slots_lem a.used a.objects p n h)
      (omega (arith, count_object_loop_lem previous p ((n + k) % uint) (omega arith)))

-- `_mulle_autoreleasepointerarray_count_object` counts the slots that hold `p`, modulo 2^32.
pub count_object_lem :
    (chain : List Array) (p : ObjectId) → count_object chain p ≡ occurrences_in p chain % uint
unfolding count_object
count_object_lem chain p = omega (arith, count_object_loop_lem chain p 0 (omega arith))

-- the sum of the `count` fields
abbrev pub counted : List Array → ℕ
counted [] = 0
counted (a ∷ previous) = a.count + counted previous

count_loop_lem :
    (chain : List Array) (n : ℕ) → n < uint → count_loop chain n ≡ (n + counted chain) % uint
unfolding count_loop
count_loop_lem [] n h = omega arith
count_loop_lem (a ∷ previous) n h =
    omega (arith, count_loop_lem previous ((n + a.count) % uint) (omega arith))

-- `_mulle_autoreleasepointerarray_count` is the sum of the `count` fields, modulo 2^32.
pub count_lem : (chain : List Array) → count chain ≡ counted chain % uint
unfolding count
count_lem chain = omega (arith, count_loop_lem chain 0 (omega arith))
