-- ===== src/Allocation/Copy.antt =====
-- src/function/MulleObjCAllocation.h: copying objects to an array of limited length.
use mulle_obj_c.Base.{
  ℕ, zero, suc, ◌+◌, ◌≤◌, ◌<◌, ◌≡◌, ◌⊎◌, true, false, refl, ap, ◌∙◌, List, [], ◌∷◌, arith, ltb,
  ◌==◌, if◌then◌else◌, inl, inr, Bool-cases, length, update,
}
use mulle_obj_c.Array.{ObjectId, nil}

-- The array is a function of the index, and `at` is the place of `objects` in it. The arguments
-- that are left, of `va_list` or of an array, are a list of `count` objects.
unfoldable pub copy_loop :
    (sentinel : ℕ)
    → (args : List ObjectId) → (objects : ℕ → ObjectId) → (at n : ℕ) → ℕ × (ℕ → ObjectId)
copy_loop sentinel [] objects at n = (n, objects)
copy_loop sentinel (obj ∷ args) objects at n =
    let skipped = copy_loop sentinel args objects at n in
    let stored = copy_loop sentinel args (update objects at obj) (at + 1) (n + 1) in
    let counted = copy_loop sentinel args objects at (n + 1) in
    if obj == nil then skipped else if ltb at sentinel then stored else counted

-- `MulleObjCCopyObjects`
unfoldable pub copy_objects :
    (objects : ℕ → ObjectId) → (length : ℕ) → (args : List ObjectId) → ℕ × (ℕ → ObjectId)
copy_objects objects length args = copy_loop length args objects 0 0

-- The array that is copied is a function of the index, from where `array` points to.
unfoldable pub copy_array_loop :
    (sentinel : ℕ)
    → (array : ℕ → ObjectId) → (count : ℕ) → (objects : ℕ → ObjectId) → (at n : ℕ)
    → ℕ × (ℕ → ObjectId)
copy_array_loop sentinel array zero objects at n = (n, objects)
copy_array_loop sentinel array (suc count) objects at n =
    let obj : ObjectId = array 0 in
    let array' : ℕ → ObjectId = λ i. array (i + 1) in
    let skipped = copy_array_loop sentinel array' count objects at n in
    let stored = copy_array_loop sentinel array' count (update objects at obj) (at + 1) (n + 1) in
    let counted = copy_array_loop sentinel array' count objects at (n + 1) in
    if obj == nil then skipped else if ltb at sentinel then stored else counted

-- `MulleObjCCopyObjectArray`
unfoldable pub copy_object_array :
    (objects : ℕ → ObjectId)
    → (length : ℕ) → (array : ℕ → ObjectId) → (count : ℕ) → ℕ × (ℕ → ObjectId)
copy_object_array objects length array count = copy_array_loop length array count objects 0 0

-- The objects of a list that are not nil
abbrev pub present : List ObjectId → List ObjectId
present [] = []
present (obj ∷ args) = let rest = present args in if obj == nil then rest else obj ∷ rest

-- The element at an index, or a default behind the end
abbrev pub element_or : List ObjectId → (i : ℕ) → (default : ObjectId) → ObjectId
element_or [] i default = default
element_or (x ∷ xs) zero default = x
element_or (x ∷ xs) (suc i) default = element_or xs i default

copy_loop-count :
    (sentinel : ℕ) (args : List ObjectId) (objects : ℕ → ObjectId) (at n : ℕ)
    → (copy_loop sentinel args objects at n).0 ≡ n + length (present args)
unfolding copy_loop
copy_loop-count sentinel [] objects at n = omega arith
copy_loop-count sentinel (obj ∷ args) objects at n = elim (Bool-cases (obj == nil)) [
  | inl none ↦ rw (none) (copy_loop-count sentinel args objects at n)
  | inr there ↦ elim (Bool-cases (ltb at sentinel)) [
    | inl room ↦
        rw (there, room)
          (omega (arith, copy_loop-count sentinel args (update objects at obj) (at + 1) (n + 1)))
    | inr full ↦ rw (there, full) (omega (arith, copy_loop-count sentinel args objects at (n + 1)))
  ]
]

copy_loop-before :
    (sentinel : ℕ) (args : List ObjectId) (objects : ℕ → ObjectId) (at n i : ℕ)
    → ((i < at) ⊎ (sentinel ≤ i))
    → (copy_loop sentinel args objects at n).1 i ≡ objects i
unfolding copy_loop
copy_loop-before sentinel [] objects at n i h = refl
copy_loop-before sentinel (obj ∷ args) objects at n i h = elim (Bool-cases (obj == nil)) [
  | inl none ↦ rw (none) (copy_loop-before sentinel args objects at n i h)
  | inr there ↦ elim (Bool-cases (ltb at sentinel)) [
    | inl room ↦
        let differs : (at == i) ≡ false = ground (arith, h, room) in
        let rest =
          copy_loop-before sentinel args (update objects at obj) (at + 1) (n + 1) i
            (ground (arith, h)) in
        rw (there, room) (rest ∙ rw (update, differs) refl)
    | inr full ↦ rw (there, full) (copy_loop-before sentinel args objects at (n + 1) i h)
  ]
]

copy_loop-stored :
    (sentinel : ℕ) (args : List ObjectId) (objects : ℕ → ObjectId) (at n i j : ℕ)
    → i ≡ at + j
    → i < sentinel
    → (copy_loop sentinel args objects at n).1 i ≡ element_or (present args) j (objects i)
unfolding copy_loop
copy_loop-stored sentinel [] objects at n i j e h = refl
copy_loop-stored sentinel (obj ∷ args) objects at n i j e h = elim (Bool-cases (obj == nil)) [
  | inl none ↦ rw (none) (copy_loop-stored sentinel args objects at n i j e h)
  | inr there ↦
      let room : ltb at sentinel ≡ true = ground (arith, e, h) in
      rw (there, room)
        (place (copy_loop-stored sentinel args (update objects at obj) (at + 1) (n + 1) i) j e)
]
  where
    place :
        ((k : ℕ)
          → i ≡ at + 1 + k
          → i < sentinel
          → (copy_loop sentinel args (update objects at obj) (at + 1) (n + 1)).1 i
            ≡ element_or (present args) k (update objects at obj i))
        → (j : ℕ) → i ≡ at + j
        → (copy_loop sentinel args (update objects at obj) (at + 1) (n + 1)).1 i
          ≡ element_or (obj ∷ present args) j (objects i)
    place rest zero e =
        let here : (at == i) ≡ true = ground (arith, e) in
        copy_loop-before sentinel args (update objects at obj) (at + 1) (n + 1) i
          (inl (omega (arith, e)))
        ∙ rw (update, here) refl
    place rest (suc k) e =
        let differs : (at == i) ≡ false = ground (arith, e) in
        rest k (omega (arith, e)) h ∙ ap (element_or (present args) k) (rw (update, differs) refl)

abbrev pub elements : (array : ℕ → ObjectId) → (count : ℕ) → List ObjectId
elements array zero = []
elements array (suc count) = array 0 ∷ elements (λ i. array (i + 1)) count

copy_array_loop-copy_loop :
    (sentinel : ℕ) (array : ℕ → ObjectId) (count : ℕ) (objects : ℕ → ObjectId) (at n : ℕ)
    → copy_array_loop sentinel array count objects at n
      ≡ copy_loop sentinel (elements array count) objects at n
unfolding copy_array_loop copy_loop
copy_array_loop-copy_loop sentinel array zero objects at n = refl
copy_array_loop-copy_loop sentinel array (suc count) objects at n =
    let array' : ℕ → ObjectId = λ i. array (i + 1) in
    elim (Bool-cases (array 0 == nil)) [
      | inl none ↦ rw (none) (copy_array_loop-copy_loop sentinel array' count objects at n)
      | inr there ↦ elim (Bool-cases (ltb at sentinel)) [
        | inl room ↦
            rw (there, room)
              (copy_array_loop-copy_loop sentinel array' count (update objects at (array 0))
                (at + 1) (n + 1))
        | inr full ↦
            rw (there, full) (copy_array_loop-copy_loop sentinel array' count objects at (n + 1))
      ]
    ]

-- A copy of objects counts those that are not nil. It stores them in order from the start of the
-- array, as far as they fit into its length, and leaves the rest of the array as it was. A copy
-- from an array does the same as one from arguments.
pub copy_objects_lem :
    (objects : ℕ → ObjectId) (n : ℕ) (args : List ObjectId) (array : ℕ → ObjectId) (count i : ℕ)
    → ((copy_objects objects n args).0 ≡ length (present args))
      × ((copy_objects objects n args).1 i
          ≡ (if ltb i n then element_or (present args) i (objects i) else objects i))
      × (copy_object_array objects n array count ≡ copy_objects objects n (elements array count))
unfolding copy_objects copy_object_array
copy_objects_lem objects n args array count i = (
  copy_loop-count n args objects 0 0 ∙ omega arith,
  elim (Bool-cases (ltb i n)) [
    | inl inside ↦
        rw (inside) (copy_loop-stored n args objects 0 0 i i (omega arith) (ground (arith, inside)))
    | inr outside ↦
        rw (outside) (copy_loop-before n args objects 0 0 i (inr (ground (arith, outside))))
  ],
  copy_array_loop-copy_loop n array count objects 0 0,
)
