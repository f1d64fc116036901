-- ===== src/Ownership/Moves.antt =====
-- What one step of a call does to the references to an object.
use mulle_obj_c.Base.{
  ℕ, ◌+◌, ◌≡◌, ◌≢◌, refl, ap, arith, inl, inr, Bool-cases, ==_iff, ◌==◌, if◌then◌else◌, hit, times,
}
use mulle_obj_c.Array.{ObjectId, nil}
use mulle_obj_c.Atomic.{AtomicPointer, AtomicPointerLaws}
use mulle_obj_c.Ownership.{
  IvarType, assign_id, copy_id, retain_id, Stage, entering, reading, swapping, autoreleasing,
  releasing, unchanged, returned, loading, raised, Shared, Request, get_request, update_request,
  set_request, release_request, lazy_request, atomic_id_update, atomic_id_release,
}

-- The variable owns its object: it is not set with `_C_ASSIGN_ID`.
abbrev pub IsOwning : Request → Type 0
IsOwning get_request = Unit
IsOwning (update_request assign_id value) = ⊥
IsOwning (update_request _ value) = Unit
IsOwning (set_request assign_id value) = ⊥
IsOwning (set_request _ value) = Unit
IsOwning release_request = Unit
IsOwning (lazy_request assign_id load return_type) = ⊥
IsOwning (lazy_request _ load return_type) = Unit

-- The references to `y` that a call holds or that it forgot when it returned.
abbrev pub in_hand : (y : ObjectId) → Stage → ℕ
in_hand y entering = 0
in_hand y (reading value) = hit value y
in_hand y (swapping value old) = hit value y
in_hand y (autoreleasing old) = hit old y
in_hand y (releasing old) = hit old y
in_hand y (unchanged old) = hit old y
in_hand y (returned result) = 0
in_hand y loading = 0
in_hand y raised = 0

-- What a call of `_mulle_atomic_id_release` holds before its compare and swap is not yet its own.
abbrev pub held : (y : ObjectId) → Request × Stage → ℕ
held y (get_request, stage) = 0
held y (update_request ivar_type value, stage) = in_hand y stage
held y (set_request ivar_type value, stage) = in_hand y stage
held y (release_request, entering) = 0
held y (release_request, reading value) = 0
held y (release_request, swapping new value) = 0
held y (release_request, autoreleasing old) = 0
held y (release_request, releasing old) = hit old y
held y (release_request, unchanged old) = 0
held y (release_request, returned result) = 0
held y (release_request, loading) = 0
held y (release_request, raised) = 0
held y (lazy_request ivar_type load return_type, stage) = in_hand y stage

module _ (pointer : AtomicPointer) (laws : AtomicPointerLaws pointer)
    (copy_of : ObjectId → ObjectId) (y : ObjectId) (named : y ≢ nil) where
  abbrev pub value_of : Shared pointer → ObjectId
  value_of s = pointer.read s.ivar

  -- A step keeps the balance of the references to `y`.
  abbrev pub Keeps : Shared pointer → Stage → Shared pointer × Stage → Type 0
  Keeps s stage t =
      times y t.0.gained
        + times y s.autoreleased
        + times y s.released
        + hit (value_of s) y
        + in_hand y stage
      ≡ times y s.gained
        + times y t.0.autoreleased
        + times y t.0.released
        + hit (value_of t.0) y
        + in_hand y t.1

  in_place :
      (value old : ObjectId)
      → in_hand y (if old == value then unchanged old else swapping value old) ≡ hit value y
  in_place value old = elim (Bool-cases (old == value)) [
    | inl same ↦ rw (same) (ap (λ x. hit x y) ((==_iff old value).0 same))
    | inr other ↦ rw (other) refl
  ]

  exchange :
      (p : pointer.Pointer) (value old : ObjectId)
      → let (swapped, p') = pointer.cas p value old in
        hit (pointer.read p') y + in_hand y (if swapped then autoreleasing old else reading value)
        ≡ hit (pointer.read p) y + hit value y
  exchange p value old = elim (Bool-cases (pointer.read p == old)) [
    | inl same ↦
        let e : pointer.read p ≡ old = (==_iff _ _).0 same in
        let (won, written) = laws.cas_expected p value old e in rw (won, written, e) (omega arith)
    | inr other ↦
        let (lost, kept) = laws.cas_changed p value old (ground (arith, other)) in
        rw (lost, kept) refl
  ]

  hand_over :
      (p : pointer.Pointer) (value : ObjectId)
      → let (swapped, p') = pointer.cas p nil value in
        hit (pointer.read p') y
          + held y (release_request, if swapped then releasing value else entering)
        ≡ hit (pointer.read p) y
  hand_over p value = elim (Bool-cases (pointer.read p == value)) [
    | inl same ↦
        let e : pointer.read p ≡ value = (==_iff _ _).0 same in
        let (won, written) = laws.cas_expected p nil value e in
        rw (won, written, e) (ground (arith, named))
    | inr other ↦
        let (lost, kept) = laws.cas_changed p nil value (ground (arith, other)) in
        rw (lost, kept) (omega arith)
  ]

  pub update-Keeps :
      (ivar_type : IvarType) (argument : ObjectId) (s : Shared pointer) (stage : Stage)
      → IsOwning (update_request ivar_type argument)
      → Keeps s stage (atomic_id_update pointer copy_of ivar_type argument s stage)
  unfolding atomic_id_update
  update-Keeps assign_id argument s stage h = absurd h
  update-Keeps copy_id argument s entering h = omega arith
  update-Keeps retain_id argument s entering h = omega arith
  update-Keeps copy_id argument s (reading value) h = omega (arith, in_place value (value_of s))
  update-Keeps retain_id argument s (reading value) h = omega (arith, in_place value (value_of s))
  update-Keeps copy_id argument s (swapping value old) h = omega (arith, exchange s.ivar value old)
  update-Keeps retain_id argument s (swapping value old) h =
      omega (arith, exchange s.ivar value old)
  update-Keeps copy_id argument s (autoreleasing old) h = omega arith
  update-Keeps retain_id argument s (autoreleasing old) h = omega arith
  update-Keeps copy_id argument s (releasing old) h = omega arith
  update-Keeps retain_id argument s (releasing old) h = omega arith
  update-Keeps copy_id argument s (unchanged old) h = omega arith
  update-Keeps retain_id argument s (unchanged old) h = omega arith
  update-Keeps copy_id argument s (returned result) h = omega arith
  update-Keeps copy_id argument s loading h = omega arith
  update-Keeps copy_id argument s raised h = omega arith
  update-Keeps retain_id argument s (returned result) h = omega arith
  update-Keeps retain_id argument s loading h = omega arith
  update-Keeps retain_id argument s raised h = omega arith

  abbrev pub Moves : Request → Shared pointer → Stage → Shared pointer × Stage → Type 0
  Moves request s stage t =
      times y t.0.gained
        + times y s.autoreleased
        + times y s.released
        + hit (value_of s) y
        + held y (request, stage)
      ≡ times y s.gained
        + times y t.0.autoreleased
        + times y t.0.released
        + hit (value_of t.0) y
        + held y (request, t.1)

  pub release-Moves :
      (s : Shared pointer) (stage : Stage)
      → Moves release_request s stage (atomic_id_release pointer copy_of s stage)
  unfolding atomic_id_release
  release-Moves s entering = elim (Bool-cases (value_of s == nil)) [
    | inl empty ↦ rw (empty) (omega arith)
    | inr full ↦ rw (full) (omega arith)
  ]
  release-Moves s (reading value) = omega arith
  release-Moves s (swapping new value) = omega (arith, hand_over s.ivar value)
  release-Moves s (autoreleasing old) = omega arith
  release-Moves s (releasing old) = omega arith
  release-Moves s (unchanged old) = omega arith
  release-Moves s (returned result) = omega arith
  release-Moves s loading = omega arith
  release-Moves s raised = omega arith
