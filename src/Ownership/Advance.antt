-- ===== src/Ownership/Advance.antt =====
-- What one step of any call does to the references to an object, lazy loading included.
use mulle_obj_c.Base.{
  List, ◌+◌, ◌≡◌, ◌≢◌, refl, arith, inl, inr, Bool-cases, ==_iff, ◌==◌, if◌then◌else◌, hit,
}
use mulle_obj_c.Array.{ObjectId, nil}
use mulle_obj_c.Atomic.{AtomicPointer, AtomicPointerLaws}
use mulle_obj_c.Ownership.{
  IvarType, assign_id, copy_id, retain_id, Stage, entering, reading, swapping, autoreleasing,
  releasing, unchanged, returned, loading, raised, Shared, Request, get_request, update_request,
  set_request, release_request, lazy_request, loaded, atomic_id_get_lazy, atomic_id_get,
  atomic_id_set, advance,
}
use mulle_obj_c.Ownership.Moves.{
  IsOwning, in_hand, value_of, Keeps, Moves, update-Keeps, release-Moves,
}

module _ (pointer : AtomicPointer) (laws : AtomicPointerLaws pointer)
    (copy_of : ObjectId → ObjectId) (y : ObjectId) (named : y ≢ nil) where
  swap_in :
      (p : pointer.Pointer) (value : ObjectId)
      → let (swapped, p') = pointer.cas p value nil in
        hit (pointer.read p') y + in_hand y (if swapped then returned value else releasing value)
        ≡ hit (pointer.read p) y + hit value y
  swap_in p value = elim (Bool-cases (pointer.read p == nil)) [
    | inl same ↦
        let e : pointer.read p ≡ nil = (==_iff _ _).0 same in
        let (won, written) = laws.cas_expected p value nil e in
        rw (won, written, e) (ground (arith, named))
    | inr other ↦
        let (lost, kept) = laws.cas_changed p value nil (ground (arith, other)) in
        rw (lost, kept) refl
  ]

  loaded-Keeps :
      (ivar_type return_type : IvarType) (value : ObjectId) (s : Shared pointer)
      → IsOwning (update_request ivar_type value)
      → Keeps pointer laws copy_of y named s loading
          (loaded pointer copy_of ivar_type return_type value s)
  unfolding loaded
  loaded-Keeps assign_id return_type value s h = absurd h
  loaded-Keeps copy_id assign_id value s h = omega arith
  loaded-Keeps copy_id copy_id value s h = omega arith
  loaded-Keeps copy_id retain_id value s h = omega arith
  loaded-Keeps retain_id assign_id value s h = omega arith
  loaded-Keeps retain_id copy_id value s h = omega arith
  loaded-Keeps retain_id retain_id value s h = omega arith

  lazy-Keeps :
      (ivar_type : IvarType) (load : List ObjectId → ObjectId) (return_type : IvarType)
      (s : Shared pointer) (stage : Stage)
      → IsOwning (lazy_request ivar_type load return_type)
      → Keeps pointer laws copy_of y named s stage
          (atomic_id_get_lazy pointer copy_of ivar_type load return_type s stage)
  unfolding atomic_id_get_lazy
  lazy-Keeps assign_id load return_type s stage h = absurd h
  lazy-Keeps copy_id load return_type s entering h =
      elim (Bool-cases (value_of pointer laws copy_of y named s == nil)) [
        | inl empty ↦ rw (empty) refl
        | inr full ↦ rw (full) refl
      ]
  lazy-Keeps copy_id load return_type s loading h = elim (Bool-cases (load s.gained == nil)) [
    | inl empty ↦ rw (empty) refl
    | inr full ↦ rw (full) (loaded-Keeps copy_id return_type (load s.gained) s tt)
  ]
  lazy-Keeps copy_id load return_type s (swapping value old) h = omega (arith, swap_in s.ivar value)
  lazy-Keeps copy_id load return_type s (releasing value) h = omega arith
  lazy-Keeps copy_id load return_type s (reading value) h = refl
  lazy-Keeps copy_id load return_type s (autoreleasing old) h = refl
  lazy-Keeps copy_id load return_type s (unchanged old) h = refl
  lazy-Keeps copy_id load return_type s (returned result) h = refl
  lazy-Keeps copy_id load return_type s raised h = refl
  lazy-Keeps retain_id load return_type s entering h =
      elim (Bool-cases (value_of pointer laws copy_of y named s == nil)) [
        | inl empty ↦ rw (empty) refl
        | inr full ↦ rw (full) refl
      ]
  lazy-Keeps retain_id load return_type s loading h = elim (Bool-cases (load s.gained == nil)) [
    | inl empty ↦ rw (empty) refl
    | inr full ↦ rw (full) (loaded-Keeps retain_id return_type (load s.gained) s tt)
  ]
  lazy-Keeps retain_id load return_type s (swapping value old) h =
      omega (arith, swap_in s.ivar value)
  lazy-Keeps retain_id load return_type s (releasing value) h = omega arith
  lazy-Keeps retain_id load return_type s (reading value) h = refl
  lazy-Keeps retain_id load return_type s (autoreleasing old) h = refl
  lazy-Keeps retain_id load return_type s (unchanged old) h = refl
  lazy-Keeps retain_id load return_type s (returned result) h = refl
  lazy-Keeps retain_id load return_type s raised h = refl

  get-Moves :
      (s : Shared pointer) (stage : Stage)
      → Moves pointer laws copy_of y named get_request s stage
          (atomic_id_get pointer copy_of s stage)
  unfolding atomic_id_get
  get-Moves s entering = omega arith
  get-Moves s (reading value) = omega arith
  get-Moves s (swapping new value) = omega arith
  get-Moves s (autoreleasing old) = omega arith
  get-Moves s (releasing old) = omega arith
  get-Moves s (unchanged old) = omega arith
  get-Moves s (returned result) = omega arith
  get-Moves s loading = omega arith
  get-Moves s raised = omega arith

  pub advance-Moves :
      (request : Request) (s : Shared pointer) (stage : Stage)
      → IsOwning request
      → Moves pointer laws copy_of y named request s stage (advance pointer copy_of request s stage)
  unfolding advance atomic_id_set
  advance-Moves get_request s stage h = get-Moves s stage
  advance-Moves (update_request ivar_type value) s stage h =
      update-Keeps pointer laws copy_of y named ivar_type value s stage h
  advance-Moves (set_request assign_id value) s stage h = absurd h
  advance-Moves (set_request copy_id value) s stage h =
      update-Keeps pointer laws copy_of y named copy_id value s stage h
  advance-Moves (set_request retain_id value) s stage h =
      update-Keeps pointer laws copy_of y named retain_id value s stage h
  advance-Moves release_request s stage h = release-Moves pointer laws copy_of y named s stage
  advance-Moves (lazy_request assign_id load return_type) s stage h = absurd h
  advance-Moves (lazy_request copy_id load return_type) s stage h =
      lazy-Keeps copy_id load return_type s stage h
  advance-Moves (lazy_request retain_id load return_type) s stage h =
      lazy-Keeps retain_id load return_type s stage h
