-- ===== src/Transfer/Conserve.antt =====
-- An object that is handed over is in the pointer, in the hands of a call, or with the one thread
-- that gained access to it.
use mulle_obj_c.Base.{
  ℕ, ◌+◌, ◌≡◌, ◌≢◌, refl, List, ◌∷◌, arith, inl, inr, Bool-cases, ==_iff, ◌==◌, if◌then◌else◌,
  total, total-append, hit, times,
}
use mulle_obj_c.Array.{ObjectId, nil}
use mulle_obj_c.Atomic.{AtomicPointer, AtomicPointerLaws}
use mulle_obj_c.Transfer.{
  Exchange, ExchangeLaws, Stage, entering, swapping, acquired, storing, regaining, returned, Shared,
  Request, acquire_request, recycle_request, acquire_pointer_atomically, acquire_object_atomically,
  recycle_pointer_atomically, recycle_object_atomically, advance, thread, begin, Reach, start, next,
}

-- The accesses to `y` that a call has taken over.
abbrev pub in_hand : (y : ObjectId) → Stage → ℕ
in_hand y entering = 0
in_hand y (swapping value) = 0
in_hand y (acquired value) = hit value y
in_hand y (storing obj) = hit obj y
in_hand y (regaining obj) = hit obj y
in_hand y (returned result) = 0

abbrev pub held : (y : ObjectId) → Request × Stage → ℕ
held y t = in_hand y t.1

module _ (pointer : AtomicPointer) (laws : AtomicPointerLaws pointer) (ex : Exchange pointer)
    (ex_laws : ExchangeLaws pointer ex) (y : ObjectId) (named : y ≢ nil) where
  acquire_pointer_atomically-moves :
      (p : pointer.Pointer) (stage : Stage)
      → let (p', stage') = acquire_pointer_atomically pointer ex p stage in
        hit (pointer.read p') y + in_hand y stage' ≡ hit (pointer.read p) y + in_hand y stage
  unfolding acquire_pointer_atomically
  acquire_pointer_atomically-moves p entering = elim (Bool-cases (pointer.read p == nil)) [
    | inl empty ↦ rw (empty) (ground (arith, named))
    | inr full ↦ rw (full) refl
  ]
  acquire_pointer_atomically-moves p (swapping value) =
      let actual = ex_laws.actual p nil value in
      elim (Bool-cases (pointer.read p == value)) [
        | inl same ↦
            let e : pointer.read p ≡ value = (==_iff _ _).0 same in
            let taken = ex_laws.actual_expected p nil value e in
            rw (actual, taken, e) (ground (arith, named))
        | inr other ↦
            let kept = ex_laws.actual_changed p nil value (ground (arith, other)) in
            rw (actual, kept, other) (ground (arith, named))
      ]
  acquire_pointer_atomically-moves p (acquired value) = refl
  acquire_pointer_atomically-moves p (storing obj) = refl
  acquire_pointer_atomically-moves p (regaining obj) = refl
  acquire_pointer_atomically-moves p (returned result) = refl

  recycle_pointer_atomically-moves :
      (p : pointer.Pointer) (obj : ObjectId)
      → let (rval, p') = recycle_pointer_atomically pointer ex p obj in
        hit (pointer.read p') y + in_hand y (if rval then returned 1 else regaining obj)
        ≡ hit (pointer.read p) y + hit obj y
  unfolding recycle_pointer_atomically
  recycle_pointer_atomically-moves p obj = elim (Bool-cases (pointer.read p == nil)) [
    | inl empty ↦
        let e : pointer.read p ≡ nil = (==_iff _ _).0 empty in
        let (won, written) = laws.cas_expected p obj nil e in
        rw (won, written, e) (ground (arith, named))
    | inr full ↦
        let (lost, kept) = laws.cas_changed p obj nil (ground (arith, full)) in rw (lost, kept) refl
  ]

  abbrev Moves : Shared pointer → Stage → Shared pointer × Stage → Type 0
  Moves s stage t =
      times y t.0.relinquished + times y s.gained + hit (pointer.read s.pointer) y + in_hand y stage
      ≡ times y s.relinquished
        + times y t.0.gained
        + hit (pointer.read t.0.pointer) y
        + in_hand y t.1

  advance-Moves :
      (request : Request) (s : Shared pointer) (stage : Stage)
      → Moves s stage (advance pointer ex request s stage)
  unfolding advance acquire_object_atomically recycle_object_atomically
  advance-Moves acquire_request s entering =
      omega (arith, acquire_pointer_atomically-moves s.pointer entering)
  advance-Moves acquire_request s (swapping value) =
      omega (arith, acquire_pointer_atomically-moves s.pointer (swapping value))
  advance-Moves acquire_request s (acquired value) = omega arith
  advance-Moves acquire_request s (storing obj) =
      omega (arith, acquire_pointer_atomically-moves s.pointer (storing obj))
  advance-Moves acquire_request s (regaining obj) =
      omega (arith, acquire_pointer_atomically-moves s.pointer (regaining obj))
  advance-Moves acquire_request s (returned result) =
      omega (arith, acquire_pointer_atomically-moves s.pointer (returned result))
  advance-Moves (recycle_request obj) s entering = elim (Bool-cases (obj == nil)) [
    | inl none ↦ rw (none) (omega arith)
    | inr there ↦ rw (there) (omega arith)
  ]
  advance-Moves (recycle_request argument) s (swapping value) = omega arith
  advance-Moves (recycle_request argument) s (acquired value) = omega arith
  advance-Moves (recycle_request argument) s (storing obj) =
      omega (arith, recycle_pointer_atomically-moves s.pointer obj)
  advance-Moves (recycle_request argument) s (regaining obj) = omega arith
  advance-Moves (recycle_request argument) s (returned result) = omega arith

  -- However many threads acquire and recycle objects through a pointer, in any order and beginning
  -- at any time, what they relinquished access to, with the object in the pointer at the start, is
  -- what they gained access to, the object in the pointer, and what calls have taken out or not yet
  -- put in: no object is handed over twice, and none is lost. The two compare and swaps have their
  -- laws.
  pub Reach-handed_over :
      {p : pointer.Pointer} {t : Shared pointer × List (Request × Stage)}
      → Reach pointer ex p t
      → times y t.0.relinquished + hit (pointer.read p) y
        ≡ times y t.0.gained + hit (pointer.read t.0.pointer) y + total (held y) t.1
  Reach-handed_over start = omega arith
  Reach-handed_over (next r (begin s request threads)) = omega (arith, Reach-handed_over r)
  Reach-handed_over (next r (thread s before request stage after)) = omega (
    arith,
    Reach-handed_over r,
    advance-Moves request s stage,
    total-append (held y) before ((request, stage) ∷ after),
    total-append (held y) before ((request, (advance pointer ex request s stage).1) ∷ after),
  )
