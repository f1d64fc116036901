-- ===== src/Locking/Depth.antt =====
-- Whatever a method does, each lock is unlocked as often as it was locked.
use mathlib.Core.Path.{subst}
use mulle_obj_c.Base.{
  ℕ, ◌+◌, ◌-◌, ◌⊎◌, true, false, ◌≡◌, refl, ap, ◌∙◌, Option, none, some, arith, ◌==◌, if◌then◌else◌,
  inl, inr, Bool-cases, Option-cases, ==_iff, update,
}
use mulle_obj_c.Array.{ObjectId, nil}
use mulle_obj_c.Locking.{
  RecursiveMutex, MutexLaws, object_try_lock, object_unlock, Descriptor, Store, thread_safe_method,
  lock_if, unlock_if, locking_forward, locking_super_forward, call_method, call_super_method,
  did_share_recursive_lock, share_recursive_lock, share_recursive_lock_with_object, Body, done,
  call, call_super, share, share_with, run_body,
}

module _ (rm : RecursiveMutex) (laws : MutexLaws rm) where
  abbrev depth_of : Store rm → ObjectId → ℕ
  depth_of s l = rm.depth (s.mutex l)

  hits : (lock l : ObjectId) → ℕ
  hits lock l = if lock == nil then 0 else if lock == l then 1 else 0

  update_depth :
      (f : rm.Mutex → rm.Mutex) (mutex : ObjectId → rm.Mutex) (lock l : ObjectId)
      → ((lock == l) ≡ true)
          × (rm.depth (update mutex lock (f (mutex lock)) l) ≡ rm.depth (f (mutex l)))
        ⊎ ((lock == l) ≡ false)
          × (rm.depth (update mutex lock (f (mutex lock)) l) ≡ rm.depth (mutex l))
  update_depth f mutex lock l = elim (Bool-cases (lock == l)) [
    | inl same ↦
        inl (same, rw (update, same) (ap (λ k. rm.depth (f (mutex k))) ((==_iff lock l).0 same)))
    | inr other ↦ inr (other, rw (update, other) refl)
  ]

  depth-lock_if :
      (lock : ObjectId) (s : Store rm) (l : ObjectId)
      → depth_of (lock_if rm lock s) l ≡ depth_of s l + hits lock l
  unfolding lock_if hits
  depth-lock_if lock s l = elim (Bool-cases (lock == nil)) [
    | inl lockless ↦ rw (lockless) (omega arith)
    | inr locked ↦ elim (update_depth rm.lock s.mutex lock l) [
      | inl (same, e) ↦ rw (locked, same) (omega (arith, e, laws.depth-lock (s.mutex l)))
      | inr (other, e) ↦ rw (locked, other) (omega (arith, e))
    ]
  ]

  depth-unlock_if :
      (lock : ObjectId) (s : Store rm) (l : ObjectId)
      → depth_of (unlock_if rm lock s) l ≡ depth_of s l - hits lock l
  unfolding unlock_if hits
  depth-unlock_if lock s l = elim (Bool-cases (lock == nil)) [
    | inl lockless ↦ rw (lockless) (omega arith)
    | inr locked ↦ elim (update_depth rm.unlock s.mutex lock l) [
      | inl (same, e) ↦ rw (locked, same) (omega (arith, e, laws.depth-unlock (s.mutex l)))
      | inr (other, e) ↦ rw (locked, other) (omega (arith, e))
    ]
  ]

  -- A change that leaves every lock as deep as it was.
  abbrev Restores : (Store rm → Store rm) → Type 0
  Restores f = (s : Store rm) (l : ObjectId) → depth_of (f s) l ≡ depth_of s l

  locking_forward-Restores :
      (self : ObjectId) (invoke : Store rm → Store rm)
      → Restores invoke
      → Restores (locking_forward rm self invoke) × Restores (locking_super_forward rm self invoke)
  unfolding locking_forward locking_super_forward
  locking_forward-Restores self invoke h =
      let whole : Restores (locking_forward rm self invoke) = λ s l.
        let lock : ObjectId = s.lock_of self in
        omega (
          arith,
          depth-unlock_if lock (invoke (lock_if rm lock s)) l,
          h (lock_if rm lock s) l,
          depth-lock_if lock s l,
        ) in
      (whole, whole)

  call_method-Restores :
      (self : ObjectId) (found : Option Descriptor) (invoke : Store rm → Store rm)
      → Restores invoke
      → Restores (call_method rm self found invoke)
  unfolding call_method
  call_method-Restores self found invoke h s l = elim (Option-cases (thread_safe_method found)) [
    | inl locks ↦ rw (call_method, locks) ((locking_forward-Restores self invoke h).0 s l)
    | inr (desc, e) ↦ rw (call_method, e) (h s l)
  ]

  call_super_method-Restores :
      (self : ObjectId) (found : Option Descriptor) (invoke : Store rm → Store rm)
      → Restores invoke
      → Restores (call_super_method rm self found invoke)
  unfolding call_super_method
  call_super_method-Restores self none invoke h s l = (locking_forward-Restores self invoke h).1 s l
  call_super_method-Restores self (some desc) invoke h s l = h s l

  share_recursive_lock-Restores :
      (thread : ℕ) (self lock : ObjectId) → Restores (share_recursive_lock rm thread self lock)
  unfolding share_recursive_lock did_share_recursive_lock
  share_recursive_lock-Restores thread self lock s l = elim (Bool-cases (lock == s.lock_of self)) [
    | inl same ↦ rw (same) refl
    | inr other ↦ rw (other) refl
  ]

  -- An unlock of an object after a try that gave true leaves every lock as deep as it was before the
  -- try. The locks are recursive ones, whose depth counts, and a try that gives true has locked.
  pub object_try_lock-depth :
      (self : ObjectId) (s : Store rm) (l : ObjectId)
      → (object_try_lock rm self s).0 ≡ true
      → rm.depth ((object_unlock rm self (object_try_lock rm self s).1).mutex l)
        ≡ rm.depth (s.mutex l)
  unfolding object_try_lock object_unlock hits
  object_try_lock-depth self s l won = elim (Bool-cases (s.lock_of self == nil)) [
    | inl lockless ↦ let bad : false ≡ true = rw (lockless) at won in cc
    | inr there ↦
        let locked : (rm.try_lock (s.mutex (s.lock_of self))).0 ≡ true = rw (there) at won in
        let lock : ObjectId = s.lock_of self in
        let tried : rm.Mutex → rm.Mutex = λ m. (rm.try_lock m).1 in
        let s1 : Store rm = record s { mutex = update s.mutex lock (tried (s.mutex lock)) } in
        let undone = depth-unlock_if lock s1 l in
        elim (update_depth tried s.mutex lock l) [
          | inl (same, e) ↦
              let here : (rm.try_lock (s.mutex l)).0 ≡ true =
                subst (λ k. (rm.try_lock (s.mutex k)).0 ≡ true) ((==_iff lock l).0 same) locked in
              let once : hits lock l ≡ 1 = rw (hits, there, same) refl in
              rw (there) (omega (arith, undone, e, once, laws.depth-try_lock (s.mutex l) here))
          | inr (other, e) ↦
              let never : hits lock l ≡ 0 = rw (hits, there, other) refl in
              rw (there) (omega (arith, undone, e, never))
        ]
  ]

  -- After a method, with all the methods and super methods that it calls and all sharing of locks
  -- that goes on in them, every lock is locked as often by the thread as before, also when an object
  -- got another lock in the meantime. The locks are recursive ones, whose depth counts.
  pub run_body-depth :
      (thread : ℕ) (b : Body) (s : Store rm) (l : ObjectId)
      → rm.depth ((run_body rm thread b s).mutex l) ≡ rm.depth (s.mutex l)
  unfolding run_body share_recursive_lock_with_object
  run_body-depth thread done s l = refl
  run_body-depth thread (call self found inner rest) s l =
      run_body-depth thread rest (call_method rm self found (run_body rm thread inner) s) l
      ∙ call_method-Restores self found (run_body rm thread inner) (run_body-depth thread inner) s l
  run_body-depth thread (call_super self found inner rest) s l =
      run_body-depth thread rest (call_super_method rm self found (run_body rm thread inner) s) l
      ∙ call_super_method-Restores self found (run_body rm thread inner)
          (run_body-depth thread inner) s l
  run_body-depth thread (share self lock rest) s l =
      run_body-depth thread rest (share_recursive_lock rm thread self lock s) l
      ∙ share_recursive_lock-Restores thread self lock s l
  run_body-depth thread (share_with self other rest) s l =
      run_body-depth thread rest (share_recursive_lock_with_object rm thread self other s) l
      ∙ share_recursive_lock-Restores thread self (if other == nil then nil else s.lock_of other) s
          l
