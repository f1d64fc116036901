-- ===== src/Locking/Affinity.antt =====
-- An object without a lock belongs to a thread, and an object with one to none.
use mulle_obj_c.Base.{
  ℕ, ◌≡◌, ◌≢◌, ◌↔◌, refl, Option, none, some, arith, ◌==◌, if◌then◌else◌, inl, inr, Bool-cases,
  Option-cases, ==_iff, update,
}
use mulle_obj_c.Array.{ObjectId, nil}
use mulle_obj_c.Locking.{
  RecursiveMutex, Descriptor, Store, thread_safe_method, lock_if, unlock_if, locking_forward,
  locking_super_forward, call_method, call_super_method, did_share_recursive_lock,
  share_recursive_lock, share_recursive_lock_with_object, Body, done, call, call_super, share,
  share_with, run_body,
}

module _ (rm : RecursiveMutex) where
  abbrev pub Tied : Store rm → Type 0
  Tied s = (x : ObjectId) → (s.lock_of x ≡ nil) ↔ (s.thread_id_of x ≢ 0)

  lock_if-Tied : (lock : ObjectId) (s : Store rm) → Tied s → Tied (lock_if rm lock s)
  unfolding lock_if
  lock_if-Tied lock s h x = elim (Bool-cases (lock == nil)) [
    | inl e ↦ rw (e) (h x)
    | inr e ↦ rw (e) (h x)
  ]

  unlock_if-Tied : (lock : ObjectId) (s : Store rm) → Tied s → Tied (unlock_if rm lock s)
  unfolding unlock_if
  unlock_if-Tied lock s h x = elim (Bool-cases (lock == nil)) [
    | inl e ↦ rw (e) (h x)
    | inr e ↦ rw (e) (h x)
  ]

  call_method-Tied :
      (self : ObjectId) (found : Option Descriptor) (invoke : Store rm → Store rm) (s : Store rm)
      → ((s' : Store rm) → Tied s' → Tied (invoke s'))
      → Tied s
      → Tied (call_method rm self found invoke s)
  unfolding call_method locking_forward
  call_method-Tied self found invoke s keeps h = elim (Option-cases (thread_safe_method found)) [
    | inl locks ↦
        let lock : ObjectId = s.lock_of self in
        rw (call_method, locks)
          (unlock_if-Tied lock (invoke (lock_if rm lock s))
            (keeps (lock_if rm lock s) (lock_if-Tied lock s h)))
    | inr (desc, e) ↦ rw (call_method, e) (keeps s h)
  ]

  call_super_method-Tied :
      (self : ObjectId) (found : Option Descriptor) (invoke : Store rm → Store rm) (s : Store rm)
      → ((s' : Store rm) → Tied s' → Tied (invoke s'))
      → Tied s
      → Tied (call_super_method rm self found invoke s)
  unfolding call_super_method locking_super_forward
  call_super_method-Tied self none invoke s keeps h =
      let lock : ObjectId = s.lock_of self in
      unlock_if-Tied lock (invoke (lock_if rm lock s))
        (keeps (lock_if rm lock s) (lock_if-Tied lock s h))
  call_super_method-Tied self (some desc) invoke s keeps h = keeps s h

  module _ (thread : ℕ) (real : thread ≢ 0) where
    share_recursive_lock-Tied :
        (self lock : ObjectId) (s : Store rm)
        → Tied s
        → Tied (share_recursive_lock rm thread self lock s)
    unfolding share_recursive_lock did_share_recursive_lock
    share_recursive_lock-Tied self lock s h x = elim (Bool-cases (lock == s.lock_of self)) [
      | inl same ↦ rw (same) (h x)
      | inr differs ↦ elim (Bool-cases (self == x)) [
        | inl here ↦ elim (Bool-cases (lock == nil)) [
          | inl lockless ↦
              rw (differs, update, here, lockless)
                ((λ e. real), (λ e. (==_iff lock nil).0 lockless))
          | inr locked ↦
              rw (differs, update, here, locked)
                ((λ e. ground (arith, locked, e)), (λ e. absurd (e refl)))
        ]
        | inr elsewhere ↦ rw (differs, update, elsewhere) (h x)
      ]
    ]

    -- What methods do with locks, as run by a thread with a thread id other than 0, keeps it so that
    -- just the objects without a lock have a thread id, which says that they belong to a thread.
    pub run_body-Tied : (b : Body) (s : Store rm) → Tied s → Tied (run_body rm thread b s)
    unfolding run_body share_recursive_lock_with_object
    run_body-Tied done s h = h
    run_body-Tied (call self found inner rest) s h =
        run_body-Tied rest (call_method rm self found (run_body rm thread inner) s)
          (call_method-Tied self found (run_body rm thread inner) s (run_body-Tied inner) h)
    run_body-Tied (call_super self found inner rest) s h =
        run_body-Tied rest (call_super_method rm self found (run_body rm thread inner) s)
          (call_super_method-Tied self found (run_body rm thread inner) s (run_body-Tied inner) h)
    run_body-Tied (share self lock rest) s h =
        run_body-Tied rest (share_recursive_lock rm thread self lock s)
          (share_recursive_lock-Tied self lock s h)
    run_body-Tied (share_with self other rest) s h =
        let lock : ObjectId = if other == nil then nil else s.lock_of other in
        run_body-Tied rest (share_recursive_lock rm thread self lock s)
          (share_recursive_lock-Tied self lock s h)
