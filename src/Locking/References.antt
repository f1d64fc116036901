-- ===== src/Locking/References.antt =====
-- A lock is retained once for each object that has it.
use mulle_obj_c.Base.{
  ℕ, ◌+◌, ◌≡◌, ◌≢◌, refl, ap, false, Option, none, some, List, [], ◌∷◌, arith, ◌==◌, if◌then◌else◌,
  inl, inr, Bool-cases, Option-cases, ==_iff, update, hit, times,
}
use mulle_obj_c.Array.{ObjectId, nil}
use mulle_obj_c.Locking.{
  RecursiveMutex, Descriptor, Store, thread_safe_method, on_mutex, lock_if, unlock_if,
  locking_forward, locking_super_forward, call_method, call_super_method, did_share_recursive_lock,
  share_recursive_lock, share_recursive_lock_with_object, Body, done, call, call_super, share,
  share_with, run_body,
}

-- How many of the objects have the lock `y`.
abbrev pub holders : (lock_of : ObjectId → ObjectId) → (y : ObjectId) → List ObjectId → ℕ
holders lock_of y [] = 0
holders lock_of y (x ∷ xs) = hit (lock_of x) y + holders lock_of y xs

holders_same :
    (f : ObjectId → ObjectId) (self lock y : ObjectId) (xs : List ObjectId)
    → times self xs ≡ 0
    → holders (update f self lock) y xs ≡ holders f y xs
holders_same f self lock y [] h = refl
holders_same f self lock y (x ∷ xs) h =
    let differs : (self == x) ≡ false = ground (arith, h) in
    let rest = holders_same f self lock y xs (omega (arith, h)) in
    rw (update, differs) (ap (λ n. hit (f x) y + n) rest)

holders-update :
    (f : ObjectId → ObjectId) (self lock y : ObjectId) (xs : List ObjectId)
    → times self xs ≡ 1
    → holders (update f self lock) y xs + hit (f self) y ≡ holders f y xs + hit lock y
holders-update f self lock y [] h = absurd (omega (arith, h))
holders-update f self lock y (x ∷ xs) h = elim (Bool-cases (self == x)) [
  | inl same ↦
      let e : self ≡ x = (==_iff self x).0 same in
      let rest = holders_same f self lock y xs (ground (arith, h, e)) in
      let here : hit (f self) y ≡ hit (f x) y = ap (λ z. hit (f z) y) e in
      let there : hit (update f self lock x) y ≡ hit lock y = rw (update, same) refl in
      omega (arith, rest, here, there)
  | inr differs ↦
      let rest = holders-update f self lock y xs (ground (arith, h, differs)) in
      let there : hit (update f self lock x) y ≡ hit (f x) y = rw (update, differs) refl in
      omega (arith, rest, there)
]

-- The objects that get locks in the course of a method are listed once each.
abbrev pub Listed : List ObjectId → Body → Type 0
Listed xs done = Unit
Listed xs (call self found inner rest) = Listed xs inner × Listed xs rest
Listed xs (call_super self found inner rest) = Listed xs inner × Listed xs rest
Listed xs (share self lock rest) = (times self xs ≡ 1) × Listed xs rest
Listed xs (share_with self other rest) = (times self xs ≡ 1) × Listed xs rest

module _ (rm : RecursiveMutex) (thread : ℕ) (xs : List ObjectId) (y : ObjectId)
    (named : y ≢ nil) where
  -- From one store to the next, the lock `y` is retained as often as the objects that have it and
  -- its autoreleases become more.
  abbrev pub Conserves : Store rm → Store rm → Type 0
  Conserves s s' =
      holders s'.lock_of y xs + times y s'.autoreleased + times y s.retained
      ≡ holders s.lock_of y xs + times y s.autoreleased + times y s'.retained

  share_recursive_lock-Conserves :
      (self lock : ObjectId) (s : Store rm)
      → times self xs ≡ 1
      → Conserves s (share_recursive_lock rm thread self lock s)
  unfolding share_recursive_lock did_share_recursive_lock
  share_recursive_lock-Conserves self lock s once =
      let moved = holders-update s.lock_of self lock y xs once in
      let dropped : times y
            (if s.lock_of self == nil then s.autoreleased else s.lock_of self ∷ s.autoreleased)
          ≡ hit (s.lock_of self) y + times y s.autoreleased =
        pushed (s.lock_of self) s.autoreleased in
      let kept : times y (if lock == nil then s.retained else lock ∷ s.retained)
          ≡ hit lock y + times y s.retained =
        pushed lock s.retained in
      elim (Bool-cases (lock == s.lock_of self)) [
        | inl same ↦ rw (same) refl
        | inr differs ↦ rw (differs) (omega (arith, moved, dropped, kept))
      ]
    where
      pushed :
          (x : ObjectId) (l : List ObjectId)
          → times y (if x == nil then l else x ∷ l) ≡ hit x y + times y l
      pushed x l = elim (Bool-cases (x == nil)) [
        | inl none_there ↦
            let other : (x == y) ≡ false = ground (arith, none_there, named) in
            rw (none_there, other) (omega arith)
        | inr there ↦ rw (there) refl
      ]

  locking_forward-Conserves :
      (self : ObjectId) (invoke : Store rm → Store rm) (s : Store rm)
      → ((s' : Store rm) → Conserves s' (invoke s'))
      → Conserves s (locking_forward rm self invoke s)
        × Conserves s (locking_super_forward rm self invoke s)
  unfolding locking_forward locking_super_forward lock_if unlock_if
  locking_forward-Conserves self invoke s keeps = elim (Bool-cases (s.lock_of self == nil)) [
    | inl lockless ↦ rw (lockless) (keeps s, keeps s)
    | inr locked ↦
        let s1 : Store rm = on_mutex rm rm.lock (s.lock_of self) s in
        rw (locked) (keeps s1, keeps s1)
  ]

  call_method-Conserves :
      (self : ObjectId) (found : Option Descriptor) (invoke : Store rm → Store rm) (s : Store rm)
      → ((s' : Store rm) → Conserves s' (invoke s'))
      → Conserves s (call_method rm self found invoke s)
  unfolding call_method
  call_method-Conserves self found invoke s keeps = elim (Option-cases (thread_safe_method found)) [
    | inl locks ↦ rw (call_method, locks) ((locking_forward-Conserves self invoke s keeps).0)
    | inr (desc, e) ↦ rw (call_method, e) (keeps s)
  ]

  call_super_method-Conserves :
      (self : ObjectId) (found : Option Descriptor) (invoke : Store rm → Store rm) (s : Store rm)
      → ((s' : Store rm) → Conserves s' (invoke s'))
      → Conserves s (call_super_method rm self found invoke s)
  unfolding call_super_method
  call_super_method-Conserves self none invoke s keeps =
      (locking_forward-Conserves self invoke s keeps).1
  call_super_method-Conserves self (some desc) invoke s keeps = keeps s

  run_body-Conserves :
      (b : Body) (s : Store rm) → Listed xs b → Conserves s (run_body rm thread b s)
  unfolding run_body share_recursive_lock_with_object
  run_body-Conserves done s h = refl
  run_body-Conserves (call self found inner rest) s h =
      let s1 : Store rm = call_method rm self found (run_body rm thread inner) s in
      let before =
        call_method-Conserves self found (run_body rm thread inner) s
          (λ s'. run_body-Conserves inner s' h.0) in
      omega (arith, before, run_body-Conserves rest s1 h.1)
  run_body-Conserves (call_super self found inner rest) s h =
      let s1 : Store rm = call_super_method rm self found (run_body rm thread inner) s in
      let before =
        call_super_method-Conserves self found (run_body rm thread inner) s
          (λ s'. run_body-Conserves inner s' h.0) in
      omega (arith, before, run_body-Conserves rest s1 h.1)
  run_body-Conserves (share self lock rest) s h =
      let s1 : Store rm = share_recursive_lock rm thread self lock s in
      omega (arith, share_recursive_lock-Conserves self lock s h.0, run_body-Conserves rest s1 h.1)
  run_body-Conserves (share_with self other rest) s h =
      let lock : ObjectId = if other == nil then nil else s.lock_of other in
      let s1 : Store rm = share_recursive_lock rm thread self lock s in
      omega (arith, share_recursive_lock-Conserves self lock s h.0, run_body-Conserves rest s1 h.1)

  -- If a lock has been retained once for each listed object that has it and once for each time that
  -- it was autoreleased, so it has after any method that gives locks only to listed objects. An object
  -- stands in the list once.
  pub run_body-references :
      (b : Body) (s : Store rm)
      → Listed xs b
      → times y s.retained ≡ holders s.lock_of y xs + times y s.autoreleased
      → times y (run_body rm thread b s).retained
        ≡ holders (run_body rm thread b s).lock_of y xs
          + times y (run_body rm thread b s).autoreleased
  run_body-references b s h balanced = omega (arith, run_body-Conserves b s h, balanced)
