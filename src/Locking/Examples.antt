-- ===== src/Locking/Examples.antt =====
-- A view and its subview, with mutexes that are their depth, and the theorems at them.
use mulle_obj_c.Base.{
  ℕ, suc, ◌+◌, ◌-◌, ◌≡◌, refl, true, none, some, [], ◌∷◌, ◌==◌, if◌then◌else◌, arith, Bool-cases,
  inl, inr, times,
}
use mulle_obj_c.Array.{nil}
use mulle_obj_c.Locking.{
  RecursiveMutex, MutexLaws, other_family, Store, is_a_locking_descriptor, thread_safe_method,
  lock_if, unlock_if, locking_forward, call_method, call_super_method, did_share_recursive_lock,
  share_recursive_lock, share_recursive_lock_with_object, Body, done, call, call_super, share,
  share_with, run_body,
}
use mulle_obj_c.Locking.Depth.{run_body-depth}
use mulle_obj_c.Locking.References.{holders, run_body-references}
use mulle_obj_c.Locking.Affinity.{Tied}

abbrev rm : RecursiveMutex
rm = record {
  Mutex = ℕ;
  lock = λ m. suc m;
  unlock = λ m. m - 1;
  try_lock = λ m. (true, suc m);
  depth = λ m. m;
}

laws : MutexLaws rm
laws = record { depth-lock = λ m. refl; depth-unlock = λ m. refl; depth-try_lock = λ m e. refl }

-- The view 1 has the lock 11, and all the other objects have the lock 12.
abbrev views : Store rm
views = record {
  lock_of = λ x. if x == 1 then 11 else 12;
  thread_id_of = λ x. 0;
  mutex = λ l. 0;
  retained = [];
  autoreleased = [];
}

-- The view adds the subview 2, which shares the view's lock and calls a method of its own.
abbrev add_subview : Body
add_subview =
    call 2 none
      (call 1 none
        (share_with 2 1
          (call 2 (some (record { is_threadaffine = true; family = other_family })) done done))
        done)
      (call_super 1 (some (record { is_threadaffine = true; family = other_family }))
        (share 3 nil done) done)

-- While the view's method is running, both locks are locked once.
inside : (lock_if rm 11 (lock_if rm 12 views)).mutex 12 ≡ 1
unfolding lock_if
inside = refl

shared : (run_body rm 7 add_subview views).lock_of 2 ≡ 11
unfolding run_body call_method call_super_method thread_safe_method is_a_locking_descriptor
    locking_forward lock_if unlock_if share_recursive_lock did_share_recursive_lock
    share_recursive_lock_with_object
shared = refl

run_body-depth_example :
    rm.depth ((run_body rm 7 add_subview views).mutex 12) ≡ rm.depth (views.mutex 12)
run_body-depth_example = run_body-depth rm laws 7 add_subview views 12

tied : Tied rm views
tied x = elim (Bool-cases (x == 1)) [
  | inl one ↦ rw (one) ((λ e. absurd (omega (arith, e))), (λ h. absurd (h refl)))
  | inr other ↦ rw (other) ((λ e. absurd (omega (arith, e))), (λ h. absurd (h refl)))
]

-- The same views with their references to the locks
abbrev counted : Store rm
counted = record views { retained = 11 ∷ 12 ∷ 12 ∷ [] }

run_body-references_example :
    times 12 (run_body rm 7 add_subview counted).retained
    ≡ holders (run_body rm 7 add_subview counted).lock_of 12 (1 ∷ 2 ∷ 3 ∷ [])
      + times 12 (run_body rm 7 add_subview counted).autoreleased
run_body-references_example =
    run_body-references rm 7 (1 ∷ 2 ∷ 3 ∷ []) 12 (λ e. absurd (omega (arith, e))) add_subview
      counted (((refl, (tt, tt)), tt), ((refl, tt), tt)) refl
