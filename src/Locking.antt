-- ===== src/Locking.antt =====
-- src/class/MulleObject.m: objects that lock themselves around their methods, seen by the thread
-- that makes the calls. The recursive mutex of mulle-thread is a parameter.
pub mod Depth
pub mod Affinity
pub mod References
mod Examples
use mulle_obj_c.Base.{
  ℕ, suc, ◌-◌, Bool, true, false, not, Option, none, some, List, [], ◌∷◌, ◌≡◌, ◌==◌, if◌then◌else◌,
  update,
}
use mulle_obj_c.Array.{ObjectId, nil}

-- `mulle_thread_recursive_mutex_t` with the calls on it; a `try_lock` that gives true has locked.
pub record RecursiveMutex : Type 1 where
  pub Mutex : Type 0
  pub lock : Mutex → Mutex
  pub unlock : Mutex → Mutex
  pub try_lock : Mutex → Bool × Mutex
  pub depth : Mutex → ℕ

-- A lock that returned has made the depth of the caller's locking one more, an unlock one less. A
-- try that gives true has locked.
pub record MutexLaws (rm : RecursiveMutex) : Type 0 where
  pub depth-lock : (m : rm.Mutex) → rm.depth (rm.lock m) ≡ suc (rm.depth m)
  pub depth-unlock : (m : rm.Mutex) → rm.depth (rm.unlock m) ≡ rm.depth m - 1
  pub depth-try_lock :
      (m : rm.Mutex) → (rm.try_lock m).0 ≡ true → rm.depth (rm.try_lock m).1 ≡ suc (rm.depth m)

-- The method families that the choice of a method tells apart.
pub data Family : Type 0 where
  init_family : Family
  dealloc_family : Family
  other_family : Family

pub record Descriptor : Type 0 where
  pub is_threadaffine : Bool
  pub family : Family

-- The locks of objects, by number with nil for none, what is left of the objects' memory, and the
-- locks themselves: their state, how often they were retained, and which were autoreleased. A
-- thread id of 0 says that the object is threadsafe.
pub record Store (rm : RecursiveMutex) : Type 0 where
  pub lock_of : ObjectId → ObjectId
  pub thread_id_of : ObjectId → ℕ
  pub mutex : ObjectId → rm.Mutex
  pub retained : List ObjectId
  pub autoreleased : List ObjectId

-- `is_a_locking_descriptor`
unfoldable pub is_a_locking_descriptor : Descriptor → Bool
is_a_locking_descriptor desc =
    if not desc.is_threadaffine
    then false
    else elim desc.family [ init_family ↦ false | dealloc_family ↦ false | other_family ↦ true ]

-- `threadSafeMethodForSelector_noforward` on what the search of the class gave
unfoldable pub thread_safe_method : Option Descriptor → Option Descriptor
thread_safe_method none = none
thread_safe_method (some desc) = if is_a_locking_descriptor desc then none else some desc

module _ (rm : RecursiveMutex) where
  abbrev pub on_mutex : (rm.Mutex → rm.Mutex) → ObjectId → Store rm → Store rm
  on_mutex f lock s = record s { mutex = update s.mutex lock (f (s.mutex lock)) }

  -- `if( lock) _MulleObjCRecursiveLockLock( lock);`
  unfoldable pub lock_if : (lock : ObjectId) → Store rm → Store rm
  lock_if lock s = if lock == nil then s else on_mutex rm.lock lock s

  unfoldable pub unlock_if : (lock : ObjectId) → Store rm → Store rm
  unlock_if lock s = if lock == nil then s else on_mutex rm.unlock lock s

  -- `_MulleObjectLock`, `_MulleObjectUnlock` and `_MulleObjectTryLock`
  unfoldable pub object_lock : (self : ObjectId) → Store rm → Store rm
  object_lock self s = lock_if (s.lock_of self) s

  unfoldable pub object_unlock : (self : ObjectId) → Store rm → Store rm
  object_unlock self s = unlock_if (s.lock_of self) s

  unfoldable pub object_try_lock : (self : ObjectId) → Store rm → Bool × Store rm
  object_try_lock self s =
      let lock : ObjectId = s.lock_of self in
      let (locked, m) = rm.try_lock (s.mutex lock) in
      if lock == nil then (false, s) else (locked, record s { mutex = update s.mutex lock m })

  -- -__lockingForward: and -__lockingSuperForward:, where `invoke` is the method. The lock is read
  -- once.
  unfoldable pub locking_forward :
      (self : ObjectId) → (invoke : Store rm → Store rm) → Store rm → Store rm
  locking_forward self invoke s =
      let lock : ObjectId = s.lock_of self in unlock_if lock (invoke (lock_if lock s))

  unfoldable pub locking_super_forward :
      (self : ObjectId) → (invoke : Store rm → Store rm) → Store rm → Store rm
  locking_super_forward self invoke s =
      let lock : ObjectId = s.lock_of self in unlock_if lock (invoke (lock_if lock s))

  -- A call through the cache that `_MulleObjectRefreshMethodNofail` fills
  unfoldable pub call_method :
      (self : ObjectId)
      → (found : Option Descriptor) → (invoke : Store rm → Store rm) → Store rm
      → Store rm
  call_method self found invoke s = elim (thread_safe_method found) [
    | none ↦ locking_forward self invoke s
    | some desc ↦ invoke s
  ]

  -- The same with `_MulleObjectRefreshSuperMethodNofail`
  unfoldable pub call_super_method :
      (self : ObjectId)
      → (found : Option Descriptor) → (invoke : Store rm → Store rm) → Store rm
      → Store rm
  call_super_method self found invoke s = elim found [
    | none ↦ locking_super_forward self invoke s
    | some desc ↦ invoke s
  ]

  module _ (thread : ℕ) where
    -- -didShareRecursiveLock:
    unfoldable pub did_share_recursive_lock : (self lock : ObjectId) → Store rm → Store rm
    did_share_recursive_lock self lock s = record s {
      thread_id_of = update s.thread_id_of self (if lock == nil then thread else 0);
    }

    -- -shareRecursiveLock:, where nil is neither retained nor autoreleased
    unfoldable pub share_recursive_lock : (self lock : ObjectId) → Store rm → Store rm
    share_recursive_lock self lock s =
        let old : ObjectId = s.lock_of self in
        if lock == old
        then s
        else did_share_recursive_lock self lock (record s {
          lock_of = update s.lock_of self lock;
          autoreleased = if old == nil then s.autoreleased else old ∷ s.autoreleased;
          retained = if lock == nil then s.retained else lock ∷ s.retained;
        })

    -- -shareRecursiveLockWithObject:
    unfoldable pub share_recursive_lock_with_object : (self other : ObjectId) → Store rm → Store rm
    share_recursive_lock_with_object self other s =
        share_recursive_lock self (if other == nil then nil else s.lock_of other) s

-- What a method does, as far as locks are concerned: nothing more, a call of a method or a super
-- method with what that one does, or sharing of a lock.
pub data Body : Type 0 where
  done : Body
  call : (self : ObjectId) → (found : Option Descriptor) → (inner rest : Body) → Body
  call_super : (self : ObjectId) → (found : Option Descriptor) → (inner rest : Body) → Body
  share : (self lock : ObjectId) → (rest : Body) → Body
  share_with : (self other : ObjectId) → (rest : Body) → Body

module _ (rm : RecursiveMutex) (thread : ℕ) where
  unfoldable pub run_body : Body → Store rm → Store rm
  run_body done s = s
  run_body (call self found inner rest) s =
      run_body rest (call_method rm self found (run_body inner) s)
  run_body (call_super self found inner rest) s =
      run_body rest (call_super_method rm self found (run_body inner) s)
  run_body (share self lock rest) s = run_body rest (share_recursive_lock rm thread self lock s)
  run_body (share_with self other rest) s =
      run_body rest (share_recursive_lock_with_object rm thread self other s)
