-- ===== src/Condition.antt =====
-- src/class/NSConditionLock.m and NSCondition.m: a lock that threads take when a number, the
-- condition, has a value. Any number of threads use one lock.
pub mod Moves
pub mod Advance
pub mod Exclusive
mod Examples
use mulle_obj_c.Base.{
  ℕ, suc, Bool, true, false, Option, none, some, List, [], ◌∷◌, ◌++◌, ◌≡◌, ◌==◌, if◌then◌else◌,
}

-- mulle-thread: a mutex, and what waits on a condition variable. A call of `mulle_thread_mutex_lock`
-- and the end of `mulle_thread_cond_wait` take the mutex (`take`) when nobody holds it. A wait may
-- end at any time.
pub record Monitor : Type 1 where
  pub Mutex : Type 0
  pub is_held : Mutex → Bool
  pub take : Mutex → Mutex
  pub give : Mutex → Mutex
  pub Waiters : Type 0
  pub signal : Waiters → Waiters
  pub broadcast : Waiters → Waiters

pub record MonitorLaws (mo : Monitor) : Type 0 where
  pub is_held-take : (m : mo.Mutex) → mo.is_held m ≡ false → mo.is_held (mo.take m) ≡ true
  pub is_held-give : (m : mo.Mutex) → mo.is_held m ≡ true → mo.is_held (mo.give m) ≡ false

-- The lock: NSCondition's instance variables and `_currentCondition`
pub record Lock (mo : Monitor) : Type 0 where
  pub mutex : mo.Mutex
  pub waiters : mo.Waiters
  pub is_locked : Bool
  pub condition : ℕ

-- What a thread that took the lock has found out of the condition
pub data Known : Type 0 where
  nothing : Known
  equals : (value : ℕ) → Known
  differs : (value : ℕ) → Known

-- A call of a method, and where it stands: before it takes the lock, when it has it and reads
-- the condition, in -wait, before it unlocks after a try that failed; and between calls, `idle` and
-- `holding`; and in a method that unlocks, before the write of the condition, the signal, and the
-- unlock.
pub data Request : Type 0 where
  lock_request : Request
  try_request : Request
  when_request : (value : ℕ) → Request
  unless_request : (value : ℕ) → Request
  try_when_request : (value : ℕ) → Request
  try_unless_request : (value : ℕ) → Request
  unlock_request : Request
  unlock_with_request : (value : ℕ) → Request
  unlock_with_broadcast_request : (value : ℕ) → (broadcasts : Bool) → Request

abbrev pub unlocks : Request → Bool
unlocks unlock_request = true
unlocks (unlock_with_request value) = true
unlocks (unlock_with_broadcast_request value broadcasts) = true
unlocks _ = false

pub data Stage : Type 0 where
  idle : Stage
  entering : Stage
  checking : Stage
  sleeping : Stage
  declining : Stage
  holding : Known → Stage
  leaving : Stage
  signalling : Stage
  releasing : Stage

module _ (mo : Monitor) where
  -- `-[NSCondition lock]`, and the second half of `-[NSCondition wait]`; `none` while it blocks
  unfoldable pub lock : Lock mo → Option (Lock mo)
  lock s =
      if mo.is_held s.mutex
      then none
      else some (record s { mutex = mo.take s.mutex; is_locked = true })

  -- `-[NSCondition unlock]`
  unfoldable pub unlock : Lock mo → Lock mo
  unlock s = record s { is_locked = false; mutex = mo.give s.mutex }

  -- `-[NSCondition tryLock]`; an error of the mutex other than EBUSY ends the program
  unfoldable pub try_lock : Lock mo → Bool × Lock mo
  try_lock s =
      if mo.is_held s.mutex
      then (false, s)
      else (true, record s { mutex = mo.take s.mutex; is_locked = true })

  -- `-[NSCondition wait]`, until the mutex is given back
  unfoldable pub begin_wait : Lock mo → Lock mo
  begin_wait s = record s { is_locked = false; mutex = mo.give s.mutex }

  -- `-[NSCondition wait]`, from where the mutex is taken again
  unfoldable pub end_wait : Lock mo → Option (Lock mo)
  end_wait s = lock s

  -- `-[NSCondition signal]` and `-[NSCondition broadcast]`
  unfoldable pub signal : Lock mo → Lock mo
  signal s = record s { waiters = mo.signal s.waiters }

  unfoldable pub broadcast : Lock mo → Lock mo
  broadcast s = record s { waiters = mo.broadcast s.waiters }

  abbrev pub arrive : Stage → Option (Lock mo) → Option (Lock mo × Stage)
  arrive stage none = none
  arrive stage (some s) = some (s, stage)

  -- `-[NSConditionLock lockWhenCondition:]`, step by step; `none` while it blocks
  unfoldable pub lock_when_condition : (value : ℕ) → Lock mo → Stage → Option (Lock mo × Stage)
  lock_when_condition value s entering = arrive checking (lock s)
  lock_when_condition value s checking =
      if value == s.condition
      then some (s, holding (equals value))
      else some (begin_wait s, sleeping)
  lock_when_condition value s sleeping = arrive checking (end_wait s)
  lock_when_condition value s stage = none

  -- `-[NSConditionLock mulleLockWhenNotCondition:]`
  unfoldable pub lock_when_not_condition : (value : ℕ) → Lock mo → Stage → Option (Lock mo × Stage)
  lock_when_not_condition value s entering = arrive checking (lock s)
  lock_when_not_condition value s checking =
      if value == s.condition
      then some (begin_wait s, sleeping)
      else some (s, holding (differs value))
  lock_when_not_condition value s sleeping = arrive checking (end_wait s)
  lock_when_not_condition value s stage = none

  abbrev pub tried : (yes_stage : Stage) → Bool × Lock mo → Option (Lock mo × Stage)
  tried yes_stage t = some (t.1, if t.0 then yes_stage else idle)

  -- `-[NSConditionLock tryLockWhenCondition:]`; it is `idle` after a NO
  unfoldable pub try_lock_when_condition : (value : ℕ) → Lock mo → Stage → Option (Lock mo × Stage)
  try_lock_when_condition value s entering = tried checking (try_lock s)
  try_lock_when_condition value s checking =
      some (s, if value == s.condition then holding (equals value) else declining)
  try_lock_when_condition value s declining = some (unlock s, idle)
  try_lock_when_condition value s stage = none

  -- `-[NSConditionLock mulleTryLockWhenNotCondition:]`
  unfoldable pub try_lock_when_not_condition :
      (value : ℕ) → Lock mo → Stage → Option (Lock mo × Stage)
  try_lock_when_not_condition value s entering = tried checking (try_lock s)
  try_lock_when_not_condition value s checking =
      some (s, if value == s.condition then declining else holding (differs value))
  try_lock_when_not_condition value s declining = some (unlock s, idle)
  try_lock_when_not_condition value s stage = none

  -- `-[NSConditionLock mulleUnlockWithCondition:broadcast:]`
  unfoldable pub unlock_with_condition_broadcast :
      (value : ℕ) → (broadcasts : Bool) → Lock mo → Stage → Option (Lock mo × Stage)
  unlock_with_condition_broadcast value broadcasts s leaving =
      some (record s { condition = value }, signalling)
  unlock_with_condition_broadcast value broadcasts s signalling =
      some (if broadcasts then broadcast s else signal s, releasing)
  unlock_with_condition_broadcast value broadcasts s releasing = some (unlock s, idle)
  unlock_with_condition_broadcast value broadcasts s stage = none

  -- `-[NSConditionLock unlockWithCondition:]`
  unfoldable pub unlock_with_condition : (value : ℕ) → Lock mo → Stage → Option (Lock mo × Stage)
  unlock_with_condition value s leaving = some (record s { condition = value }, signalling)
  unlock_with_condition value s signalling = some (broadcast s, releasing)
  unlock_with_condition value s releasing = some (unlock s, idle)
  unlock_with_condition value s stage = none

  -- `-initWithCondition:`, on what `-[NSCondition init]` made
  unfoldable pub init_with_condition : (value : ℕ) → Lock mo → Lock mo
  init_with_condition value s = record s { condition = value }

  unfoldable pub advance : Request → Lock mo → Stage → Option (Lock mo × Stage)
  advance lock_request s entering = arrive (holding nothing) (lock s)
  advance try_request s entering = tried (holding nothing) (try_lock s)
  advance (when_request value) s stage = lock_when_condition value s stage
  advance (unless_request value) s stage = lock_when_not_condition value s stage
  advance (try_when_request value) s stage = try_lock_when_condition value s stage
  advance (try_unless_request value) s stage = try_lock_when_not_condition value s stage
  advance unlock_request s leaving = some (unlock s, idle)
  advance (unlock_with_request value) s stage = unlock_with_condition value s stage
  advance (unlock_with_broadcast_request value broadcasts) s stage =
      unlock_with_condition_broadcast value broadcasts s stage
  advance request s stage = none

  -- The threads' calls on one lock, interleaved in any order. A thread that does not have the lock
  -- may call a method that takes it, and one that has it a method that gives it back.
  pub data Step
      : (Lock mo × List (Request × Stage)) → (Lock mo × List (Request × Stage)) → Type 0 where
    thread :
        (s s' : Lock mo) (before : List (Request × Stage)) (request : Request)
        (stage stage' : Stage)
        → (after : List (Request × Stage)) → advance request s stage ≡ some (s', stage')
        → Step (s, before ++ ((request, stage) ∷ after)) (s', before ++ ((request, stage') ∷ after))
    begin_lock :
        (s : Lock mo) (before : List (Request × Stage)) (request request' : Request)
        → (after : List (Request × Stage)) → unlocks request' ≡ false
        → Step
            (s, before ++ ((request, idle) ∷ after))
            (s, before ++ ((request', entering) ∷ after))
    begin_unlock :
        (s : Lock mo) (before : List (Request × Stage)) (request request' : Request) (known : Known)
        → (after : List (Request × Stage)) → unlocks request' ≡ true
        → Step
            (s, before ++ ((request, holding known) ∷ after))
            (s, before ++ ((request', leaving) ∷ after))

  abbrev pub all_idle : ℕ → List (Request × Stage)
  all_idle ℕ.zero = []
  all_idle (suc n) = (lock_request, idle) ∷ all_idle n

  -- `n` threads that do nothing yet
  pub data Reach (s : Lock mo) (n : ℕ) : (Lock mo × List (Request × Stage)) → Type 0 where
    start : Reach s n (s, all_idle n)
    next : {t t' : Lock mo × List (Request × Stage)} → Reach s n t → Step t t' → Reach s n t'
