-- ===== src/Lock.antt =====
-- src/class/NSLock.m, NSLock-Private.h and NSRecursiveLock-Private.h: locks over the mutexes of
-- mulle-thread.
pub mod Deadline
mod Examples
use mulle_obj_c.Base.{ℕ, zero, suc, Bool, true, false, ◌==◌, leb, if◌then◌else◌}

-- mulle-thread: a mutex, with the numbers that its functions return. The recursive mutex tells the
-- depth to which it is locked.
pub record Mutexes : Type 1 where
  pub Mutex : Type 0
  pub init : ℕ × Mutex
  pub done : Mutex → Mutex
  pub lock : Mutex → ℕ × Mutex
  pub unlock : Mutex → ℕ × Mutex
  pub trylock : Mutex → ℕ × Mutex
  pub Recursive : Type 0
  pub recursive_init : Recursive
  pub recursive_done : Recursive → Recursive
  pub recursive_lock : Recursive → Recursive
  pub recursive_unlock : Recursive → Recursive
  pub recursive_trylock : Recursive → ℕ × Recursive
  pub recursive_depth : Recursive → ℕ

abbrev pub ebusy : ℕ
ebusy = 16

pub data Outcome (A : Type 0) : Type 0 where
  returns : A → Outcome A
  aborts : Outcome A
  out_of_fuel : Outcome A

module _ (mu : Mutexes) where
  unfoldable pub lock_init : Outcome mu.Mutex
  lock_init = let (rval, mutex) = mu.init in if rval == 0 then returns mutex else aborts

  unfoldable pub lock_done : mu.Mutex → mu.Mutex
  lock_done self = mu.done self

  unfoldable pub lock_lock : mu.Mutex → mu.Mutex
  lock_lock self = (mu.lock self).1

  unfoldable pub lock_unlock : mu.Mutex → mu.Mutex
  lock_unlock self = (mu.unlock self).1

  unfoldable pub lock_try_lock : mu.Mutex → Outcome (Bool × mu.Mutex)
  lock_try_lock self =
      let (rval, mutex) = mu.trylock self in
      if rval == 0
      then returns (true, mutex)
      else if rval == ebusy
      then returns (false, mutex)
      else aborts

  -- `-lockBeforeTimeInterval:`. The clock is read for the `n`th time at round `n`; before the attempt
  -- of a round other threads may have changed the mutex. Fuel counts the rounds.
  unfoldable pub lock_before_time_interval :
      (now : ℕ → ℕ)
      → (others : ℕ → mu.Mutex → mu.Mutex) → (time_interval : ℕ) → (fuel n : ℕ) → mu.Mutex
      → Outcome (Bool × mu.Mutex)
  lock_before_time_interval now others time_interval zero n self = out_of_fuel
  lock_before_time_interval now others time_interval (suc fuel) n self =
      if leb time_interval (now n)
      then returns (false, self)
      else elim (lock_try_lock (others n self)) [
        | returns (locked, mutex) ↦
            let rest = lock_before_time_interval now others time_interval fuel (suc n) mutex in
            if locked then returns (true, mutex) else rest
        | aborts ↦ aborts
        | out_of_fuel ↦ out_of_fuel
      ]

  unfoldable pub recursive_lock_init : mu.Recursive
  recursive_lock_init = mu.recursive_init

  unfoldable pub recursive_lock_done : mu.Recursive → mu.Recursive
  recursive_lock_done self = mu.recursive_done self

  unfoldable pub recursive_lock_lock : mu.Recursive → mu.Recursive
  recursive_lock_lock self = mu.recursive_lock self

  unfoldable pub recursive_lock_unlock : mu.Recursive → mu.Recursive
  recursive_lock_unlock self = mu.recursive_unlock self

  unfoldable pub recursive_lock_try_lock : mu.Recursive → Bool × mu.Recursive
  recursive_lock_try_lock self = let (rval, mutex) = mu.recursive_trylock self in (rval == 0, mutex)

  unfoldable pub recursive_lock_get_locking_depth : mu.Recursive → ℕ
  recursive_lock_get_locking_depth self = mu.recursive_depth self
