-- ===== src/Lock/Examples.antt =====
-- A mutex that another thread frees before the second attempt, and the theorem at it.
use mulle_obj_c.Base.{
  ℕ, ◌+◌, ◌-◌, ◌≡◌, ◌⊎◌, inl, inr, refl, Bool, true, false, ◌==◌, if◌then◌else◌, arith,
}
use mulle_obj_c.Lock.{
  Mutexes, returns, ebusy, lock_init, lock_before_time_interval, recursive_lock_lock,
  recursive_lock_get_locking_depth,
}
use mulle_obj_c.Lock.Deadline.{Waited, lock_before_time_interval-Waited}

-- A mutex is whether it is locked, a recursive one its depth.
abbrev flags : Mutexes
flags = record {
  Mutex = Bool;
  init = (0, false);
  done = λ m. m;
  lock = λ m. (0, true);
  unlock = λ m. (0, false);
  trylock = λ m. if m then (ebusy, true) else (0, true);
  Recursive = ℕ;
  recursive_init = 0;
  recursive_done = λ m. m;
  recursive_lock = λ m. m + 1;
  recursive_unlock = λ m. m - 1;
  recursive_trylock = λ m. (0, m + 1);
  recursive_depth = λ m. m;
}

abbrev freed : ℕ → Bool → Bool
freed n m = if n == 1 then false else m

flags_codes : (m : Bool) → ((flags.trylock m).0 ≡ 0) ⊎ ((flags.trylock m).0 ≡ ebusy)
flags_codes true = inr refl
flags_codes false = inl refl

fresh_lock : lock_init flags ≡ returns false
unfolding lock_init
fresh_lock = refl

twice_deep : recursive_lock_get_locking_depth flags (recursive_lock_lock flags 1) ≡ 2
unfolding recursive_lock_get_locking_depth recursive_lock_lock
twice_deep = refl

lock_before_time_interval-Waited_example :
    (result : Bool × Bool) × ((lock_before_time_interval flags (λ n. n) freed 3 4 0 true
        ≡ returns result)
      × Waited flags (λ n. n) freed 0 true 3 result)
lock_before_time_interval-Waited_example =
    lock_before_time_interval-Waited flags (λ n. n) freed flags_codes 3 4 3 0 true (omega arith)
      (omega arith) (λ i lt. omega (arith, lt))
