-- ===== src/Lock/Deadline.antt =====
-- src/class/NSLock.m: waiting for a lock up to a point in time.
use mathlib.Core.Path.{subst}
use mulle_obj_c.Base.{
  ℕ, zero, suc, ◌+◌, ◌<◌, ◌≤◌, ◌≡◌, ◌⊎◌, inl, inr, refl, Bool, true, false, leb, arith,
}
use mulle_obj_c.Lock.{Mutexes, returns, ebusy, lock_try_lock, lock_before_time_interval}

shift : (n k : ℕ) → n + suc k ≡ suc n + k
shift n k = omega arith

module _ (mu : Mutexes) (now : ℕ → ℕ) (others : ℕ → mu.Mutex → mu.Mutex) where
  -- The mutex after `i` attempts, the first of them in round `n`
  abbrev pub after : (n : ℕ) → mu.Mutex → (i : ℕ) → mu.Mutex
  after n m zero = m
  after n m (suc i) = after (suc n) (mu.trylock (others n m)).1 i

  -- What the attempt of round `n + i` returns
  abbrev pub code : (n : ℕ) → mu.Mutex → (i : ℕ) → ℕ
  code n m zero = (mu.trylock (others n m)).0
  code n m (suc i) = code (suc n) (mu.trylock (others n m)).1 i

  abbrev pub AllBusy : (n : ℕ) → mu.Mutex → (k : ℕ) → Type 0
  AllBusy n m k = (i : ℕ) → i < k → code n m i ≡ ebusy

  -- NO, after all attempts failed, or YES, with the first attempt that did not
  abbrev pub Waited : (n : ℕ) → mu.Mutex → (k : ℕ) → Bool × mu.Mutex → Type 0
  Waited n m k (locked, m') =
      ((locked ≡ false) × ((m' ≡ after n m k) × AllBusy n m k))
      ⊎ ((locked ≡ true)
          × ((i : ℕ) × (i < k) × (m' ≡ after n m (suc i)) × (code n m i ≡ 0) × AllBusy n m i))

  busy-first :
      (n : ℕ) (m : mu.Mutex) (k : ℕ)
      → (mu.trylock (others n m)).0 ≡ ebusy
      → AllBusy (suc n) (mu.trylock (others n m)).1 k
      → AllBusy n m (suc k)
  busy-first n m k first rest zero lt = first
  busy-first n m k first rest (suc i) lt = rest i (omega (arith, lt))

  Waited-later :
      (n : ℕ) (m : mu.Mutex) (k : ℕ) (result : Bool × mu.Mutex)
      → (mu.trylock (others n m)).0 ≡ ebusy
      → Waited (suc n) (mu.trylock (others n m)).1 k result
      → Waited n m (suc k) result
  Waited-later n m k result first h = elim h [
    | inl (e, (same, busy)) ↦ inl (e, (same, busy-first n m k first busy))
    | inr (e, (i, lt, same, got, busy)) ↦
        inr (e, (suc i, omega (arith, lt), same, got, busy-first n m i first busy))
  ]

  -- Let the clock reach the time for the first time when it is read in round `n + k`, and let an
  -- attempt to lock return 0 or EBUSY, as mulle-thread documents it. `-lockBeforeTimeInterval:`
  -- then returns, in no more than k + 1 rounds: YES with the first attempt that locks, or NO when
  -- all `k` attempts before that time have failed, whatever other threads do with the mutex between
  -- the attempts.
  pub lock_before_time_interval-Waited :
      ((m : mu.Mutex) → ((mu.trylock m).0 ≡ 0) ⊎ ((mu.trylock m).0 ≡ ebusy))
      → (time_interval fuel k n : ℕ) (m : mu.Mutex) → k < fuel
      → time_interval ≤ now (n + k)
      → ((i : ℕ) → i < k → now (n + i) < time_interval)
      → (result : Bool × mu.Mutex) × ((lock_before_time_interval mu now others time_interval fuel n
              m
            ≡ returns result)
          × Waited n m k result)
  unfolding lock_before_time_interval lock_try_lock
  lock_before_time_interval-Waited codes time_interval zero k n m enough late early =
      absurd (omega (arith, enough))
  lock_before_time_interval-Waited codes time_interval (suc fuel) zero n m enough late early =
      let reached : leb time_interval (now n) ≡ true = ground (arith, late) in
      ((false, m), (rw (reached) refl, inl (refl, (refl, λ i lt. absurd (omega (arith, lt))))))
  lock_before_time_interval-Waited codes time_interval (suc fuel) (suc k) n m enough late early =
      let not_yet : leb time_interval (now n) ≡ false = ground (arith, early 0 (omega arith)) in
      elim (codes (others n m)) [
        | inl got ↦ (
          (true, (mu.trylock (others n m)).1),
          (
            rw (not_yet, got) refl,
            inr (refl, (0, omega arith, refl, got, λ i lt. absurd (omega (arith, lt)))),
          ),
        )
        | inr busy ↦
            let (result, rest) =
              lock_before_time_interval-Waited codes time_interval fuel k (suc n)
                (mu.trylock (others n m)).1 (omega (arith, enough))
                (subst (λ j. time_interval ≤ now j) (shift n k) late)
                (λ i lt.
                  subst (λ j. now j < time_interval) (shift n i)
                    (early (suc i) (omega (arith, lt)))) in
            (result, (rw (not_yet, busy) rest.0, Waited-later n m k result busy rest.1))
      ]
