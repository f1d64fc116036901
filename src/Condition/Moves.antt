-- ===== src/Condition/Moves.antt =====
-- One step of a thread: who has the lock after it, and what is known of the condition.
use mulle_obj_c.Base.{
  ℕ, ◌+◌, ◌≡◌, ◌≢◌, ◌⊎◌, refl, true, false, Option, none, some, arith, inl, inr, Bool-cases, ==_iff,
  ◌==◌, if◌then◌else◌,
}
use mulle_obj_c.Condition.{
  Monitor, MonitorLaws, Lock, Known, nothing, equals, differs, Request, Stage, idle, entering,
  checking, sleeping, declining, holding, leaving, signalling, releasing, lock, unlock, try_lock,
  arrive, tried, begin_wait, end_wait, lock_when_condition, lock_when_not_condition,
  try_lock_when_condition, try_lock_when_not_condition,
}

-- 1 for a thread that has the lock
abbrev pub owns : Stage → ℕ
owns idle = 0
owns entering = 0
owns checking = 1
owns sleeping = 0
owns declining = 1
owns (holding known) = 1
owns leaving = 1
owns signalling = 1
owns releasing = 1

abbrev pub owns_of : Request × Stage → ℕ
owns_of t = owns t.1

-- What a thread that holds the lock found is so.
abbrev pub IsKnown : (condition : ℕ) → Known → Type 0
IsKnown condition nothing = Unit
IsKnown condition (equals value) = value ≡ condition
IsKnown condition (differs value) = value ≢ condition

abbrev pub Knows : (condition : ℕ) → Stage → Type 0
Knows condition (holding known) = IsKnown condition known
Knows condition idle = Unit
Knows condition entering = Unit
Knows condition checking = Unit
Knows condition sleeping = Unit
Knows condition declining = Unit
Knows condition leaving = Unit
Knows condition signalling = Unit
Knows condition releasing = Unit

pub Knows-outside : (condition : ℕ) (stage : Stage) → owns stage ≡ 0 → Knows condition stage
Knows-outside condition (holding known) e = absurd (omega (arith, e))
Knows-outside condition idle e = tt
Knows-outside condition entering e = tt
Knows-outside condition checking e = tt
Knows-outside condition sleeping e = tt
Knows-outside condition declining e = tt
Knows-outside condition leaving e = tt
Knows-outside condition signalling e = tt
Knows-outside condition releasing e = tt

module _ (mo : Monitor) (laws : MonitorLaws mo) where
  abbrev pub locked : Lock mo → ℕ
  locked s = if mo.is_held s.mutex then 1 else 0

  -- A step of a thread that has the lock if its stage says so
  abbrev pub Moves : Lock mo → Stage → Lock mo × Stage → Type 0
  Moves s stage t =
      (owns t.1 + locked s ≡ owns stage + locked t.0)
      × ((t.0.condition ≡ s.condition) ⊎ (owns stage ≡ 1))
      × (t.0.is_locked ≡ mo.is_held t.0.mutex)
      × Knows t.0.condition t.1

  abbrev pub Before : Lock mo → Stage → Type 0
  Before s stage = (owns stage ≡ 1 → mo.is_held s.mutex ≡ true) × (s.is_locked ≡ mo.is_held s.mutex)

  -- What may come of a step, none for a thread that waits
  abbrev pub Results : Lock mo → Stage → Option (Lock mo × Stage) → Type 0
  Results s stage none = Unit
  Results s stage (some t) = Moves s stage t

  pub lock-Results :
      (s : Lock mo) (stage stage' : Stage)
      → owns stage ≡ 0
      → owns stage' ≡ 1
      → ((condition : ℕ) → Knows condition stage')
      → Results s stage (arrive mo stage' (lock mo s))
  unfolding lock
  lock-Results s stage stage' out own knows = elim (Bool-cases (mo.is_held s.mutex)) [
    | inl held ↦ rw (held) tt
    | inr free ↦
        let taken = laws.is_held-take s.mutex free in
        let before : locked s ≡ 0 = rw (free) refl in
        rw (free, taken) (omega (arith, out, own, before), inl refl, refl, knows s.condition)
  ]

  pub try_lock-Results :
      (s : Lock mo) (stage stage' : Stage)
      → owns stage ≡ 0
      → owns stage' ≡ 1
      → s.is_locked ≡ mo.is_held s.mutex
      → ((condition : ℕ) → Knows condition stage')
      → Results s stage (tried mo stage' (try_lock mo s))
  unfolding try_lock
  try_lock-Results s stage stage' out own flag knows = elim (Bool-cases (mo.is_held s.mutex)) [
    | inl held ↦
        let busy : try_lock mo s ≡ (false, s) = rw (try_lock, held) refl in
        rw (busy) (omega (arith, out), inl refl, flag, tt)
    | inr free ↦
        let taken = laws.is_held-take s.mutex free in
        let before : locked s ≡ 0 = rw (free) refl in
        rw (free, taken) (omega (arith, out, own, before), inl refl, refl, knows s.condition)
  ]

  pub unlock-Moves :
      (s : Lock mo) (stage stage' : Stage)
      → owns stage ≡ 1
      → owns stage' ≡ 0
      → Before s stage
      → Moves s stage (unlock mo s, stage')
  unfolding unlock
  unlock-Moves s stage stage' own out (held, flag) =
      let given = laws.is_held-give s.mutex (held own) in
      let before : locked s ≡ 1 = rw (held own) refl in
      rw (given)
        (omega (arith, own, out, before), inl refl, refl, Knows-outside s.condition stage' out)

  pub when-Results :
      (value : ℕ) (s : Lock mo) (stage : Stage)
      → Before s stage
      → Results s stage (lock_when_condition mo value s stage)
  unfolding lock_when_condition end_wait begin_wait unlock
  when-Results value s idle h = tt
  when-Results value s entering h = lock-Results s entering checking refl refl (λ c. tt)
  when-Results value s checking h = elim (Bool-cases (value == s.condition)) [
    | inl same ↦ rw (same) (refl, inl refl, h.1, (==_iff _ _).0 same)
    | inr other ↦ rw (other) (unlock-Moves s checking sleeping refl refl h)
  ]
  when-Results value s sleeping h = lock-Results s sleeping checking refl refl (λ c. tt)
  when-Results value s declining h = tt
  when-Results value s (holding known) h = tt
  when-Results value s leaving h = tt
  when-Results value s signalling h = tt
  when-Results value s releasing h = tt

  pub unless-Results :
      (value : ℕ) (s : Lock mo) (stage : Stage)
      → Before s stage
      → Results s stage (lock_when_not_condition mo value s stage)
  unfolding lock_when_not_condition end_wait begin_wait unlock
  unless-Results value s idle h = tt
  unless-Results value s entering h = lock-Results s entering checking refl refl (λ c. tt)
  unless-Results value s checking h = elim (Bool-cases (value == s.condition)) [
    | inl same ↦ rw (same) (unlock-Moves s checking sleeping refl refl h)
    | inr other ↦ rw (other) (refl, inl refl, h.1, ground (arith, other))
  ]
  unless-Results value s sleeping h = lock-Results s sleeping checking refl refl (λ c. tt)
  unless-Results value s declining h = tt
  unless-Results value s (holding known) h = tt
  unless-Results value s leaving h = tt
  unless-Results value s signalling h = tt
  unless-Results value s releasing h = tt

  pub try_when-Results :
      (value : ℕ) (s : Lock mo) (stage : Stage)
      → Before s stage
      → Results s stage (try_lock_when_condition mo value s stage)
  unfolding try_lock_when_condition
  try_when-Results value s idle h = tt
  try_when-Results value s entering h = try_lock-Results s entering checking refl refl h.1 (λ c. tt)
  try_when-Results value s checking h = elim (Bool-cases (value == s.condition)) [
    | inl same ↦ rw (same) (refl, inl refl, h.1, (==_iff _ _).0 same)
    | inr other ↦ rw (other) (refl, inl refl, h.1, tt)
  ]
  try_when-Results value s sleeping h = tt
  try_when-Results value s declining h = unlock-Moves s declining idle refl refl h
  try_when-Results value s (holding known) h = tt
  try_when-Results value s leaving h = tt
  try_when-Results value s signalling h = tt
  try_when-Results value s releasing h = tt

  pub try_unless-Results :
      (value : ℕ) (s : Lock mo) (stage : Stage)
      → Before s stage
      → Results s stage (try_lock_when_not_condition mo value s stage)
  unfolding try_lock_when_not_condition
  try_unless-Results value s idle h = tt
  try_unless-Results value s entering h =
      try_lock-Results s entering checking refl refl h.1 (λ c. tt)
  try_unless-Results value s checking h = elim (Bool-cases (value == s.condition)) [
    | inl same ↦ rw (same) (refl, inl refl, h.1, tt)
    | inr other ↦ rw (other) (refl, inl refl, h.1, ground (arith, other))
  ]
  try_unless-Results value s sleeping h = tt
  try_unless-Results value s declining h = unlock-Moves s declining idle refl refl h
  try_unless-Results value s (holding known) h = tt
  try_unless-Results value s leaving h = tt
  try_unless-Results value s signalling h = tt
  try_unless-Results value s releasing h = tt
