-- ===== src/Atomic.antt =====
-- src/MulleObjCIntegralType.h: integers that several threads read and change without a lock. A
-- value is its bit pattern, of NSUInteger as of NSInteger.
pub mod Plain
pub mod Refine
pub mod Instance
mod Examples
use Prim.Native.Nat.{bit_and, bit_or}
use mulle_obj_c.Base.{
  ℕ, zero, suc, Bool, true, false, List, ◌∷◌, ◌++◌, ◌≡◌, ◌≢◌, ◌==◌, if◌then◌else◌,
}

-- mulle-thread: `_mulle_atomic_pointer_read` and `_mulle_atomic_pointer_cas`
pub record AtomicPointer : Type 1 where
  pub Pointer : Type 0
  pub read : Pointer → ℕ
  pub cas : Pointer → (value expect : ℕ) → Bool × Pointer

-- The compare and swap writes just if the pointer has the expected value, and says so.
pub record AtomicPointerLaws (ap : AtomicPointer) : Type 0 where
  pub cas_expected :
      (p : ap.Pointer) (value expect : ℕ)
      → ap.read p ≡ expect
      → ((ap.cas p value expect).0 ≡ true) × (ap.read (ap.cas p value expect).1 ≡ value)
  pub cas_changed :
      (p : ap.Pointer) (value expect : ℕ)
      → ap.read p ≢ expect
      → ((ap.cas p value expect).0 ≡ false) × (ap.read (ap.cas p value expect).1 ≡ ap.read p)

-- Where a thread stands in one of the functions: before the read, before the compare and swap with
-- the old value, or at the end with the result.
pub data Stage : Type 0 where
  reading : Stage
  swapping : (old : ℕ) → Stage
  returned : (result : ℕ) → Stage

abbrev pub ignored : Stage → Stage
ignored reading = reading
ignored (swapping old) = swapping old
ignored (returned result) = returned 0

module _ (ap : AtomicPointer) where
  -- The loop of the functions, up to the next access to the pointer. `new_of` gives the value to
  -- write for the old one.
  unfoldable pub attempt : (new_of : ℕ → ℕ) → ap.Pointer → Stage → ap.Pointer × Stage
  attempt new_of p reading =
      let old : ℕ = ap.read p in (p, if old == new_of old then returned old else swapping old)
  attempt new_of p (swapping old) =
      let (swapped, p') = ap.cas p (new_of old) old in
      (p', if swapped then returned old else reading)
  attempt new_of p (returned result) = (p, returned result)

  unfoldable pub fetch : ap.Pointer → Stage → ap.Pointer × Stage
  fetch p reading = (p, returned (ap.read p))
  fetch p (swapping old) = (p, swapping old)
  fetch p (returned result) = (p, returned result)

  -- `(void)` before a call of a function
  unfoldable pub without_result :
      (ap.Pointer → Stage → ap.Pointer × Stage) → ap.Pointer → Stage → ap.Pointer × Stage
  without_result f p (returned result) = (p, returned result)
  without_result f p reading = let (p', stage') = f p reading in (p', ignored stage')
  without_result f p (swapping old) = let (p', stage') = f p (swapping old) in (p', ignored stage')

  unfoldable pub ns_uinteger_atomic_get : ap.Pointer → Stage → ap.Pointer × Stage
  ns_uinteger_atomic_get p stage = fetch p stage

  unfoldable pub ns_uinteger_atomic_update : (value : ℕ) → ap.Pointer → Stage → ap.Pointer × Stage
  ns_uinteger_atomic_update value p stage = attempt (λ old. value) p stage

  unfoldable pub ns_uinteger_atomic_masked_or :
      (mask bits : ℕ) → ap.Pointer → Stage → ap.Pointer × Stage
  ns_uinteger_atomic_masked_or mask bits p stage =
      attempt (λ old. bit_or (bit_and old mask) bits) p stage

  unfoldable pub ns_uinteger_atomic_or : (bits : ℕ) → ap.Pointer → Stage → ap.Pointer × Stage
  ns_uinteger_atomic_or bits p stage = attempt (λ old. bit_or old bits) p stage

  unfoldable pub ns_uinteger_atomic_set : (value : ℕ) → ap.Pointer → Stage → ap.Pointer × Stage
  ns_uinteger_atomic_set value p stage = without_result (ns_uinteger_atomic_update value) p stage

  unfoldable pub ns_integer_atomic_get : ap.Pointer → Stage → ap.Pointer × Stage
  ns_integer_atomic_get p stage = fetch p stage

  unfoldable pub ns_integer_atomic_update : (value : ℕ) → ap.Pointer → Stage → ap.Pointer × Stage
  ns_integer_atomic_update value p stage = attempt (λ old. value) p stage

  unfoldable pub ns_integer_atomic_set : (value : ℕ) → ap.Pointer → Stage → ap.Pointer × Stage
  ns_integer_atomic_set value p stage = without_result (ns_integer_atomic_update value) p stage

-- A call of one of the functions
pub data Call : Type 0 where
  get_call : Call
  update_call : (value : ℕ) → Call
  masked_or_call : (mask bits : ℕ) → Call
  or_call : (bits : ℕ) → Call
  set_call : (value : ℕ) → Call
  signed_get_call : Call
  signed_update_call : (value : ℕ) → Call
  signed_set_call : (value : ℕ) → Call

module _ (ap : AtomicPointer) where
  unfoldable pub advance : Call → ap.Pointer → Stage → ap.Pointer × Stage
  advance get_call p stage = ns_uinteger_atomic_get ap p stage
  advance (update_call value) p stage = ns_uinteger_atomic_update ap value p stage
  advance (masked_or_call mask bits) p stage = ns_uinteger_atomic_masked_or ap mask bits p stage
  advance (or_call bits) p stage = ns_uinteger_atomic_or ap bits p stage
  advance (set_call value) p stage = ns_uinteger_atomic_set ap value p stage
  advance signed_get_call p stage = ns_integer_atomic_get ap p stage
  advance (signed_update_call value) p stage = ns_integer_atomic_update ap value p stage
  advance (signed_set_call value) p stage = ns_integer_atomic_set ap value p stage

  -- A call by a thread that is alone, in at most `fuel` steps
  unfoldable pub run : (fuel : ℕ) → Call → ap.Pointer → Stage → ap.Pointer × Stage
  run zero call p stage = (p, stage)
  run (suc fuel) call p stage = let (p', stage') = advance call p stage in run fuel call p' stage'

  -- The threads' calls on one pointer, interleaved in any order. New threads may come at any time.
  pub data Step
      : (ap.Pointer × List (Call × Stage)) → (ap.Pointer × List (Call × Stage)) → Type 0 where
    thread :
        (p : ap.Pointer) (before : List (Call × Stage)) (call : Call) (stage : Stage)
        → (after : List (Call × Stage))
        → Step
            (p, before ++ ((call, stage) ∷ after))
            ((advance call p stage).0, before ++ ((call, (advance call p stage).1) ∷ after))
    begin :
        (p : ap.Pointer) (call : Call) (threads : List (Call × Stage))
        → Step (p, threads) (p, (call, reading) ∷ threads)

  pub data Reach (p : ap.Pointer) : (ap.Pointer × List (Call × Stage)) → Type 0 where
    start : Reach p (p, List.[])
    next : {t t' : ap.Pointer × List (Call × Stage)} → Reach p t → Step t t' → Reach p t'
