-- ===== src/Singleton.antt =====
-- src/protocol/MulleObjCSingleton.m: creating the shared instance of a class, by any number of
-- threads at once. The class that keeps the instance belongs to the runtime.
pub mod Balance
pub mod Agree
mod Examples
use mulle_obj_c.Base.{ℕ, suc, Bool, true, false, List, [], ◌∷◌, ◌++◌, ◌≡◌, ◌≢◌, ◌==◌, if◌then◌else◌}
use mulle_obj_c.Array.{ObjectId, nil}

-- `_mulle_objc_infraclass_get_singleton` and `_mulle_objc_infraclass_set_singleton`
pub record Infraclass : Type 1 where
  pub Class : Type 0
  pub get_singleton : Class → ObjectId
  pub set_singleton : Class → ObjectId → Bool × Class

-- The setter is a compare and swap that succeeds if there is no instance yet.
pub record InfraclassLaws (ic : Infraclass) : Type 0 where
  pub set_first :
      (k : ic.Class) (x : ObjectId)
      → ic.get_singleton k ≡ nil
      → ((ic.set_singleton k x).0 ≡ true) × (ic.get_singleton (ic.set_singleton k x).1 ≡ x)
  pub set_again :
      (k : ic.Class) (x : ObjectId)
      → ic.get_singleton k ≢ nil
      → ((ic.set_singleton k x).0 ≡ false)
        × (ic.get_singleton (ic.set_singleton k x).1 ≡ ic.get_singleton k)

-- Where a thread stands in `MulleObjCSingletonCreate`, with the instance it holds.
pub data Stage : Type 0 where
  entering : Stage
  reading : Stage
  creating : Stage
  setting : ObjectId → Stage
  constantifying : ObjectId → Stage
  releasing : ObjectId → Stage
  returned : ObjectId → Stage

-- What the threads share: the class, whether the universe is deinitializing, how many instances
-- there are, and which of them were released and made constant.
pub record Shared (ic : Infraclass) : Type 0 where
  pub class : ic.Class
  pub deinitializing : Bool
  pub created : ℕ
  pub released : List ObjectId
  pub constants : List ObjectId

abbrev pub all_entering : ℕ → List Stage
all_entering ℕ.zero = []
all_entering (suc n) = entering ∷ all_entering n

module _ (ic : Infraclass) where
  -- The next step of a thread, up to the next access to what the threads share. Singletons are not
  -- ephemeral, and `MulleObjCSingletonNew` gives instances the numbers from 1 on.
  unfoldable pub advance : Shared ic → Stage → Shared ic × Stage
  advance s entering = (s, if s.deinitializing then returned nil else reading)
  advance s reading =
      let singleton : ObjectId = ic.get_singleton s.class in
      (s, if singleton == nil then creating else returned singleton)
  advance s creating = (record s { created = suc s.created }, setting (suc s.created))
  advance s (setting singleton) =
      let (success, class') = ic.set_singleton s.class singleton in
      (
        record s { class = class' },
        if success then constantifying singleton else releasing singleton,
      )
  advance s (constantifying singleton) =
      (record s { constants = singleton ∷ s.constants }, returned singleton)
  advance s (releasing singleton) = (record s { released = singleton ∷ s.released }, reading)
  advance s (returned singleton) = (s, returned singleton)

  -- A call by a thread that is alone, in at most `fuel` steps
  unfoldable pub run : (fuel : ℕ) → Shared ic → Stage → Shared ic × Stage
  run ℕ.zero s stage = (s, stage)
  run (suc fuel) s stage = let (s', stage') = advance s stage in run fuel s' stage'

  -- `MulleObjCSingletonCreate`
  unfoldable pub singleton_create : Shared ic → Shared ic × Stage
  singleton_create s = run 5 s entering

  -- The threads' calls, interleaved in any order, while the universe may begin to deinitialize.
  pub data Step : (Shared ic × List Stage) → (Shared ic × List Stage) → Type 0 where
    thread :
        (s : Shared ic) (before : List Stage) (stage : Stage) (after : List Stage)
        → Step
            (s, before ++ (stage ∷ after))
            ((advance s stage).0, before ++ ((advance s stage).1 ∷ after))
    deinitialize :
        (s : Shared ic) (stages : List Stage)
        → Step (s, stages) (record s { deinitializing = true }, stages)

  -- `n` threads are about to call, and the class `k` has no instance.
  abbrev pub start_of : ic.Class → ℕ → Shared ic × List Stage
  start_of k n = (
    record { class = k; deinitializing = false; created = 0; released = []; constants = [] },
    all_entering n,
  )

  pub data Reach (k : ic.Class) (n : ℕ) : (Shared ic × List Stage) → Type 0 where
    start : Reach k n (start_of k n)
    next : {t t' : Shared ic × List Stage} → Reach k n t → Step t t' → Reach k n t'
