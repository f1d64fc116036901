-- ===== src/Condition/Examples.antt =====
-- A thread waits until another one unlocks with condition 1, and the theorem at it.
use mulle_obj_c.Base.{ℕ, ◌+◌, ◌≡◌, refl, Bool, true, false, List, [], ◌∷◌, total}
use mulle_obj_c.Condition.{
  Monitor, MonitorLaws, Lock, equals, nothing, Request, lock_request, when_request,
  unlock_with_request, Stage, idle, entering, checking, sleeping, holding, leaving, signalling,
  releasing, lock, unlock, begin_wait, end_wait, broadcast, lock_when_condition,
  unlock_with_condition, advance, thread, begin_lock, begin_unlock, Reach, start, next,
}
use mulle_obj_c.Condition.Moves.{owns_of, Knows}
use mulle_obj_c.Condition.Exclusive.{Reach-one_holder}

-- A mutex says whether it is held, and the waiters are how often they were woken.
abbrev monitor : Monitor
monitor = record {
  Mutex = Bool;
  is_held = λ m. m;
  take = λ m. true;
  give = λ m. false;
  Waiters = ℕ;
  signal = λ n. n + 1;
  broadcast = λ n. n + 1;
}

monitor_laws : MonitorLaws monitor
monitor_laws = record { is_held-take = λ m e. refl; is_held-give = λ m e. refl }

abbrev fresh : Lock monitor
fresh = record { mutex = false; waiters = 0; is_locked = false; condition = 0 }

abbrev woken : Lock monitor
woken = record { mutex = true; waiters = 1; is_locked = true; condition = 1 }

abbrev two : List (Request × Stage)
two = (when_request 1, holding (equals 1)) ∷ (unlock_with_request 1, idle) ∷ []

when_one : Reach monitor fresh 2 (woken, two)
unfolding advance lock_when_condition unlock_with_condition lock unlock begin_wait end_wait
    broadcast
when_one =
    let a = next start (begin_lock _ [] lock_request (when_request 1) _ refl) in
    let b = next a (thread _ _ [] (when_request 1) entering checking _ refl) in
    let c = next b (thread _ _ [] (when_request 1) checking sleeping _ refl) in
    let d = next c (begin_lock _ (_ ∷ []) lock_request lock_request [] refl) in
    let e = next d (thread _ _ (_ ∷ []) lock_request entering (holding nothing) [] refl) in
    let f = next e (begin_unlock _ (_ ∷ []) lock_request (unlock_with_request 1) nothing [] refl) in
    let g = next f (thread _ _ (_ ∷ []) (unlock_with_request 1) leaving signalling [] refl) in
    let h = next g (thread _ _ (_ ∷ []) (unlock_with_request 1) signalling releasing [] refl) in
    let i = next h (thread _ _ (_ ∷ []) (unlock_with_request 1) releasing idle [] refl) in
    let j = next i (thread _ _ [] (when_request 1) sleeping checking _ refl) in
    next j (thread _ _ [] (when_request 1) checking (holding (equals 1)) _ refl)

Reach-one_holder_example :
    (total owns_of [] + total owns_of ((unlock_with_request 1, idle) ∷ []) ≡ 0)
    × (woken.is_locked ≡ true)
    × Knows woken.condition (holding (equals 1))
Reach-one_holder_example =
    Reach-one_holder monitor monitor_laws [] (when_request 1) (holding (equals 1))
      ((unlock_with_request 1, idle) ∷ []) refl refl when_one refl
