-- ===== src/Condition/Advance.antt =====
-- One step of any call.
use mulle_obj_c.Base.{ℕ, refl, Bool, true, false, inl, inr}
use mulle_obj_c.Condition.{
  Monitor, MonitorLaws, Lock, nothing, Request, lock_request, try_request, when_request,
  unless_request, try_when_request, try_unless_request, unlock_request, unlock_with_request,
  unlock_with_broadcast_request, Stage, idle, entering, checking, sleeping, declining, holding,
  leaving, signalling, releasing, signal, broadcast, unlock_with_condition,
  unlock_with_condition_broadcast, advance,
}
use mulle_obj_c.Condition.Moves.{
  Before, Results, lock-Results, try_lock-Results, unlock-Moves, when-Results, unless-Results,
  try_when-Results, try_unless-Results,
}

module _ (mo : Monitor) (laws : MonitorLaws mo) where
  unlock_with-Results :
      (value : ℕ) (s : Lock mo) (stage : Stage)
      → Before mo laws s stage
      → Results mo laws s stage (unlock_with_condition mo value s stage)
  unfolding unlock_with_condition broadcast
  unlock_with-Results value s idle h = tt
  unlock_with-Results value s entering h = tt
  unlock_with-Results value s checking h = tt
  unlock_with-Results value s sleeping h = tt
  unlock_with-Results value s declining h = tt
  unlock_with-Results value s (holding known) h = tt
  unlock_with-Results value s leaving h = (refl, inr refl, h.1, tt)
  unlock_with-Results value s signalling h = (refl, inl refl, h.1, tt)
  unlock_with-Results value s releasing h = unlock-Moves mo laws s releasing idle refl refl h

  unlock_with_broadcast-Results :
      (value : ℕ) (broadcasts : Bool) (s : Lock mo) (stage : Stage)
      → Before mo laws s stage
      → Results mo laws s stage (unlock_with_condition_broadcast mo value broadcasts s stage)
  unfolding unlock_with_condition_broadcast broadcast signal
  unlock_with_broadcast-Results value broadcasts s idle h = tt
  unlock_with_broadcast-Results value broadcasts s entering h = tt
  unlock_with_broadcast-Results value broadcasts s checking h = tt
  unlock_with_broadcast-Results value broadcasts s sleeping h = tt
  unlock_with_broadcast-Results value broadcasts s declining h = tt
  unlock_with_broadcast-Results value broadcasts s (holding known) h = tt
  unlock_with_broadcast-Results value broadcasts s leaving h = (refl, inr refl, h.1, tt)
  unlock_with_broadcast-Results value true s signalling h = (refl, inl refl, h.1, tt)
  unlock_with_broadcast-Results value false s signalling h = (refl, inl refl, h.1, tt)
  unlock_with_broadcast-Results value broadcasts s releasing h =
      unlock-Moves mo laws s releasing idle refl refl h

  pub advance-Results :
      (request : Request) (s : Lock mo) (stage : Stage)
      → Before mo laws s stage
      → Results mo laws s stage (advance mo request s stage)
  unfolding advance
  advance-Results lock_request s idle h = tt
  advance-Results lock_request s entering h =
      lock-Results mo laws s entering (holding nothing) refl refl (λ c. tt)
  advance-Results lock_request s checking h = tt
  advance-Results lock_request s sleeping h = tt
  advance-Results lock_request s declining h = tt
  advance-Results lock_request s (holding known) h = tt
  advance-Results lock_request s leaving h = tt
  advance-Results lock_request s signalling h = tt
  advance-Results lock_request s releasing h = tt
  advance-Results try_request s idle h = tt
  advance-Results try_request s entering h =
      try_lock-Results mo laws s entering (holding nothing) refl refl h.1 (λ c. tt)
  advance-Results try_request s checking h = tt
  advance-Results try_request s sleeping h = tt
  advance-Results try_request s declining h = tt
  advance-Results try_request s (holding known) h = tt
  advance-Results try_request s leaving h = tt
  advance-Results try_request s signalling h = tt
  advance-Results try_request s releasing h = tt
  advance-Results unlock_request s idle h = tt
  advance-Results unlock_request s entering h = tt
  advance-Results unlock_request s checking h = tt
  advance-Results unlock_request s sleeping h = tt
  advance-Results unlock_request s declining h = tt
  advance-Results unlock_request s (holding known) h = tt
  advance-Results unlock_request s leaving h = unlock-Moves mo laws s leaving idle refl refl h
  advance-Results unlock_request s signalling h = tt
  advance-Results unlock_request s releasing h = tt
  advance-Results (when_request value) s stage h = when-Results mo laws value s stage h
  advance-Results (unless_request value) s stage h = unless-Results mo laws value s stage h
  advance-Results (try_when_request value) s stage h = try_when-Results mo laws value s stage h
  advance-Results (try_unless_request value) s stage h = try_unless-Results mo laws value s stage h
  advance-Results (unlock_with_request value) s stage h = unlock_with-Results value s stage h
  advance-Results (unlock_with_broadcast_request value broadcasts) s stage h =
      unlock_with_broadcast-Results value broadcasts s stage h
