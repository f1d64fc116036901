-- ===== src/Ownership/Examples.antt =====
-- A variable with object 5 that is set to 5 and released, and the theorem at it.
use mulle_obj_c.Base.{ℕ, ◌+◌, List, [], ◌∷◌, ◌≡◌, arith, total, hit, times}
use mulle_obj_c.Atomic.Instance.{pointer, pointer_laws}
use mulle_obj_c.Ownership.{
  retain_id, entering, unchanged, returned, Shared, Request, Stage, update_request, release_request,
  advance, thread, Reach, start, next, atomic_id_update, atomic_id_release,
}
use mulle_obj_c.Ownership.Moves.{held}
use mulle_obj_c.Ownership.Balance.{Reach-references}

abbrev same : List Request
same = update_request retain_id 5 ∷ release_request ∷ []

abbrev copied : ℕ → ℕ
copied x = x + 100

abbrev ended : Shared pointer × List (Request × Stage)
ended = (
  record { ivar = 0; gained = 5 ∷ []; autoreleased = []; released = 5 ∷ [] },
  (update_request retain_id 5, unchanged 5) ∷ (release_request, returned 0) ∷ [],
)

set_and_released : Reach pointer copied 5 same ended
unfolding advance atomic_id_update atomic_id_release
set_and_released =
    let retained = next start (thread _ [] (update_request retain_id 5) entering _) in
    let set = next retained (thread _ [] (update_request retain_id 5) _ _) in
    let found = next set (thread _ (_ ∷ []) release_request entering []) in
    let taken = next found (thread _ (_ ∷ []) release_request _ []) in
    next taken (thread _ (_ ∷ []) release_request _ [])

Reach-references_example :
    times 5 (5 ∷ []) + hit 5 5 ≡ times 5 [] + times 5 (5 ∷ []) + hit 0 5 + total (held 5) ended.1
Reach-references_example =
    Reach-references pointer pointer_laws copied 5 (λ e. omega (arith, e)) (tt, (tt, tt))
      set_and_released
