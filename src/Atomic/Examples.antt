-- ===== src/Atomic/Examples.antt =====
-- Two threads on one atomic integer, and the theorems at them.
use mulle_obj_c.Base.{ℕ, some, [], ◌∷◌, ◌≡◌, refl}
use mulle_obj_c.Atomic.{
  reading, returned, Call, update_call, or_call, masked_or_call, advance, run, thread, begin, Reach,
  start, next, attempt, ns_uinteger_atomic_update, ns_uinteger_atomic_or,
  ns_uinteger_atomic_masked_or,
}
use mulle_obj_c.Atomic.Instance.{pointer, pointer_laws}
use mulle_obj_c.Atomic.Plain.{PlainReach, meaning}
use mulle_obj_c.Atomic.Refine.{Reach-PlainReach}

masked : run pointer 2 (masked_or_call 12 1) 7 reading ≡ (5, returned 7)
unfolding run advance ns_uinteger_atomic_masked_or attempt
masked = refl

-- The second thread reads 5, the first sets 9, and the second has to try again.
raced : Reach pointer 5 (11, (or_call 2, returned 9) ∷ (update_call 9, returned 5) ∷ [])
unfolding advance ns_uinteger_atomic_update ns_uinteger_atomic_or attempt
raced =
    let both = next (next start (begin 5 (update_call 9) [])) (begin 5 (or_call 2) _) in
    let first_read = next both (thread 5 (_ ∷ []) (update_call 9) reading []) in
    let second_read = next first_read (thread 5 [] (or_call 2) reading _) in
    let first_set = next second_read (thread 5 (_ ∷ []) (update_call 9) _ []) in
    let second_lost = next first_set (thread 9 [] (or_call 2) _ _) in
    let second_again = next second_lost (thread 9 [] (or_call 2) _ _) in
    next second_again (thread 9 [] (or_call 2) _ _)

Reach-PlainReach_example :
    PlainReach 5 (11, (or_call 2, some 9) ∷ (update_call 9, some 5) ∷ [])
    × ((call : Call)
        → (p : ℕ) × (run pointer 2 call 11 reading ≡ (p, returned (meaning call 11).1))
          × (p ≡ (meaning call 11).0))
Reach-PlainReach_example = Reach-PlainReach pointer pointer_laws raced
