-- ===== src/Threads/Unique.antt =====
-- src/class/NSThread.m: the identifiers of the threads that have not ended are different.
use mulle_obj_c.Base.{
  total-replace, total-append, ℕ, ◌≤◌, ◌≡◌, refl, List, [], ◌∷◌, total, total-append, arith,
}
use mulle_obj_c.Threads.{
  References, PointerMap, World, ThreadObject, Action, perform, thread_create,
}
use mulle_obj_c.Threads.Programs.{started_thread, undo_start}
use mulle_obj_c.Threads.System.{
  Process, Reach, first, next, call, created, failed, run, starting, joining, in_use,
}
use mulle_obj_c.Threads.Numbered.{perform-kept}

module _ (rc : References) (mp : PointerMap) where
  in_use-kept :
      (y : ℕ) (action : Action) (t : ThreadObject rc) (caller caller' remaining : List Action)
      → in_use y (record { object = perform action t; caller = caller'; remaining = remaining })
        ≡ in_use y (record { object = t; caller = caller; remaining = remaining })
  in_use-kept y action t caller caller' [] = refl
  in_use-kept y action t caller caller' (next_action ∷ rest) = rw ((perform-kept action t).1) refl

  in_use-rest :
      (y : ℕ) (action : Action) (t : ThreadObject rc) (caller rest : List Action)
      → in_use y (record { object = perform action t; caller = caller; remaining = rest })
        ≤ in_use y (record { object = t; caller = caller; remaining = action ∷ rest })
  in_use-rest y action t caller [] = omega arith
  in_use-rest y action t caller (next_action ∷ rest) = rw ((perform-kept action t).1) (omega arith)

  -- No two threads that have not ended have the same identifier.
  pub Reach-one_each :
      {w : World rc mp} {s : World rc mp × List (Process rc)} (y : ℕ)
      → Reach rc mp w s
      → total (in_use y) s.1 ≤ 1
  Reach-one_each y first = omega arith
  Reach-one_each y (next r (call w before t action rest remaining after other)) = omega (
    arith,
    Reach-one_each y r,
    in_use-kept y action t (action ∷ rest) rest remaining,
    total-replace (in_use y) before
        (record { object = t; caller = action ∷ rest; remaining = remaining })
        (record { object = perform action t; caller = rest; remaining = remaining }) after,
  )
  Reach-one_each y (next r (created w before t thread_id rest after numbered fresh)) = ground (
    arith,
    Reach-one_each y r,
    fresh,
    total-append (in_use y) before after,
    total-append (in_use thread_id) before after,
    total-append (in_use y) before
        (record { object = t; caller = thread_create ∷ rest; remaining = [] } ∷ after),
    total-append (in_use y) before (
        record {
          object = record t { thread_id = thread_id };
          caller = rest;
          remaining = started_thread;
        }
        ∷ after),
  )
  Reach-one_each y (next r (failed w before t rest after)) = omega (
    arith,
    Reach-one_each y r,
    total-replace (in_use y) before
        (record { object = t; caller = thread_create ∷ rest; remaining = [] })
        (record { object = t; caller = undo_start; remaining = [] }) after,
  )
  Reach-one_each y (next r (run w before t action caller rest after)) = omega (
    arith,
    Reach-one_each y r,
    in_use-rest y action t caller rest,
    total-replace (in_use y) before
        (record { object = t; caller = caller; remaining = action ∷ rest })
        (record { object = perform action t; caller = caller; remaining = rest }) after,
  )
  Reach-one_each y (next r (starting w t detached processes named empty gc)) =
      omega (arith, Reach-one_each y r)
  Reach-one_each y (next r (joining w t processes named numbered empty fresh gc)) =
      ground (arith, Reach-one_each y r, fresh)
