-- ===== src/Threads/Progress.antt =====
-- src/class/NSThread.m: several actions of one thread, one after the other.
use mulle_obj_c.Base.{List, [], ◌∷◌, ◌++◌, ◌≡◌, total, arith}
use mulle_obj_c.Threads.{References, PointerMap, World, ThreadObject, Action, perform, share}
use mulle_obj_c.Threads.System.{Process, Reach, next, call, run}
use mulle_obj_c.Threads.Start.{run_actions}
use mulle_obj_c.Threads.Check.{creates}

module _ (rc : References) (mp : PointerMap) where
  -- What a thread has before it, it can do.
  pub Reach-run_actions :
      {w : World rc mp} (before after : List (Process rc)) (actions : List Action)
      → (w' : World rc mp) (t : ThreadObject rc) → (caller rest : List Action)
      → Reach rc mp w (
        w',
        before ++ (record { object = t; caller = caller; remaining = actions ++ rest } ∷ after),
      )
      → let (w'', t') = run_actions actions (w', t) in
        Reach rc mp w
          (w'', before ++ (record { object = t'; caller = caller; remaining = rest } ∷ after))
  Reach-run_actions before after [] w' t caller rest r = r
  Reach-run_actions before after (action ∷ actions) w' t caller rest r =
      Reach-run_actions before after actions (share action t w') (perform action t) caller rest
        (next r (run w' before t action caller (actions ++ rest) after))

  -- So can a caller, up to the creation of a thread.
  pub Reach-call_actions :
      {w : World rc mp} (before after : List (Process rc)) (actions : List Action)
      → (w' : World rc mp) (t : ThreadObject rc) → (rest remaining : List Action)
      → total creates actions ≡ 0
      → Reach rc mp w (
        w',
        before ++ (record { object = t; caller = actions ++ rest; remaining = remaining } ∷ after),
      )
      → let (w'', t') = run_actions actions (w', t) in
        Reach rc mp w
          (w'', before ++ (record { object = t'; caller = rest; remaining = remaining } ∷ after))
  Reach-call_actions before after [] w' t rest remaining h r = r
  Reach-call_actions before after (action ∷ actions) w' t rest remaining h r =
      Reach-call_actions before after actions (share action t w') (perform action t) rest remaining
        (omega (arith, h))
        (next r
          (call w' before t action (actions ++ rest) remaining after (λ e. ground (arith, h, e))))
