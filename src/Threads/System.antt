-- ===== src/Threads/System.antt =====
-- src/class/NSThread.m: threads that start, run and end while others do, in any order.
use mulle_obj_c.Base.{ℕ, Bool, false, List, [], ◌∷◌, ◌++◌, ◌≡◌, ◌≢◌, total, if◌then◌else◌, ◌==◌}
use mulle_obj_c.Array.{nil}
use mulle_obj_c.Threads.{
  References, PointerMap, World, ThreadObject, Action, perform, share, thread_create,
}
use mulle_obj_c.Threads.Programs.{started_thread, foreign_thread, mulle_start, undo_start, start}

-- An NSThread with what its caller and the operating system's thread have still to do.
pub record Process (rc : References) : Type 0 where
  pub object : ThreadObject rc
  pub caller : List Action
  pub remaining : List Action

-- Whether an identifier of the operating system belongs to a thread that has not ended
abbrev pub in_use : {rc : References} (thread_id : ℕ) → Process rc → ℕ
in_use y p = elim p.remaining [ [] ↦ 0 | (_ ∷ _) ↦ (if p.object.thread_id == y then 1 else 0) ]

module _ (rc : References) (mp : PointerMap) where
  -- One action of a caller or of a thread, or the creation of a thread, with an identifier that no
  -- thread has. New threads come at any time.
  pub data Step
      : (World rc mp × List (Process rc)) → (World rc mp × List (Process rc)) → Type 0 where
    call :
        (w : World rc mp) (before : List (Process rc)) (t : ThreadObject rc) (action : Action)
        → (rest remaining : List Action) → (after : List (Process rc)) → action ≢ thread_create
        → Step
            (
              w,
              before
                  ++ (record { object = t; caller = action ∷ rest; remaining = remaining } ∷ after),
            )
            (
              share action t w,
              before
                  ++ (record { object = perform action t; caller = rest; remaining = remaining }
                      ∷ after),
            )
    created :
        (w : World rc mp) (before : List (Process rc)) (t : ThreadObject rc) (thread_id : ℕ)
        → (rest : List Action) (after : List (Process rc)) → thread_id ≢ 0
        → total (in_use thread_id) (before ++ after) ≡ 0
        → Step
            (
              w,
              before
                  ++ (record { object = t; caller = thread_create ∷ rest; remaining = [] } ∷ after),
            )
            (
              w,
              before
                  ++ (record {
                    object = record t { thread_id = thread_id };
                    caller = rest;
                    remaining = started_thread;
                  }
                      ∷ after),
            )
    failed :
        (w : World rc mp) (before : List (Process rc)) (t : ThreadObject rc)
        → (rest : List Action) (after : List (Process rc))
        → Step
            (
              w,
              before
                  ++ (record { object = t; caller = thread_create ∷ rest; remaining = [] } ∷ after),
            )
            (w, before ++ (record { object = t; caller = undo_start; remaining = [] } ∷ after))
    run :
        (w : World rc mp) (before : List (Process rc)) (t : ThreadObject rc) (action : Action)
        → (caller rest : List Action) (after : List (Process rc))
        → Step
            (
              w,
              before ++ (record { object = t; caller = caller; remaining = action ∷ rest } ∷ after),
            )
            (
              share action t w,
              before
                  ++ (record { object = perform action t; caller = caller; remaining = rest }
                      ∷ after),
            )
    starting :
        (w : World rc mp) (t : ThreadObject rc) (detached : Bool) (processes : List (Process rc))
        → t.object ≢ nil
        → t.os_thread_id ≡ 0
        → t.in_gc ≡ false
        → Step
            (w, processes)
            (
              w,
              record {
                object = t;
                caller = if detached then start t else mulle_start t;
                remaining = [];
              }
                  ∷ processes,
            )
    joining :
        (w : World rc mp) (t : ThreadObject rc) (processes : List (Process rc))
        → t.object ≢ nil
        → t.thread_id ≢ 0
        → t.os_thread_id ≡ 0
        → total (in_use t.thread_id) processes ≡ 0
        → t.in_gc ≡ false
        → Step
            (w, processes)
            (w, record { object = t; caller = []; remaining = foreign_thread } ∷ processes)

  -- What the first thread leaves: nothing is registered but its own thread object.
  pub data Reach (w : World rc mp) : (World rc mp × List (Process rc)) → Type 0 where
    first : Reach w (w, [])
    next : {s s' : World rc mp × List (Process rc)} → Reach w s → Step s s' → Reach w s'
