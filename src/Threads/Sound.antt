-- ===== src/Threads/Sound.antt =====
-- src/class/NSThread.m: the checks of `Check` hold of all threads at all times.
use mulle_obj_c.Base.{
  ℕ, ◌≡◌, refl, Bool, true, false, if◌then◌else◌, List, [], ◌∷◌, All, All-replace, All-split, ◌++◌,
  arith,
}
use mulle_obj_c.Threads.{
  References, PointerMap, World, ThreadObject, Action, perform, thread_create,
}
use mulle_obj_c.Threads.Programs.{started_thread, foreign_thread, mulle_start, undo_start, start}
use mulle_obj_c.Threads.System.{
  Process, Reach, first, next, call, created, failed, run, starting, joining,
}
use mulle_obj_c.Threads.Check.{registers, aba_after, gc_after, Sound, perform-in_aba, perform-in_gc}

registers-kept :
    (action : Action) (aba gc : Bool)
    → registers action ≡ 0
    → (aba_after action aba ≡ aba) × (gc_after action gc ≡ gc)
registers-kept action aba gc h = ground arith

module _ {rc : References} where
  call-Sound :
      (t : ThreadObject rc) (action : Action) (rest remaining : List Action)
      → Sound (record { object = t; caller = action ∷ rest; remaining = remaining })
      → Sound (record { object = perform action t; caller = rest; remaining = remaining })
  call-Sound t action rest remaining h =
      let starts = h.caller_starts in
      let none_registers : registers action ≡ 0 = ground (arith, starts) in
      let kept = registers-kept action t.in_aba t.in_gc none_registers in
      record {
        caller_balanced = ground (arith, h.caller_balanced);
        caller_starts = ground (arith, starts);
        remaining_balanced = h.remaining_balanced;
        remaining_guarded =
            rw (perform-in_aba action t, perform-in_gc action t, kept.0, kept.1)
              h.remaining_guarded;
        remaining_runs = h.remaining_runs;
      }

  run-Sound :
      (t : ThreadObject rc) (action : Action) (caller rest : List Action)
      → Sound (record { object = t; caller = caller; remaining = action ∷ rest })
      → Sound (record { object = perform action t; caller = caller; remaining = rest })
  run-Sound t action caller rest h = record {
    caller_balanced = h.caller_balanced;
    caller_starts = h.caller_starts;
    remaining_balanced = ground (arith, h.remaining_balanced);
    remaining_guarded =
        rw (perform-in_aba action t, perform-in_gc action t) (ground (arith, h.remaining_guarded));
    remaining_runs = omega (arith, h.remaining_runs);
  }

  start-Sound :
      (t : ThreadObject rc) (detached : Bool)
      → t.os_thread_id ≡ 0
      → t.in_gc ≡ false
      → Sound (record {
        object = t;
        caller = if detached then start t else mulle_start t;
        remaining = [];
      })
  start-Sound t true idle gc = record {
    caller_balanced = rw (idle) refl;
    caller_starts = rw (idle) refl;
    remaining_balanced = refl;
    remaining_guarded = rw (gc) refl;
    remaining_runs = refl;
  }
  start-Sound t false idle gc = record {
    caller_balanced = rw (idle) refl;
    caller_starts = rw (idle) refl;
    remaining_balanced = refl;
    remaining_guarded = rw (gc) refl;
    remaining_runs = refl;
  }

  created-Sound :
      (t : ThreadObject rc) (thread_id : ℕ) (rest : List Action)
      → Sound (record { object = t; caller = thread_create ∷ rest; remaining = [] })
      → Sound (record {
        object = record t { thread_id = thread_id };
        caller = rest;
        remaining = started_thread;
      })
  created-Sound t thread_id rest h = record {
    caller_balanced = ground (arith, h.caller_balanced);
    caller_starts = ground (arith, h.caller_starts);
    remaining_balanced = refl;
    remaining_guarded =
        let gc : t.in_gc ≡ false = ground (arith, h.remaining_guarded) in rw (gc) refl;
    remaining_runs = refl;
  }

  failed-Sound :
      (t : ThreadObject rc) (rest : List Action)
      → Sound (record { object = t; caller = thread_create ∷ rest; remaining = [] })
      → Sound (record { object = t; caller = undo_start; remaining = [] })
  failed-Sound t rest h = record {
    caller_balanced = refl;
    caller_starts = refl;
    remaining_balanced = refl;
    remaining_guarded = h.remaining_guarded;
    remaining_runs = refl;
  }

  join-Sound :
      (t : ThreadObject rc)
      → t.in_gc ≡ false
      → Sound (record { object = t; caller = []; remaining = foreign_thread })
  join-Sound t gc = record {
    caller_balanced = refl;
    caller_starts = refl;
    remaining_balanced = refl;
    remaining_guarded = rw (gc) refl;
    remaining_runs = refl;
  }

module _ (rc : References) (mp : PointerMap) where
  -- Every thread of every reachable state is `Sound`.
  pub Reach-Sound :
      {w : World rc mp} {s : World rc mp × List (Process rc)} → Reach rc mp w s → All Sound s.1
  Reach-Sound first = tt
  Reach-Sound (next r (call w before t action rest remaining after other)) =
      All-replace Sound before after (call-Sound t action rest remaining) (Reach-Sound r)
  Reach-Sound (next r (created w before t thread_id rest after numbered fresh)) =
      All-replace Sound before after (created-Sound t thread_id rest) (Reach-Sound r)
  Reach-Sound (next r (failed w before t rest after)) =
      All-replace Sound before after (failed-Sound t rest) (Reach-Sound r)
  Reach-Sound (next r (run w before t action caller rest after)) =
      All-replace Sound before after (run-Sound t action caller rest) (Reach-Sound r)
  Reach-Sound (next r (starting w t detached processes named idle gc)) =
      (start-Sound t detached idle gc, Reach-Sound r)
  Reach-Sound (next r (joining w t processes named numbered idle fresh gc)) =
      (join-Sound t gc, Reach-Sound r)

  pub process-Sound :
      {w w' : World rc mp} {p : Process rc} (before after : List (Process rc))
      → Reach rc mp w (w', before ++ (p ∷ after))
      → Sound p
  process-Sound before after r = (All-split Sound before _ (Reach-Sound r)).1.0
