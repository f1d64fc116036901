-- ===== src/Threads/Numbered.antt =====
-- src/class/NSThread.m: the identifier that a thread object has of the operating system's thread.
use mulle_obj_c.Base.{
  length, ℕ, ◌≤◌, ◌≡◌, ◌⊎◌, inl, inr, refl, Bool, true, if◌then◌else◌, List, [], ◌∷◌, ◌++◌, total,
  All, All-replace, All-split, arith,
}
use mulle_obj_c.Threads.{
  References, PointerMap, World, ThreadObject, Action, perform, gain, relinquish, finalize,
  ns_thread_set_os_thread_id, thread_create,
}
use mulle_obj_c.Threads.Programs.{started_thread, mulle_start, undo_start, start}
use mulle_obj_c.Threads.System.{
  Process, Reach, first, next, call, created, failed, run, starting, joining,
}
use mulle_obj_c.Threads.Check.{all_balanced-Balanced, only_starts, creates, numbers, Sound}
use mulle_obj_c.Threads.Sound.{process-Sound}

starts_once :
    (rest : List Action) → only_starts (thread_create ∷ rest) ≡ true → total creates rest ≡ 0
starts_once rest h = ground (arith, h)

module _ {rc : References} where
  pub record Numbered (p : Process rc) : Type 0 where
    pub idle : 1 ≤ total creates p.caller → (p.object.os_thread_id ≡ 0) × (length p.remaining ≡ 0)
    pub own : (p.object.os_thread_id ≡ 0) ⊎ (p.object.os_thread_id ≡ p.object.thread_id)
    pub numbered :
        (length p.remaining ≡ 0)
        ⊎ ((1 ≤ total numbers p.remaining) ⊎ (p.object.os_thread_id ≡ p.object.thread_id))

  pub perform-kept :
      (action : Action) (t : ThreadObject rc)
      → ((perform action t).object ≡ t.object) × ((perform action t).thread_id ≡ t.thread_id)
  unfolding perform gain relinquish finalize ns_thread_set_os_thread_id
  perform-kept action t = ground arith

  perform-numbers :
      (action : Action) (t : ThreadObject rc)
      → (t.os_thread_id ≡ 0) ⊎ (t.os_thread_id ≡ t.thread_id)
      → ((numbers action ≡ 0) × ((perform action t).os_thread_id ≡ t.os_thread_id))
        ⊎ ((1 ≤ numbers action) × ((perform action t).os_thread_id ≡ t.thread_id))
  unfolding perform gain relinquish finalize ns_thread_set_os_thread_id
  perform-numbers action t h = ground arith

  call-Numbered :
      (t : ThreadObject rc) (action : Action) (rest remaining : List Action)
      → Sound (record { object = t; caller = action ∷ rest; remaining = remaining })
      → Numbered (record { object = t; caller = action ∷ rest; remaining = remaining })
      → Numbered (record { object = perform action t; caller = rest; remaining = remaining })
  call-Numbered t action rest remaining sound h =
      let kept = perform-kept action t in
      let passes = (all_balanced-Balanced (action ∷ rest) sound.caller_balanced).passing in
      elim (perform-numbers action t h.own) [
        | inl same ↦ record {
          idle = λ more.
              let before = h.idle (omega (arith, more)) in
              (omega (arith, same, before.0), before.1);
          own = elim h.own [
            | inl none_yet ↦ inl (omega (arith, same, none_yet))
            | inr known ↦ inr (omega (arith, same, kept, known))
          ];
          numbered = elim h.numbered [
            | inl ended ↦ inl ended
            | inr (inl later) ↦ inr (inl later)
            | inr (inr known) ↦ inr (inr (omega (arith, same, kept, known)))
          ];
        }
        | inr set ↦ record {
          idle = λ more. absurd (omega (arith, more, set, passes));
          own = inr (omega (arith, set, kept));
          numbered = inr (inr (omega (arith, set, kept)));
        }
      ]

  run-Numbered :
      (t : ThreadObject rc) (action : Action) (caller rest : List Action)
      → Numbered (record { object = t; caller = caller; remaining = action ∷ rest })
      → Numbered (record { object = perform action t; caller = caller; remaining = rest })
  run-Numbered t action caller rest h =
      let kept = perform-kept action t in
      elim (perform-numbers action t h.own) [
        | inl same ↦ record {
          idle = λ more. absurd (omega (arith, h.idle more));
          own = elim h.own [
            | inl none_yet ↦ inl (omega (arith, same, none_yet))
            | inr known ↦ inr (omega (arith, same, kept, known))
          ];
          numbered = elim h.numbered [
            | inl ended ↦ inl (omega (arith, ended))
            | inr (inl later) ↦ inr (inl (omega (arith, same, later)))
            | inr (inr known) ↦ inr (inr (omega (arith, same, kept, known)))
          ];
        }
        | inr set ↦ record {
          idle = λ more. absurd (omega (arith, h.idle more));
          own = inr (omega (arith, set, kept));
          numbered = inr (inr (omega (arith, set, kept)));
        }
      ]

  start-Numbered :
      (t : ThreadObject rc) (detached : Bool)
      → t.os_thread_id ≡ 0
      → Numbered (record {
        object = t;
        caller = if detached then start t else mulle_start t;
        remaining = [];
      })
  start-Numbered t detached empty = record {
    idle = λ more. (empty, refl);
    own = inl empty;
    numbered = inl refl;
  }

  created-Numbered :
      (t : ThreadObject rc) (thread_id : ℕ) (rest : List Action)
      → Sound (record { object = t; caller = thread_create ∷ rest; remaining = [] })
      → Numbered (record { object = t; caller = thread_create ∷ rest; remaining = [] })
      → Numbered (record {
        object = record t { thread_id = thread_id };
        caller = rest;
        remaining = started_thread;
      })
  created-Numbered t thread_id rest sound h =
      let once = starts_once rest sound.caller_starts in
      record {
        idle = λ more. absurd (omega (arith, more, once));
        own = inl (h.idle (omega arith)).0;
        numbered = inr (inl (omega arith));
      }

  failed-Numbered :
      (t : ThreadObject rc) (rest : List Action)
      → Numbered (record { object = t; caller = thread_create ∷ rest; remaining = [] })
      → Numbered (record { object = t; caller = undo_start; remaining = [] })
  failed-Numbered t rest h = record {
    idle = λ more. absurd (omega (arith, more));
    own = h.own;
    numbered = inl refl;
  }

module _ (rc : References) (mp : PointerMap) where
  Reach-Numbered :
      {w : World rc mp} {s : World rc mp × List (Process rc)} → Reach rc mp w s → All Numbered s.1
  Reach-Numbered first = tt
  Reach-Numbered (next r (call w before t action rest remaining after other)) =
      All-replace Numbered before after
        (call-Numbered t action rest remaining (process-Sound rc mp before after r))
        (Reach-Numbered r)
  Reach-Numbered (next r (created w before t thread_id rest after numbered fresh)) =
      All-replace Numbered before after
        (created-Numbered t thread_id rest (process-Sound rc mp before after r)) (Reach-Numbered r)
  Reach-Numbered (next r (failed w before t rest after)) =
      All-replace Numbered before after (failed-Numbered t rest) (Reach-Numbered r)
  Reach-Numbered (next r (run w before t action caller rest after)) =
      All-replace Numbered before after (run-Numbered t action caller rest) (Reach-Numbered r)
  Reach-Numbered (next r (starting w t detached processes named empty gc)) =
      (start-Numbered t detached empty, Reach-Numbered r)
  Reach-Numbered (next r (joining w t processes named numbered empty fresh gc)) = (
    record {
      idle = λ more. absurd (omega (arith, more));
      own = inl empty;
      numbered = inr (inl (omega arith));
    },
    Reach-Numbered r,
  )

  pub process-Numbered :
      {w w' : World rc mp} {p : Process rc} (before after : List (Process rc))
      → Reach rc mp w (w', before ++ (p ∷ after))
      → Numbered p
  process-Numbered before after r = (All-split Numbered before _ (Reach-Numbered r)).1.0
