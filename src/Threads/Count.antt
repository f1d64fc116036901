-- ===== src/Threads/Count.antt =====
-- src/class/NSThread.m: the references of the universe and the number of threads.
use mulle_obj_c.Base.{
  ℕ, ◌+◌, ◌≤◌, ◌≡◌, ◌≢◌, refl, Bool, true, false, if◌then◌else◌, List, [], ◌∷◌, ◌++◌, total,
  total-replace, total-element, arith,
}
use mulle_obj_c.Threads.{
  References, ReferencesLaws, PointerMap, World, ThreadObject, Action, perform, share,
  thread_create, universe_retain, universe_release,
}
use mulle_obj_c.Threads.Programs.{started_thread, mulle_start, undo_start, start}
use mulle_obj_c.Threads.System.{
  Process, Reach, first, next, call, created, failed, run, starting, joining,
}
use mulle_obj_c.Threads.Check.{
  all_balanced, all_balanced-Balanced, all_balanced-rest, owed, counted, Sound,
}
use mulle_obj_c.Threads.Sound.{process-Sound}

abbrev pub owes : {rc : References} → Process rc → ℕ
owes p = owed p.caller + owed p.remaining

abbrev pub counts : {rc : References} → Process rc → ℕ
counts p = counted p.remaining

module _ (rc : References) (laws : ReferencesLaws rc) (mp : PointerMap) where
  share-references :
      (action : Action) (t : ThreadObject rc) (w : World rc mp) (rest : List Action)
      → all_balanced (action ∷ rest) ≡ true
      → action ≢ thread_create
      → owed (action ∷ rest) ≤ rc.value w.universe
      → rc.value (share action t w).universe + owed (action ∷ rest)
        ≡ rc.value w.universe + owed rest
  unfolding share
  share-references universe_retain t w rest h other enough = omega (
    arith,
    all_balanced-rest universe_retain rest h,
    all_balanced-Balanced (universe_retain ∷ rest) h,
    enough,
    laws.value-retain w.universe,
  )
  share-references universe_release t w rest h other enough = omega (
    arith,
    all_balanced-rest universe_release rest h,
    all_balanced-Balanced (universe_release ∷ rest) h,
    enough,
    laws.value-release w.universe,
  )
  share-references thread_create t w rest h other enough = absurd (other refl)
  share-references _ t w rest h other enough = omega arith

  -- The process at work is replaced by what it becomes.
  abbrev Became : Process rc → Process rc → (before after : ℕ) → Type 0
  Became p p' n n' = owes p ≤ n → n' + owes p ≡ n + owes p'

  call-Became :
      (w : World rc mp) (t : ThreadObject rc) (action : Action) (rest remaining : List Action)
      → Sound (record { object = t; caller = action ∷ rest; remaining = remaining })
      → action ≢ thread_create
      → Became
          (record { object = t; caller = action ∷ rest; remaining = remaining })
          (record { object = perform action t; caller = rest; remaining = remaining })
          (rc.value w.universe)
          (rc.value (share action t w).universe)
  call-Became w t action rest remaining h other enough =
      omega
        (arith, share-references action t w rest h.caller_balanced other (omega (arith, enough)))

  run-Became :
      (w : World rc mp) (t : ThreadObject rc) (action : Action) (caller rest : List Action)
      → Sound (record { object = t; caller = caller; remaining = action ∷ rest })
      → Became
          (record { object = t; caller = caller; remaining = action ∷ rest })
          (record { object = perform action t; caller = caller; remaining = rest })
          (rc.value w.universe)
          (rc.value (share action t w).universe)
  run-Became w t action caller rest h enough =
      let runs = h.remaining_runs in
      let other : action ≢ thread_create = λ e. ground (arith, runs, e) in
      omega
        (arith, share-references action t w rest h.remaining_balanced other (omega (arith, enough)))

  created-Became :
      (w : World rc mp) (t : ThreadObject rc) (thread_id : ℕ) (rest : List Action)
      → Sound (record { object = t; caller = thread_create ∷ rest; remaining = [] })
      → Became
          (record { object = t; caller = thread_create ∷ rest; remaining = [] })
          (record {
            object = record t { thread_id = thread_id };
            caller = rest;
            remaining = started_thread;
          })
          (rc.value w.universe)
          (rc.value w.universe)
  created-Became w t thread_id rest h enough = omega (
    arith,
    all_balanced-rest thread_create rest h.caller_balanced,
    all_balanced-Balanced (thread_create ∷ rest) h.caller_balanced,
  )

  failed-Became :
      (w : World rc mp) (t : ThreadObject rc) (rest : List Action)
      → Sound (record { object = t; caller = thread_create ∷ rest; remaining = [] })
      → Became
          (record { object = t; caller = thread_create ∷ rest; remaining = [] })
          (record { object = t; caller = undo_start; remaining = [] })
          (rc.value w.universe)
          (rc.value w.universe)
  failed-Became w t rest h enough = omega (
    arith,
    all_balanced-rest thread_create rest h.caller_balanced,
    all_balanced-Balanced (thread_create ∷ rest) h.caller_balanced,
  )

  starting-owes :
      (t : ThreadObject rc) (detached : Bool)
      → t.os_thread_id ≡ 0
      → owed (if detached then start t else mulle_start t) ≡ 0
  starting-owes t true idle = rw (idle) refl
  starting-owes t false idle = rw (idle) refl

  replaced :
      (base : ℕ) (before after : List (Process rc)) (p p' : Process rc) (n n' : ℕ)
      → n ≡ base + total owes (before ++ (p ∷ after))
      → Became p p' n n'
      → n' ≡ base + total owes (before ++ (p' ∷ after))
  replaced base before after p p' n n' ih change =
      let enough = total-element owes before p after in
      omega (arith, ih, change (omega (arith, ih, enough)), total-replace owes before p p' after)

  -- Of the references of the universe, those that are not the first thread's are owed by the
  -- callers and the threads, each as many as the rest of its actions gives back.
  pub Reach-universe_references :
      {w : World rc mp} {s : World rc mp × List (Process rc)}
      → Reach rc mp w s
      → rc.value s.0.universe ≡ rc.value w.universe + total owes s.1
  Reach-universe_references first = omega arith
  Reach-universe_references (next r (call w before t action rest remaining after other)) =
      let sound = process-Sound rc mp before after r in
      replaced _ before after _ _ _ _ (Reach-universe_references r)
        (call-Became w t action rest remaining sound other)
  Reach-universe_references (next r (created w before t thread_id rest after numbered fresh)) =
      let sound = process-Sound rc mp before after r in
      replaced _ before after _ _ _ _ (Reach-universe_references r)
        (created-Became w t thread_id rest sound)
  Reach-universe_references (next r (failed w before t rest after)) =
      let sound = process-Sound rc mp before after r in
      replaced _ before after _ _ _ _ (Reach-universe_references r) (failed-Became w t rest sound)
  Reach-universe_references (next r (run w before t action caller rest after)) =
      let sound = process-Sound rc mp before after r in
      replaced _ before after _ _ _ _ (Reach-universe_references r)
        (run-Became w t action caller rest sound)
  Reach-universe_references (next r (starting w t detached processes named idle gc)) =
      omega (arith, Reach-universe_references r, starting-owes t detached idle)
  Reach-universe_references (next r (joining w t processes named numbered idle fresh gc)) =
      omega (arith, Reach-universe_references r)
