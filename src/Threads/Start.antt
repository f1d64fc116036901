-- ===== src/Threads/Start.antt =====
-- src/class/NSThread.m: one thread from its start to its end, and the starts that fail.
use mulle_obj_c.Base.{
  ℕ, ◌<◌, ◌≡◌, ◌≢◌, zero, suc, ap, sym, ◌∙◌, take, drop, refl, true, false, ◌==◌, if◌then◌else◌,
  List, [], ◌∷◌, ◌++◌, arith, some,
}
use mulle_obj_c.Array.{nil}
use mulle_obj_c.Threads.{
  References, ReferencesLaws, PointerMap, PointerMapLaws, World, ThreadObject, Action, perform,
  share, set_os_thread_id, going_multi_threaded, retain_self, universe_retain, relinquish_argument,
  thread_create, gain, relinquish, finalize, ns_thread_set_os_thread_id, word, thread_creation,
  detached_join,
}
use mulle_obj_c.Threads.Programs.{started_thread, undo_start, mulle_start, start}

module _ {rc : References} {mp : PointerMap} where
  -- The actions one after the other
  abbrev pub run_actions :
      List Action → World rc mp × ThreadObject rc → World rc mp × ThreadObject rc
  run_actions [] (w, t) = (w, t)
  run_actions (action ∷ rest) (w, t) = run_actions rest (share action t w, perform action t)

-- What a caller does up to the creation of the thread, which fails, and after that
abbrev pub failed_start : List Action → List Action
failed_start [] = []
failed_start (thread_create ∷ rest) = undo_start
failed_start (action ∷ rest) = action ∷ failed_start rest

module _ {rc : References} where
  -- `-mulleJoin`, when the thread has ended. The thread loses its argument.
  unfoldable pub mulle_join : ThreadObject rc → ThreadObject rc
  unfolding gain
  mulle_join t =
      if t.is_detached
      then record t { failure = some detached_join }
      else if t.did_gain_access
      then record (gain t) { argument = nil }
      else record t { argument = nil }

  -- An NSThread that was initialized and not yet started.
  pub record Fresh (t : ThreadObject rc) : Type 0 where
    pub not_started : t.os_thread_id ≡ 0
    pub numbered : t.thread_id ≢ 0
    pub not_detached : t.is_detached ≡ false
    pub not_finalized : t.is_finalized ≡ false

-- The actions of a caller and of the thread that it creates: what the caller does after the creation
-- comes behind `n` actions of the thread.
abbrev pub interleaved : {rc : References} → (n : ℕ) → ThreadObject rc → List Action
interleaved n t =
    take 5 (mulle_start t)
    ++ (take n started_thread ++ (drop 5 (mulle_start t) ++ drop n started_thread))

module _ {rc : References} where
  identified :
      (action : Action) (t : ThreadObject rc)
      → t.thread_id ≢ 0
      → t.os_thread_id ≢ 0
      → ((perform action t).thread_id ≢ 0) × ((perform action t).os_thread_id ≢ 0)
  unfolding perform gain relinquish finalize ns_thread_set_os_thread_id
  identified action t numbered set = (ground (arith, numbered), ground (arith, numbered, set))

  set_again : (t : ThreadObject rc) → t.os_thread_id ≢ 0 → perform set_os_thread_id t ≡ t
  unfolding perform ns_thread_set_os_thread_id
  set_again t set =
      let other : (t.os_thread_id == 0) ≡ false = ground (arith, set) in rw (other) refl

module _ {rc : References} {mp : PointerMap} where
  -- Once the thread's identifier is set, to set it once more changes nothing, at any time.
  set_at_any_time :
      (n : ℕ) (l : List Action) (w : World rc mp) (t : ThreadObject rc)
      → t.thread_id ≢ 0
      → t.os_thread_id ≢ 0
      → run_actions (take n l ++ (set_os_thread_id ∷ drop n l)) (w, t) ≡ run_actions l (w, t)
  unfolding share
  set_at_any_time zero l w t numbered set = ap (λ t. run_actions l (w, t)) (set_again t set)
  set_at_any_time (suc n) [] w t numbered set = ap (λ t. (w, t)) (set_again t set)
  set_at_any_time (suc n) (action ∷ l) w t numbered set =
      let (numbered', set') = identified action t numbered set in
      set_at_any_time n l (share action t w) (perform action t) numbered' set'

  set_behind :
      (first : List Action) (n : ℕ) (l : List Action) (w : World rc mp) (t : ThreadObject rc)
      → (run_actions first (w, t)).1.thread_id ≢ 0
      → (run_actions first (w, t)).1.os_thread_id ≢ 0
      → run_actions (first ++ (take n l ++ (set_os_thread_id ∷ drop n l))) (w, t)
        ≡ run_actions (first ++ (set_os_thread_id ∷ l)) (w, t)
  set_behind [] n l w t numbered set =
      set_at_any_time n l w t numbered set ∙ sym (set_at_any_time 0 l w t numbered set)
  set_behind (action ∷ first) n l w t numbered set =
      set_behind first n l (share action t w) (perform action t) numbered set

-- What happens first: the caller up to the creation, and what the thread does first
abbrev pub begun : List Action
begun =
    going_multi_threaded ∷ retain_self ∷ universe_retain ∷ relinquish_argument ∷ thread_create
    ∷ set_os_thread_id ∷ []

module _ (rc : References) (laws : ReferencesLaws rc) (mp : PointerMap)
    (map_laws : PointerMapLaws mp) (w : World rc mp) (t : ThreadObject rc) where
  -- When the thread of an NSThread that was not started can not be created, the references of the
  -- universe and of the thread object and the number of threads are as before, and the exception is
  -- raised. But access to the argument was given up and is not taken back.
  pub start_failed :
      Fresh t
      → let (w', t') = run_actions (failed_start (start t)) (w, t) in
        (rc.value w'.universe ≡ rc.value w.universe)
        × ((rc.value t'.references ≡ rc.value t.references)
            × ((w'.n_threads ≡ w.n_threads)
                × ((t'.failure ≡ some thread_creation)
                    × ((t'.is_detached ≡ false)
                        × ((t'.relinquished ≡ t.argument ∷ t.relinquished)
                            × (t'.gained ≡ t.gained))))))
  unfolding share perform relinquish
  start_failed fresh =
      let yes : (t.os_thread_id == 0) ≡ true = rw (fresh.not_started) refl in
      let u =
        laws.value-release (rc.retain w.universe) (omega (arith, laws.value-retain w.universe)) in
      let o =
        laws.value-release (rc.retain t.references)
          (omega (arith, laws.value-retain t.references)) in
      rw (yes) (
        omega (arith, u, laws.value-retain w.universe),
        (omega (arith, o, laws.value-retain t.references), (refl, (refl, (refl, (refl, refl))))),
      )

  start-join_in_turn :
      (other : ℕ)
      → Fresh t
      → w.n_threads < word
      → let (w', t') = run_actions (mulle_start t ++ started_thread) (w, t) in
        ((mulle_join t').relinquished ≡ t.argument ∷ t.argument ∷ t.relinquished)
        × (((mulle_join t').gained ≡ t.argument ∷ t.argument ∷ t.gained)
            × (((mulle_join t').argument ≡ nil)
                × ((rc.value w'.universe ≡ rc.value w.universe)
                    × ((rc.value t'.references ≡ rc.value t.references)
                        × ((w'.n_threads ≡ w.n_threads)
                            × (mp.get w'.threads other ≡ (
                                if t.thread_id == other then nil else mp.get w.threads other)))))))
  unfolding share perform relinquish gain finalize ns_thread_set_os_thread_id mulle_join
  start-join_in_turn other fresh bounded =
      let no : (t.thread_id == 0) ≡ false = ground (arith, fresh.numbered) in
      let same : (t.thread_id == t.thread_id) ≡ true = ground arith in
      let entries : mp.get (mp.remove (mp.set w.threads t.thread_id t.object) t.thread_id) other
          ≡ (if t.thread_id == other then nil else mp.get w.threads other) =
        rw (map_laws.get-remove, map_laws.get-set) (ground arith) in
      let one = laws.value-retain w.universe in
      let two = laws.value-retain (rc.retain w.universe) in
      let three = laws.value-release (rc.retain (rc.retain w.universe)) (omega (arith, two)) in
      let four =
        laws.value-release (rc.release (rc.retain (rc.retain w.universe)))
          (omega (arith, one, two, three)) in
      let held = laws.value-retain t.references in
      let dropped = laws.value-release (rc.retain t.references) (omega (arith, held)) in
      rw (fresh.not_started, no, fresh.not_detached, fresh.not_finalized)
        (
          refl,
          (
            refl,
            (
              refl,
              (
                omega (arith, one, two, three, four),
                (omega (arith, held, dropped), (omega (arith, bounded), entries)),
              ),
            ),
          ),
        )

  begun_numbered : Fresh t → (run_actions begun (w, t)).1.thread_id ≢ 0
  unfolding perform relinquish ns_thread_set_os_thread_id
  begun_numbered fresh = fresh.numbered

  begun_set : Fresh t → (run_actions begun (w, t)).1.os_thread_id ≢ 0
  unfolding perform relinquish ns_thread_set_os_thread_id
  begun_set fresh = rw (fresh.not_started) fresh.numbered

  run-interleaved :
      (n : ℕ)
      → Fresh t
      → run_actions (interleaved n t) (w, t) ≡ run_actions (mulle_start t ++ started_thread) (w, t)
  run-interleaved zero fresh =
      let order : interleaved 0 t ≡ mulle_start t ++ started_thread = rw (fresh.not_started) refl in
      ap (λ l. run_actions l (w, t)) order
  run-interleaved (suc n) fresh =
      let l : List Action = drop 1 started_thread in
      let order : interleaved (suc n) t ≡ begun ++ (take n l ++ (set_os_thread_id ∷ drop n l)) =
        rw (fresh.not_started) refl in
      let in_turn : mulle_start t ++ started_thread ≡ begun ++ (set_os_thread_id ∷ l) =
        rw (fresh.not_started) refl in
      ap (λ l. run_actions l (w, t)) order
      ∙ set_behind begun n l w t (begun_numbered fresh) (begun_set fresh)
      ∙ sym (ap (λ l. run_actions l (w, t)) in_turn)

  -- Let a thread that is not detached be started, run to its end and be joined, with no other thread
  -- in between, and let what the caller does after it has created the thread come at any point of
  -- the thread's life. Each time the access to the argument is given up it is taken over again, by
  -- the thread and then by the caller. The universe, the counter and the thread object's references
  -- are as before. The map has no entry for the thread, and for all other identifiers the entries
  -- that it had.
  pub start-join :
      (n other : ℕ)
      → Fresh t
      → w.n_threads < word
      → let (w', t') = run_actions (interleaved n t) (w, t) in
        ((mulle_join t').relinquished ≡ t.argument ∷ t.argument ∷ t.relinquished)
        × (((mulle_join t').gained ≡ t.argument ∷ t.argument ∷ t.gained)
            × (((mulle_join t').argument ≡ nil)
                × ((rc.value w'.universe ≡ rc.value w.universe)
                    × ((rc.value t'.references ≡ rc.value t.references)
                        × ((w'.n_threads ≡ w.n_threads)
                            × (mp.get w'.threads other ≡ (
                                if t.thread_id == other then nil else mp.get w.threads other)))))))
  start-join n other fresh bounded =
      rw (run-interleaved n fresh) (start-join_in_turn other fresh bounded)
