-- ===== src/Threads/Examples.antt =====
-- Two threads, one started with an argument and one of another library, and the theorems at them.
use mulle_obj_c.Base.{
  inl, ℕ, ◌+◌, ◌-◌, ◌≤◌, ◌≡◌, ◌↔◌, refl, true, false, ◌==◌, if◌then◌else◌, List, [], ◌∷◌, arith,
  none, some, total, take, drop,
}
use mulle_obj_c.Array.{ObjectId, nil}
use mulle_obj_c.Threads.{
  References, ReferencesLaws, PointerMap, PointerMapLaws, World, ThreadObject, perform, share, gain,
  relinquish, finalize, ns_thread_set_os_thread_id, thread_creation, universe_release,
  unset_threadinfo,
}
use mulle_obj_c.Threads.Programs.{started_thread, mulle_start, start}
use mulle_obj_c.Threads.Check.{counted, mapped}
use mulle_obj_c.Threads.System.{Process, Reach, first, next, created, starting}
use mulle_obj_c.Threads.Progress.{Reach-run_actions, Reach-call_actions}
use mulle_obj_c.Threads.Start.{
  run_actions, interleaved, failed_start, Fresh, mulle_join, start_failed, start-join,
}
use mulle_obj_c.Threads.Count.{owes, counts, Reach-universe_references}
use mulle_obj_c.Threads.Number.{mulle_is_multi_threaded, Reach-mulle_is_multi_threaded}
use mulle_obj_c.Threads.Held.{Reach-universe_held, Reach-last_out, Reach-nothing_left}
use mulle_obj_c.Threads.Registry.{registered, Reach-registered}

abbrev counting : References
counting = record { Count = ℕ; value = λ c. c; retain = λ c. c + 1; release = λ c. c - 1 }

counting_laws : ReferencesLaws counting
counting_laws = record { value-retain = λ c. refl; value-release = λ c some_left. omega arith }

abbrev function_map : PointerMap
function_map = record {
  Map = ℕ → ObjectId;
  get = λ m key. m key;
  set = λ m key obj other. if key == other then obj else m other;
  remove = λ m key other. if key == other then nil else m other;
}

function_map_laws : PointerMapLaws function_map
function_map_laws = record { get-set = λ m key other obj. refl; get-remove = λ m key other. refl }

abbrev quiet : World counting function_map
quiet = record {
  universe = 1;
  n_threads = 0;
  was_multi_threaded = false;
  is_multi_threaded = false;
  threads = λ key. if key == 100 then 1 else nil;
}

abbrev idle : (object thread_id : ℕ) → ThreadObject counting
idle object thread_id = record {
  object = object;
  thread_id = thread_id;
  references = 1;
  os_thread_id = 0;
  argument = 5;
  is_detached = false;
  did_gain_access = false;
  is_finalized = false;
  in_aba = false;
  in_gc = false;
  has_threadinfo = false;
  has_pool = false;
  threadobject = nil;
  gained = [];
  relinquished = [];
  failure = none;
}

-- The caller of thread object 2 has created its thread, with the identifier 200.
abbrev created_state : World counting function_map × List (Process counting)
created_state =
    let (w, t) = run_actions (take 4 (mulle_start (idle 2 0))) (quiet, idle 2 0) in
    (
      w,
      record {
        object = record t { thread_id = 200 };
        caller = drop 5 (mulle_start (idle 2 0));
        remaining = started_thread;
      }
          ∷ [],
    )

created_reached : Reach counting function_map quiet created_state
unfolding share perform relinquish
created_reached =
    let begun : Reach counting function_map quiet (
      quiet,
      record { object = idle 2 0; caller = mulle_start (idle 2 0); remaining = [] } ∷ [],
    ) =
      next first (starting quiet (idle 2 0) false [] (λ e. omega (arith, e)) refl refl) in
    let ready =
      Reach-call_actions counting function_map [] [] (take 4 (mulle_start (idle 2 0))) quiet
        (idle 2 0) (drop 4 (mulle_start (idle 2 0))) [] refl begun in
    next ready (created _ [] _ 200 _ [] (λ e. omega (arith, e)) refl)

-- The thread does `n` of its actions and its caller all that it has left.
abbrev child : ThreadObject counting
child = record (run_actions (take 4 (mulle_start (idle 2 0))) (quiet, idle 2 0)).1 {
  thread_id = 200;
}

abbrev after_actions : ℕ → World counting function_map × Process counting
after_actions n =
    let (w, t) = run_actions (take n started_thread) (created_state.0, child) in
    (
      w,
      record {
        object = t;
        caller = drop 5 (mulle_start (idle 2 0));
        remaining = drop n started_thread;
      },
    )

registered_reached :
    Reach counting function_map quiet ((after_actions 10).0, (after_actions 10).1 ∷ [])
unfolding share perform relinquish gain finalize ns_thread_set_os_thread_id
registered_reached =
    Reach-run_actions counting function_map [] [] (take 10 started_thread) created_state.0 child
      (drop 5 (mulle_start (idle 2 0))) (drop 10 started_thread) created_reached

abbrev ended : World counting function_map × Process counting
ended =
    let (w, p) = after_actions 27 in
    let (w', t) = run_actions p.caller (w, p.object) in
    (w', record { object = t; caller = []; remaining = [] })

ended_reached : Reach counting function_map quiet (ended.0, ended.1 ∷ [])
unfolding share perform relinquish gain finalize ns_thread_set_os_thread_id
ended_reached =
    let done =
      Reach-run_actions counting function_map [] [] started_thread created_state.0 child
        (drop 5 (mulle_start (idle 2 0))) [] created_reached in
    Reach-call_actions counting function_map [] [] (after_actions 27).1.caller (after_actions 27).0
      (after_actions 27).1.object [] [] refl done

Reach-universe_references_example :
    (after_actions 10).0.universe ≡ 1 + total owes ((after_actions 10).1 ∷ [])
unfolding share perform relinquish gain finalize ns_thread_set_os_thread_id
Reach-universe_references_example =
    Reach-universe_references counting counting_laws function_map registered_reached

Reach-mulle_is_multi_threaded_example :
    (mulle_is_multi_threaded (after_actions 10).0 ≡ true)
    ↔ (1 ≤ total counts ((after_actions 10).1 ∷ []))
unfolding share perform relinquish gain finalize ns_thread_set_os_thread_id
Reach-mulle_is_multi_threaded_example =
    Reach-mulle_is_multi_threaded counting function_map refl registered_reached (omega arith)

Reach-registered_example :
    (after_actions 10).0.threads 200 ≡ total (registered 200) ((after_actions 10).1 ∷ [])
unfolding share perform relinquish gain finalize ns_thread_set_os_thread_id
Reach-registered_example =
    Reach-registered counting function_map function_map_laws 200 refl registered_reached

Reach-universe_held_example : 2 ≤ (after_actions 10).0.universe
unfolding share perform relinquish gain finalize ns_thread_set_os_thread_id
Reach-universe_held_example =
    Reach-universe_held counting counting_laws function_map (after_actions 10).1 [] []
      registered_reached (inl refl)

Reach-nothing_left_example :
    (ended.0.universe ≡ 1) × ((ended.0.n_threads ≡ 0) × (ended.0.threads 200 ≡ nil))
Reach-nothing_left_example =
    Reach-nothing_left counting counting_laws function_map (ended.1 ∷ []) 200 function_map_laws refl
      refl ended_reached ((refl, refl), tt)

unstarted : Fresh (idle 2 200)
unstarted = record {
  not_started = refl;
  numbered = λ e. omega (arith, e);
  not_detached = refl;
  not_finalized = refl;
}

start_failed_example :
    let (w', t') = run_actions (failed_start (start (idle 2 200))) (quiet, idle 2 200) in
    (w'.universe ≡ 1)
    × ((t'.references ≡ 1)
        × ((w'.n_threads ≡ 0)
            × ((t'.failure ≡ some thread_creation)
                × ((t'.is_detached ≡ false) × ((t'.relinquished ≡ 5 ∷ []) × (t'.gained ≡ []))))))
start_failed_example =
    start_failed counting counting_laws function_map function_map_laws quiet (idle 2 200) unstarted

-- What the caller does last comes after the thread has been registered.
start-join_example :
    let (w', t') = run_actions (interleaved 12 (idle 2 200)) (quiet, idle 2 200) in
    ((mulle_join t').relinquished ≡ 5 ∷ 5 ∷ [])
    × (((mulle_join t').gained ≡ 5 ∷ 5 ∷ [])
        × (((mulle_join t').argument ≡ nil)
            × ((w'.universe ≡ 1)
                × ((t'.references ≡ 1) × ((w'.n_threads ≡ 0) × (w'.threads 100 ≡ 1))))))
start-join_example =
    start-join counting counting_laws function_map function_map_laws quiet (idle 2 200) 12 100
      unstarted (omega arith)

last_reached : Reach counting function_map quiet ((after_actions 25).0, (after_actions 25).1 ∷ [])
unfolding share perform relinquish gain finalize ns_thread_set_os_thread_id
last_reached =
    Reach-run_actions counting function_map [] [] (take 25 started_thread) created_state.0 child
      (drop 5 (mulle_start (idle 2 0))) (drop 25 started_thread) created_reached

Reach-last_out_example :
    ((after_actions 25).1.object.in_aba ≡ false)
    × (((after_actions 25).1.object.in_gc ≡ false)
        × (counted (unset_threadinfo ∷ []) + mapped (unset_threadinfo ∷ []) ≡ 0))
unfolding share perform relinquish gain finalize ns_thread_set_os_thread_id
Reach-last_out_example =
    Reach-last_out counting counting_laws function_map (after_actions 25).1 universe_release
      (unset_threadinfo ∷ []) [] [] last_reached refl refl
