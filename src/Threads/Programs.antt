-- ===== src/Threads/Programs.antt =====
-- src/class/NSThread.m: the functions as the actions they take, composed as the functions call each
-- other.
use mulle_obj_c.Base.{Bool, true, false, List, [], ◌∷◌, ◌++◌, ◌==◌, if◌then◌else◌}
use mulle_obj_c.Threads.{
  References, ThreadObject, Action, set_os_thread_id, write_os_thread_id, universe_retain,
  setup_threadinfo, register_gc, increment_n_threads, set_multi_threaded, remove_gc,
  decrement_n_threads, unset_threadinfo, universe_release, aba_register, aba_unregister, new_pool,
  reset_pool, done_pool, map_set, set_threadobject, map_remove, clear_threadobject, retain_self,
  release_self, relinquish_argument, gain_argument, call_main, going_multi_threaded,
  going_single_threaded, perform_finalize, set_detached, clear_detached, thread_create,
  thread_detach, raise_running, raise_create,
}

-- `_mulle_objc_thread_become_universethread`
abbrev pub become_universethread : List Action
become_universethread =
    universe_retain ∷ setup_threadinfo ∷ register_gc ∷ increment_n_threads ∷ set_multi_threaded ∷ []

-- `_mulle_objc_thread_resignas_universethread`
abbrev pub resignas_universethread : List Action
resignas_universethread = remove_gc ∷ decrement_n_threads ∷ []

-- `_MulleThreadRegisterInUniverse`
abbrev pub register_in_universe : List Action
register_in_universe = map_set ∷ set_threadobject ∷ []

-- `_MulleThreadDeregisterInUniverse`
abbrev pub deregister_in_universe : List Action
deregister_in_universe = map_remove ∷ clear_threadobject ∷ []

-- `__MulleThreadCreateThreadObjectInUniverse`
abbrev pub create_threadobject : List Action
create_threadobject = write_os_thread_id ∷ new_pool ∷ register_in_universe

-- `_MulleThreadCreateThreadObjectInUniverse`
abbrev pub create_threadobject_in_universe : List Action
create_threadobject_in_universe = aba_register ∷ (become_universethread ++ create_threadobject)

-- `MulleThreadGetOrCreateCurrentThread`, by whether the thread has a thread object
abbrev pub get_or_create_current_thread : (has_threadobject : Bool) → List Action
get_or_create_current_thread true = []
get_or_create_current_thread false = create_threadobject_in_universe

-- `_MulleThreadTakedownPoolAndRelease`
abbrev pub takedown_pool_and_release : List Action
takedown_pool_and_release =
    perform_finalize ∷ reset_pool ∷ (deregister_in_universe ++ (release_self ∷ done_pool ∷ []))

-- `_MulleThreadRemoveThreadObjectFromUniverse`
abbrev pub remove_threadobject_from_universe : List Action
remove_threadobject_from_universe =
    takedown_pool_and_release
    ++ resignas_universethread
    ++ (unset_threadinfo ∷ aba_unregister ∷ universe_release ∷ [])

-- `_mulle_objc_threadinfo_destructor`, by whether the thread has a thread object. The slot of the
-- thread, which it sets and clears, belongs to the thread information.
abbrev pub threadinfo_destructor : (has_threadobject : Bool) → List Action
threadinfo_destructor false = []
threadinfo_destructor true =
    (setup_threadinfo ∷ takedown_pool_and_release)
    ++ resignas_universethread
    ++ (aba_unregister ∷ universe_release ∷ unset_threadinfo ∷ [])

-- `+exit`
abbrev pub exit : List Action
exit = going_single_threaded ∷ perform_finalize ∷ []

-- `bouncyBounce`, up to the end of the thread
abbrev pub bouncy_bounce : List Action
bouncy_bounce =
    (set_os_thread_id ∷ aba_register ∷ become_universethread)
    ++ (new_pool ∷ register_in_universe)
    ++ (universe_release ∷ gain_argument ∷ call_main ∷ exit)

-- A started thread: the system runs the destructor after it, which finds the thread object.
abbrev pub started_thread : List Action
started_thread = bouncy_bounce ++ threadinfo_destructor true

-- A thread of another library, which asks for its thread object and is removed in the end.
abbrev pub foreign_thread : List Action
foreign_thread = get_or_create_current_thread false ++ remove_threadobject_from_universe

-- What `-mulleStart` does when the thread can not be created
abbrev pub undo_start : List Action
undo_start = clear_detached ∷ universe_release ∷ release_self ∷ raise_create ∷ []

module _ {rc : References} where
  -- `-mulleStart`, up to the creation of the thread
  abbrev pub mulle_start : ThreadObject rc → List Action
  mulle_start t =
      if t.os_thread_id == 0
      then going_multi_threaded ∷ retain_self ∷ universe_retain ∷ relinquish_argument
        ∷ thread_create ∷ set_os_thread_id ∷ []
      else raise_running ∷ []

  -- `-start`. A raise leaves out the detachment.
  abbrev pub start : ThreadObject rc → List Action
  start t =
      set_detached
      ∷ (if t.os_thread_id == 0 then mulle_start t ++ (thread_detach ∷ []) else mulle_start t)
