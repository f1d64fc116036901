-- ===== src/Threads.antt =====
-- src/class/NSThread.m: what the functions that begin, start and end a thread do, one action after
-- the other, on what all threads share and on the NSThread object.
pub mod Programs
pub mod System
pub mod Check
pub mod Count
pub mod Number
pub mod Held
pub mod Sound
pub mod Numbered
pub mod Unique
pub mod Progress
pub mod Current
pub mod Registry
pub mod Start
mod Examples
use mulle_obj_c.Base.{
  ℕ, ◌+◌, ◌-◌, ◌%◌, ◌≤◌, ◌≡◌, Bool, true, false, ◌||◌, not, ◌&&◌, Option, some, ◌==◌, List, ◌∷◌,
  if◌then◌else◌,
}
use mulle_obj_c.Array.{ObjectId, nil}

-- mulle-objc-runtime: the reference counts of objects and of the universe
pub record References : Type 1 where
  pub Count : Type 0
  pub value : Count → ℕ
  pub retain : Count → Count
  pub release : Count → Count

pub record ReferencesLaws (rc : References) : Type 0 where
  pub value-retain : (c : rc.Count) → rc.value (rc.retain c) ≡ rc.value c + 1
  pub value-release : (c : rc.Count) → 1 ≤ rc.value c → rc.value (rc.release c) + 1 ≡ rc.value c

-- mulle-container: a map of pointers, where a missing key has `nil`
pub record PointerMap : Type 1 where
  pub Map : Type 0
  pub get : Map → (key : ℕ) → ObjectId
  pub set : Map → (key : ℕ) → ObjectId → Map
  pub remove : Map → (key : ℕ) → Map

pub record PointerMapLaws (mp : PointerMap) : Type 0 where
  pub get-set :
      (m : mp.Map) (key other : ℕ) (obj : ObjectId)
      → mp.get (mp.set m key obj) other ≡ (if key == other then obj else mp.get m other)
  pub get-remove :
      (m : mp.Map) (key other : ℕ)
      → mp.get (mp.remove m key) other ≡ (if key == other then nil else mp.get m other)

-- What the statements of the functions do, in the order of `NSThread.m`
pub data Action : Type 0 where
  set_os_thread_id write_os_thread_id : Action
  universe_retain setup_threadinfo register_gc increment_n_threads set_multi_threaded : Action
  remove_gc decrement_n_threads unset_threadinfo universe_release : Action
  aba_register aba_unregister : Action
  new_pool reset_pool done_pool : Action
  map_set set_threadobject map_remove clear_threadobject : Action
  retain_self release_self : Action
  relinquish_argument gain_argument call_main : Action
  going_multi_threaded going_single_threaded perform_finalize : Action
  set_detached clear_detached thread_create thread_detach : Action
  raise_running raise_create : Action

-- The raises of `mulleStart` and `mulleJoin`
pub data Failure : Type 0 where
  already_running thread_creation detached_join : Failure

abbrev pub word : ℕ
word = 18446744073709551616

-- The `struct _mulle_objc_universefoundationinfo_thread`, with the universe's references, the map
-- of the thread objects and `ClassStatic._isMultiThreaded`
pub record World (rc : References) (mp : PointerMap) : Type 0 where
  pub universe : rc.Count
  pub n_threads : ℕ
  pub was_multi_threaded : Bool
  pub is_multi_threaded : Bool
  pub threads : mp.Map

-- An NSThread, with what the runtime keeps for the operating system's thread. The argument is the
-- invocation or the object of the function, whichever the thread has.
pub record ThreadObject (rc : References) : Type 0 where
  pub object : ObjectId
  pub thread_id : ℕ
  pub references : rc.Count
  pub os_thread_id : ℕ
  pub argument : ObjectId
  pub is_detached : Bool
  pub did_gain_access : Bool
  pub is_finalized : Bool
  pub in_aba : Bool
  pub in_gc : Bool
  pub has_threadinfo : Bool
  pub has_pool : Bool
  pub threadobject : ObjectId
  pub gained : List ObjectId
  pub relinquished : List ObjectId
  pub failure : Option Failure

module _ {rc : References} where
  -- `[argument mulleGainAccess]` and `[argument mulleRelinquishAccess]`: messages to nil are listed
  unfoldable pub gain : ThreadObject rc → ThreadObject rc
  gain t = record t { gained = t.argument ∷ t.gained }

  unfoldable pub relinquish : ThreadObject rc → ThreadObject rc
  relinquish t = record t { relinquished = t.argument ∷ t.relinquished }

  -- `-finalize`, which `-mullePerformFinalize` calls once
  unfoldable pub finalize : ThreadObject rc → ThreadObject rc
  unfolding relinquish
  finalize t =
      let finalized = record t { is_finalized = true } in
      if t.is_finalized
      then t
      else if t.is_detached
      then record finalized { argument = nil }
      else if t.did_gain_access
      then relinquish finalized
      else finalized

  -- `_NSThreadSetOSThreadId`: a compare and swap with NULL
  unfoldable pub ns_thread_set_os_thread_id : ThreadObject rc → ThreadObject rc
  ns_thread_set_os_thread_id t = record t {
    os_thread_id = if t.os_thread_id == 0 then t.thread_id else t.os_thread_id;
  }

  -- What an action does to the thread's own object.
  unfoldable pub perform : Action → ThreadObject rc → ThreadObject rc
  unfolding gain relinquish finalize ns_thread_set_os_thread_id
  perform set_os_thread_id t = ns_thread_set_os_thread_id t
  perform write_os_thread_id t = record t { os_thread_id = t.thread_id }
  perform setup_threadinfo t = record t { has_threadinfo = true }
  perform unset_threadinfo t = record t { has_threadinfo = false }
  perform register_gc t = record t { in_gc = true }
  perform remove_gc t = record t { in_gc = false }
  perform aba_register t = record t { in_aba = true }
  perform aba_unregister t = record t { in_aba = false }
  perform new_pool t = record t { has_pool = true }
  perform done_pool t = record t { has_pool = false }
  perform set_threadobject t = record t { threadobject = t.object }
  perform clear_threadobject t = record t { threadobject = nil }
  perform retain_self t = record t { references = rc.retain t.references }
  perform release_self t = record t { references = rc.release t.references }
  perform relinquish_argument t = relinquish t
  perform gain_argument t = record (gain t) { did_gain_access = true }
  perform perform_finalize t = finalize t
  perform set_detached t = record t { is_detached = true }
  perform clear_detached t = record t { is_detached = false }
  perform raise_running t = record t { failure = some already_running }
  perform raise_create t = record t { failure = some thread_creation }
  perform _ t = t

module _ {rc : References} {mp : PointerMap} where
  -- What an action of a thread does to what the threads share. The counter wraps.
  unfoldable pub share : Action → ThreadObject rc → World rc mp → World rc mp
  share universe_retain t w = record w { universe = rc.retain w.universe }
  share universe_release t w = record w { universe = rc.release w.universe }
  share increment_n_threads t w = record w { n_threads = (w.n_threads + 1) % word }
  share decrement_n_threads t w = record w { n_threads = (w.n_threads + (word - 1)) % word }
  share set_multi_threaded t w = record w { was_multi_threaded = true }
  share map_set t w = record w { threads = mp.set w.threads t.thread_id t.object }
  share map_remove t w = record w { threads = mp.remove w.threads t.os_thread_id }
  share going_multi_threaded t w = record w {
    is_multi_threaded = (w.n_threads == 0) || w.is_multi_threaded;
  }
  share going_single_threaded t w = record w {
    is_multi_threaded = not (w.n_threads == 1) && w.is_multi_threaded;
  }
  share _ t w = w
