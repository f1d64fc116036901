-- ===== src/Threads/Current.antt =====
-- src/class/NSThread.h: the functions on the current thread, its user info and its values by key.
use mulle_obj_c.Base.{
  true, false, ◌≢◌, ℕ, ◌≡◌, refl, ◌==◌, ==_iff, if◌then◌else◌, List, ◌∷◌, update, arith,
}
use mulle_obj_c.Array.{ObjectId}
use mulle_obj_c.Threads.{References, PointerMap, PointerMapLaws, ThreadObject}

-- What an NSThread keeps for its own thread. A key is a number for the text of the key, by which the
-- map of mulle-container compares.
pub record ThreadLocal (mp : PointerMap) : Type 0 where
  pub user_info : ObjectId
  pub map : mp.Map

-- The thread object of the running thread, all thread objects, the handler of failures in the
-- universe, and the objects that were retained and autoreleased,
-- messages to nil included
pub record CurrentThread (mp : PointerMap) : Type 0 where
  pub threadobject : ObjectId
  pub objects : ObjectId → ThreadLocal mp
  pub wrongthread : ℕ
  pub retained : List ObjectId
  pub autoreleased : List ObjectId

unfoldable pub thread_object_get_os_thread_id : {rc : References} → ThreadObject rc → ℕ
thread_object_get_os_thread_id t = t.os_thread_id

module _ {mp : PointerMap} where
  unfoldable pub get_current_thread : CurrentThread mp → ObjectId
  get_current_thread c = c.threadobject

  unfoldable pub get_current_thread_user_info : CurrentThread mp → ObjectId
  unfolding get_current_thread
  get_current_thread_user_info c = (c.objects (get_current_thread c)).user_info

  unfoldable pub set_current_thread_user_info :
      CurrentThread mp → (info : ObjectId) → CurrentThread mp
  unfolding get_current_thread
  set_current_thread_user_info c info =
      let thread = get_current_thread c in
      let before = c.objects thread in
      record c {
        objects = update c.objects thread (record before { user_info = info });
        retained = info ∷ c.retained;
        autoreleased = before.user_info ∷ c.autoreleased;
      }

  unfoldable pub set_object_for_key :
      CurrentThread mp → (value : ObjectId) → (key : ℕ) → CurrentThread mp
  unfolding get_current_thread
  set_object_for_key c value key =
      let thread = get_current_thread c in
      let before = c.objects thread in
      record c {
        objects = update c.objects thread (record before { map = mp.set before.map key value });
      }

  unfoldable pub object_for_key : CurrentThread mp → (key : ℕ) → ObjectId
  unfolding get_current_thread
  object_for_key c key = mp.get (c.objects (get_current_thread c)).map key

  unfoldable pub get_tao_failure_handler : CurrentThread mp → ℕ
  get_tao_failure_handler c = c.wrongthread

  unfoldable pub set_tao_failure_handler : CurrentThread mp → (handler : ℕ) → CurrentThread mp
  set_tao_failure_handler c handler = record c { wrongthread = handler }

  -- A value that is set for a key is the one found for it by the running thread. The values for
  -- other keys, the user info, and what any other thread has are as before.
  pub set_object_for_key-object_for_key :
      PointerMapLaws mp
      → (c : CurrentThread mp) (value : ObjectId) (key other : ℕ) (thread : ObjectId)
      → thread ≢ c.threadobject
      → (object_for_key (set_object_for_key c value key) other
          ≡ (if key == other then value else object_for_key c other))
        × ((get_current_thread_user_info (set_object_for_key c value key)
              ≡ get_current_thread_user_info c)
            × ((set_object_for_key c value key).objects thread ≡ c.objects thread))
  unfolding set_object_for_key object_for_key get_current_thread get_current_thread_user_info
  set_object_for_key-object_for_key laws c value key other thread differs =
      let same : (c.threadobject == c.threadobject) ≡ true = (==_iff _ _).1 refl in
      let others : (c.threadobject == thread) ≡ false = ground (arith, differs) in
      (
        rw (object_for_key, set_object_for_key, get_current_thread, same)
            (laws.get-set (c.objects c.threadobject).map key other value),
        (
          rw (get_current_thread_user_info, set_object_for_key, get_current_thread, same) refl,
          rw (others) refl,
        ),
      )
