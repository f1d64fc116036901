-- ===== src/Universe.antt =====
-- src/mulle-objc-universefoundationinfo.m and its private header: what the universe keeps for the
-- library, behind its lock.
pub mod Roots
mod Examples
use mulle_obj_c.Base.{
  ℕ, suc, ◌+◌, ◌-◌, Bool, true, false, Option, none, some, List, [], ◌∷◌, ◌==◌, if◌then◌else◌,
  times, hit, ◌≡◌, ◌≤◌, update,
}
use mulle_obj_c.Array.{ObjectId, nil}
use mulle_obj_c.Threads.{PointerMap}

-- mulle-container: a set of pointers. An insertion says whether the pointer was there.
pub record PointerSet : Type 1 where
  pub Set : Type 0
  pub insert : Set → ObjectId → Bool × Set
  pub remove : Set → ObjectId → Set
  pub elements : Set → List ObjectId

pub record PointerSetLaws (ps : PointerSet) : Type 0 where
  pub insert-present :
      (s : ps.Set) (obj : ObjectId)
      → (ps.insert s obj).0 ≡ (if times obj (ps.elements s) == 0 then false else true)
  pub insert-elements :
      (s : ps.Set) (obj y : ObjectId)
      → times y (ps.elements (ps.insert s obj).1)
        ≡ (if obj == y then 1 else times y (ps.elements s))
  pub remove-elements :
      (s : ps.Set) (obj y : ObjectId)
      → times y (ps.elements (ps.remove s obj)) ≡ (if obj == y then 0 else times y (ps.elements s))

module _ (ps : PointerSet) (mp : PointerMap) where
  -- The fields of `struct _mulle_objc_universefoundationinfo` that the functions use
  pub record FoundationInfo : Type 0 where
    pub roots : ps.Set
    pub threads : mp.Map
    pub debugenabled : Bool
    pub zombieenabled : Bool
    pub deallocatezombie : Bool
    pub mainthread : ObjectId
    pub exception_vectors : ℕ
    pub objectfromchars : ℕ → ObjectId
    pub charsfromobject : ObjectId → ℕ

  -- The universe: its lock, counted, what was sent to objects through it, and the library's part
  pub record Universe : Type 0 where
    pub info : FoundationInfo
    pub locks : ℕ
    pub released : List ObjectId
    pub retained : List ObjectId
    pub autoreleased : List ObjectId
    pub is_initialized : Bool

module _ {ps : PointerSet} {mp : PointerMap} where
  -- `_mulle_objc_universefoundationinfo_add_rootobject`. A failure ends the process.
  unfoldable pub info_add_rootobject :
      FoundationInfo ps mp → ObjectId → Option (FoundationInfo ps mp)
  info_add_rootobject info obj =
      let (present, roots) = ps.insert info.roots obj in
      if present then none else some (record info { roots = roots })

  unfoldable pub info_remove_rootobject : FoundationInfo ps mp → ObjectId → FoundationInfo ps mp
  info_remove_rootobject info obj = record info { roots = ps.remove info.roots obj }

  unfoldable pub info_set_threadobject :
      FoundationInfo ps mp → (thread_id : ℕ) → ObjectId → FoundationInfo ps mp
  info_set_threadobject info thread_id obj = record info {
    threads = mp.set info.threads thread_id obj;
  }

  unfoldable pub info_remove_threadobject :
      FoundationInfo ps mp → (thread_id : ℕ) → ObjectId → FoundationInfo ps mp
  info_remove_threadobject info thread_id obj = record info {
    threads = mp.remove info.threads thread_id;
  }

  unfoldable pub info_lookup_threadobject : FoundationInfo ps mp → (thread_id : ℕ) → ObjectId
  info_lookup_threadobject info thread_id = mp.get info.threads thread_id

  unfoldable pub set_mainthreadobject : FoundationInfo ps mp → ObjectId → FoundationInfo ps mp
  set_mainthreadobject info obj = record info { mainthread = obj }

  unfoldable pub get_mainthreadobject : FoundationInfo ps mp → ObjectId
  get_mainthreadobject info = info.mainthread

  -- What calls of the lock and the unlock of mulle-objc-runtime come to: how often it is held.
  abbrev pub universe_lock : Universe ps mp → Universe ps mp
  universe_lock u = record u { locks = u.locks + 1 }

  abbrev pub universe_unlock : Universe ps mp → Universe ps mp
  universe_unlock u = record u { locks = u.locks - 1 }

  -- The loop of `_mulle_objc_universefoundationinfo_release_rootobjects`
  unfoldable pub release_each : List ObjectId → Universe ps mp → Universe ps mp
  release_each [] u = u
  release_each (obj ∷ objs) u = release_each objs (record u { released = obj ∷ u.released })

  unfoldable pub info_release_rootobjects : Universe ps mp → Universe ps mp
  info_release_rootobjects u = release_each (ps.elements u.info.roots) u

  -- The functions that call another with the lock: `f` is what it does to the library's part.
  unfoldable pub lockedcall : (Universe ps mp → Universe ps mp) → Universe ps mp → Universe ps mp
  lockedcall f u = universe_unlock (f (universe_lock u))

  unfoldable pub lockedcall1 :
      (FoundationInfo ps mp → ObjectId → Option (FoundationInfo ps mp))
      → Universe ps mp
      → ObjectId
      → Option (Universe ps mp)
  lockedcall1 f u obj =
      let locked = universe_lock u in
      elim (f locked.info obj) [
        | none ↦ none
        | some info ↦ some (universe_unlock (record locked { info = info }))
      ]

  unfoldable pub lockedcall2 :
      (FoundationInfo ps mp → ℕ → ObjectId → FoundationInfo ps mp)
      → Universe ps mp
      → (thread_id : ℕ) → ObjectId
      → Universe ps mp
  lockedcall2 f u thread_id obj =
      let locked = universe_lock u in
      universe_unlock (record locked { info = f locked.info thread_id obj })

  -- The object that is found is retained and autoreleased while the lock is held.
  unfoldable pub lockedgetcall1 :
      (FoundationInfo ps mp → ℕ → ObjectId)
      → Universe ps mp
      → (thread_id : ℕ) → ObjectId × Universe ps mp
  lockedgetcall1 f u thread_id =
      let locked = universe_lock u in
      let obj : ObjectId = f locked.info thread_id in
      let kept : Universe ps mp = if obj == nil then locked else record locked {
        retained = obj ∷ locked.retained;
        autoreleased = obj ∷ locked.autoreleased;
      } in
      (obj, universe_unlock kept)

  unfoldable pub add_rootobject : Universe ps mp → ObjectId → Option (Universe ps mp)
  add_rootobject u obj = lockedcall1 info_add_rootobject u obj

  unfoldable pub remove_rootobject : Universe ps mp → ObjectId → Option (Universe ps mp)
  remove_rootobject u obj = lockedcall1 (λ info obj. some (info_remove_rootobject info obj)) u obj

  unfoldable pub release_rootobjects : Universe ps mp → Universe ps mp
  release_rootobjects u = lockedcall info_release_rootobjects u

  unfoldable pub set_threadobject_for_thread_id :
      Universe ps mp → (thread_id : ℕ) → ObjectId → Universe ps mp
  set_threadobject_for_thread_id u thread_id obj = lockedcall2 info_set_threadobject u thread_id obj

  unfoldable pub lookup_threadobject_for_thread_id :
      Universe ps mp → (thread_id : ℕ) → ObjectId × Universe ps mp
  lookup_threadobject_for_thread_id u thread_id =
      lockedgetcall1 info_lookup_threadobject u thread_id

  unfoldable pub remove_threadobject_for_thread_id :
      Universe ps mp → (thread_id : ℕ) → ObjectId → Universe ps mp
  remove_threadobject_for_thread_id u thread_id obj =
      lockedcall2 info_remove_threadobject u thread_id obj

  unfoldable pub universe_is_debugenabled : Universe ps mp → Bool
  universe_is_debugenabled u = u.info.debugenabled

  unfoldable pub universe_is_deallocatingzombies : Universe ps mp → Bool
  universe_is_deallocatingzombies u = u.info.deallocatezombie

  unfoldable pub universe_is_zombieenabled : Universe ps mp → Bool
  universe_is_zombieenabled u = u.info.zombieenabled

  -- `none` is NULL
  unfoldable pub get_foundationexceptionhandlertable : Universe ps mp → Option ℕ
  get_foundationexceptionhandlertable u =
      if u.is_initialized then some u.info.exception_vectors else none

  -- A string is an address, 0 for NULL.
  unfoldable pub universe_string : Universe ps mp → (s : ℕ) → ObjectId
  universe_string u s = if s == 0 then nil else u.info.objectfromchars s

  unfoldable pub universe_characters : Universe ps mp → (nil_text : ℕ) → ObjectId → ℕ
  universe_characters u nil_text obj = if obj == nil then nil_text else u.info.charsfromobject obj
