-- ===== src/Pool/Runtime.antt =====
-- What the pools use of the Objective-C runtime and of mulle-container, as a parameter, and the
-- history by which the runtime answers.
use mulle_obj_c.Base.{ℕ, ◌≡◌, Bool, List, ◌==◌, if◌then◌else◌}
use mulle_obj_c.Array.{ObjectId}

-- What happened to an object or to the memory of an array, as seen from outside of the pools.
pub data Event : Type 0 where
  autoreleased : ObjectId → Event
  released : ObjectId → Event
  created : Event
  freed : Event

-- newest first
abbrev pub History : Type 0
History = List Event

-- `dealloc h x` are the objects that are autoreleased while the release of `x` runs, in order: the
-- object's -finalize and -dealloc are code of the program's user.
-- `memory` is what fresh memory holds. `get` answers 0 (NULL) where the map has no such key.
pub record Runtime : Type 1 where
  pub is_constant : ObjectId → Bool
  pub dealloc : History → ObjectId → List ObjectId
  pub memory : ℕ → ObjectId
  pub Map : Type 0
  pub get : Map → ObjectId → ℕ
  pub set : Map → ObjectId → ℕ → Map
  pub remove : Map → ObjectId → Map

-- `mulle_map_get` after `mulle_map_set` and `mulle_map_remove`
pub record MapLaws (rt : Runtime) : Type 0 where
  pub get-set :
      (m : rt.Map) (k : ObjectId) (v : ℕ) (j : ObjectId)
      → rt.get (rt.set m k v) j ≡ (if k == j then v else rt.get m j)
  pub get-remove :
      (m : rt.Map) (k j : ObjectId) → rt.get (rt.remove m k) j ≡ (if k == j then 0 else rt.get m j)
