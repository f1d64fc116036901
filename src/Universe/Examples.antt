-- ===== src/Universe/Examples.antt =====
-- Three objects as roots, one of which is removed, and the theorem at them.
use mulle_obj_c.Base.{
  ℕ, ◌+◌, ◌≡◌, refl, true, false, none, some, List, [], ◌∷◌, ◌==◌, if◌then◌else◌, times, update,
  arith,
}
use mulle_obj_c.Array.{ObjectId, nil}
use mulle_obj_c.Threads.{PointerMap}
use mulle_obj_c.Universe.{
  PointerSet, PointerSetLaws, Universe, release_rootobjects, get_foundationexceptionhandlertable,
  universe_string, universe_characters,
}
use mulle_obj_c.Universe.Roots.{
  Request, add_root, remove_root, set_thread, lookup_thread, rooted, answer_all,
  release_rootobjects_lem,
}

drop_all : ObjectId → List ObjectId → List ObjectId
drop_all obj [] = []
drop_all obj (x ∷ xs) = let rest = drop_all obj xs in if obj == x then rest else x ∷ rest

drop_all_lem :
    (obj y : ObjectId) (xs : List ObjectId)
    → times y (drop_all obj xs) ≡ (if obj == y then 0 else times y xs)
unfolding drop_all
drop_all_lem obj y [] = ground arith
drop_all_lem obj y (x ∷ xs) = ground (arith, drop_all_lem obj y xs)

abbrev list_set : PointerSet
list_set = record {
  Set = List ObjectId;
  insert = λ s obj. (if times obj s == 0 then false else true, obj ∷ drop_all obj s);
  remove = λ s obj. drop_all obj s;
  elements = λ s. s;
}

list_set_laws : PointerSetLaws list_set
list_set_laws = record {
  insert-present = λ s obj. refl;
  insert-elements = λ s obj y. ground (arith, drop_all_lem obj y s);
  remove-elements = λ s obj y. drop_all_lem obj y s;
}

abbrev function_map : PointerMap
function_map = record {
  Map = ℕ → ObjectId;
  get = λ m key. m key;
  set = λ m key obj. update m key obj;
  remove = λ m key. update m key nil;
}

abbrev new_universe : Universe list_set function_map
new_universe = record {
  info = record {
    roots = [];
    threads = λ key. nil;
    debugenabled = false;
    zombieenabled = false;
    deallocatezombie = false;
    mainthread = nil;
    exception_vectors = 99;
    objectfromchars = λ s. s + 1000;
    charsfromobject = λ obj. obj;
  };
  locks = 0;
  released = [];
  retained = [];
  autoreleased = [];
  is_initialized = false;
}

early_table : get_foundationexceptionhandlertable new_universe ≡ none
unfolding get_foundationexceptionhandlertable
early_table = refl

text_of_nil : universe_characters new_universe 77 nil ≡ 77
unfolding universe_characters
text_of_nil = refl

null_text : universe_string new_universe 0 ≡ nil
unfolding universe_string
null_text = refl

abbrev requests : List Request
requests =
    add_root 3 ∷ set_thread 100 8 ∷ add_root 4 ∷ remove_root 3 ∷ lookup_thread 100 ∷ add_root 5 ∷ []

release_rootobjects_lem_example :
    (u' : Universe list_set function_map) × ((answer_all requests new_universe ≡ some u')
      × ((times 4 (release_rootobjects u').released ≡ rooted (λ obj. 0) requests 4)
          × ((release_rootobjects u').locks ≡ 0)))
release_rootobjects_lem_example =
    release_rootobjects_lem list_set list_set_laws function_map requests new_universe 4
      (record { roots_are = λ y. refl; locks_are = refl; released_are = refl })
      (refl, (refl, (refl, tt)))
