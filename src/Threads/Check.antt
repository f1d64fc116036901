-- ===== src/Threads/Check.antt =====
-- src/class/NSThread.m: what the actions that are left of a function still have to give back, and a
-- check of this for every point of a function.
use mulle_obj_c.Base.{
  ℕ, ◌+◌, ◌-◌, ◌≤◌, ◌≡◌, refl, Bool, true, false, ◌&&◌, ◌||◌, not, List, [], ◌∷◌, leb, ◌==◌, total,
  &&-split, leb_iff, ◌⊎◌, ◌≤◌, refl, arith,
}
use mulle_obj_c.Threads.{
  References, ThreadObject, Action, perform, thread_create, set_os_thread_id, write_os_thread_id,
  universe_retain, universe_release, increment_n_threads, decrement_n_threads, map_set, map_remove,
  aba_register, aba_unregister, register_gc, remove_gc, gain, relinquish, finalize,
  ns_thread_set_os_thread_id,
}
use mulle_obj_c.Threads.System.{Process}

abbrev pub retains : Action → ℕ
retains universe_retain = 1
retains _ = 0

-- The creation of a thread passes the reference of the universe on to the thread.
abbrev pub releases : Action → ℕ
releases universe_release = 1
releases thread_create = 1
releases _ = 0

abbrev pub increments : Action → ℕ
increments increment_n_threads = 1
increments _ = 0

abbrev pub decrements : Action → ℕ
decrements decrement_n_threads = 1
decrements _ = 0

abbrev pub sets : Action → ℕ
sets map_set = 1
sets _ = 0

abbrev pub removes : Action → ℕ
removes map_remove = 1
removes _ = 0

abbrev pub numbers : Action → ℕ
numbers set_os_thread_id = 1
numbers write_os_thread_id = 1
numbers _ = 0

abbrev pub creates : Action → ℕ
creates thread_create = 1
creates _ = 0

-- The references of the universe that the actions give back in the end
abbrev pub owed : List Action → ℕ
owed l = total releases l - total retains l

-- 1 while the thread is counted in `n_threads`
abbrev pub counted : List Action → ℕ
counted l = total decrements l - total increments l

-- 1 while the thread object is in the map of the universe
abbrev pub mapped : List Action → ℕ
mapped l = total removes l - total sets l

-- The next action drops the last reference that the actions have.
abbrev pub drops_last : List Action → Bool
drops_last [] = false
drops_last (action ∷ rest) = (releases action == 1) && (owed (action ∷ rest) == 1)

abbrev pub first_numbers : List Action → ℕ
first_numbers [] = 0
first_numbers (action ∷ rest) = numbers action

abbrev pub balanced : List Action → Bool
balanced l =
    leb (total retains l) (total releases l)
    && (leb (total increments l) (total decrements l)
        && (leb (total decrements l) (total increments l + 1)
            && (leb (total sets l) (total removes l)
                && (leb (total removes l) (total sets l + 1)
                    && (leb (counted l + mapped l) (owed l + owed l)
                        && (((mapped l == 0) || (total numbers l == 0))
                            && ((total creates l == 0)
                                || (leb (owed l) 1 && (first_numbers l == 0)))))))))

-- What `balanced` tests.
pub record Balanced (l : List Action) : Type 0 where
  pub retained : total retains l ≤ total releases l
  pub entered : total increments l ≤ total decrements l
  pub entered_once : total decrements l ≤ total increments l + 1
  pub listed : total sets l ≤ total removes l
  pub listed_once : total removes l ≤ total sets l + 1
  pub inside : counted l + mapped l ≤ owed l + owed l
  pub identified : (mapped l ≡ 0) ⊎ (total numbers l ≡ 0)
  pub passing : (total creates l ≡ 0) ⊎ ((owed l ≤ 1) × (first_numbers l ≡ 0))

balanced-Balanced : (l : List Action) → balanced l ≡ true → Balanced l
balanced-Balanced l h =
    let (a, h₁) = &&-split h in
    let (b, h₂) = &&-split h₁ in
    let (c, h₃) = &&-split h₂ in
    let (d, h₄) = &&-split h₃ in
    let (e, h₅) = &&-split h₄ in
    let (f, h₆) = &&-split h₅ in
    let (g, i) = &&-split h₆ in
    record {
      retained = (leb_iff _ _).0 a;
      entered = (leb_iff _ _).0 b;
      entered_once = (leb_iff _ _).0 c;
      listed = (leb_iff _ _).0 d;
      listed_once = (leb_iff _ _).0 e;
      inside = (leb_iff _ _).0 f;
      identified = either (mapped l) (total numbers l) g;
      passing = passes (total creates l) (owed l) (first_numbers l) i;
    }
  where
    either : (a b : ℕ) → ((a == 0) || (b == 0)) ≡ true → (a ≡ 0) ⊎ (b ≡ 0)
    either a b h = ground arith

    passes :
        (a b c : ℕ) → ((a == 0) || (leb b 1 && (c == 0))) ≡ true → (a ≡ 0) ⊎ ((b ≤ 1) × (c ≡ 0))
    passes a b c h = ground arith

abbrev pub all_balanced : List Action → Bool
all_balanced [] = true
all_balanced (action ∷ rest) = balanced (action ∷ rest) && all_balanced rest

abbrev pub aba_after : Action → Bool → Bool
aba_after aba_register flag = true
aba_after aba_unregister flag = false
aba_after _ flag = flag

abbrev pub gc_after : Action → Bool → Bool
gc_after register_gc flag = true
gc_after remove_gc flag = false
gc_after _ flag = flag

pub all_balanced-Balanced : (l : List Action) → all_balanced l ≡ true → Balanced l
all_balanced-Balanced [] h = balanced-Balanced [] refl
all_balanced-Balanced (action ∷ rest) h = balanced-Balanced (action ∷ rest) (&&-split h).0

pub all_balanced-rest :
    (action : Action) (rest : List Action) → all_balanced (action ∷ rest) ≡ true → Balanced rest
all_balanced-rest action rest h = all_balanced-Balanced rest (&&-split h).1

-- At every point, a thread in the collector has a reference of the universe, and a thread that
-- drops its last one is in neither the collector nor the global one.
abbrev pub guarded : (in_aba in_gc : Bool) → List Action → Bool
guarded in_aba in_gc [] = not in_gc
guarded in_aba in_gc (action ∷ rest) =
    (not in_gc || leb 1 (owed (action ∷ rest)))
    && (not (drops_last (action ∷ rest) && (in_aba || in_gc))
        && guarded (aba_after action in_aba) (gc_after action in_gc) rest)

-- The actions of the two collectors
abbrev pub registers : Action → ℕ
registers aba_register = 1
registers aba_unregister = 1
registers register_gc = 1
registers remove_gc = 1
registers _ = 0

-- A caller has no actions of the collectors, the map and the counter.
abbrev pub only_starts : List Action → Bool
only_starts l =
    (total decrements l + total increments l == 0)
    && ((total removes l + total sets l == 0)
        && (leb (total creates l) 1 && (total registers l == 0)))

pub record Sound {rc : References} (p : Process rc) : Type 0 where
  pub caller_balanced : all_balanced p.caller ≡ true
  pub caller_starts : only_starts p.caller ≡ true
  pub remaining_balanced : all_balanced p.remaining ≡ true
  pub remaining_guarded : guarded p.object.in_aba p.object.in_gc p.remaining ≡ true
  pub remaining_runs : total creates p.remaining ≡ 0

pub perform-in_aba :
    {rc : References} (action : Action) (t : ThreadObject rc)
    → (perform action t).in_aba ≡ aba_after action t.in_aba
unfolding perform gain relinquish finalize ns_thread_set_os_thread_id
perform-in_aba action t = ground arith

pub perform-in_gc :
    {rc : References} (action : Action) (t : ThreadObject rc)
    → (perform action t).in_gc ≡ gc_after action t.in_gc
unfolding perform gain relinquish finalize ns_thread_set_os_thread_id
perform-in_gc action t = ground arith
