-- ===== src/Singleton/Examples.antt =====
-- Two threads that race for the instance of a class, and the theorems at their states.
use mulle_obj_c.Base.{
  ℕ, suc, true, false, [], ◌∷◌, ◌+◌, ◌≡◌, ◌≢◌, ◌⊎◌, ◌==◌, inl, inr, refl, arith, if◌then◌else◌,
  ==_iff,
}
use mulle_obj_c.Array.{ObjectId, nil}
use mulle_obj_c.Singleton.{
  Infraclass, InfraclassLaws, entering, reading, creating, setting, constantifying, releasing,
  returned, Shared, advance, thread, Reach, start, next, start_of, run, singleton_create,
}
use mulle_obj_c.Singleton.Agree.{returned_same, Reach-released, singleton_create_lem}
use mulle_obj_c.Singleton.Balance.{made, same, times}

-- A class is its instance.
abbrev ic : Infraclass
ic = record {
  Class = ℕ;
  get_singleton = λ k. k;
  set_singleton = λ k x. if k == 0 then (true, x) else (false, k);
}

laws : InfraclassLaws ic
laws = record {
  set_first = λ k x e. let empty : (k == 0) ≡ true = (==_iff k 0).1 e in rw (empty) (refl, refl);
  set_again = λ k x e. let taken : (k == 0) ≡ false = ground (arith, e) in rw (taken) (refl, refl);
}

-- The first thread and the second one take turns, up to their creating an instance each.
both_creating :
    Reach ic 0 2 (record (start_of ic 0 2).0 { created = 2 }, setting 1 ∷ setting 2 ∷ [])
unfolding advance
both_creating =
    let s0 = (start_of ic 0 2).0 in
    let s1 : Shared ic = record s0 { created = 1 } in
    let r1 = next start (thread s0 [] entering (entering ∷ [])) in
    let r2 = next r1 (thread s0 (reading ∷ []) entering []) in
    let r3 = next r2 (thread s0 [] reading (reading ∷ [])) in
    let r4 = next r3 (thread s0 (creating ∷ []) reading []) in
    let r5 = next r4 (thread s0 [] creating (creating ∷ [])) in
    next r5 (thread s1 (setting 1 ∷ []) creating [])

-- The second thread is faster, and the first one releases what it created.
abbrev last : Shared ic
last = record {
  class = 2;
  deinitializing = false;
  created = 2;
  released = 1 ∷ [];
  constants = 2 ∷ [];
}

raced : Reach ic 0 2 (last, returned 2 ∷ returned 2 ∷ [])
unfolding advance
raced =
    let s2 : Shared ic = record (start_of ic 0 2).0 { created = 2 } in
    let s3 : Shared ic = record s2 { class = 2 } in
    let s4 : Shared ic = record s3 { constants = 2 ∷ [] } in
    let r1 = next both_creating (thread s2 (setting 1 ∷ []) (setting 2) []) in
    let r2 = next r1 (thread s3 [] (setting 1) (constantifying 2 ∷ [])) in
    let r3 = next r2 (thread s3 (releasing 1 ∷ []) (constantifying 2) []) in
    let r4 = next r3 (thread s4 [] (releasing 1) (returned 2 ∷ [])) in
    next r4 (thread last [] reading (returned 2 ∷ []))

abbrev winner : ObjectId
winner = 2

returned_same_example :
    (((winner ≡ nil) × (last.deinitializing ≡ true)) ⊎ ((winner ≡ last.class) × (winner ≢ nil)))
    × ((winner ≡ last.class) ⊎ ((last.deinitializing ≡ true) × ((winner ≡ nil) ⊎ (winner ≡ nil))))
returned_same_example = returned_same ic laws winner winner refl raced (inl refl) (inr (inl refl))

Reach-released_example :
    (times 1 last.released + times 1 last.constants ≡ made 1 last.created)
    × (times 1 last.constants ≡ same 1 2)
Reach-released_example =
    Reach-released ic laws 1 (λ e. absurd (omega (arith, e))) refl raced
      ((2, refl), ((2, refl), tt))

singleton_create_lem_example :
    (s' : Shared ic) × (x : ObjectId) × (singleton_create ic last ≡ (s', returned x))
    × ((last.deinitializing ≡ true) × (x ≡ nil) × (s' ≡ last)
        ⊎ ((last.deinitializing ≡ false)
              × (ic.get_singleton last.class ≢ nil)
              × (x ≡ ic.get_singleton last.class)
              × (s' ≡ last)
            ⊎ ((last.deinitializing ≡ false)
                × (ic.get_singleton last.class ≡ nil)
                × (x ≡ suc last.created)
                × (ic.get_singleton s'.class ≡ x)
                × (s'.constants ≡ x ∷ last.constants)
                × (s'.released ≡ last.released))))
singleton_create_lem_example = singleton_create_lem ic laws last

created_alone : (singleton_create ic (start_of ic 0 0).0).1 ≡ returned 1
unfolding singleton_create run advance
created_alone = refl
