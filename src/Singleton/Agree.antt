-- ===== src/Singleton/Agree.antt =====
-- The calls of all threads give one instance, and every other instance is released.
use mulle_obj_c.Base.{
  ℕ, suc, ◌+◌, ◌≡◌, ◌≢◌, ◌⊎◌, refl, sym, ap, ◌∙◌, true, false, List, [], ◌∷◌, arith, ◌==◌, inl, inr,
  Bool-cases, All, In, All-In, total, ==_iff,
}
use mulle_obj_c.Array.{ObjectId, nil}
use mulle_obj_c.Singleton.{
  Infraclass, InfraclassLaws, Stage, returned, Shared, advance, Reach, run, singleton_create,
}
use mulle_obj_c.Singleton.Balance.{
  AgreesWith, held, pending, made, same, times, instance_of, Reach-Balanced,
}

abbrev pub Returned : Stage → Type 0
Returned stage = (x : ObjectId) × (stage ≡ returned x)

module _ (ic : Infraclass) (laws : InfraclassLaws ic) where
  -- Let any number of threads call in any order, on a class without an instance and with a setter
  -- that succeeds once. What a call has returned is the class's instance and not nil, or else it is
  -- nil and the universe is deinitializing. So two calls have returned the same, or the universe is
  -- deinitializing and one of them has returned nil.
  pub returned_same :
      {k : ic.Class} {n : ℕ} {t : Shared ic × List Stage} (x y : ObjectId)
      → ic.get_singleton k ≡ nil
      → Reach ic k n t
      → In (returned x) t.1
      → In (returned y) t.1
      → (((x ≡ nil) × (t.0.deinitializing ≡ true)) ⊎ ((x ≡ instance_of ic laws t.0) × (x ≢ nil)))
        × ((x ≡ y) ⊎ ((t.0.deinitializing ≡ true) × ((x ≡ nil) ⊎ (y ≡ nil))))
  returned_same {t = t} x y empty r i j =
      let agree = (Reach-Balanced ic laws 1 (λ e. absurd (omega (arith, e))) empty r).0 in
      let first = All-In (AgreesWith ic laws t.0) (returned x) t.1 agree i in
      let second = All-In (AgreesWith ic laws t.0) (returned y) t.1 agree j in
      (
        first,
        elim first [
          | inl none ↦ inr (none.1, inl none.0)
          | inr some ↦ elim second [
            | inl none ↦ inr (none.1, inr none.0)
            | inr other ↦ inl (some.0 ∙ sym other.0)
          ]
        ],
      )

  finished :
      (f : Stage → ℕ)
      → ((x : ObjectId) → f (returned x) ≡ 0)
      → (stages : List Stage) → All Returned stages
      → total f stages ≡ 0
  finished f none [] h = refl
  finished f none (stage ∷ stages) ((x, e), h) =
      omega (arith, ap f e, none x, finished f none stages h)

  -- When the calls of all threads have returned, an instance that was created either is the
  -- class's one, was made constant, once, and was not released, or it was released once and was not
  -- made constant. No other instance was made constant or released. The class had no instance
  -- before, and its setter succeeds once.
  pub Reach-released :
      {k : ic.Class} {n : ℕ} {t : Shared ic × List Stage} (x : ObjectId)
      → x ≢ nil
      → ic.get_singleton k ≡ nil
      → Reach ic k n t
      → All Returned t.1
      → (times x t.0.released + times x t.0.constants ≡ made x t.0.created)
        × (times x t.0.constants ≡ same x (ic.get_singleton t.0.class))
  Reach-released {t = t} x named empty r h =
      let (agree, books, constants) = Reach-Balanced ic laws x named empty r in
      let no_more = finished (held x) (λ x. refl) t.1 h in
      let all_made = finished (pending x) (λ x. refl) t.1 h in
      (omega (arith, books, constants, no_more, all_made), omega (arith, constants, all_made))

  -- A call by a thread that is alone ends. If the universe is deinitializing it returns nil, else
  -- the class's instance if it has one, and else a new instance, which it makes constant and the
  -- class's. Nothing is released, and but for a new instance nothing changes.
  pub singleton_create_lem :
      (s : Shared ic)
      → (s' : Shared ic) × (x : ObjectId) × (singleton_create ic s ≡ (s', returned x))
        × ((s.deinitializing ≡ true) × (x ≡ nil) × (s' ≡ s)
            ⊎ ((s.deinitializing ≡ false)
                  × (instance_of ic laws s ≢ nil)
                  × (x ≡ instance_of ic laws s)
                  × (s' ≡ s)
                ⊎ ((s.deinitializing ≡ false)
                    × (instance_of ic laws s ≡ nil)
                    × (x ≡ suc s.created)
                    × (instance_of ic laws s' ≡ x)
                    × (s'.constants ≡ x ∷ s.constants)
                    × (s'.released ≡ s.released))))
  unfolding singleton_create run advance
  singleton_create_lem s = elim (Bool-cases s.deinitializing) [
    | inl d ↦ (s, nil, rw (d) refl, inl (d, refl, refl))
    | inr d ↦ elim (Bool-cases (instance_of ic laws s == nil)) [
      | inl none ↦
          let x : ObjectId = suc s.created in
          let (won, kept) = laws.set_first s.class x ((==_iff _ _).0 none) in
          (
            record s {
              class = (ic.set_singleton s.class x).1;
              created = x;
              constants = x ∷ s.constants;
            },
            x,
            rw (d, none, won) refl,
            inr (inr (d, (==_iff _ _).0 none, refl, kept, refl, refl)),
          )
      | inr some ↦ (
        s,
        instance_of ic laws s,
        rw (d, some) refl,
        inr (inl (d, ground (arith, some), refl, refl)),
      )
    ]
  ]
