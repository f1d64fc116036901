-- ===== src/Threads/Held.antt =====
-- src/class/NSThread.m: the universe outlives the membership of a thread.
use mulle_obj_c.Array.{nil}
use mulle_obj_c.Threads.Number.{Reach-counted}
use mulle_obj_c.Threads.Registry.{registered, Reach-registered}
use mulle_obj_c.Base.{
  ◌⊎◌, inl, inr, not, refl, &&-split, ◌&&◌, ◌||◌, All, All-map, total-none, ℕ, ◌+◌, ◌≤◌, ◌≡◌, Bool,
  true, false, List, [], ◌∷◌, ◌++◌, total-element, arith,
}
use mulle_obj_c.Threads.{References, ReferencesLaws, PointerMap, PointerMapLaws, World, Action}
use mulle_obj_c.Threads.System.{Process, Reach}
use mulle_obj_c.Threads.Check.{
  all_balanced, all_balanced-Balanced, all_balanced-rest, Balanced, guarded, owed, counted, mapped,
  drops_last,
}
use mulle_obj_c.Threads.Count.{owes, counts, Reach-universe_references}
use mulle_obj_c.Threads.Sound.{process-Sound}

gc-owed : (aba gc : Bool) (l : List Action) → guarded aba gc l ≡ true → gc ≡ true → 1 ≤ owed l
gc-owed aba gc [] h e = ground (arith, h, e)
gc-owed aba gc (action ∷ rest) h e = ground (arith, h, e)

inside-owed : (l : List Action) → all_balanced l ≡ true → 1 ≤ counted l + mapped l → 1 ≤ owed l
inside-owed l h inside = omega (arith, inside, all_balanced-Balanced l h)

last-out :
    (aba gc : Bool) (l : List Action)
    → guarded aba gc l ≡ true
    → (drops_last l && (aba || gc)) ≡ false
last-out aba gc [] h = refl
last-out aba gc (action ∷ rest) h = negated _ (&&-split (&&-split h).1).0
  where
    negated : (b : Bool) → not b ≡ true → b ≡ false
    negated b h = ground (arith, h)

module _ (rc : References) (laws : ReferencesLaws rc) (mp : PointerMap) where
  -- A thread that is in the garbage collection of the universe, or counted, or in the map of the
  -- universe, has a reference of the universe to drop, beside those of the first thread: the universe
  -- can not go away under it, whatever the other threads do.
  pub Reach-universe_held :
      {w w' : World rc mp} (p : Process rc) (before after : List (Process rc))
      → Reach rc mp w (w', before ++ (p ∷ after))
      → (p.object.in_gc ≡ true) ⊎ (1 ≤ counted p.remaining + mapped p.remaining)
      → rc.value w.universe + 1 ≤ rc.value w'.universe
  Reach-universe_held p before after r inside =
      let count = Reach-universe_references rc laws mp r in
      let mine = total-element owes before p after in
      let sound = process-Sound rc mp before after r in
      let guard = sound.remaining_guarded in
      let holds : 1 ≤ owed p.remaining = elim inside [
        | inl in_gc ↦ gc-owed p.object.in_aba p.object.in_gc p.remaining guard in_gc
        | inr listed ↦ inside-owed p.remaining sound.remaining_balanced listed
      ] in
      omega (arith, count, mine, holds)

  -- At any time, a thread whose next action drops the last reference of the universe that it has,
  -- which may tear the universe down, is in neither the garbage collection of the universe nor the
  -- global one, and it is neither counted nor in the map of the universe once that is done.
  pub Reach-last_out :
      {w w' : World rc mp} (p : Process rc) (action : Action) (rest : List Action)
      → (before after : List (Process rc)) → Reach rc mp w (w', before ++ (p ∷ after))
      → p.remaining ≡ action ∷ rest
      → drops_last p.remaining ≡ true
      → (p.object.in_aba ≡ false) × ((p.object.in_gc ≡ false) × (counted rest + mapped rest ≡ 0))
  Reach-last_out p action rest before after r e drops =
      let sound = process-Sound rc mp before after r in
      let (aba, gc) = neither p.object.in_aba p.object.in_gc (
        rw drops at
          (last-out p.object.in_aba p.object.in_gc p.remaining sound.remaining_guarded)) in
      let left = all_balanced-rest action rest (rw e at sound.remaining_balanced) in
      (aba, (gc, dropped action rest (rw e at drops) left))
    where
      neither : (a b : Bool) → (a || b) ≡ false → (a ≡ false) × (b ≡ false)
      neither a b h = ground (arith, h)

      dropped :
          (action : Action) (rest : List Action)
          → drops_last (action ∷ rest) ≡ true
          → Balanced rest
          → counted rest + mapped rest ≡ 0
      dropped action rest drops left = ground (arith, drops, left.inside, left.retained)

  -- Nothing is owed or counted when all have come to their end.
  pub Reach-ended :
      {w w' : World rc mp} (ps : List (Process rc))
      → w.n_threads ≡ 0
      → Reach rc mp w (w', ps)
      → All (λ p. (p.caller ≡ []) × (p.remaining ≡ [])) ps
      → (rc.value w'.universe ≡ rc.value w.universe) × (w'.n_threads ≡ 0)
  Reach-ended ps zero_threads r done =
      let none_owes = total-none owes ps (All-map _ _ (λ p h. rw (h.0, h.1) refl) ps done) in
      let none_counts = total-none counts ps (All-map _ _ (λ p h. rw (h.1) refl) ps done) in
      (
        omega (arith, Reach-universe_references rc laws mp r, none_owes),
        omega (arith, Reach-counted rc mp zero_threads r, none_counts),
      )

  -- When all callers and threads have done all of their actions, the references of the universe are
  -- those of the first thread again, no thread is counted, and no identifier is left in the map
  -- that was not there at first, whatever the order was and whichever starts failed. No thread was
  -- counted at first.
  pub Reach-nothing_left :
      {w w' : World rc mp} (ps : List (Process rc)) (y : ℕ)
      → PointerMapLaws mp
      → w.n_threads ≡ 0
      → mp.get w.threads y ≡ nil
      → Reach rc mp w (w', ps)
      → All (λ p. (p.caller ≡ []) × (p.remaining ≡ [])) ps
      → (rc.value w'.universe ≡ rc.value w.universe)
        × ((w'.n_threads ≡ 0) × (mp.get w'.threads y ≡ nil))
  Reach-nothing_left ps y map_laws zero_threads free r done =
      let none_listed = total-none (registered y) ps (All-map _ _ (λ p h. rw (h.1) refl) ps done) in
      let (references, count) = Reach-ended ps zero_threads r done in
      (references, (count, omega (arith, Reach-registered rc mp map_laws y free r, none_listed)))
