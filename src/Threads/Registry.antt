-- ===== src/Threads/Registry.antt =====
-- src/class/NSThread.m: the map of the universe from the identifiers of threads to thread objects.
use mulle_obj_c.Base.{
  total-middle, sym, ap, ◌∙◌, length, ℕ, ◌+◌, ◌≤◌, ◌≡◌, inl, inr, refl, true, ◌&&◌, ◌==◌,
  if◌then◌else◌, List, [], ◌∷◌, ◌++◌, total, arith,
}
use mulle_obj_c.Array.{ObjectId, nil}
use mulle_obj_c.Threads.{
  References, PointerMap, PointerMapLaws, World, ThreadObject, Action, perform, share, map_set,
  map_remove,
}
use mulle_obj_c.Threads.System.{
  Process, Reach, first, next, call, created, failed, run, starting, joining, in_use,
}
use mulle_obj_c.Threads.Check.{
  all_balanced, all_balanced-Balanced, all_balanced-rest, only_starts, mapped, Sound,
}
use mulle_obj_c.Threads.Unique.{Reach-one_each}
use mulle_obj_c.Threads.Sound.{process-Sound}
use mulle_obj_c.Threads.Numbered.{Numbered, process-Numbered, perform-kept}

abbrev pub entry : (mapped thread_id : ℕ) → (object : ObjectId) → (y : ℕ) → ObjectId
entry mapped thread_id object y = if (mapped == 1) && (thread_id == y) then object else nil

-- The thread object, for the identifier of a thread between its registration and its removal
abbrev pub registered : {rc : References} (y : ℕ) → Process rc → ObjectId
registered y p = entry (mapped p.remaining) p.object.thread_id p.object.object y

module _ {rc : References} where
  -- A thread that has ended is registered no more.
  registered-in_use :
      (y : ℕ) (ps : List (Process rc)) → total (in_use y) ps ≡ 0 → total (registered y) ps ≡ 0
  registered-in_use y [] h = refl
  registered-in_use y (p ∷ ps) h =
      omega (arith, one p (omega (arith, h)), registered-in_use y ps (omega (arith, h)))
    where
      ended :
          (y : ℕ) (object : ThreadObject rc) (caller remaining : List Action)
          → in_use y (record { object = object; caller = caller; remaining = remaining }) ≡ 0
          → registered y (record { object = object; caller = caller; remaining = remaining }) ≡ 0
      ended y object caller [] h = refl
      ended y object caller (action ∷ rest) h = ground (arith, h)

      one : (p : Process rc) → in_use y p ≡ 0 → registered y p ≡ 0
      one p h = ended y p.object p.caller p.remaining h

mapped-length : (l : List Action) → length l ≡ 0 → mapped l ≡ 0
mapped-length [] h = refl
mapped-length (action ∷ rest) h = absurd (omega (arith, h))

entry-set :
    (id obj y others looked_up : ℕ)
    → (id ≡ y → others ≡ 0)
    → looked_up ≡ others + entry 0 id obj y
    → (if id == y then obj else looked_up) ≡ others + entry 1 id obj y
entry-set id obj y others looked_up alone e = ground arith

entry-remove :
    (id obj y others looked_up : ℕ)
    → (id ≡ y → others ≡ 0)
    → looked_up ≡ others + entry 1 id obj y
    → (if id == y then nil else looked_up) ≡ others + entry 0 id obj y
entry-remove id obj y others looked_up alone e = ground arith

module _ (rc : References) (mp : PointerMap) (laws : PointerMapLaws mp) (y : ℕ) where
  -- An action in a thread of which the others in the map with the identifier `y` are known
  run-registered :
      (action : Action) (t : ThreadObject rc) (rest : List Action) (w : World rc mp)
      → (others : ObjectId) → all_balanced (action ∷ rest) ≡ true
      → (1 ≤ mapped (action ∷ rest) → t.os_thread_id ≡ t.thread_id)
      → (t.thread_id ≡ y → others ≡ 0)
      → mp.get w.threads y ≡ others + entry (mapped (action ∷ rest)) t.thread_id t.object y
      → mp.get (share action t w).threads y ≡ others + entry (mapped rest) t.thread_id t.object y
  unfolding share
  run-registered map_set t rest w others h n alone e =
      let facts = all_balanced-Balanced (map_set ∷ rest) h in
      let after = all_balanced-rest map_set rest h in
      let out : mapped (map_set ∷ rest) ≡ 0 = omega (arith, facts, after) in
      let in_map : mapped rest ≡ 1 = omega (arith, facts, after) in
      let e' : mp.get w.threads y ≡ others + entry 0 t.thread_id t.object y =
        e ∙ ap (λ m. others + entry m t.thread_id t.object y) out in
      laws.get-set w.threads t.thread_id y t.object
      ∙ entry-set t.thread_id t.object y others (mp.get w.threads y) alone e'
      ∙ ap (λ m. others + entry m t.thread_id t.object y) (sym in_map)
  run-registered map_remove t rest w others h n alone e =
      let facts = all_balanced-Balanced (map_remove ∷ rest) h in
      let after = all_balanced-rest map_remove rest h in
      let in_map : mapped (map_remove ∷ rest) ≡ 1 = omega (arith, facts, after) in
      let out : mapped rest ≡ 0 = omega (arith, facts, after) in
      let own : t.os_thread_id ≡ t.thread_id = n (omega (arith, in_map)) in
      let e' : mp.get w.threads y ≡ others + entry 1 t.thread_id t.object y =
        e ∙ ap (λ m. others + entry m t.thread_id t.object y) in_map in
      laws.get-remove w.threads t.os_thread_id y
      ∙ ap (λ key. if key == y then nil else mp.get w.threads y) own
      ∙ entry-remove t.thread_id t.object y others (mp.get w.threads y) alone e'
      ∙ ap (λ m. others + entry m t.thread_id t.object y) (sym out)
  run-registered action t rest w others h n alone e =
      e ∙ ap (λ m. others + entry m t.thread_id t.object y) (omega arith)

  -- Callers leave the map alone.
  share-threads :
      (action : Action) (t : ThreadObject rc) (w : World rc mp) (rest : List Action)
      → only_starts (action ∷ rest) ≡ true
      → (share action t w).threads ≡ w.threads
  unfolding share
  share-threads action t w rest h = ground (arith, h)

  -- The identifier of a thread in the map is that of its thread object.
  own_number :
      (t : ThreadObject rc) (caller remaining : List Action)
      → Sound (record { object = t; caller = caller; remaining = remaining })
      → Numbered (record { object = t; caller = caller; remaining = remaining })
      → 1 ≤ mapped remaining
      → t.os_thread_id ≡ t.thread_id
  own_number t caller remaining sound n inside =
      let facts = all_balanced-Balanced remaining sound.remaining_balanced in
      elim n.numbered [
        | inl ended ↦ absurd (omega (arith, mapped-length remaining ended, inside))
        | inr (inl later) ↦ absurd (omega (arith, facts, later, inside))
        | inr (inr known) ↦ known
      ]

  -- The lookup of `y`, moved on from one process to what it becomes.
  moved_on :
      (before after : List (Process rc)) (p p' : Process rc) (m m' : mp.Map)
      → mp.get m y ≡ total (registered y) (before ++ (p ∷ after))
      → (mp.get m y ≡ total (registered y) (before ++ after) + registered y p
          → mp.get m' y ≡ total (registered y) (before ++ after) + registered y p')
      → mp.get m' y ≡ total (registered y) (before ++ (p' ∷ after))
  moved_on before after p p' m m' ih move =
      let known = move (ih ∙ total-middle (registered y) before p after) in
      known ∙ sym (total-middle (registered y) before p' after)

  others_out :
      (before after : List (Process rc)) (t : ThreadObject rc) (action : Action)
      → (caller rest : List Action)
      → total
          (in_use y)
          (before ++ (record { object = t; caller = caller; remaining = action ∷ rest } ∷ after))
        ≤ 1
      → t.thread_id ≡ y
      → total (registered y) (before ++ after) ≡ 0
  others_out before after t action caller rest once same =
      let middle =
        total-middle (in_use y) before
          (record { object = t; caller = caller; remaining = action ∷ rest }) after in
      registered-in_use y (before ++ after) (ground (arith, once, middle, same))

  performed :
      (action : Action) (t : ThreadObject rc) (caller remaining : List Action)
      → entry (mapped remaining) t.thread_id t.object y
        ≡ registered y
            (record { object = perform action t; caller = caller; remaining = remaining })
  performed action t caller remaining =
      rw ((perform-kept action t).0, (perform-kept action t).1) refl

  -- Let `y` be no identifier of the map at first. The map then has, for `y`, the thread object of
  -- the thread that has this identifier and is registered, and NULL if there is none.
  pub Reach-registered :
      {w : World rc mp} {s : World rc mp × List (Process rc)}
      → mp.get w.threads y ≡ nil
      → Reach rc mp w s
      → mp.get s.0.threads y ≡ total (registered y) s.1
  Reach-registered free first = free
  Reach-registered free (next r (call w before t action rest remaining after other)) =
      let starts = (process-Sound rc mp before after r).caller_starts in
      moved_on before after _ _ _ _ (Reach-registered free r)
        (λ e. rw (share-threads action t w rest starts, sym (performed action t rest remaining)) e)
  Reach-registered free (next r (created w before t thread_id rest after numbered fresh)) =
      moved_on before after _ _ _ _ (Reach-registered free r) (λ e. e)
  Reach-registered free (next r (failed w before t rest after)) =
      moved_on before after _ _ _ _ (Reach-registered free r) (λ e. e)
  Reach-registered free (next r (run w before t action caller rest after)) =
      let sound = process-Sound rc mp before after r in
      let own = own_number t caller (action ∷ rest) sound (process-Numbered rc mp before after r) in
      let alone = others_out before after t action caller rest (Reach-one_each rc mp y r) in
      moved_on before after _ _ _ _ (Reach-registered free r) (λ e.
        rw (sym (performed action t caller rest))
          (run-registered action t rest w _ sound.remaining_balanced own alone e))
  Reach-registered free (next r (starting w t detached processes named idle gc)) =
      omega (arith, Reach-registered free r)
  Reach-registered free (next r (joining w t processes named numbered idle fresh gc)) =
      omega (arith, Reach-registered free r)
