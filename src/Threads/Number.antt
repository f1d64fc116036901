-- ===== src/Threads/Number.antt =====
-- src/class/NSThread.m: `n_threads` against the threads that are in the universe.
use mulle_obj_c.Base.{
  ◌↔◌, ltb, ℕ, ◌+◌, ◌-◌, ◌%◌, ◌≤◌, ◌<◌, ◌≡◌, Bool, true, ◌&&◌, leb, List, ◌∷◌, ◌++◌, total,
  total-replace, total-element, arith,
}
use mulle_obj_c.Threads.{
  References, PointerMap, World, ThreadObject, Action, share, increment_n_threads,
  decrement_n_threads, word,
}
use mulle_obj_c.Threads.System.{
  Process, Reach, first, next, call, created, failed, run, starting, joining,
}
use mulle_obj_c.Threads.Check.{
  all_balanced, all_balanced-Balanced, all_balanced-rest, only_starts, counted,
}
use mulle_obj_c.Threads.Count.{counts}
use mulle_obj_c.Threads.Sound.{process-Sound}

-- `+mulleIsMultiThreaded`, where the counter is read as a signed number
unfoldable pub mulle_is_multi_threaded : {rc : References} {mp : PointerMap} → World rc mp → Bool
mulle_is_multi_threaded w = leb 1 w.n_threads && ltb w.n_threads 9223372036854775808

module _ (rc : References) (mp : PointerMap) where
  share-counted :
      (action : Action) (t : ThreadObject rc) (w : World rc mp) (rest : List Action) (others : ℕ)
      → all_balanced (action ∷ rest) ≡ true
      → w.n_threads ≡ (others + counted (action ∷ rest)) % word
      → (share action t w).n_threads ≡ (others + counted rest) % word
  unfolding share
  share-counted increment_n_threads t w rest others h e = omega (
    arith,
    e,
    all_balanced-rest increment_n_threads rest h,
    all_balanced-Balanced (increment_n_threads ∷ rest) h,
  )
  share-counted decrement_n_threads t w rest others h e = omega (
    arith,
    e,
    all_balanced-rest decrement_n_threads rest h,
    all_balanced-Balanced (decrement_n_threads ∷ rest) h,
  )
  share-counted _ t w rest others h e = omega (arith, e)

  share-starts :
      (action : Action) (t : ThreadObject rc) (w : World rc mp) (rest : List Action)
      → only_starts (action ∷ rest) ≡ true
      → (share action t w).n_threads ≡ w.n_threads
  unfolding share
  share-starts action t w rest h = ground (arith, h)

  counted_replaced :
      (before after : List (Process rc)) (p p' : Process rc) (n n' : ℕ)
      → n ≡ total counts (before ++ (p ∷ after)) % word
      → ((others : ℕ) → n ≡ (others + counts p) % word → n' ≡ (others + counts p') % word)
      → n' ≡ total counts (before ++ (p' ∷ after)) % word
  counted_replaced before after p p' n n' ih change =
      let there = total-element counts before p after in
      let others = total counts (before ++ (p ∷ after)) - counts p in
      let moved = change others (omega (arith, ih, there)) in
      omega (arith, moved, there, total-replace counts before p p' after)

  pub Reach-counted :
      {w : World rc mp} {s : World rc mp × List (Process rc)}
      → w.n_threads ≡ 0
      → Reach rc mp w s
      → s.0.n_threads ≡ total counts s.1 % word
  Reach-counted zero_threads first = omega (arith, zero_threads)
  Reach-counted zero_threads (next r (call w before t action rest remaining after other)) =
      let starts = (process-Sound rc mp before after r).caller_starts in
      counted_replaced before after _ _ _ _ (Reach-counted zero_threads r)
        (λ others e. rw (share-starts action t w rest starts) e)
  Reach-counted zero_threads (next r (created w before t thread_id rest after numbered fresh)) =
      counted_replaced before after _ _ _ _ (Reach-counted zero_threads r) (λ others e. e)
  Reach-counted zero_threads (next r (failed w before t rest after)) =
      counted_replaced before after _ _ _ _ (Reach-counted zero_threads r) (λ others e. e)
  Reach-counted zero_threads (next r (run w before t action caller rest after)) =
      let sound = process-Sound rc mp before after r in
      counted_replaced before after _ _ _ _ (Reach-counted zero_threads r)
        (λ others e. share-counted action t w rest others sound.remaining_balanced e)
  Reach-counted zero_threads (next r (starting w t detached processes named idle gc)) =
      omega (arith, Reach-counted zero_threads r)
  Reach-counted zero_threads (next r (joining w t processes named numbered idle fresh gc)) =
      omega (arith, Reach-counted zero_threads r)

  -- Let no thread be counted at first. As long as fewer than 2 ^ 63 threads are counted,
  -- `+mulleIsMultiThreaded` says whether any is: one that has entered the universe and not resigned.
  pub Reach-mulle_is_multi_threaded :
      {w : World rc mp} {s : World rc mp × List (Process rc)}
      → w.n_threads ≡ 0
      → Reach rc mp w s
      → total counts s.1 < 9223372036854775808
      → (mulle_is_multi_threaded s.0 ≡ true) ↔ (1 ≤ total counts s.1)
  unfolding mulle_is_multi_threaded
  Reach-mulle_is_multi_threaded zero_threads r few =
      let exact = Reach-counted zero_threads r in ground (arith, exact, few)
