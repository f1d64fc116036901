-- ===== src/Atomic/Refine.antt =====
-- The functions on atomic integers act as if each took place in one step.
use Prim.Native.Nat.{bit_and, bit_or}
use mathlib.Core.Path.{subst}
use mulle_obj_c.Base.{
  ℕ, none, some, List, ◌∷◌, ◌≡◌, ◌⊎◌, inl, inr, refl, sym, ap, ◌∙◌, ◌==◌, ==_iff, Bool-cases, arith,
}
use mulle_obj_c.Atomic.{
  AtomicPointer, AtomicPointerLaws, Stage, reading, swapping, returned, attempt, fetch,
  without_result, ns_uinteger_atomic_get, ns_uinteger_atomic_update, ns_uinteger_atomic_masked_or,
  ns_uinteger_atomic_or, ns_uinteger_atomic_set, ns_integer_atomic_get, ns_integer_atomic_update,
  ns_integer_atomic_set, Call, get_call, update_call, masked_or_call, or_call, set_call,
  signed_get_call, signed_update_call, signed_set_call, advance, run, Step, thread, begin, Reach,
  start, next,
}
use mulle_obj_c.Atomic.Plain.{
  meaning, Plain, PlainStep, at_once, plain_begin, PlainReach, plain_start, plain_next, result_of,
  results, results-append,
}

module _ (ap' : AtomicPointer) (laws : AtomicPointerLaws ap') where
  abbrev pub plain_of : ap'.Pointer × List (Call × Stage) → Plain
  plain_of t = (ap'.read t.0, results t.1)

  -- A step of a call changes nothing that can be seen, or it is all that the call means.
  abbrev Acts : (ℕ → ℕ × ℕ) → ap'.Pointer → Stage → ap'.Pointer → Stage → Type 0
  Acts f p stage p' stage' =
      ((ap'.read p' ≡ ap'.read p) × (result_of stage' ≡ result_of stage))
      ⊎ ((result_of stage ≡ none)
          × (ap'.read p' ≡ (f (ap'.read p)).0)
          × (result_of stage' ≡ some (f (ap'.read p)).1))

  attempt-Acts :
      (new_of : ℕ → ℕ) (p : ap'.Pointer) (stage : Stage)
      → Acts
          (λ old. (new_of old, old))
          p
          stage
          (attempt ap' new_of p stage).0
          (attempt ap' new_of p stage).1
  unfolding attempt
  attempt-Acts new_of p reading = elim (Bool-cases (ap'.read p == new_of (ap'.read p))) [
    | inl same ↦ rw (same) (inr (refl, (==_iff _ _).0 same, refl))
    | inr other ↦ rw (other) (inl (refl, refl))
  ]
  attempt-Acts new_of p (swapping old) = elim (Bool-cases (ap'.read p == old)) [
    | inl same ↦
        let e : ap'.read p ≡ old = (==_iff _ _).0 same in
        let (won, written) = laws.cas_expected p (new_of old) old e in
        rw (won) (inr (refl, written ∙ sym (ap new_of e), sym (ap some e)))
    | inr other ↦
        let (lost, kept) = laws.cas_changed p (new_of old) old (ground (arith, other)) in
        rw (lost) (inl (kept, refl))
  ]
  attempt-Acts new_of p (returned result) = inl (refl, refl)

  fetch-Acts :
      (p : ap'.Pointer) (stage : Stage)
      → Acts (λ old. (old, old)) p stage (fetch ap' p stage).0 (fetch ap' p stage).1
  unfolding fetch
  fetch-Acts p reading = inr (refl, refl, refl)
  fetch-Acts p (swapping old) = inl (refl, refl)
  fetch-Acts p (returned result) = inl (refl, refl)

  without_result-Acts :
      (new_of : ℕ → ℕ) (p : ap'.Pointer) (stage : Stage)
      → Acts
          (λ old. (new_of old, 0))
          p
          stage
          (without_result ap' (attempt ap' new_of) p stage).0
          (without_result ap' (attempt ap' new_of) p stage).1
  unfolding without_result attempt
  without_result-Acts new_of p reading = elim (Bool-cases (ap'.read p == new_of (ap'.read p))) [
    | inl same ↦ rw (same) (inr (refl, (==_iff _ _).0 same, refl))
    | inr other ↦ rw (other) (inl (refl, refl))
  ]
  without_result-Acts new_of p (swapping old) = elim (Bool-cases (ap'.read p == old)) [
    | inl same ↦
        let e : ap'.read p ≡ old = (==_iff _ _).0 same in
        let (won, written) = laws.cas_expected p (new_of old) old e in
        rw (won) (inr (refl, written ∙ sym (ap new_of e), refl))
    | inr other ↦
        let (lost, kept) = laws.cas_changed p (new_of old) old (ground (arith, other)) in
        rw (lost) (inl (kept, refl))
  ]
  without_result-Acts new_of p (returned result) = inl (refl, refl)

  advance-Acts :
      (call : Call) (p : ap'.Pointer) (stage : Stage)
      → Acts (meaning call) p stage (advance ap' call p stage).0 (advance ap' call p stage).1
  unfolding advance ns_uinteger_atomic_get ns_uinteger_atomic_update ns_uinteger_atomic_masked_or
      ns_uinteger_atomic_or ns_uinteger_atomic_set ns_integer_atomic_get ns_integer_atomic_update
      ns_integer_atomic_set
  advance-Acts get_call p stage = fetch-Acts p stage
  advance-Acts (update_call value) p stage = attempt-Acts (λ old. value) p stage
  advance-Acts (masked_or_call mask bits) p stage =
      attempt-Acts (λ old. bit_or (bit_and old mask) bits) p stage
  advance-Acts (or_call bits) p stage = attempt-Acts (λ old. bit_or old bits) p stage
  advance-Acts (set_call value) p stage = without_result-Acts (λ old. value) p stage
  advance-Acts signed_get_call p stage = fetch-Acts p stage
  advance-Acts (signed_update_call value) p stage = attempt-Acts (λ old. value) p stage
  advance-Acts (signed_set_call value) p stage = without_result-Acts (λ old. value) p stage

  -- A step of the threads is no step of the plain integer or one.
  Step-plain :
      {t t' : ap'.Pointer × List (Call × Stage)}
      → Step ap' t t'
      → (plain_of t' ≡ plain_of t) ⊎ PlainStep (plain_of t) (plain_of t')
  Step-plain (begin p call threads) = inr (plain_begin (ap'.read p) call (results threads))
  Step-plain (thread p before call stage after) =
      let p' : ap'.Pointer = (advance ap' call p stage).0 in
      let stage' : Stage = (advance ap' call p stage).1 in
      let seen = results-append before ((call, stage) ∷ after) in
      let seen' = results-append before ((call, stage') ∷ after) in
      elim (advance-Acts call p stage) [
        | inl (kept, same) ↦ inl (rw (seen, seen', kept, same) refl)
        | inr (fresh, written, result) ↦ inr (
            rw (seen, seen', fresh, written, result)
              (at_once (ap'.read p) (results before) call (results after)))
      ]

  attempt_twice :
      (new_of : ℕ → ℕ) (p : ap'.Pointer)
      → (p' : ap'.Pointer) × (attempt ap' new_of
            (attempt ap' new_of p reading).0
            (attempt ap' new_of p reading).1
          ≡ (p', returned (ap'.read p)))
        × (ap'.read p' ≡ new_of (ap'.read p))
  unfolding attempt
  attempt_twice new_of p = elim (Bool-cases (ap'.read p == new_of (ap'.read p))) [
    | inl same ↦ rw (same) (p, refl, (==_iff _ _).0 same)
    | inr other ↦
        let (won, written) = laws.cas_expected p (new_of (ap'.read p)) (ap'.read p) refl in
        rw (other, won) ((ap'.cas p (new_of (ap'.read p)) (ap'.read p)).1, refl, written)
  ]

  set_twice :
      (value : ℕ) (p : ap'.Pointer)
      → let f : ap'.Pointer → Stage → ap'.Pointer × Stage =
          without_result ap' (attempt ap' (λ old. value)) in
        (p' : ap'.Pointer) × (f (f p reading).0 (f p reading).1 ≡ (p', returned 0))
        × (ap'.read p' ≡ value)
  unfolding attempt without_result
  set_twice value p = elim (Bool-cases (ap'.read p == value)) [
    | inl same ↦ rw (same) (p, refl, (==_iff _ _).0 same)
    | inr other ↦
        let (won, written) = laws.cas_expected p value (ap'.read p) refl in
        rw (other, won) ((ap'.cas p value (ap'.read p)).1, refl, written)
  ]

  run_alone :
      (call : Call) (p : ap'.Pointer)
      → (p' : ap'.Pointer) × (run ap' 2 call p reading
          ≡ (p', returned (meaning call (ap'.read p)).1))
        × (ap'.read p' ≡ (meaning call (ap'.read p)).0)
  unfolding run fetch advance ns_uinteger_atomic_get ns_uinteger_atomic_update
      ns_uinteger_atomic_masked_or ns_uinteger_atomic_or ns_uinteger_atomic_set
      ns_integer_atomic_get ns_integer_atomic_update ns_integer_atomic_set
  run_alone get_call p = (p, refl, refl)
  run_alone (update_call value) p = attempt_twice (λ old. value) p
  run_alone (masked_or_call mask bits) p = attempt_twice (λ old. bit_or (bit_and old mask) bits) p
  run_alone (or_call bits) p = attempt_twice (λ old. bit_or old bits) p
  run_alone (set_call value) p = set_twice value p
  run_alone signed_get_call p = (p, refl, refl)
  run_alone (signed_update_call value) p = attempt_twice (λ old. value) p
  run_alone (signed_set_call value) p = set_twice value p

  reach_plain :
      {p : ap'.Pointer} {t : ap'.Pointer × List (Call × Stage)}
      → Reach ap' p t
      → PlainReach (ap'.read p) (plain_of t)
  reach_plain start = plain_start
  reach_plain {p} (next r step) = elim (Step-plain step) [
    | inl same ↦ subst (PlainReach (ap'.read p)) (sym same) (reach_plain r)
    | inr plain ↦ plain_next (reach_plain r) plain
  ]

  -- Whatever threads do with an atomic integer in any order, what can be seen of it, which is its
  -- value and the results of the calls that have returned, comes about by calls that take place
  -- one after the other, each in one step after it began and before it returned. At any time, a new
  -- call returns within two steps of its own if the other threads pause, with the value and the
  -- result that it means. The compare and swap has its two laws.
  pub Reach-PlainReach :
      {p : ap'.Pointer} {t : ap'.Pointer × List (Call × Stage)}
      → Reach ap' p t
      → PlainReach (ap'.read p) (plain_of t)
        × ((call : Call)
            → (p' : ap'.Pointer) × (run ap' 2 call t.0 reading
                ≡ (p', returned (meaning call (ap'.read t.0)).1))
              × (ap'.read p' ≡ (meaning call (ap'.read t.0)).0))
  Reach-PlainReach {t = t} r = (reach_plain r, λ call. run_alone call t.0)
