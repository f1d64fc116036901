-- ===== src/Condition/Exclusive.antt =====
-- One thread at a time has the lock, and what it found out of the condition stays true while it does.
use mathlib.Core.Path.{subst}
use mulle_obj_c.Base.{
  ℕ, zero, suc, ◌+◌, ◌≡◌, ◌≢◌, ◌≤◌, refl, sym, ◌∙◌, true, false, some, List, [], ◌∷◌, ◌++◌, arith,
  inl, inr, Bool-cases, All, All-split, All-join, total, total-append,
}
use mulle_obj_c.Condition.{
  Monitor, MonitorLaws, Lock, Request, Stage, idle, entering, holding, leaving, advance, thread,
  begin_lock, begin_unlock, all_idle, Reach, start, next,
}
use mulle_obj_c.Condition.Moves.{owns, owns_of, Knows, Knows-outside, locked, Results}
use mulle_obj_c.Condition.Advance.{advance-Results}

-- Whoever does not have the lock claims nothing about the condition.
All-outside :
    (condition : ℕ) (ts : List (Request × Stage))
    → total owns_of ts ≡ 0
    → All (λ (t : Request × Stage). Knows condition t.1) ts
All-outside condition [] e = tt
All-outside condition (t ∷ ts) e =
    (Knows-outside condition t.1 (omega (arith, e)), All-outside condition ts (omega (arith, e)))

all_idle_lem : (mo : Monitor) (n : ℕ) → total owns_of (all_idle mo n) ≡ 0
all_idle_lem mo zero = refl
all_idle_lem mo (suc n) = omega (arith, all_idle_lem mo n)

module _ (mo : Monitor) (laws : MonitorLaws mo) where
  abbrev KnowAll : (condition : ℕ) → List (Request × Stage) → Type 0
  KnowAll condition ts = All (λ (t : Request × Stage). Knows condition t.1) ts

  abbrev Exclusive : Lock mo × List (Request × Stage) → Type 0
  Exclusive t =
      (total owns_of t.1 ≡ locked mo laws t.0)
      × (t.0.is_locked ≡ mo.is_held t.0.mutex)
      × KnowAll t.0.condition t.1

  held_by_owner : (s : Lock mo) → locked mo laws s ≢ 0 → mo.is_held s.mutex ≡ true
  held_by_owner s h = elim (Bool-cases (mo.is_held s.mutex)) [
    | inl held ↦ held
    | inr free ↦ absurd (h (rw (free) refl))
  ]

  locked_bound : (s : Lock mo) → locked mo laws s ≤ 1
  locked_bound s = elim (Bool-cases (mo.is_held s.mutex)) [
    | inl held ↦ rw (held) (omega arith)
    | inr free ↦ rw (free) (omega arith)
  ]

  thread-Exclusive :
      (s s' : Lock mo) (before : List (Request × Stage)) (request : Request) (stage stage' : Stage)
      (after : List (Request × Stage))
      → advance mo request s stage ≡ some (s', stage')
      → Exclusive (s, before ++ ((request, stage) ∷ after))
      → Exclusive (s', before ++ ((request, stage') ∷ after))
  thread-Exclusive s s' before request stage stage' after e (books, flag, known) =
      let sum = total-append owns_of before ((request, stage) ∷ after) in
      let sum' = total-append owns_of before ((request, stage') ∷ after) in
      let bound = locked_bound s in
      let held : owns stage ≡ 1 → mo.is_held s.mutex ≡ true =
        λ own. held_by_owner s (λ none_held. omega (arith, own, books, sum, none_held)) in
      let (owned, changed, flag', knows) =
        subst (Results mo laws s stage) e (advance-Results mo laws request s stage (held, flag)) in
      let P : (condition : ℕ) → Request × Stage → Type 0 = λ condition t. Knows condition t.1 in
      let (left, (here, right)) =
        All-split (P s.condition) before ((request, stage) ∷ after) known in
      (
        omega (arith, books, owned, sum, sum'),
        flag',
        elim changed [
          | inl same ↦
              All-join (P s'.condition) before ((request, stage') ∷ after)
                (subst (λ c. KnowAll c before) (sym same) left)
                (knows, subst (λ c. KnowAll c after) (sym same) right)
          | inr own ↦
              All-join (P s'.condition) before ((request, stage') ∷ after)
                (All-outside s'.condition before (omega (arith, own, books, sum, bound)))
                (knows, All-outside s'.condition after (omega (arith, own, books, sum, bound)))
        ],
      )

  replace-Exclusive :
      (s : Lock mo) (before : List (Request × Stage)) (t t' : Request × Stage)
      (after : List (Request × Stage))
      → owns_of t' ≡ owns_of t
      → Knows s.condition t'.1
      → Exclusive (s, before ++ (t ∷ after))
      → Exclusive (s, before ++ (t' ∷ after))
  replace-Exclusive s before t t' after same knows (books, flag, known) =
      let P : Request × Stage → Type 0 = λ t. Knows s.condition t.1 in
      let (left, (here, right)) = All-split P before (t ∷ after) known in
      (
        omega (
          arith,
          books,
          same,
          total-append owns_of before (t ∷ after),
          total-append owns_of before (t' ∷ after),
        ),
        flag,
        All-join P before (t' ∷ after) left (knows, right),
      )

  Reach-Exclusive :
      {s : Lock mo} {n : ℕ} {t : Lock mo × List (Request × Stage)}
      → mo.is_held s.mutex ≡ false
      → s.is_locked ≡ false
      → Reach mo s n t
      → Exclusive t
  Reach-Exclusive {s} {n} free flag start =
      let none_owns = all_idle_lem mo n in
      (rw (free) none_owns, flag ∙ sym free, All-outside s.condition (all_idle mo n) none_owns)
  Reach-Exclusive free flag (next r (thread s s' before request stage stage' after e)) =
      thread-Exclusive s s' before request stage stage' after e (Reach-Exclusive free flag r)
  Reach-Exclusive free flag (next r (begin_lock s before request request' after e)) =
      replace-Exclusive s before (request, idle) (request', entering) after refl tt
        (Reach-Exclusive free flag r)
  Reach-Exclusive free flag (next r (begin_unlock s before request request' known after e)) =
      replace-Exclusive s before (request, holding known) (request', leaving) after refl tt
        (Reach-Exclusive free flag r)

  -- When a thread has the condition lock, after any calls of any number of threads in any order, no
  -- other thread has it, the lock says that it is locked, and if the thread took it when the
  -- condition had a value, or did not, that is still so. The lock was free at the start, and the
  -- mutex has its two laws.
  pub Reach-one_holder :
      {s s' : Lock mo} {n : ℕ} (before : List (Request × Stage)) (request : Request) (stage : Stage)
      (after : List (Request × Stage))
      → mo.is_held s.mutex ≡ false
      → s.is_locked ≡ false
      → Reach mo s n (s', before ++ ((request, stage) ∷ after))
      → owns stage ≡ 1
      → (total owns_of before + total owns_of after ≡ 0)
        × (s'.is_locked ≡ true)
        × Knows s'.condition stage
  Reach-one_holder {s' = s'} before request stage after free flag r own =
      let (books, flag', known) = Reach-Exclusive free flag r in
      let sum = total-append owns_of before ((request, stage) ∷ after) in
      let bound = locked_bound s' in
      let (left, (here, right)) =
        All-split (λ (t : Request × Stage). Knows s'.condition t.1) before
          ((request, stage) ∷ after) known in
      (
        omega (arith, own, books, sum, bound),
        flag' ∙ held_by_owner s' (λ none_held. omega (arith, own, books, sum, none_held)),
        here,
      )
