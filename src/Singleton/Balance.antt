-- ===== src/Singleton/Balance.antt =====
-- What holds of the threads and of what they share after any steps.
use mulle_obj_c.Base.{
  ℕ, zero, suc, ◌+◌, ◌≡◌, ◌≢◌, ◌⊎◌, refl, sym, ap, ◌∙◌, List, ◌∷◌, ◌++◌, arith, ◌==◌, inl, inr,
  if◌then◌else◌, leb, Bool, true, false, Bool-cases, All, All-map, All-split, All-join, total,
  total-append, ==_iff,
}
use mulle_obj_c.Array.{ObjectId, nil}
use mulle_obj_c.Singleton.{
  Infraclass, InfraclassLaws, Stage, entering, reading, creating, setting, constantifying,
  releasing, returned, Shared, advance, thread, deinitialize, Reach, start, next, all_entering,
  start_of,
}

-- What a thread that stands at a stage knows of the class's instance `k`, and of whether the
-- universe deinitializes.
abbrev pub Agrees : (d : Bool) (k : ObjectId) → Stage → Type 0
Agrees d k entering = Unit
Agrees d k reading = Unit
Agrees d k creating = Unit
Agrees d k (setting x) = x ≢ nil
Agrees d k (constantifying x) = (x ≡ k) × (x ≢ nil)
Agrees d k (releasing x) = x ≢ nil
Agrees d k (returned x) = ((x ≡ nil) × (d ≡ true)) ⊎ ((x ≡ k) × (x ≢ nil))

-- 1 if the instances are the same
abbrev pub same : (x y : ObjectId) → ℕ
same x y = if y == x then 1 else 0

-- How often the instance `x` is in a list
abbrev pub times : (x : ObjectId) → List ObjectId → ℕ
times x l = total (same x) l

-- 1 if the instance `x` is among the first `created` ones
abbrev pub made : (x created : ℕ) → ℕ
made x created = if leb x created then 1 else 0

-- 1 if a thread holds the instance `x` and nobody else knows it
abbrev pub held : ObjectId → Stage → ℕ
held x (setting y) = same x y
held x (releasing y) = same x y
held x _ = 0

-- 1 if a thread is still to make the instance `x` constant
abbrev pub pending : ObjectId → Stage → ℕ
pending x (constantifying y) = same x y
pending x _ = 0

Agrees-later :
    (d d' : Bool) (k k' : ObjectId)
    → (d ≡ true → d' ≡ true)
    → (k ≡ nil) ⊎ (k' ≡ k)
    → (stage : Stage) → Agrees d k stage
    → Agrees d' k' stage
Agrees-later d d' k k' on h entering a = tt
Agrees-later d d' k k' on h reading a = tt
Agrees-later d d' k k' on h creating a = tt
Agrees-later d d' k k' on h (setting x) a = a
Agrees-later d d' k k' on h (constantifying x) a = elim h [
  | inl empty ↦ absurd (a.1 (a.0 ∙ empty))
  | inr e ↦ (a.0 ∙ sym e, a.1)
]
Agrees-later d d' k k' on h (releasing x) a = a
Agrees-later d d' k k' on h (returned x) a = elim a [
  | inl none ↦ inl (none.0, on none.1)
  | inr some ↦ elim h [
    | inl empty ↦ absurd (some.1 (some.0 ∙ empty))
    | inr e ↦ inr (some.0 ∙ sym e, some.1)
  ]
]

module _ (ic : Infraclass) (laws : InfraclassLaws ic) where
  abbrev pub instance_of : Shared ic → ObjectId
  instance_of s = ic.get_singleton s.class

  -- What a thread that stands at a stage agrees on with what the threads share
  abbrev pub AgreesWith : Shared ic → Stage → Type 0
  AgreesWith s stage = Agrees s.deinitializing (instance_of s) stage

  -- One step of a thread, as the others see it, with the books of the instance `x`.
  abbrev Moves : (x : ObjectId) → Shared ic → Stage → Shared ic → Stage → Type 0
  Moves x s stage s' stage' =
      ((s.deinitializing ≡ true → s'.deinitializing ≡ true)
        × ((instance_of s ≡ nil) ⊎ (instance_of s' ≡ instance_of s)))
      × AgreesWith s' stage'
      × (made x s'.created + held x stage + times x s.released + same x (instance_of s)
          ≡ made x s.created + held x stage' + times x s'.released + same x (instance_of s'))
      × (times x s'.constants + pending x stage' + same x (instance_of s)
          ≡ times x s.constants + pending x stage + same x (instance_of s'))

  advance-Moves :
      (x : ObjectId)
      → x ≢ nil
      → (s : Shared ic) (stage : Stage) → AgreesWith s stage
      → Moves x s stage (advance ic s stage).0 (advance ic s stage).1
  unfolding advance
  advance-Moves x named s entering a = elim (Bool-cases s.deinitializing) [
    | inl d ↦ rw (d) (((λ e. e), inr refl), inl (refl, refl), omega arith, omega arith)
    | inr d ↦ rw (d) (((λ e. e), inr refl), tt, omega arith, omega arith)
  ]
  advance-Moves x named s reading a = elim (Bool-cases (instance_of s == nil)) [
    | inl none ↦ rw (none) (((λ e. e), inr refl), tt, omega arith, omega arith)
    | inr some ↦
        let there : instance_of s ≢ nil = ground (arith, some) in
        rw (some) (((λ e. e), inr refl), inr (refl, there), omega arith, omega arith)
  ]
  advance-Moves x named s creating a =
      (((λ e. e), inr refl), (λ e. absurd (omega (arith, e))), ground (arith, named), omega arith)
  advance-Moves x named s (setting y) a = elim (Bool-cases (instance_of s == nil)) [
    | inl none ↦
        let empty : instance_of s ≡ nil = (==_iff _ _).0 none in
        let (won, kept) = laws.set_first s.class y empty in
        let before : same x (instance_of s) ≡ 0 = ground (arith, empty, named) in
        let after : same x (ic.get_singleton (ic.set_singleton s.class y).1) ≡ same x y =
          ap (same x) kept in
        rw (won) (
          ((λ e. e), inl empty),
          (sym kept, a),
          omega (arith, before, after),
          omega (arith, before, after),
        )
    | inr some ↦
        let taken : instance_of s ≢ nil = ground (arith, some) in
        let (lost, kept) = laws.set_again s.class y taken in
        let e = ap (same x) kept in
        rw (lost) (((λ e. e), inr kept), a, omega (arith, e), omega (arith, e))
  ]
  advance-Moves x named s (constantifying y) a =
      (((λ e. e), inr refl), inr a, omega arith, omega arith)
  advance-Moves x named s (releasing y) a = (((λ e. e), inr refl), tt, omega arith, omega arith)
  advance-Moves x named s (returned y) a = (((λ e. e), inr refl), a, omega arith, omega arith)

  -- What holds of the threads and what they share at any time, for the instance `x`.
  abbrev pub Balanced : (x : ObjectId) → Shared ic → List Stage → Type 0
  Balanced x s stages =
      All (AgreesWith s) stages
      × (made x s.created ≡ total (held x) stages + times x s.released + same x (instance_of s))
      × (times x s.constants + total (pending x) stages ≡ same x (instance_of s))

  thread-Balanced :
      (x : ObjectId)
      → x ≢ nil
      → (s : Shared ic) (before : List Stage) (stage : Stage) (after : List Stage)
      → Balanced x s (before ++ (stage ∷ after))
      → Balanced x (advance ic s stage).0 (before ++ ((advance ic s stage).1 ∷ after))
  thread-Balanced x named s before stage after (agree, books, constants) =
      let (left, (here, right)) = All-split (AgreesWith s) before (stage ∷ after) agree in
      let s' : Shared ic = (advance ic s stage).0 in
      let stage' : Stage = (advance ic s stage).1 in
      let ((on, changed), here', owed, moved) = advance-Moves x named s stage here in
      let later =
        Agrees-later s.deinitializing s'.deinitializing (instance_of s) (instance_of s') on
          changed in
      (
        All-join (AgreesWith s') before (stage' ∷ after)
            (All-map (AgreesWith s) (AgreesWith s') later before left)
            (here', All-map (AgreesWith s) (AgreesWith s') later after right),
        omega (
          arith,
          books,
          owed,
          total-append (held x) before (stage ∷ after),
          total-append (held x) before (stage' ∷ after),
        ),
        omega (
          arith,
          constants,
          moved,
          total-append (pending x) before (stage ∷ after),
          total-append (pending x) before (stage' ∷ after),
        ),
      )

  entering-Balanced :
      (x : ObjectId) (k : ic.Class) (n : ℕ)
      → x ≢ nil
      → ic.get_singleton k ≡ nil
      → Balanced x (start_of ic k n).0 (start_of ic k n).1
  entering-Balanced x k n named empty =
      let none : same x (ic.get_singleton k) ≡ 0 = ground (arith, empty, named) in
      let not_made : made x 0 ≡ 0 = ground (arith, named) in
      (
        agree_at n,
        omega (arith, none, not_made, nothing (held x) refl n),
        omega (arith, none, nothing (pending x) refl n),
      )
    where
      agree_at : (n : ℕ) → All (Agrees false (ic.get_singleton k)) (all_entering n)
      agree_at zero = tt
      agree_at (suc n) = (tt, agree_at n)

      nothing : (f : Stage → ℕ) → f entering ≡ 0 → (n : ℕ) → total f (all_entering n) ≡ 0
      nothing f none zero = refl
      nothing f none (suc n) = omega (arith, none, nothing f none n)

  pub Reach-Balanced :
      {k : ic.Class} {n : ℕ} {t : Shared ic × List Stage} (x : ObjectId)
      → x ≢ nil
      → ic.get_singleton k ≡ nil
      → Reach ic k n t
      → Balanced x t.0 t.1
  Reach-Balanced {k} {n} x named empty start = entering-Balanced x k n named empty
  Reach-Balanced x named empty (next r (thread s before stage after)) =
      thread-Balanced x named s before stage after (Reach-Balanced x named empty r)
  Reach-Balanced x named empty (next r (deinitialize s stages)) =
      let (agree, books, constants) = Reach-Balanced x named empty r in
      let later =
        Agrees-later s.deinitializing true (instance_of s) (instance_of s) (λ e. refl) (inr refl) in
      (
        All-map (AgreesWith s) (AgreesWith (record s { deinitializing = true })) later stages agree,
        books,
        constants,
      )
