-- ===== src/Enum/Prefix.antt =====
-- The length of the beginning that all names of a table share.
use mathlib.Core.Path.{subst}
use mulle_obj_c.Base.{
  ℕ, zero, suc, ◌+◌, ◌≤◌, ◌<◌, ◌≡◌, ◌≢◌, refl, sym, ◌∙◌, true, false, List, [], ◌∷◌, ◌==◌, inl, inr,
  arith, leb, length, take, Bool-cases, All, All-map, All-below, ◌↔◌, ==_iff,
}
use mulle_obj_c.Enum.{Text, has_prefix, char_at, all_have, prefix_loop, prefix_length}

-- `s` has a byte at `j`, and it is `c`.
abbrev pub Has : (j c : ℕ) → Text → Type 0
Has j c s = (char_at s j ≡ c) × (char_at s j ≢ 0)

all_have-All : (names : List Text) (j c : ℕ) → all_have names j c ≡ true → All (Has j c) names
unfolding all_have
all_have-All [] j c h = tt
all_have-All (s ∷ names) j c h = elim (Bool-cases (char_at s j == 0)) [
  | inl ended ↦ let bad : false ≡ true = rw (ended) at h in cc
  | inr more ↦ elim (Bool-cases (char_at s j == c)) [
    | inl same ↦
        let others : all_have names j c ≡ true = rw (more, same) at h in
        (((==_iff _ _).0 same, ground (arith, more)), all_have-All names j c others)
    | inr differs ↦ let bad : false ≡ true = rw (more, differs) at h in cc
  ]
]

All-all_have : (names : List Text) (j c : ℕ) → All (Has j c) names → all_have names j c ≡ true
unfolding all_have
All-all_have [] j c h = refl
All-all_have (s ∷ names) j c h =
    let more : (char_at s j == 0) ≡ false = ground (arith, h.0.1) in
    let same : (char_at s j == c) ≡ true = (==_iff _ _).1 h.0.0 in
    rw (more, same) (All-all_have names j c h.1)

-- Of the bytes `rest` that a name has from `j` on, the first `n` stand in all names, and the byte
-- after them does not.
abbrev pub Shares : (rest : Text) → List Text → (j n : ℕ) → Type 0
Shares rest names j n =
    (n ≤ length rest)
    × ((k : ℕ) → k < n → All (Has (j + k) (char_at rest k)) names)
    × (n < length rest → ¬ All (Has (j + n) (char_at rest n)) names)

shared-suc :
    (c : ℕ) (rest : Text) (names : List Text) (j n : ℕ)
    → All (Has j c) names
    → ((k : ℕ) → k < n → All (Has (suc j + k) (char_at rest k)) names)
    → (k : ℕ) → k < suc n
    → All (Has (j + k) (char_at (c ∷ rest) k)) names
unfolding char_at
shared-suc c rest names j n here shared zero h = subst (λ i. All (Has i c) names) (omega arith) here
shared-suc c rest names j n here shared (suc k) h =
    subst (λ i. All (Has i (char_at rest k)) names) (omega arith) (shared k (omega (arith, h)))

prefix_loop-Shares :
    (rest : Text) (names : List Text) (j : ℕ)
    → (n : ℕ) × (prefix_loop rest names j ≡ j + n) × Shares rest names j n
unfolding prefix_loop char_at
prefix_loop-Shares [] names j = (
  0,
  omega arith,
  (omega arith, λ k h. absurd (omega (arith, h)), λ h. absurd (omega (arith, h))),
)
prefix_loop-Shares (c ∷ rest) names j = elim (Bool-cases (all_have names j c)) [
  | inl here ↦
      let (n, e, (bound, shared, stop)) = prefix_loop-Shares rest names (suc j) in
      (
        suc n,
        rw (here) (e ∙ omega arith),
        (
          omega (arith, bound),
          shared-suc c rest names j n (all_have-All names j c here) shared,
          λ h all.
              stop (omega (arith, h))
                (subst (λ i. All (Has i (char_at rest n)) names) (omega arith) all),
        ),
      )
  | inr differs ↦ (
    0,
    rw (differs) (omega arith),
    (
      omega arith,
      λ k h. absurd (omega (arith, h)),
      λ h all.
          let here : all_have names j c ≡ true =
            All-all_have names j c (subst (λ i. All (Has i c) names) (omega arith) all) in
          cc,
    ),
  )
]

prefix_length-Shares :
    (first : Text) (names : List Text) → Shares first names 0 (prefix_length (first ∷ names))
unfolding prefix_length
prefix_length-Shares first names =
    let (n, e, shares) = prefix_loop-Shares first names 0 in
    subst (Shares first names 0) (sym (e ∙ omega arith)) shares

Has-cons :
    (n c : ℕ) (first : Text) (d : ℕ) (s : Text)
    → c ≡ d
    → c ≢ 0
    → ((k : ℕ) → k < n → Has k (char_at first k) s)
    → (k : ℕ) → k < suc n
    → Has k (char_at (c ∷ first) k) (d ∷ s)
unfolding char_at
Has-cons n c first d s same full h zero lt = (sym same, λ e. full (same ∙ e))
Has-cons n c first d s same full h (suc k) lt = h k (omega (arith, lt))

has_prefix-Has :
    (n : ℕ) (first s : Text)
    → All (λ c. c ≢ 0) first
    → n ≤ length first
    → has_prefix (take n first) s ≡ true
    → (k : ℕ) → k < n
    → Has k (char_at first k) s
unfolding has_prefix char_at
has_prefix-Has zero first s full bound h k lt = absurd (omega (arith, lt))
has_prefix-Has (suc n) [] s full bound h k lt = absurd (omega (arith, bound))
has_prefix-Has (suc n) (c ∷ first) [] full bound h k lt = cc
has_prefix-Has (suc n) (c ∷ first) (d ∷ s) full bound h k lt = elim (Bool-cases (c == d)) [
  | inl same ↦
      let rest : has_prefix (take n first) s ≡ true = rw (same) at h in
      Has-cons n c first d s ((==_iff c d).0 same) full.0
        (has_prefix-Has n first s full.1 (omega (arith, bound)) rest) k lt
  | inr differs ↦ let bad : false ≡ true = rw (differs) at h in cc
]

Has-has_prefix :
    (n : ℕ) (first s : Text)
    → n ≤ length first
    → ((k : ℕ) → k < n → Has k (char_at first k) s)
    → has_prefix (take n first) s ≡ true
unfolding has_prefix char_at
Has-has_prefix zero first s bound h = refl
Has-has_prefix (suc n) [] s bound h = absurd (omega (arith, bound))
Has-has_prefix (suc n) (c ∷ first) [] bound h = absurd ((h 0 (omega arith)).1 refl)
Has-has_prefix (suc n) (c ∷ first) (d ∷ s) bound h =
    let same : (c == d) ≡ true = (==_iff c d).1 (sym (h 0 (omega arith)).0) in
    rw (same)
      (Has-has_prefix n first s (omega (arith, bound)) (λ k lt. h (suc k) (omega (arith, lt))))

-- Up to the length of a table's first name, the prefix length is at least `n` just if every other
-- name begins with the first `n` bytes of the first one, which has no zero byte.
pub prefix_length_iff :
    (first : Text) (names : List Text) (n : ℕ)
    → All (λ c. c ≢ 0) first
    → n ≤ length first
    → (n ≤ prefix_length (first ∷ names)) ↔ All (λ s. has_prefix (take n first) s ≡ true) names
prefix_length_iff first names n full bound =
    let (most, shared, stop) = prefix_length-Shares first names in
    (
      λ reach.
          All-map (λ s. (k : ℕ) → k < n → Has k (char_at first k) s)
            (λ s. has_prefix (take n first) s ≡ true) (λ s. Has-has_prefix n first s bound) names
            (All-below (λ k. Has k (char_at first k)) n names
              (λ k lt.
                subst (λ i. All (Has i (char_at first k)) names) (omega arith)
                  (shared k (omega (arith, lt, reach))))),
      λ begins.
          let m : ℕ = prefix_length (first ∷ names) in
          elim (Bool-cases (leb n m)) [
            | inl reach ↦ ground (arith, reach)
            | inr beyond ↦
                let lt : m < n = ground (arith, beyond) in
                absurd (
                  stop (omega (arith, lt, bound)) (
                    All-map (λ s. has_prefix (take n first) s ≡ true)
                      (Has (0 + m) (char_at first m))
                      (λ s h.
                        subst (λ i. Has i (char_at first m) s) (omega arith)
                          (has_prefix-Has n first s full bound h m lt))
                      names begins))
          ],
    )
