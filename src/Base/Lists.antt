-- ===== src/Base/Lists.antt =====
-- Lists measured by native numbers, and arrays as functions of an index.
use Prim.Native.Nat.{ℕ, zero, suc, ◌+◌, ◌≤◌, ◌<◌}
use mathlib.Core.Path.{◌≡◌, refl, sym, subst}
use mathlib.Core.Logic.{◌⊎◌, inl, inr}
use mathlib.Core.Option.{Option, none, some}
use mathlib.Core.List.{List, [], ◌∷◌, ◌++◌}
use native.Mathlib.Omega.{arith}
use mulle_obj_c.Base.Tests.{◌==◌, if◌then◌else◌}

module _ {ℓ} {A : Type ℓ} where
  abbrev pub length : List A → ℕ
  length [] = 0
  length (x ∷ xs) = suc (length xs)

  abbrev pub take : ℕ → List A → List A
  take zero xs = []
  take (suc n) [] = []
  take (suc n) (x ∷ xs) = x ∷ take n xs

  abbrev pub drop : ℕ → List A → List A
  drop zero xs = xs
  drop (suc n) [] = []
  drop (suc n) (x ∷ xs) = drop n xs

  -- A write of one element of an array.
  abbrev pub update : (ℕ → A) → ℕ → A → ℕ → A
  update f i a j = if i == j then a else f j

  pub List-cases : (xs : List A) → (xs ≡ []) ⊎ ((y : A) × (ys : List A) × (xs ≡ y ∷ ys))
  List-cases [] = inl refl
  List-cases (y ∷ ys) = inr (y, ys, refl)

  pub length-append : (xs ys : List A) → length (xs ++ ys) ≡ length xs + length ys
  length-append [] ys = omega arith
  length-append (x ∷ xs) ys = omega (arith, length-append xs ys)

pub Option-cases {ℓ} : {A : Type ℓ} (o : Option A) → (o ≡ none) ⊎ ((a : A) × (o ≡ some a))
Option-cases none = inl refl
Option-cases (some a) = inr (a, refl)

-- Every element of a list satisfies a predicate.
abbrev pub All {ℓ κ} : {A : Type ℓ} → (A → Type κ) → List A → Type κ
All P [] = Unit
All P (x ∷ xs) = P x × All P xs

pub All-map {ℓ κ κ'} :
    {A : Type ℓ} (P : A → Type κ) (Q : A → Type κ')
    → ((x : A) → P x → Q x)
    → (xs : List A) → All P xs
    → All Q xs
All-map P Q f [] h = tt
All-map P Q f (x ∷ xs) h = (f x h.0, All-map P Q f xs h.1)

-- What holds of all elements for every index below a bound holds for every element at all of them.
pub All-below {ℓ κ} :
    {A : Type ℓ} (P : ℕ → A → Type κ) (n : ℕ) (xs : List A)
    → ((k : ℕ) → k < n → All (P k) xs)
    → All (λ x. (k : ℕ) → k < n → P k x) xs
All-below P n [] h = tt
All-below P n (x ∷ xs) h = (λ k lt. (h k lt).0, All-below P n xs (λ k lt. (h k lt).1))

pub All-split {ℓ κ} :
    {A : Type ℓ} (P : A → Type κ) (xs ys : List A) → All P (xs ++ ys) → All P xs × All P ys
All-split P [] ys h = (tt, h)
All-split P (x ∷ xs) ys h = let rest = All-split P xs ys h.1 in ((h.0, rest.0), rest.1)

pub All-join {ℓ κ} :
    {A : Type ℓ} (P : A → Type κ) (xs ys : List A) → All P xs → All P ys → All P (xs ++ ys)
All-join P [] ys h h' = h'
All-join P (x ∷ xs) ys h h' = (h.0, All-join P xs ys h.1 h')

-- One element in the middle of a list is replaced.
pub All-replace {ℓ κ} :
    {A : Type ℓ} (P : A → Type κ) (xs : List A) {x y : A} (ys : List A)
    → (P x → P y)
    → All P (xs ++ (x ∷ ys))
    → All P (xs ++ (y ∷ ys))
All-replace P [] ys f h = (f h.0, h.1)
All-replace P (x ∷ xs) ys f h = (h.0, All-replace P xs ys f h.1)

abbrev pub In : {A : Type 0} → A → List A → Type 0
In a [] = ⊥
In a (b ∷ bs) = (a ≡ b) ⊎ In a bs

pub All-In {κ} : {A : Type 0} (P : A → Type κ) (x : A) (xs : List A) → All P xs → In x xs → P x
All-In P x [] h i = absurd i
All-In P x (y ∷ ys) h i = elim i [ inl e ↦ subst P (sym e) h.0 | inr rest ↦ All-In P x ys h.1 rest ]

-- The sum of a number for each element
abbrev pub total {ℓ} : {A : Type ℓ} → (A → ℕ) → List A → ℕ
total f [] = 0
total f (x ∷ xs) = f x + total f xs

pub total-append {ℓ} :
    {A : Type ℓ} (f : A → ℕ) (xs ys : List A) → total f (xs ++ ys) ≡ total f xs + total f ys
total-append f [] ys = omega arith
total-append f (x ∷ xs) ys = omega (arith, total-append f xs ys)

-- The sum changes by what one element in the middle of the list does.
pub total-replace {ℓ} :
    {A : Type ℓ} (f : A → ℕ) (xs : List A) (x y : A) (ys : List A)
    → total f (xs ++ (y ∷ ys)) + f x ≡ total f (xs ++ (x ∷ ys)) + f y
total-replace f [] x y ys = omega arith
total-replace f (x' ∷ xs) x y ys = omega (arith, total-replace f xs x y ys)

pub total-middle {ℓ} :
    {A : Type ℓ} (f : A → ℕ) (xs : List A) (x : A) (ys : List A)
    → total f (xs ++ (x ∷ ys)) ≡ total f (xs ++ ys) + f x
total-middle f [] x ys = omega arith
total-middle f (x' ∷ xs) x ys = omega (arith, total-middle f xs x ys)

pub total-element {ℓ} :
    {A : Type ℓ} (f : A → ℕ) (xs : List A) (x : A) (ys : List A) → f x ≤ total f (xs ++ (x ∷ ys))
total-element f [] x ys = omega arith
total-element f (x' ∷ xs) x ys = omega (arith, total-element f xs x ys)

pub total-none {ℓ} : {A : Type ℓ} (f : A → ℕ) (xs : List A) → All (λ x. f x ≡ 0) xs → total f xs ≡ 0
total-none f [] h = refl
total-none f (x ∷ xs) h = omega (arith, h.0, total-none f xs h.1)

-- How often a number stands in a list
abbrev pub hit : (x y : ℕ) → ℕ
hit x y = if x == y then 1 else 0

abbrev pub times : ℕ → List ℕ → ℕ
times y xs = total (λ x. hit x y) xs
