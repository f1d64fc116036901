-- ===== src/Range/Validate.antt =====
-- src/protocol/MulleObjCException.h: checking a range against a length.
use mathlib.Core.Path.{subst}
use mulle_obj_c.Base.{
  ℕ, ◌+◌, ◌-◌, ◌%◌, ◌≤◌, ◌<◌, ◌≡◌, ◌↔◌, Bool, ◌⊎◌, sym, ap, true, false, ◌||◌, Option, none, some,
  inl, inr, arith, ltb, ◌==◌, if◌then◌else◌, Bool-cases,
}
use mulle_obj_c.Range.{Range, ns_uinteger, minus, make}
use mulle_obj_c.Range.Combine.{Within}

-- `if( range.length == -1)`: the rest of what has the length
abbrev pub resolved : (range : Range) → (length : ℕ) → Range
resolved range length =
    if range.length == ns_uinteger - 1
    then make range.location (minus length range.location)
    else range

module _ (get_max : Range → ℕ) where
  abbrev pub is_outside : (range : Range) → (length : ℕ) → Bool
  is_outside range length = ltb length (get_max range) || ltb (get_max range) range.location

  -- `MulleObjCValidateRangeAgainstLength`; `none` is the exception
  unfoldable pub validate_range_against_length : (range : Range) → (length : ℕ) → Option Range
  validate_range_against_length range length =
      let range' : Range = resolved range length in
      if is_outside range' length then none else some range'

  -- `MulleObjCAdjustRangeForLength`
  unfoldable pub adjust_range_for_length : (range : Range) → (length : ℕ) → Range
  adjust_range_for_length range length =
      let range' : Range = resolved range length in
      if is_outside range' length then make range'.location 0 else range'

abbrev pub IsWord : Range → Type 0
IsWord r = (r.location < ns_uinteger) × (r.length < ns_uinteger)

-- What a range is good for: the length is "full", or the range ends within the length.
abbrev pub Fitting : (r : Range) → (n : ℕ) → Type 0
Fitting r n = (r.location ≤ n) × ((r.length ≡ ns_uinteger - 1) ⊎ (r.location + r.length ≤ n))

module _ (get_max : Range → ℕ)
    (max_law : (r : Range) → get_max r ≡ (r.location + r.length) % ns_uinteger) where
  validate_cases :
      (r : Range) (n : ℕ)
      → IsWord r
      → n < ns_uinteger
      → (Fitting r n
          × (is_outside get_max (resolved r n) n ≡ false)
          × ((resolved r n).location + (resolved r n).length ≤ n))
        ⊎ ((¬ Fitting r n) × (is_outside get_max (resolved r n) n ≡ true))
  validate_cases r n word bound = elim (Bool-cases (r.length == ns_uinteger - 1)) [
    | inl full ↦
        let q : Range = make r.location (minus n r.location) in
        rw (full) (ground (arith, max_law q, full, word, bound))
    | inr part ↦ rw (part) (ground (arith, max_law r, part, word, bound))
  ]

  -- A range passes the check against a length just if it begins within the length and either has
  -- the "full" length or ends within the length. What passes is the range itself, or for "full" the
  -- rest of the length, and it ends within the length. The adjusted range has the locations of what
  -- passes, all below the length, and none when the range does not pass. Lengths and locations are
  -- words, and the largest location plus one is taken modulo 2^64.
  pub validate_range_against_length_iff :
      (r : Range) (n : ℕ) (q : Range) (i : ℕ)
      → IsWord r
      → n < ns_uinteger
      → ((validate_range_against_length get_max r n ≡ some q)
          ↔ (Fitting r n × (q ≡ resolved r n) × (q.location + q.length ≤ n)))
        × (Within i (adjust_range_for_length get_max r n)
            ↔ (Fitting r n × Within i (resolved r n) × (i < n)))
  unfolding validate_range_against_length adjust_range_for_length
  validate_range_against_length_iff r n q i word bound = elim (validate_cases r n word bound) [
    | inl (fits, inside, ends) ↦ rw (inside) (
      (
        (λ e.
            let same : resolved r n ≡ q = cc in
            (fits, sym same, subst (λ (x : Range). x.location + x.length ≤ n) same ends)),
        (λ h. ap some (sym h.1)),
      ),
      ((λ w. (fits, w, omega (arith, w, ends))), (λ h. h.1)),
    )
    | inr (unfit, outside) ↦ rw (outside) (
      ((λ e. cc), (λ h. absurd (unfit h.0))),
      ((λ w. absurd (omega (arith, w))), (λ h. absurd (unfit h.0))),
    )
  ]
