-- ===== src/Range/Combine.antt =====
-- Combining two ranges: the locations of the result, when there is one, and the order of the two.
use mulle_obj_c.Base.{
  ℕ, ◌+◌, ◌-◌, ◌≤◌, ◌<◌, ◌≡◌, ◌↔◌, ◌⊎◌, refl, ap, ◌∙◌, true, false, not, inl, inr, arith, ltb, ◌==◌,
  Bool-cases,
}
use mulle_obj_c.Range.{
  Range, ns_uinteger, minus, make, combine_ordered, combine, is_combinable_range,
}

-- The location after the last one fits an NSUInteger.
abbrev pub Fits : Range → Type 0
Fits r = r.location + r.length < ns_uinteger

abbrev pub Within : ℕ → Range → Type 0
Within i r = (r.location ≤ i) × (i < r.location + r.length)

-- Neither range begins behind the location after the other.
abbrev pub Touch : Range → Range → Type 0
Touch a b = (a.location ≤ b.location + b.length) × (b.location ≤ a.location + a.length)

minus_le : (a b : ℕ) → b ≤ a → a < ns_uinteger → minus a b ≡ a - b
minus_le a b le bound = omega (arith, le, bound)

module _ (get_max : Range → ℕ) (not_found : ℕ)
    (max_law : (r : Range) → Fits r → get_max r ≡ r.location + r.length) where
  -- The length is the larger of the two that reach the ranges' ends from the first location.
  combine_ordered-touch :
      (a b : Range)
      → Fits a
      → Fits b
      → a.location ≤ b.location
      → b.location ≤ a.location + a.length
      → (n : ℕ) × (combine_ordered get_max not_found a b ≡ make a.location n)
        × (a.length ≤ n)
        × (b.location + b.length ≤ a.location + n)
        × ((n ≡ a.length) ⊎ (a.location + n ≡ b.location + b.length))
  unfolding combine_ordered
  combine_ordered-touch a b fa fb first meets =
      let near : ltb (get_max a) b.location ≡ false = ground (arith, max_law a fa, meets) in
      elim (Bool-cases (ltb (get_max a) (get_max b))) [
        | inl longer ↦ (
          b.location + b.length - a.location,
          rw
              (
                near,
                longer,
                max_law b fb,
                minus_le (b.location + b.length) a.location (omega (arith, first)) fb,
              )
              refl,
          ground (arith, longer, max_law a fa, max_law b fb),
          omega (arith, first),
          inr (omega (arith, first)),
        )
        | inr shorter ↦ (
          a.length,
          rw
              (
                near,
                shorter,
                max_law a fa,
                minus_le (a.location + a.length) a.location (omega arith) fa,
              )
              (ap (make a.location) (omega arith)),
          omega arith,
          ground (arith, shorter, max_law a fa, max_law b fb),
          inl refl,
        )
      ]

  combine_ordered-apart :
      (a b : Range)
      → Fits a
      → a.location + a.length < b.location
      → combine_ordered get_max not_found a b ≡ make not_found 0
  unfolding combine_ordered
  combine_ordered-apart a b fa apart =
      let far : ltb (get_max a) b.location ≡ true = ground (arith, max_law a fa, apart) in
      rw (far) refl

  -- Of two ranges that fit, where `mulle_range_get_max` is the sum of location and length and
  -- neither begins behind the end of the other, the combined range has just the locations of both.
  pub combine-Within :
      (a b : Range) (i : ℕ)
      → Fits a
      → Fits b
      → Touch a b
      → Within i (combine get_max not_found a b) ↔ (Within i a ⊎ Within i b)
  unfolding combine
  combine-Within a b i fa fb touch = elim (Bool-cases (ltb b.location a.location)) [
    | inl swapped ↦
        let (n, e, longer, covers, ends) =
          combine_ordered-touch b a fb fa (ground (arith, swapped)) touch.0 in
        rw (swapped, e) (ground (arith, longer, covers, ends, touch, swapped))
    | inr kept ↦
        let (n, e, longer, covers, ends) =
          combine_ordered-touch a b fa fb (ground (arith, kept)) touch.1 in
        rw (kept, e) (ground (arith, longer, covers, ends, touch, kept))
  ]

  combine_ordered-length :
      (a b : Range)
      → Fits a
      → Fits b
      → a.location ≤ b.location
      → (not ((combine_ordered get_max not_found a b).length == 0) ≡ true)
        ↔ ((b.location ≤ a.location + a.length) × (0 < a.length + b.length))
  combine_ordered-length a b fa fb first =
      elim (Bool-cases (ltb (a.location + a.length) b.location)) [
        | inl apart ↦
            rw (combine_ordered-apart a b fa (ground (arith, apart))) (ground (arith, apart))
        | inr meets ↦
            let (n, e, longer, covers, ends) =
              combine_ordered-touch a b fa fb first (ground (arith, meets)) in
            rw (e) (ground (arith, longer, covers, ends, first, meets))
      ]

  -- Ranges that fit are combinable just if neither begins behind the end of the other and they
  -- are not both empty, where `mulle_range_get_max` is the sum of location and length.
  pub is_combinable_range_iff :
      (a b : Range)
      → Fits a
      → Fits b
      → (is_combinable_range get_max not_found a b ≡ true) ↔ (Touch a b × (0 < a.length + b.length))
  unfolding is_combinable_range combine
  is_combinable_range_iff a b fa fb = elim (Bool-cases (ltb b.location a.location)) [
    | inl swapped ↦
        let e = combine_ordered-length b a fb fa (ground (arith, swapped)) in
        rw (swapped)
          ((λ h. let t = e.0 h in ground (arith, t, swapped)), (λ t. e.1 (t.0.0, omega (arith, t))))
    | inr kept ↦
        let e = combine_ordered-length a b fa fb (ground (arith, kept)) in
        rw (kept) ((λ h. let t = e.0 h in ground (arith, t, kept)), (λ t. e.1 (t.0.1, t.1)))
  ]

  -- The order of the ranges does not matter to the combined range, where both fit and
  -- `mulle_range_get_max` is the sum of location and length.
  pub combine_comm :
      (a b : Range)
      → Fits a
      → Fits b
      → combine get_max not_found a b ≡ combine get_max not_found b a
  unfolding combine
  combine_comm a b fa fb = elim (Bool-cases (ltb b.location a.location)) [
    | inl swapped ↦
        let kept : ltb a.location b.location ≡ false = ground (arith, swapped) in
        rw (swapped, kept) refl
    | inr kept ↦ elim (Bool-cases (ltb a.location b.location)) [
      | inl swapped ↦ rw (kept, swapped) refl
      | inr also_kept ↦
          let (n, e, longer, covers, ends) =
            combine_ordered-touch a b fa fb (ground (arith, kept))
              (ground (arith, kept, also_kept)) in
          let (n', e', longer', covers', ends') =
            combine_ordered-touch b a fb fa (ground (arith, also_kept))
              (ground (arith, kept, also_kept)) in
          let same : a.location ≡ b.location = ground (arith, kept, also_kept) in
          let as_long : n ≡ n' =
            ground (arith, same, longer, covers, ends, longer', covers', ends') in
          rw (kept, also_kept, e, e') (ap (make a.location) as_long ∙ ap (λ l. make l n') same)
    ]
  ]
