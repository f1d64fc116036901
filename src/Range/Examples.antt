-- ===== src/Range/Examples.antt =====
-- Ranges [0,2], [2,3] and [9,1], and the theorems at them, with the sum of location and length as
-- `mulle_range_get_max`.
use mulle_obj_c.Base.{ℕ, ◌+◌, ◌<◌, ◌≡◌, ◌↔◌, refl, [], ◌∷◌, arith, ◌%◌, ◌≤◌, none, some, List, ◌-◌}
use mulle_obj_c.Range.{Range, ns_uinteger, make, combine_ordered, combine, for_loop, range_for}
use mulle_obj_c.Range.Combine.{Within}
use mulle_obj_c.Range.Validate.{
  validate_range_against_length, adjust_range_for_length, resolved, Fitting,
  validate_range_against_length_iff,
}

abbrev sum_max : Range → ℕ
sum_max r = r.location + r.length

abbrev not_found : ℕ
not_found = 9223372036854775807

abbrev low : Range
low = make 0 2

abbrev next : Range
next = make 2 3

abbrev far : Range
far = make 9 1

united : combine sum_max not_found next low ≡ make 0 5
unfolding combine combine_ordered
united = refl

gap : combine sum_max not_found low far ≡ make not_found 0
unfolding combine combine_ordered
gap = refl

next_locations : range_for 4 next ≡ 2 ∷ 3 ∷ 4 ∷ []
unfolding range_for for_loop
next_locations = refl

abbrev wrapped_max : Range → ℕ
wrapped_max r = (r.location + r.length) % ns_uinteger

too_long : validate_range_against_length wrapped_max far 9 ≡ none
unfolding validate_range_against_length
too_long = refl

rest_of_ten :
    validate_range_against_length wrapped_max (make 4 (ns_uinteger - 1)) 10 ≡ some (make 4 6)
unfolding validate_range_against_length
rest_of_ten = refl

validate_range_against_length_iff_example :
    ((validate_range_against_length wrapped_max next 7 ≡ some next)
      ↔ (Fitting next 7 × (next ≡ resolved next 7) × (next.location + next.length ≤ 7)))
    × (Within 3 (adjust_range_for_length wrapped_max next 7)
        ↔ (Fitting next 7 × Within 3 (resolved next 7) × (3 < 7)))
validate_range_against_length_iff_example =
    validate_range_against_length_iff wrapped_max (λ r. refl) next 7 next 3
      (omega arith, omega arith) (omega arith)

abbrev last_bytes : List ℕ
last_bytes = 104 ∷ 105 ∷ []

abbrev head_hash : List ℕ → ℕ
head_hash [] = 0
head_hash (b ∷ bytes) = b
