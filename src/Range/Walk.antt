-- ===== src/Range/Walk.antt =====
-- The locations that a loop over a range runs through.
use mulle_obj_c.Base.{
  ℕ, zero, suc, ◌+◌, ◌%◌, ◌<◌, ◌≡◌, refl, ap, true, false, List, [], ◌∷◌, arith, ltb,
}
use mulle_obj_c.Range.{Range, ns_uinteger, for_loop, range_for}
use mulle_obj_c.Range.Combine.{Fits}

-- `n` locations in order, from one on.
abbrev pub locations : (location n : ℕ) → List ℕ
locations location zero = []
locations location (suc n) = location ∷ locations (suc location) n

for_loop-locations :
    (fuel location n : ℕ)
    → location + n < ns_uinteger
    → n < fuel
    → for_loop fuel location (location + n) ≡ locations location n
unfolding for_loop
for_loop-locations zero location n fits enough = absurd (omega (arith, enough))
for_loop-locations (suc fuel) location zero fits enough =
    let stop : ltb location (location + 0) ≡ false = ground arith in rw (stop) refl
for_loop-locations (suc fuel) location (suc n) fits enough =
    let go : ltb location (location + suc n) ≡ true = ground arith in
    let step : (location + 1) % ns_uinteger ≡ suc location = omega (arith, fits) in
    let shift : location + suc n ≡ suc location + n = omega arith in
    rw (go, step, shift)
      (ap (location ∷◌)
        (for_loop-locations fuel (suc location) n (omega (arith, fits)) (omega (arith, enough))))

-- A loop over a range whose end fits an NSUInteger runs once through each location of it, in
-- order, and ends.
pub range_for-locations :
    (fuel : ℕ) (r : Range)
    → Fits r
    → r.length < fuel
    → range_for fuel r ≡ locations r.location r.length
unfolding range_for
range_for-locations fuel r fits enough =
    let whole : (r.location + r.length) % ns_uinteger ≡ r.location + r.length =
      omega (arith, fits) in
    rw (whole) (for_loop-locations fuel r.location r.length fits enough)
