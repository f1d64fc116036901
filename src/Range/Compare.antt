-- ===== src/Range/Compare.antt =====
-- Comparing ranges orders them by location and then by length.
use mulle_obj_c.Base.{◌<◌, ◌≡◌, ◌↔◌, ◌⊎◌, true, arith}
use mulle_obj_c.Range.{
  Range, equal_to_range, range_compare, ordered_ascending, ordered_same, ordered_descending,
}

abbrev pub Before : Range → Range → Type 0
Before a b = (a.location < b.location) ⊎ ((a.location ≡ b.location) × (a.length < b.length))

-- Ranges compare as the same just if `NSRangeEqualToRange` holds, which is to say that they have
-- the same location and length, as ascending just if the first has the smaller location, or the
-- same one and the smaller length, and as descending just if the second has.
pub range_compare_iff :
    (a b : Range)
    → ((range_compare a b ≡ ordered_same) ↔ (equal_to_range a b ≡ true))
      × ((equal_to_range a b ≡ true) ↔ ((a.location ≡ b.location) × (a.length ≡ b.length)))
      × ((range_compare a b ≡ ordered_ascending) ↔ Before a b)
      × ((range_compare a b ≡ ordered_descending) ↔ Before b a)
unfolding range_compare equal_to_range
range_compare_iff a b = (ground arith, ground arith, ground arith, ground arith)
