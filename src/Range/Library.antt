-- ===== src/Range/Library.antt =====
-- src/struct/NSRange.h: the functions that hand over to `mulle_range_...` of mulle-c, and the older
-- names.
use mulle_obj_c.Base.{ℕ, Bool, true, not, ◌≡◌, ◌↔◌, ◌==◌, arith}
use mulle_obj_c.Range.{Range, make, equal_to_range}
use mulle_obj_c.Range.Combine.{Within}

-- mulle-c
pub record RangeLibrary : Type 0 where
  pub get_max : Range → ℕ
  pub contains_location : Range → ℕ → Bool
  pub union : Range → Range → Range
  pub intersect : Range → Range → Range
  pub subtract : Range → Range → Range × Range
  pub insert : Range → Range → ℕ × (Range × Range)
  pub validate_against_length : Range → ℕ → Range
  pub is_valid : Range → Bool
  pub make_invalid : Range
  pub contains : (big small : Range) → Bool

-- `NSRangeGetLocation` and `NSRangeGetLength`
unfoldable pub get_location : Range → ℕ
get_location range = range.location

unfoldable pub get_length : Range → ℕ
get_length range = range.length

-- `NSMakeRange` and `NSEqualRanges`
unfoldable pub make_range : (location length : ℕ) → Range
make_range location length = make location length

unfoldable pub equal_ranges : Range → Range → Bool
equal_ranges range1 range2 = equal_to_range range1 range2

module _ (lib : RangeLibrary) where
  -- `NSRangeGetMax` and `NSMaxRange`
  unfoldable pub get_max : Range → ℕ
  get_max range = lib.get_max range

  unfoldable pub max_range : Range → ℕ
  max_range range = get_max range

  -- `NSRangeContainsLocation` and `NSLocationInRange`
  unfoldable pub contains_location : Range → (location : ℕ) → Bool
  contains_location range location = lib.contains_location range location

  unfoldable pub location_in_range : (location : ℕ) → Range → Bool
  location_in_range location range = contains_location range location

  -- `NSRangeUnion` and `NSUnionRange`
  unfoldable pub union : Range → Range → Range
  union range1 range2 = lib.union range1 range2

  unfoldable pub union_range : Range → Range → Range
  union_range range1 range2 = union range1 range2

  -- `NSRangeIntersect` and `NSIntersectionRange`
  unfoldable pub intersect : Range → Range → Range
  intersect range1 range2 = lib.intersect range1 range2

  unfoldable pub intersection_range : Range → Range → Range
  intersection_range range1 range2 = intersect range1 range2

  -- `MulleObjCRangeSubtract`, with what it writes to `result`
  unfoldable pub range_subtract : Range → Range → Range × Range
  range_subtract range1 range2 = lib.subtract range1 range2

  -- `MulleObjCRangeInsert`, likewise
  unfoldable pub range_insert : Range → Range → ℕ × (Range × Range)
  range_insert range1 range2 = lib.insert range1 range2

  -- `MulleObjCRangeValidateAgainstLength`, `MulleObjCRangeIsValid` and `MulleObjCMakeInvalidRange`
  unfoldable pub range_validate_against_length : Range → (length : ℕ) → Range
  range_validate_against_length range length = lib.validate_against_length range length

  unfoldable pub range_is_valid : Range → Bool
  range_is_valid range = lib.is_valid range

  unfoldable pub make_invalid_range : Range
  make_invalid_range = lib.make_invalid

  -- `MulleObjCRangeContainsRange`
  unfoldable pub range_contains_range : (big small : Range) → Bool
  range_contains_range big small = lib.contains big small

  -- `MulleObjCRangeIntersectsRange`
  unfoldable pub range_intersects_range : Range → Range → Bool
  range_intersects_range a b = not ((intersect a b).length == 0)

  -- Two ranges intersect just if a location is in both, where `mulle_range_intersect` gives a range of
  -- the locations that are in both.
  pub range_intersects_range_iff :
      (a b : Range)
      → ((i : ℕ) → Within i (lib.intersect a b) ↔ (Within i a × Within i b))
      → (range_intersects_range a b ≡ true) ↔ ((i : ℕ) × Within i a × Within i b)
  unfolding range_intersects_range intersect
  range_intersects_range_iff a b law = (
    (λ h.
        let i : ℕ = (lib.intersect a b).location in
        let both = (law i).0 (ground (arith, h)) in (i, both.0, both.1)),
    (λ (i, h, h'). let inside = (law i).1 (h, h') in ground (arith, inside)),
  )
