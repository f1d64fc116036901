-- ===== src/Range.antt =====
-- src/struct/NSRange.h and NSRange.c: ranges of locations, as far as MulleObjC computes on them
-- itself. `mulle_range_get_max` and the location of "not found" belong to mulle-c.
pub mod Combine
pub mod Compare
pub mod Walk
pub mod Validate
pub mod Library
pub mod Hash
mod Examples
use mulle_obj_c.Base.{
  ℕ, zero, suc, ◌+◌, ◌-◌, ◌%◌, ◌^◌, Bool, true, false, not, ◌&&◌, List, [], ◌∷◌, ltb, ◌==◌,
  if◌then◌else◌,
}

-- NSUInteger counts modulo this.
abbrev pub ns_uinteger : ℕ
ns_uinteger = 2 ^ 64

abbrev pub minus : ℕ → ℕ → ℕ
minus a b = (a + ns_uinteger - b) % ns_uinteger

-- `struct mulle_range`
pub record Range : Type 0 where
  pub location : ℕ
  pub length : ℕ

pub data ComparisonResult : Type 0 where
  ordered_ascending : ComparisonResult
  ordered_same : ComparisonResult
  ordered_descending : ComparisonResult

-- `NSRangeMake`
abbrev pub make : (location length : ℕ) → Range
make location length = record { location = location; length = length }

-- `MulleMakeFullRange`
abbrev pub make_full : Range
make_full = make 0 (ns_uinteger - 1)

-- `NSRangeEqualToRange`
unfoldable pub equal_to_range : Range → Range → Bool
equal_to_range range1 range2 =
    (range1.location == range2.location) && (range1.length == range2.length)

-- `MulleObjCRangeCompare`
unfoldable pub range_compare : Range → Range → ComparisonResult
range_compare a b =
    if not (a.location == b.location)
    then if ltb a.location b.location then ordered_ascending else ordered_descending
    else if not (a.length == b.length)
    then if ltb a.length b.length then ordered_ascending else ordered_descending
    else ordered_same

module _ (get_max : Range → ℕ) (not_found : ℕ) where
  -- `MulleObjCRangeCombine` behind the swap: `a` is not behind `b`.
  unfoldable pub combine_ordered : Range → Range → Range
  combine_ordered a b =
      if ltb (get_max a) b.location
      then make not_found 0
      else if ltb (get_max a) (get_max b)
      then make a.location (minus (get_max b) a.location)
      else make a.location (minus (get_max a) a.location)

  -- `MulleObjCRangeCombine`
  unfoldable pub combine : Range → Range → Range
  combine a_range b_range =
      if ltb b_range.location a_range.location
      then combine_ordered b_range a_range
      else combine_ordered a_range b_range

  -- `MulleObjCRangeIsCombinableRange`
  unfoldable pub is_combinable_range : Range → Range → Bool
  is_combinable_range a b = not ((combine a b).length == 0)

-- The loop of `MulleObjCRangeFor`, with the locations it runs through as the result.
unfoldable pub for_loop : (fuel location end : ℕ) → List ℕ
for_loop zero location end = []
for_loop (suc fuel) location end =
    if ltb location end then location ∷ for_loop fuel ((location + 1) % ns_uinteger) end else []

-- `MulleObjCRangeFor`
unfoldable pub range_for : (fuel : ℕ) → Range → List ℕ
range_for fuel range = for_loop fuel range.location ((range.location + range.length) % ns_uinteger)
