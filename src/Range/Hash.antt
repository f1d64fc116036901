-- ===== src/Range/Hash.antt =====
-- src/function/MulleObjCHashFunctions.h: hashing the last bytes of a buffer. The hash function is
-- that of mulle-data.
use mulle_obj_c.Base.{
  ℕ, ◌+◌, ◌-◌, ◌≤◌, ◌≡◌, ◌⊎◌, refl, sym, ap, ◌∙◌, Option, none, some, List, [], ◌∷◌, ◌++◌, arith,
  ltb, if◌then◌else◌, inl, inr, length, take, drop, Bool-cases, length-append,
}
use mulle_obj_c.Range.{Range, ns_uinteger, make}

-- `MulleObjCGetHashBytesRange`
unfoldable pub get_hash_bytes_range : (length : ℕ) → Range
get_hash_bytes_range length = if ltb 64 length then make (length - 64) 64 else make 0 length

module _ (data_hash : List ℕ → ℕ) where
  -- `MulleObjCBytesHash`; a buffer is the bytes from its address on, `none` for NULL
  unfoldable pub bytes_hash : (buf : Option (List ℕ)) → (length : ℕ) → ℕ
  bytes_hash none length = ns_uinteger - 1
  bytes_hash (some bytes) length = data_hash (take length bytes)

  -- `MulleObjCBytesHashRange`
  unfoldable pub bytes_hash_range : (buf : Option (List ℕ)) → Range → ℕ
  bytes_hash_range none range = ns_uinteger - 1
  bytes_hash_range (some bytes) range = data_hash (take range.length (drop range.location bytes))

  -- `MulleObjCBytesPartialHash`
  unfoldable pub bytes_partial_hash : (buf : Option (List ℕ)) → (length : ℕ) → ℕ
  bytes_partial_hash buf length = bytes_hash_range buf (get_hash_bytes_range length)

take-length : (xs : List ℕ) → take (length xs) xs ≡ xs
take-length [] = refl
take-length (x ∷ xs) = ap (λ t. x ∷ t) (take-length xs)

drop-append : (xs ys : List ℕ) → drop (length xs) (xs ++ ys) ≡ ys
drop-append [] ys = refl
drop-append (x ∷ xs) ys = drop-append xs ys

get_hash_bytes_range-append :
    (m k : ℕ) → k ≤ 64 → (k ≡ 64) ⊎ (m ≡ 0) → get_hash_bytes_range (m + k) ≡ make m k
unfolding get_hash_bytes_range
get_hash_bytes_range-append m k most h = elim (Bool-cases (ltb 64 (m + k))) [
  | inl long ↦
      let full : k ≡ 64 = ground (arith, long, h, most) in
      let start : m + k - 64 ≡ m = omega (arith, full) in rw (long, start) (ap (make m) (sym full))
  | inr short ↦
      let none_before : m ≡ 0 = ground (arith, short, h) in
      rw (short) (rw (none_before) (ap (make 0) (omega arith)))
]

-- The partial hash of a buffer of more than 64 bytes is the hash of its last 64 bytes, and that of a
-- shorter one is its hash.
pub bytes_partial_hash_lem :
    (data_hash : List ℕ → ℕ) (earlier last : List ℕ)
    → length last ≤ 64
    → (length last ≡ 64) ⊎ (earlier ≡ [])
    → bytes_partial_hash data_hash (some (earlier ++ last)) (length (earlier ++ last))
      ≡ bytes_hash data_hash (some last) (length last)
unfolding bytes_partial_hash bytes_hash bytes_hash_range get_hash_bytes_range
bytes_partial_hash_lem data_hash earlier last most h =
    let first : (length last ≡ 64) ⊎ (length earlier ≡ 0) = elim h [
      | inl e ↦ inl e
      | inr e ↦ inr (ap length e)
    ] in
    let shape : get_hash_bytes_range (length (earlier ++ last))
        ≡ make (length earlier) (length last) =
      ap get_hash_bytes_range (length-append earlier last)
      ∙ get_hash_bytes_range-append (length earlier) (length last) most first in
    rw (shape, drop-append earlier last) refl
