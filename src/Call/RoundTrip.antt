-- ===== src/Call/RoundTrip.antt =====
-- What an accessor pair stores comes back through the accessor shortcuts.
use mulle_obj_c.Base.{ℕ, ◌%◌, ◌≤◌, ◌<◌, ◌≡◌, ap, ◌∙◌, [], ◌∷◌, arith}
use mulle_obj_c.Range.{Range, make}
use mulle_obj_c.Call.Abi.{
  Block, word, block, cell, CallRuntime, sign_extend, char_mod, short_mod, int_mod, pointer_mod,
}
use mulle_obj_c.Call.Small.{
  object_set_bool, object_get_bool, object_set_char, object_get_char, object_set_unsigned_char,
  object_get_unsigned_char, object_set_short, object_get_short, object_set_unsigned_short,
  object_get_unsigned_short, object_set_int, object_get_int, object_set_unsigned_int,
  object_get_unsigned_int,
}
use mulle_obj_c.Call.Large.{
  object_set_long, object_get_long, object_set_unsigned_long, object_get_unsigned_long,
  object_set_long_long, object_get_long_long, object_set_unsigned_long_long,
  object_get_unsigned_long_long, object_set_ns_integer, object_get_ns_integer, object_set_float,
  object_get_float, object_set_double, object_get_double, object_set_long_double,
  object_get_long_double, object_set_range, object_get_range,
}

-- The object has a method for `set` that stores its parameter, and one for `get` that returns what is
-- stored, a word as its result and a block in its parameter's place.
pub record Accessors (rt : CallRuntime) (obj set get : ℕ) : Type 0 where
  pub word_stored :
      (w : rt.World) (x : ℕ)
      → x < pointer_mod
      → (rt.object_call (rt.object_call w obj set (word x)).world obj get (word obj)).value ≡ x
  pub block_stored :
      (w : rt.World) (b c : Block)
      → (rt.object_call (rt.object_call w obj set (block b)).world obj get (block c)).block ≡ b

sign_extend-lt : (m x : ℕ) → x < m → m ≤ pointer_mod → sign_extend m x < pointer_mod
sign_extend-lt m x h p = ground arith

module _ (rt : CallRuntime) (obj set get : ℕ) (accessors : Accessors rt obj set get)
    (w : rt.World) where
  -- A value that is cast to a word and back
  stored_as :
      (m x y : ℕ)
      → y < pointer_mod
      → y % m ≡ x
      → (rt.object_call (rt.object_call w obj set (word y)).world obj get (word obj)).value % m ≡ x
  stored_as m x y bound cast = ap (λ v. v % m) (accessors.word_stored w y bound) ∙ cast

  get-set_small :
      (c s i : ℕ)
      → c < char_mod
      → s < short_mod
      → i < int_mod
      → ((object_get_bool rt (object_set_bool rt w obj set i) obj get).0 ≡ i)
        × ((object_get_char rt (object_set_char rt w obj set c) obj get).0 ≡ c)
        × ((object_get_unsigned_char rt (object_set_unsigned_char rt w obj set c) obj get).0 ≡ c)
        × ((object_get_short rt (object_set_short rt w obj set s) obj get).0 ≡ s)
        × ((object_get_unsigned_short rt (object_set_unsigned_short rt w obj set s) obj get).0 ≡ s)
        × ((object_get_int rt (object_set_int rt w obj set i) obj get).0 ≡ i)
        × ((object_get_unsigned_int rt (object_set_unsigned_int rt w obj set i) obj get).0 ≡ i)
  unfolding object_set_bool object_get_bool object_set_char object_get_char object_set_unsigned_char
      object_get_unsigned_char object_set_short object_get_short object_set_unsigned_short
      object_get_unsigned_short object_set_int object_get_int object_set_unsigned_int
      object_get_unsigned_int
  get-set_small c s i hc hs hi = (
    stored_as int_mod i (sign_extend int_mod i) (ground arith) (ground arith),
    stored_as char_mod c (sign_extend char_mod c) (ground arith) (ground arith),
    stored_as char_mod c c (omega arith) (omega arith),
    stored_as short_mod s (sign_extend short_mod s) (ground arith) (ground arith),
    stored_as short_mod s s (omega arith) (omega arith),
    stored_as int_mod i (sign_extend int_mod i) (ground arith) (ground arith),
    stored_as int_mod i i (omega arith) (omega arith),
  )

  get-set_large :
      (l f : ℕ) (r : Range)
      → l < pointer_mod
      → ((object_get_long rt (object_set_long rt w obj set l) obj get).0 ≡ l)
        × ((object_get_unsigned_long rt (object_set_unsigned_long rt w obj set l) obj get).0 ≡ l)
        × ((object_get_long_long rt (object_set_long_long rt w obj set l) obj get).0 ≡ l)
        × ((object_get_unsigned_long_long rt
              (object_set_unsigned_long_long rt w obj set l)
              obj
              get).0
            ≡ l)
        × ((object_get_ns_integer rt (object_set_ns_integer rt w obj set l) obj get).0 ≡ l)
        × ((object_get_float rt (object_set_float rt w obj set f) obj get).0 ≡ f)
        × ((object_get_double rt (object_set_double rt w obj set f) obj get).0 ≡ f)
        × ((object_get_long_double rt (object_set_long_double rt w obj set f) obj get).0
            ≡ rt.to_double f)
        × ((object_get_range rt (object_set_range rt w obj set r) obj get).0 ≡ r)
  unfolding object_set_long object_get_long object_set_unsigned_long object_get_unsigned_long
      object_set_long_long object_get_long_long object_set_unsigned_long_long
      object_get_unsigned_long_long object_set_ns_integer object_get_ns_integer object_set_float
      object_get_float object_set_double object_get_double object_set_long_double
      object_get_long_double object_set_range object_get_range
  get-set_large l f r hl = (
    accessors.word_stored w l hl,
    accessors.word_stored w l hl,
    accessors.word_stored w l hl,
    accessors.word_stored w l hl,
    accessors.word_stored w l hl,
    ap (λ b. cell b 0) (accessors.block_stored w (f ∷ []) rt.stack),
    ap (λ b. cell b 0) (accessors.block_stored w (f ∷ []) rt.stack),
    ap (λ b. rt.to_double (cell b 0)) (accessors.block_stored w (f ∷ []) rt.stack),
    ap (λ b. make (cell b 0) (cell b 1))
        (accessors.block_stored w (r.location ∷ r.length ∷ []) rt.stack),
  )

  -- Through an accessor pair that stores its parameter, every getter gives the value that the setter
  -- of its type was given, as far as the value is one of the type: of 8, 16, 32 or 64 bits, signed or
  -- not, a float or double, and a range. A long double comes back as a double.
  pub get-set :
      (c s i l f : ℕ) (r : Range)
      → c < char_mod
      → s < short_mod
      → i < int_mod
      → l < pointer_mod
      → (((object_get_bool rt (object_set_bool rt w obj set i) obj get).0 ≡ i)
          × ((object_get_char rt (object_set_char rt w obj set c) obj get).0 ≡ c)
          × ((object_get_unsigned_char rt (object_set_unsigned_char rt w obj set c) obj get).0 ≡ c)
          × ((object_get_short rt (object_set_short rt w obj set s) obj get).0 ≡ s)
          × ((object_get_unsigned_short rt (object_set_unsigned_short rt w obj set s) obj get).0
              ≡ s)
          × ((object_get_int rt (object_set_int rt w obj set i) obj get).0 ≡ i)
          × ((object_get_unsigned_int rt (object_set_unsigned_int rt w obj set i) obj get).0 ≡ i))
        × (((object_get_long rt (object_set_long rt w obj set l) obj get).0 ≡ l)
            × ((object_get_unsigned_long rt (object_set_unsigned_long rt w obj set l) obj get).0
                ≡ l)
            × ((object_get_long_long rt (object_set_long_long rt w obj set l) obj get).0 ≡ l)
            × ((object_get_unsigned_long_long rt
                  (object_set_unsigned_long_long rt w obj set l)
                  obj
                  get).0
                ≡ l)
            × ((object_get_ns_integer rt (object_set_ns_integer rt w obj set l) obj get).0 ≡ l)
            × ((object_get_float rt (object_set_float rt w obj set f) obj get).0 ≡ f)
            × ((object_get_double rt (object_set_double rt w obj set f) obj get).0 ≡ f)
            × ((object_get_long_double rt (object_set_long_double rt w obj set f) obj get).0
                ≡ rt.to_double f)
            × ((object_get_range rt (object_set_range rt w obj set r) obj get).0 ≡ r))
  get-set c s i l f r hc hs hi hl = (get-set_small c s i hc hs hi, get-set_large l f r hl)
