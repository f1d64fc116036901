-- ===== src/Call/Examples.antt =====
-- A runtime with an object that has one accessor pair, and the theorems at it.
use mulle_obj_c.Base.{ℕ, ◌≡◌, refl, Option, none, some, [], ◌∷◌, ◌==◌, if◌then◌else◌, arith}
use mulle_obj_c.Range.{make}
use mulle_obj_c.Call.ImpArray.{ImpArray}
use mulle_obj_c.Call.Abi.{Block, Parameter, word, block, Returned, CallRuntime}
use mulle_obj_c.Call.Small.{
  object_get_bool, object_get_char, object_get_int, object_get_short, object_get_unsigned_char,
  object_get_unsigned_int, object_get_unsigned_short, object_set_bool, object_set_char,
  object_set_int, object_set_short, object_set_unsigned_char, object_set_unsigned_int,
  object_set_unsigned_short,
}
use mulle_obj_c.Call.Large.{
  object_get_double, object_get_float, object_get_long, object_get_long_double,
  object_get_long_long, object_get_ns_integer, object_get_range, object_get_unsigned_long,
  object_get_unsigned_long_long, object_set_double, object_set_float, object_set_long,
  object_set_long_double, object_set_long_long, object_set_ns_integer, object_set_range,
  object_set_unsigned_long, object_set_unsigned_long_long,
}
use mulle_obj_c.Call.RoundTrip.{Accessors, get-set}

-- The world is what was stored last, and the selector 8 reads it. Implementations have their
-- selector's number.
abbrev stored_word : Option Parameter → ℕ
stored_word none = 0
stored_word (some (word x)) = x
stored_word (some (block b)) = 0

abbrev stored_block : Option Parameter → Block
stored_block none = []
stored_block (some (word x)) = []
stored_block (some (block b)) = b

abbrev invoke : Option Parameter → (imp obj sel : ℕ) → Parameter → Returned (Option Parameter)
invoke w imp obj sel p =
    if imp == 8
    then record { value = stored_word w; block = stored_block w; world = w }
    else record { value = 0; block = []; world = some p }

abbrev rt : CallRuntime
rt = record {
  World = Option Parameter;
  object_call = λ w obj sel p. invoke w sel obj sel p;
  objects_call = λ w objects sel p. w;
  implementation_invoke = invoke;
  stack = 77 ∷ 78 ∷ [];
  to_double = λ x. x;
}

abbrev lookup : Option Parameter → (obj sel : ℕ) → ℕ
lookup w obj sel = sel

accessors : Accessors rt 1 7 8
accessors = record { word_stored = λ w x h. refl; block_stored = λ w b c. refl }

minus_one : object_set_char rt none 1 7 255 ≡ some (word 18446744073709551615)
unfolding object_set_char
minus_one = refl

get-set_example :
    (((object_get_bool rt (object_set_bool rt none 1 7 4294967295) 1 8).0 ≡ 4294967295)
      × ((object_get_char rt (object_set_char rt none 1 7 200) 1 8).0 ≡ 200)
      × ((object_get_unsigned_char rt (object_set_unsigned_char rt none 1 7 200) 1 8).0 ≡ 200)
      × ((object_get_short rt (object_set_short rt none 1 7 40000) 1 8).0 ≡ 40000)
      × ((object_get_unsigned_short rt (object_set_unsigned_short rt none 1 7 40000) 1 8).0 ≡ 40000)
      × ((object_get_int rt (object_set_int rt none 1 7 4294967295) 1 8).0 ≡ 4294967295)
      × ((object_get_unsigned_int rt (object_set_unsigned_int rt none 1 7 4294967295) 1 8).0
          ≡ 4294967295))
    × (((object_get_long rt (object_set_long rt none 1 7 18446744073709551615) 1 8).0
          ≡ 18446744073709551615)
        × ((object_get_unsigned_long rt
              (object_set_unsigned_long rt none 1 7 18446744073709551615)
              1
              8).0
            ≡ 18446744073709551615)
        × ((object_get_long_long rt (object_set_long_long rt none 1 7 18446744073709551615) 1 8).0
            ≡ 18446744073709551615)
        × ((object_get_unsigned_long_long rt
              (object_set_unsigned_long_long rt none 1 7 18446744073709551615)
              1
              8).0
            ≡ 18446744073709551615)
        × ((object_get_ns_integer rt (object_set_ns_integer rt none 1 7 18446744073709551615) 1 8).0
            ≡ 18446744073709551615)
        × ((object_get_float rt (object_set_float rt none 1 7 5) 1 8).0 ≡ 5)
        × ((object_get_double rt (object_set_double rt none 1 7 5) 1 8).0 ≡ 5)
        × ((object_get_long_double rt (object_set_long_double rt none 1 7 5) 1 8).0
            ≡ rt.to_double 5)
        × ((object_get_range rt (object_set_range rt none 1 7 (make 2 3)) 1 8).0 ≡ make 2 3))
get-set_example =
    get-set rt 1 7 8 accessors none 200 40000 4294967295 18446744073709551615 5 (make 2 3)
      (omega arith) (omega arith) (omega arith) (omega arith)

abbrev two_imps : ImpArray
two_imps = record { imps = 7 ∷ 8 ∷ []; selector = 7 }
