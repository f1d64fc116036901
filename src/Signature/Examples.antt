-- ===== src/Signature/Examples.antt =====
-- The signature of a method with one argument, and the theorems at it.
use mulle_obj_c.Base.{
  ℕ, ◌+◌, ◌*◌, ◌/◌, ◌≤◌, ◌≡◌, refl, ◌==◌, List, [], ◌∷◌, length, none, some, arith,
}
use mulle_obj_c.Signature.{
  Types, MethodSignature, filled_signature, method_signature_create, signature_with_objc_types,
  get_argument_type_at_index, signature_type_info_at_index, hash_loop, hash, is_equal,
}
use mulle_obj_c.Signature.Layout.{method_signature_create-fits}
use mulle_obj_c.Signature.Equal.{Alike, is_equal-Alike}

-- One byte for each type, each of eight bytes in the frame
abbrev bytes : Types
bytes = record {
  count_typeinfos = λ types. length types;
  fill_arginfos =
      λ types count i. record { type_offset = i; natural_size = 8; invocation_offset = 8 * i };
  sizeof_union = λ size. (size + 39) / 40 * 40;
  metaabi_types = λ types. 0;
  is_variadic = λ bits. bits == 1;
  sizeof_typeinfo = 16;
}

-- v@:iq
abbrev types : List ℕ
types = 118 ∷ 64 ∷ 58 ∷ 105 ∷ 113 ∷ []

abbrev signature : MethodSignature
signature = record {
  count = 5;
  extra = 38;
  bits = 0;
  types = types;
  types_at = 32;
  infos = λ i. record { type_offset = i; natural_size = 8; invocation_offset = 8 * i };
  invocation_size = 56;
  allocated = 38;
}

created : method_signature_create bytes (some types) 0 ≡ some signature
unfolding method_signature_create filled_signature
created = refl

short : signature_with_objc_types bytes (some (118 ∷ 64 ∷ [])) ≡ none
unfolding signature_with_objc_types method_signature_create
short = refl

last_argument : get_argument_type_at_index signature 3 ≡ some 4
unfolding get_argument_type_at_index
last_argument = refl

last_info : signature_type_info_at_index signature 5 ≡ none
unfolding signature_type_info_at_index
last_info = refl

hashed : hash (record signature { types = 97 ∷ [] }) ≡ 177670
unfolding hash hash_loop
hashed = refl

method_signature_create-fits_example :
    (32 + 5 + 1 ≡ 38)
    × ((5 * 16 ≤ 3 * 16 + 32) × ((3 ≤ 5) × ((signature.extra ≡ signature.allocated) × (1 ≤ 38))))
method_signature_create-fits_example =
    method_signature_create-fits bytes types 0 signature created (omega arith) (omega arith)

is_equal-Alike_example : Alike signature signature
unfolding is_equal
is_equal-Alike_example =
    is_equal-Alike bytes types types 0 0 signature signature 1
      (record { address = 2; signature = some signature }) created created refl (λ e. refl) refl
