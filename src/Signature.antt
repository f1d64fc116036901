-- ===== src/Signature.antt =====
-- src/class/NSMethodSignature.m: making a method signature from a string of types, with what it
-- allocates, and what it answers.
pub mod Layout
pub mod Equal
mod Examples
use mulle_obj_c.Base.{
  ℕ, suc, ◌+◌, ◌-◌, ◌*◌, ◌%◌, ◌≤◌, ◌<◌, ◌≡◌, Bool, true, false, ◌==◌, ltb, leb, ◌&&◌, ◌||◌, List,
  [], ◌∷◌, length, Option, none, some, if◌then◌else◌,
}

-- mulle-objc-runtime: what it finds out about an argument or the return value
pub record TypeInfo : Type 0 where
  pub type_offset : ℕ
  pub natural_size : ℕ
  pub invocation_offset : ℕ

-- The parts of mulle-objc-runtime that a signature needs: the number of types in a string, the
-- arguments of it, a size rounded up for the arguments of a call, the bits that a string asks for,
-- and the size of a `TypeInfo`.
pub record Types : Type 0 where
  pub count_typeinfos : (types : List ℕ) → ℕ
  pub fill_arginfos : (types : List ℕ) → (count : ℕ) → (i : ℕ) → TypeInfo
  pub sizeof_union : ℕ → ℕ
  pub metaabi_types : (types : List ℕ) → ℕ
  pub is_variadic : (bits : ℕ) → Bool
  pub sizeof_typeinfo : ℕ

abbrev pub word32 : ℕ
word32 = 4294967296

abbrev pub word16 : ℕ
word16 = 65536

abbrev pub word64 : ℕ
word64 = 18446744073709551616

-- The object, with `allocated` for the bytes that it has behind the three infos of the struct, and
-- `types_at` for the place of its copy of the types in them. The infos lie in the struct and go on in
-- these bytes.
pub record MethodSignature : Type 0 where
  pub count : ℕ  -- uint16_t
  pub extra : ℕ  -- uint16_t
  pub bits : ℕ  -- uint32_t
  pub types : List ℕ
  pub types_at : ℕ
  pub infos : ℕ → TypeInfo
  pub invocation_size : ℕ  -- uint32_t
  pub allocated : ℕ

module _ (ty : Types) where
  -- `NSMethodSignatureCreate`, when there are enough types
  unfoldable pub filled_signature : (types : List ℕ) → (bits : ℕ) → MethodSignature
  filled_signature types bits =
      let count = ty.count_typeinfos types in
      let overflow = if ltb 3 count then ((count - 3) * ty.sizeof_typeinfo) % word64 else 0 in
      let extra = (overflow + (length types + 1)) % word64 in
      let infos = ty.fill_arginfos types (count % word16) in
      let info = infos (count % word16 - 1) in
      let frame_size =
        ty.sizeof_union (info.invocation_offset + info.natural_size) + (infos 0).natural_size + 8 in
      record {
        count = count % word16;
        extra = extra % word16;
        bits = bits % word32;
        types = types;
        types_at = overflow;
        infos = infos;
        invocation_size = if ty.is_variadic (bits % word32) then 0 else frame_size % word32;
        allocated = extra;
      }

  -- `NSMethodSignatureCreate`, where `none` is NULL
  unfoldable pub method_signature_create : Option (List ℕ) → (bits : ℕ) → Option MethodSignature
  method_signature_create none bits = none
  method_signature_create (some types) bits =
      if ltb (ty.count_typeinfos types) 3 then none else some (filled_signature types bits)

  -- `+signatureWithObjCTypes:`
  unfoldable pub signature_with_objc_types : Option (List ℕ) → Option MethodSignature
  signature_with_objc_types none = none
  signature_with_objc_types (some types) =
      method_signature_create (some types) (ty.metaabi_types types)

  unfoldable pub is_variadic : MethodSignature → Bool
  is_variadic self = ty.is_variadic self.bits

  unfoldable pub metaabi_frame_length : MethodSignature → ℕ
  metaabi_frame_length self =
      let info = self.infos (self.count - 1) in
      let rval_size = (self.infos 0).natural_size in
      let arg_size = info.invocation_offset + info.natural_size in
      ty.sizeof_union (if ltb arg_size rval_size then rval_size else arg_size)

unfoldable pub number_of_arguments : MethodSignature → ℕ
number_of_arguments self = self.count - 1

unfoldable pub frame_length : MethodSignature → ℕ
frame_length self =
    let info = self.infos (self.count - 1) in info.invocation_offset + info.natural_size

unfoldable pub method_return_length : MethodSignature → ℕ
method_return_length self = (self.infos 0).natural_size

unfoldable pub get_invocation_size : MethodSignature → ℕ
get_invocation_size self = self.invocation_size

-- An index that is refused raises, which is `none`.
unfoldable pub signature_type_info_at_index : MethodSignature → (i : ℕ) → Option TypeInfo
signature_type_info_at_index self i = if leb self.count i then none else some (self.infos i)

-- `-getArgumentTypeAtIndex:`, with the place in the string for the pointer. The index wraps.
unfoldable pub get_argument_type_at_index : MethodSignature → (i : ℕ) → Option ℕ
get_argument_type_at_index self i =
    let next = (i + 1) % word64 in
    if leb self.count next then none else some ((self.infos next).type_offset)

-- The loop of `-hash`. The string ends with the first 0.
unfoldable pub hash_loop : (hash : ℕ) → (types : List ℕ) → ℕ
hash_loop hash [] = hash
hash_loop hash (c ∷ s) = hash_loop (((hash * 32) % word64 + hash + c) % word64) s

unfoldable pub hash : MethodSignature → ℕ
unfolding hash_loop
hash self = hash_loop 5381 self.types

-- `strcmp` of the C library, whether it is 0
abbrev pub same_string : (a b : List ℕ) → Bool
same_string [] [] = true
same_string [] (y ∷ ys) = false
same_string (x ∷ xs) [] = false
same_string (x ∷ xs) (y ∷ ys) = (x == y) && same_string xs ys

-- An object that a signature is compared with: its address, and the signature if it is one
pub record Other : Type 0 where
  pub address : ℕ
  pub signature : Option MethodSignature

-- `-isEqual:`, with the address of the receiver
unfoldable pub is_equal : (address : ℕ) → MethodSignature → Other → Bool
is_equal address self other =
    if address == other.address
    then true
    else elim other.signature [ none ↦ false | some s ↦ same_string self.types s.types ]
