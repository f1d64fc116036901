-- ===== src/Enum.antt =====
-- src/mulle-objc-enum.m: names of the values of an enum, or of the flags of an options type, by a
-- table. A `char *` is the list of its bytes, without the terminating zero, or `none` for NULL.
-- The machine is little endian.
pub mod Names
pub mod Flags
pub mod Prefix
mod Examples
use Prim.Native.Nat.{bit_or}
use mulle_obj_c.Base.{
  ℕ, zero, suc, ◌+◌, ◌-◌, ◌*◌, ◌%◌, ◌^◌, Bool, true, false, ◌&&◌, Option, none, some, List, [], ◌∷◌,
  ltb, leb, ◌==◌, if◌then◌else◌, length, drop,
}

abbrev pub Text : Type 0
Text = List ℕ

-- A line of the table: the name, and what stands in memory at `offset`, up to eight bytes.
pub record Entry : Type 0 where
  pub name : Option Text
  pub value : ℕ

pub data Result (A : Type 0) : Type 0 where
  ok : A → Result A
  aborted : Result A
  out_of_fuel : Result A

-- `switch( item_len)`; `none` is `default : abort();`
unfoldable pub read : (item_len : ℕ) → Entry → Option ℕ
read item_len e =
    if item_len == 1
    then some (e.value % 2 ^ 8)
    else if item_len == 2
    then some (e.value % 2 ^ 16)
    else if item_len == 4
    then some (e.value % 2 ^ 32)
    else if item_len == 8
    then some (e.value % 2 ^ 64)
    else none

-- `! strncmp( key, s, strlen( key))`
unfoldable pub has_prefix : (key s : Text) → Bool
has_prefix [] s = true
has_prefix (k ∷ key) [] = false
has_prefix (k ∷ key) (c ∷ s) = (k == c) && has_prefix key s

abbrev pub is_digit : ℕ → Bool
is_digit c = leb b'0' c && leb c b'9'

-- `s && isdigit( *s)`
abbrev pub starts_with_digit : Option Text → Bool
starts_with_digit none = false
starts_with_digit (some []) = false
starts_with_digit (some (c ∷ s)) = is_digit c

-- `atoll` of a text that starts with a digit; C leaves open what it gives beyond a `long long`
unfoldable pub atoll : Text → ℕ → ℕ
atoll [] n = n
atoll (c ∷ s) n = elim (is_digit c) [ true ↦ atoll s (n * 10 + (c - b'0')) | false ↦ n ]

abbrev pub atoll_of : Option Text → ℕ
atoll_of none = 0
atoll_of (some s) = atoll s 0

-- What stands for the result of a strict parser: NO gives 0.
abbrev pub value_or_zero : Result (Option ℕ) → Result ℕ
value_or_zero (ok none) = ok 0
value_or_zero (ok (some v)) = ok v
value_or_zero aborted = aborted
value_or_zero out_of_fuel = out_of_fuel

-- `if( *s == '|' && s[ 1] != 0) ++s;`
unfoldable pub skip_bar : Text → Text
skip_bar [] = []
skip_bar (c ∷ []) = c ∷ []
skip_bar (c ∷ d ∷ s) = if c == b'|' then d ∷ s else c ∷ d ∷ s

module _ (item_len : ℕ) where
  -- `_NS_table_search_UTF8String`
  unfoldable pub table_search : List Entry → (bit : ℕ) → Result (Option Text)
  table_search [] bit = ok none
  table_search (e ∷ table) bit = elim (read item_len e) [
    | none ↦ aborted
    | some value ↦ if bit == value then ok e.name else table_search table bit
  ]

  -- The loop over the table of the strict parsers: the line whose name begins `s`, with its
  -- value and what follows the name. A line without a name ends it.
  unfoldable pub match_name : List Entry → Text → Result (Option (ℕ × Text))
  match_name [] s = ok none
  match_name (e ∷ table) s = elim e.name [
    | none ↦ ok none
    | some key ↦
        if has_prefix key s
        then elim (read item_len e) [
          | none ↦ aborted
          | some value ↦ ok (some (value, drop (length key) s))
        ]
        else match_name table s
  ]

  -- `_NS_ENUM_ParseUTF8String_strict`; `none` is NO
  unfoldable pub enum_parse_strict : List Entry → Option Text → Result (Option ℕ)
  enum_parse_strict table none = ok none
  enum_parse_strict table (some s) = elim (match_name table s) [
    | ok found ↦ elim found [ none ↦ ok none | some (value, rest) ↦ ok (some value) ]
    | aborted ↦ aborted
    | out_of_fuel ↦ out_of_fuel
  ]

  -- `_NS_ENUM_ParseUTF8String`
  unfoldable pub enum_parse : List Entry → Option Text → Result ℕ
  enum_parse table s =
      if starts_with_digit s then ok (atoll_of s) else value_or_zero (enum_parse_strict table s)

  -- `while( *s)` of `_NS_OPTIONS_ParseUTF8String_strict`
  unfoldable pub options_loop : (fuel : ℕ) → List Entry → Text → ℕ → Result (Option ℕ)
  options_loop zero table s value = out_of_fuel
  options_loop (suc fuel) table [] value = ok (some value)
  options_loop (suc fuel) table (c ∷ s) value = elim (match_name table (c ∷ s)) [
    | ok found ↦ elim found [
      | none ↦ ok none
      | some (bits, rest) ↦ options_loop fuel table (skip_bar rest) (bit_or value bits)
    ]
    | aborted ↦ aborted
    | out_of_fuel ↦ out_of_fuel
  ]

  -- `_NS_OPTIONS_ParseUTF8String_strict`
  unfoldable pub options_parse_strict : (fuel : ℕ) → List Entry → Option Text → Result (Option ℕ)
  options_parse_strict fuel table none = ok none
  options_parse_strict fuel table (some s) = options_loop fuel table s 0

  -- `_NS_OPTIONS_ParseUTF8String`
  unfoldable pub options_parse : (fuel : ℕ) → List Entry → Option Text → Result ℕ
  options_parse fuel table s =
      if starts_with_digit s
      then ok (atoll_of s)
      else value_or_zero (options_parse_strict fuel table s)

  -- `_NS_ENUM_UTF8String`, where `print_hex` is `MulleObjC_asprintf( "0x%llx", value)`
  unfoldable pub enum_text : (print_hex : ℕ → Text) → List Entry → (value : ℕ) → Result Text
  enum_text print_hex table value = elim (table_search table value) [
    | ok s ↦ elim s [
      | some name ↦ ok name
      | none ↦ ok (if value == 0 then b'0' ∷ [] else print_hex value)
    ]
    | aborted ↦ aborted
    | out_of_fuel ↦ out_of_fuel
  ]

-- `s[ j]`, where the terminating zero follows the bytes
unfoldable pub char_at : Text → ℕ → ℕ
char_at [] j = 0
char_at (c ∷ s) zero = c
char_at (c ∷ s) (suc j) = char_at s j

-- `for( i = 1; i < len; i++)`: does every other name have `c` at `j`?
unfoldable pub all_have : List Text → (j c : ℕ) → Bool
all_have [] j c = true
all_have (s ∷ names) j c =
    if char_at s j == 0 then false else if char_at s j == c then all_have names j c else false

-- `for( j = 0; j < max_len; j++)`, over the bytes of `first` from `j` on
unfoldable pub prefix_loop : (rest : Text) → List Text → (j : ℕ) → ℕ
prefix_loop [] names j = j
prefix_loop (c ∷ rest) names j = if all_have names j c then prefix_loop rest names (suc j) else j

-- `_NS_OPTIONS_prefix_length`
unfoldable pub prefix_length : List Text → ℕ
prefix_length [] = 0
prefix_length (first ∷ names) = prefix_loop first names 0
